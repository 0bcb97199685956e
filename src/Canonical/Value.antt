-- ===== src/Canonical/Value.antt =====
-- The JavaScript values that `canonicalJson` tells apart. A finite number is held by the text that
-- `JSON.stringify` gives it, which is `0` for both zeros.
use dymaxion.Prelude.{Text, Bool}

mutual
  pub data Json : Type 0 where
    null : Json
    bool : Bool → Json
    str : Text → Json
    num : Text → Json
    not_finite : Json
    undefined : Json
    unsupported : Text → Json  -- a function, a symbol or a bigint, by its `typeof`
    foreign : Json  -- an object with a prototype of its own, such as a Date
    arr : Items → Json
    obj : Fields → Json

  pub data Items : Type 0 where
    nil : Items
    cons : Json → Items → Items

  pub data Fields : Type 0 where
    end : Fields
    field : Text → Json → Fields → Fields

pub data CanonicalError : Type 0 where
  number_not_finite not_plain_object : CanonicalError
  undefined_at : Text → CanonicalError
  type_not_allowed : Text → CanonicalError
