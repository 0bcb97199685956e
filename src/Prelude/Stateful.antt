-- ===== src/Prelude/Stateful.antt =====
-- An action reads and changes a state, and returns or throws. It has the operators of `do`, which
-- is why the parent does not pass this module's names on.
use mathlib.Core.Path.{◌≡◌, refl, ap}
use dymaxion.Prelude.Outcome.{Result, ok, err}

abbrev pub Stateful : Type 0 → Type 0 → Type 0 → Type 0
Stateful W E A = W → Result E A × W

module _ {W E A B : Type 0} where
  -- What comes after an action: nothing once it has thrown.
  abbrev pub continue : (A → Stateful W E B) → Result E A × W → Result E B × W
  continue next (err thrown, w) = (err thrown, w)
  continue next (ok value, w) = next value w

  infixl 5 ◌>>=◌
  abbrev pub ◌>>=◌ : Stateful W E A → (A → Stateful W E B) → Stateful W E B
  (action >>= next) w = continue next (action w)

module _ {W E B : Type 0} where
  infixl 5 ◌>>◌
  abbrev pub ◌>>◌ : Stateful W E (Unit {0}) → Stateful W E B → Stateful W E B
  action >> rest = action >>= λ u. rest

  abbrev pub lift : Result E B → Stateful W E B
  lift r w = (r, w)

module _ {W E A B : Type 0} where
  -- What comes back from a chain came from its first action through the rest.
  pub continue-eq-ok :
      (first : Result E A × W) (next : A → Stateful W E B) {out : B}
      → (continue next first).0 ≡ ok out
      → (a : A) × (first.0 ≡ ok a) × ((next a first.1).0 ≡ ok out)
  continue-eq-ok (err e, w) next h = cc
  continue-eq-ok (ok a, w) next h = (a, refl, h)

  continue_eq :
      (first : Result E A × W) (next : A → Stateful W E B) (a : A)
      → first.0 ≡ ok a
      → continue next first ≡ next a first.1
  continue_eq (err e, w) next a h = cc
  continue_eq (ok b, w) next a h = ap (λ (c : A). next c w) (cc)

  -- What comes back from a chain, and the state that it leaves
  pub continue-eq-run :
      (first : Result E A × W) (next : A → Stateful W E B) {out : B}
      → (continue next first).0 ≡ ok out
      → (a : A) × (first.0 ≡ ok a)
        × ((next a first.1).0 ≡ ok out)
        × (continue next first ≡ next a first.1)
  continue-eq-run first next h =
      let (a, e, k) = continue-eq-ok first next h in (a, e, k, continue_eq first next a e)
