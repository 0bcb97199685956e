-- ===== src/Zip/Locate.antt =====
-- Where the archive of deterministic-zip.ts holds each entry.
use dymaxion.Prelude.{ℕ, ◌+◌, ◌≡◌, sym, ap, ◌∙◌, List, [], ◌∷◌, ◌++◌, length, length-append, arith}
use mathlib.Core.List.{append_assoc}
use mathlib.Core.Path.{subst}
use dymaxion.Zip.Bytes.{Bytes}
use dymaxion.Zip.Headers.{PreparedEntry}
use dymaxion.Zip.Layout.{local_bytes, place, locals_bytes, IsMeasured, length-local_bytes}

-- The local record of an entry stands at the entry's offset.
pub record IsLocated (bytes : Bytes) (e : PreparedEntry) : Type 0 where
  pub before : Bytes
  pub after : Bytes
  pub at : length before ≡ e.local_header_offset
  pub whole : bytes ≡ before ++ (local_bytes e ++ after)

abbrev pub AllLocated : Bytes → List PreparedEntry → Type 0
AllLocated bytes [] = Unit {0}
AllLocated bytes (e ∷ es) = IsLocated bytes e × AllLocated bytes es

pub place-AllLocated :
    (es : List PreparedEntry) (before after : Bytes) (offset : ℕ)
    → IsMeasured es
    → length before ≡ offset
    → AllLocated (before ++ (locals_bytes (place offset es) ++ after)) (place offset es)
place-AllLocated [] before after offset h at = tt
place-AllLocated (e ∷ es) before after offset (measured, rest) at =
    let placed : PreparedEntry = record e { local_header_offset = offset } in
    let next = offset + 30 + length e.name_bytes + e.bytes in
    let tail = place next es in
    let here : IsLocated (before ++ ((local_bytes placed ++ locals_bytes tail) ++ after)) placed =
      record {
        before = before;
        after = locals_bytes tail ++ after;
        at = at;
        whole = ap (λ t. before ++ t) (append_assoc (local_bytes placed) (locals_bytes tail) after);
      } in
    let later = place-AllLocated es (before ++ local_bytes placed) after next rest (
      omega (
        arith,
        at,
        length-append before (local_bytes placed),
        length-local_bytes placed measured,
      )) in
    let same : (before ++ local_bytes placed) ++ (locals_bytes tail ++ after)
        ≡ before ++ ((local_bytes placed ++ locals_bytes tail) ++ after) =
      append_assoc before (local_bytes placed) (locals_bytes tail ++ after)
      ∙ ap (λ t. before ++ t) (sym (append_assoc (local_bytes placed) (locals_bytes tail) after)) in
    (here, subst (λ bytes. AllLocated bytes tail) same later)
