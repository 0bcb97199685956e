-- ===== src/Zip/Assembly.antt =====
-- `createDeterministicZip` of deterministic-zip.ts assembles the archive that `Layout` describes, and
-- its defensive checks never fire.
use dymaxion.Prelude.{
  ℕ, zero, suc, ◌+◌, ◌-◌, ◌≤◌, ◌≡◌, refl, sym, ap, ◌∙◌, ◌==◌, true, List, [], ◌∷◌, ◌++◌, ok, length,
  take, drop, length-append, take-append-drop, length-take, length-drop, arith,
}
use mathlib.Core.List.{append_assoc, append-nil}
use dymaxion.Zip.Bytes.{Bytes}
use dymaxion.Zip.Headers.{PreparedEntry, eocd_fields, write_eocd}
use dymaxion.Zip.Create.{zeros, write_locals, write_centrals, assemble}
use dymaxion.Zip.Splice.{write_fields-splice}
use dymaxion.Zip.Layout.{
  local_bytes, central_bytes, eocd_bytes, IsMeasured, place, locals_bytes, centrals_bytes,
  local_size, central_size, length-local_bytes, length-central_bytes, length-eocd_bytes,
  eocd_fields-IsContiguous, write_local_header_lem, write_central_header_lem, assert_uint32_ok,
}

write_locals_lem :
    (es : List PreparedEntry) (pre mid post : Bytes) (offset : ℕ)
    → IsMeasured es
    → length pre ≡ offset
    → length mid ≡ local_size es
    → offset + local_size es ≤ 4294967295
    → write_locals es (pre ++ (mid ++ post)) offset
      ≡ ok
          (place offset es, pre ++ (locals_bytes (place offset es) ++ post), offset + local_size es)
unfolding write_locals
write_locals_lem [] pre [] post offset h at same bound = ground arith
write_locals_lem [] pre (m ∷ mid) post offset h at same bound = absurd (omega arith)
write_locals_lem (e ∷ es) pre mid post offset (measured, rest) at same bound =
    let placed = record e { local_header_offset = offset } in
    let size = 30 + length e.name_bytes + e.bytes in
    let m₁ = take size mid in
    let m₂ = drop size mid in
    let split : mid ++ post ≡ m₁ ++ (m₂ ++ post) =
      ap (λ t. t ++ post) (sym (take-append-drop size mid)) ∙ append_assoc m₁ m₂ post in
    let first =
      write_local_header_lem placed pre m₁ (m₂ ++ post) offset measured at
        (omega (arith, length-take size mid)) in
    let next = offset + 30 + length e.name_bytes + e.bytes in
    let later =
      write_locals_lem es (pre ++ local_bytes placed) m₂ post next rest
        (omega (arith, length-append pre (local_bytes placed), length-local_bytes placed measured))
        (omega (arith, length-drop size mid)) (omega arith) in
    let tail = place next es in
    let bytes : (pre ++ local_bytes placed) ++ (locals_bytes tail ++ post)
        ≡ pre ++ ((local_bytes placed ++ locals_bytes tail) ++ post) =
      append_assoc pre (local_bytes placed) (locals_bytes tail ++ post)
      ∙ ap (λ t. pre ++ t) (sym (append_assoc (local_bytes placed) (locals_bytes tail) post)) in
    let end : next + local_size es ≡ offset + local_size (e ∷ es) = omega arith in
    rw (split, first)
      (rw (assert_uint32_ok next (omega arith)) (
        rw (← append_assoc pre (local_bytes placed) (m₂ ++ post))
          (rw later (λ i. ok (placed ∷ tail, bytes i, end i)))))

write_centrals_lem :
    (es : List PreparedEntry) (pre mid post : Bytes) (offset : ℕ)
    → length pre ≡ offset
    → length mid ≡ central_size es
    → offset + central_size es ≤ 4294967295
    → write_centrals es (pre ++ (mid ++ post)) offset
      ≡ ok (pre ++ (centrals_bytes es ++ post), offset + central_size es)
unfolding write_centrals
write_centrals_lem [] pre [] post offset at same bound = ground arith
write_centrals_lem [] pre (m ∷ mid) post offset at same bound = absurd (omega arith)
write_centrals_lem (e ∷ es) pre mid post offset at same bound =
    let size = 46 + length e.name_bytes in
    let m₁ = take size mid in
    let m₂ = drop size mid in
    let split : mid ++ post ≡ m₁ ++ (m₂ ++ post) =
      ap (λ t. t ++ post) (sym (take-append-drop size mid)) ∙ append_assoc m₁ m₂ post in
    let first =
      write_central_header_lem e pre m₁ (m₂ ++ post) offset at
        (omega (arith, length-take size mid)) in
    let next = offset + 46 + length e.name_bytes in
    let later =
      write_centrals_lem es (pre ++ central_bytes e) m₂ post next
        (omega (arith, length-append pre (central_bytes e), length-central_bytes e))
        (omega (arith, length-drop size mid)) (omega arith) in
    let bytes : (pre ++ central_bytes e) ++ (centrals_bytes es ++ post)
        ≡ pre ++ ((central_bytes e ++ centrals_bytes es) ++ post) =
      append_assoc pre (central_bytes e) (centrals_bytes es ++ post)
      ∙ ap (λ t. pre ++ t) (sym (append_assoc (central_bytes e) (centrals_bytes es) post)) in
    let end : next + central_size es ≡ offset + central_size (e ∷ es) = omega arith in
    rw (split, first)
      (rw (assert_uint32_ok next (omega arith))
        (rw (← append_assoc pre (central_bytes e) (m₂ ++ post)) (later ∙ λ i. ok (bytes i, end i))))

write_eocd_lem :
    (pre mid : Bytes) (offset n size start : ℕ)
    → length pre ≡ offset
    → length mid ≡ 22
    → write_eocd (pre ++ (mid ++ [])) offset n size start
      ≡ ok (pre ++ (eocd_bytes n size start ++ []), offset + 22)
unfolding write_eocd eocd_bytes
write_eocd_lem pre mid offset n size start at same = rw (
    write_fields-splice (eocd_fields n size start) 0 pre mid [] offset
      (eocd_fields-IsContiguous n size start) (omega arith)
      (same ∙ sym (unfold eocd_bytes in length-eocd_bytes n size start)))

pub zeros-add : (a b : ℕ) → zeros (a + b) ≡ zeros a ++ zeros b
unfolding zeros
zeros-add zero b = ap zeros (omega arith)
zeros-add (suc a) b =
    let e : suc a + b ≡ suc (a + b) = omega arith in rw e (ap (λ t. 0 ∷ t) (zeros-add a b))

length-zeros : (n : ℕ) → length (zeros n) ≡ n
unfolding zeros
length-zeros zero = refl
length-zeros (suc n) = ap suc (length-zeros n)

pub central_size-place :
    (offset : ℕ) (es : List PreparedEntry) → central_size (place offset es) ≡ central_size es
central_size-place offset [] = refl
central_size-place offset (e ∷ es) =
    omega (arith, central_size-place (offset + 30 + length e.name_bytes + e.bytes) es)

pub length-locals_bytes :
    (offset : ℕ) (es : List PreparedEntry)
    → IsMeasured es
    → length (locals_bytes (place offset es)) ≡ local_size es
length-locals_bytes offset [] h = refl
length-locals_bytes offset (e ∷ es) h =
    let placed = record e { local_header_offset = offset } in
    let rest = place (offset + 30 + length e.name_bytes + e.bytes) es in
    omega (
      arith,
      length-append (local_bytes placed) (locals_bytes rest),
      length-local_bytes placed h.0,
      length-locals_bytes (offset + 30 + length e.name_bytes + e.bytes) es h.1,
    )

pub length-centrals_bytes : (es : List PreparedEntry) → length (centrals_bytes es) ≡ central_size es
length-centrals_bytes [] = refl
length-centrals_bytes (e ∷ es) = omega (
  arith,
  length-append (central_bytes e) (centrals_bytes es),
  length-central_bytes e,
  length-centrals_bytes es,
)

-- The archive: local records, central records that point at them, and the end record.
unfoldable pub archive : List PreparedEntry → Bytes
archive placed =
    locals_bytes placed
    ++ (centrals_bytes placed
        ++ eocd_bytes (length placed) (central_size placed) (length (locals_bytes placed)))

archive_regroup :
    (placed : List PreparedEntry) (start : ℕ)
    → start ≡ length (locals_bytes placed)
    → (locals_bytes placed ++ centrals_bytes placed)
        ++ (eocd_bytes (length placed) (central_size placed) start ++ [])
      ≡ archive placed
unfolding archive
archive_regroup placed start begins = rw begins (
    rw append-nil (
      append_assoc (locals_bytes placed) (centrals_bytes placed)
        (eocd_bytes (length placed) (central_size placed) (length (locals_bytes placed)))))

pub length-archive :
    (es : List PreparedEntry)
    → IsMeasured es
    → length (archive (place 0 es)) ≡ local_size es + central_size es + 22
unfolding archive
length-archive es h =
    let placed = place 0 es in
    let end = eocd_bytes (length placed) (central_size placed) (length (locals_bytes placed)) in
    omega (
      arith,
      length-append (locals_bytes placed) (centrals_bytes placed ++ end),
      length-append (centrals_bytes placed) end,
      length-locals_bytes 0 es h,
      length-centrals_bytes placed,
      central_size-place 0 es,
      length-eocd_bytes (length placed) (central_size placed) (length (locals_bytes placed)),
    )

-- Prepared entries whose sizes add up to the array's are assembled into their archive.
pub assemble_lem :
    (es : List PreparedEntry) (size : ℕ)
    → IsMeasured es
    → size ≡ 22 + local_size es + central_size es
    → size ≤ 4294967295
    → assemble es size ≡ ok (archive (place 0 es), place 0 es)
unfolding assemble
assemble_lem es size h exact bound =
    let placed = place 0 es in
    let l = local_size es in
    let c = central_size es in
    let room : zeros size ≡ zeros l ++ (zeros c ++ (zeros 22 ++ [])) =
      ap zeros (exact ∙ omega arith)
      ∙ (zeros-add l (c + 22)
          ∙ ap (λ t. zeros l ++ t)
              (zeros-add c 22 ∙ ap (λ t. zeros c ++ t) (sym (append-nil (zeros 22))))) in
    let locals =
      write_locals_lem es [] (zeros l) (zeros c ++ (zeros 22 ++ [])) 0 h refl (length-zeros l)
        (omega arith) in
    let centrals =
      write_centrals_lem placed (locals_bytes placed) (zeros c) (zeros 22 ++ []) (0 + l)
        (length-locals_bytes 0 es h ∙ omega arith) (length-zeros c ∙ sym (central_size-place 0 es))
        (omega (arith, central_size-place 0 es)) in
    let ls = locals_bytes placed in
    let cs = centrals_bytes placed in
    let cp = central_size placed in
    let begins : 0 + l ≡ length ls = sym (length-locals_bytes 0 es h ∙ omega arith) in
    let spans : (0 + l + cp) - (0 + l) ≡ cp = omega arith in
    let eocd =
      write_eocd_lem (ls ++ cs) (zeros 22) (0 + l + cp) (length placed) cp (0 + l)
        (omega
          (arith, length-append ls cs, length-locals_bytes 0 es h, length-centrals_bytes placed))
        (length-zeros 22) in
    let whole = archive_regroup placed (0 + l) begins in
    let fits : (0 + l + cp + 22 == length (archive placed)) ≡ true =
      ground (arith, length-archive es h, central_size-place 0 es) in
    rw room (
      rw locals (
        rw centrals (
          rw spans (
            rw (assert_uint32_ok cp (omega (arith, central_size-place 0 es)))
              (rw (← append_assoc ls cs (zeros 22 ++ [])) (rw eocd (rw (whole, fits))))))))
