-- ===== src/Approval/Target/Laws.antt =====
-- What a target derived by approval.ts pins down.
use dymaxion.Prelude.{
  ◌≡◌, sym, ap, ◌∙◌, Text, text, text_eq_iff, some, true, ◌++◌, ok, arith, append_cancel,
  append_split, Option-cases, inl, inr,
}
use dymaxion.Canonical.{Json}
use dymaxion.Approval.Target.{
  derive_approval_target, export_target, export_skill, payload_field, string_of, is_str,
}
use dymaxion.Approval.Target.Words.{is_uuid, is_sha256_hex, is_uuid-length}

-- The text of an export's target.
abbrev pub export_text : Text → Text → Text
export_text project bundle =
    text "capability:export_evidence_bundle|project:" ++ (project ++ (text "|bundle:" ++ bundle))

-- A derived export target is of a `persist` operation on a well-formed project and bundle digest,
-- and consists of exactly these two.
pub derive_export_shape :
    (payload : Json) {t : Text}
    → derive_approval_target export_skill payload ≡ ok t
    → (project : Text) × (bundle : Text) × (is_str
          (text "persist")
          (payload_field (text "operation") payload)
        ≡ true)
      × (string_of (payload_field (text "project_id") payload) ≡ some project)
      × (string_of (payload_field (text "target_bundle_sha256") payload) ≡ some bundle)
      × (is_uuid project ≡ true)
      × (is_sha256_hex bundle ≡ true)
      × (t ≡ export_text project bundle)
unfolding derive_approval_target export_target
derive_export_shape payload {t} h =
    elim (Option-cases (string_of (payload_field (text "project_id") payload))) [
      | inl e ↦ absurd (ground (arith, text_eq_iff export_skill export_skill))
      | inr (project, e) ↦
          elim (Option-cases (string_of (payload_field (text "target_bundle_sha256") payload))) [
            | inl f ↦ absurd (ground (arith, text_eq_iff export_skill export_skill))
            | inr (bundle, f) ↦ (
              project,
              bundle,
              ground (arith, text_eq_iff export_skill export_skill),
              e,
              f,
              ground (arith, text_eq_iff export_skill export_skill),
              ground (arith, text_eq_iff export_skill export_skill),
              ground (arith, text_eq_iff export_skill export_skill),
            )
          ]
    ]

-- Two export payloads with one target name the same project and the same bundle digest.
pub derive_export_injective :
    (p q : Json) {t : Text}
    → derive_approval_target export_skill p ≡ ok t
    → derive_approval_target export_skill q ≡ ok t
    → (string_of (payload_field (text "project_id") p)
        ≡ string_of (payload_field (text "project_id") q))
      × (string_of (payload_field (text "target_bundle_sha256") p)
          ≡ string_of (payload_field (text "target_bundle_sha256") q))
derive_export_injective p q h k =
    let (project, bundle, _, e, f, uuid, _, shape) = derive_export_shape p h in
    let (project', bundle', _, e', f', uuid', _, shape') = derive_export_shape q k in
    let rest =
      append_cancel (text "capability:export_evidence_bundle|project:") _ _ (sym shape ∙ shape') in
    let (same, tail) =
      append_split project project' _ _
        (is_uuid-length project uuid ∙ sym (is_uuid-length project' uuid')) rest in
    (e ∙ ap some same ∙ sym e', f ∙ ap some (append_cancel (text "|bundle:") _ _ tail) ∙ sym f')
