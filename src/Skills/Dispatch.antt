-- ===== src/Skills/Dispatch.antt =====
-- `resolveCapabilityApprovalBinding`, `executeCapabilityDefinition` and `executeCapability` of
-- capabilities/registry.ts.
use dymaxion.Prelude.{
  ℕ, Text, Option, none, some, Bool, true, false, not, if◌then◌else◌, [], ◌∷◌, ◌++◌, Result, ok,
  err, lookup,
}
use dymaxion.Canonical.{Json}
use dymaxion.Approval.Target.{derive_approval_target}
use dymaxion.Approval.Receipts.{Binding, Value, claim_receipt}
use dymaxion.Skills.Types.{
  SkillError, Capability, CapabilityBinding, capability_requires_approval, no_agent_run, no_target,
  receipt_refused, unknown_slug,
}
use dymaxion.Skills.Identity.{resolve_identity}
use dymaxion.Skills.World.{Environment, Context, Action, ◌>>=◌, ◌>>◌, lift, continue}
use dymaxion.Skills.Grants.{consume_preflight_grant, preflight_of}

-- `target`, and then `credentialIdentity`, of a binding that no hook resolves
unfoldable pub derive_binding :
    Option Text → (Text → Option Json) → Text → Json → Result SkillError CapabilityBinding
derive_binding identities parse slug payload = elim (derive_approval_target slug payload) [
  | err e ↦ err (no_target e)
  | ok t ↦ elim (resolve_identity identities parse slug) [
    | err e ↦ err e
    | ok i ↦ ok (record { target = t; credential_identity = i })
  ]
]

module _ {S : Type 0} (env : Environment S) where
  unfoldable pub resolve_capability_approval_binding :
      Capability → Json → Result SkillError CapabilityBinding
  resolve_capability_approval_binding c input = elim c.resolve_approval_binding [
    | some f ↦ f input
    | none ↦ derive_binding env.identities env.parse_json c.slug input
  ]

  -- `claimConsumedApprovalReceipt`, on the receipts of the world
  unfoldable pub claim : Value → Binding → Action S ℕ
  claim v b w =
      let (r, g) = claim_receipt env.sha256 v b w.receipts in
      (elim r [ ok n ↦ ok n | err e ↦ err (receipt_refused e) ], record w { receipts = g })

  abbrev pub claim_bound :
      Capability → Json → Context → Text → CapabilityBinding → Action S (Option ℕ)
  claim_bound c input context run b =
      claim context.approval_receipt (record {
        agent_run_id = run;
        skill = c.slug;
        payload = input;
        credential_identity = b.credential_identity;
        target = some b.target;
      })
      >>= λ n. lift (ok (some n))

  -- The grant for the execution, or none where no approval is required
  unfoldable pub authorize : Capability → Json → Context → Action S (Option ℕ)
  authorize c input context =
      if not (capability_requires_approval c input)
      then lift (ok none)
      else elim context.agent_run_id [
        | none ↦ lift (err no_agent_run)
        | some [] ↦ lift (err no_agent_run)
        | some (r ∷ run) ↦
            lift (resolve_capability_approval_binding c input)
            >>= claim_bound c input context (r ∷ run)
      ]

  -- The direct caller's own preflight
  abbrev pub preflight_unless : Capability → Json → Bool → Action S (Unit {0})
  preflight_unless c input true = lift (ok tt)
  preflight_unless c input false = lift (preflight_of c input)

  -- `capability.execute`, and the check of its output
  unfoldable pub perform : Capability → Json → Context → Option ℕ → Action S Json
  perform c input context grant w =
      continue (λ out. lift (c.parse_output out))
        (
          c.execute input grant,
          record w {
            executions =
                w.executions
                ++ record {
                  slug = c.slug;
                  agent_run_id = context.agent_run_id;
                  input = input;
                  grant = grant;
                }
                  ∷ [];
          },
        )

  unfoldable pub execute_capability_definition : Capability → Json → Context → Action S Json
  execute_capability_definition c raw_input context = do
    input ← lift (c.parse_input raw_input)
    proven ←
        consume_preflight_grant env.sha256 context.capability_preflight_grant c input
          context.agent_run_id
    preflight_unless c input proven
    grant ← authorize c input context
    perform c input context grant

  unfoldable pub execute_capability : Text → Json → Context → Action S Json
  execute_capability slug raw_input context = elim (lookup slug env.capabilities) [
    | none ↦ lift (err unknown_slug)
    | some c ↦ execute_capability_definition c raw_input context
  ]
