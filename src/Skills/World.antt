-- ===== src/Skills/World.antt =====
-- What the dispatch of a step reads and writes: the approvals and their receipts, the preflight
-- grants, and the rows of `skill_invocations`; and which executions have been started.
use dymaxion.Prelude.{ℕ, Text, Option, Bool, List, Result}
use dymaxion.Canonical.{Json}
use dymaxion.Approval.Receipts.{Registry, Value}
use dymaxion.Approval.Interface.{ApprovalStore}
use dymaxion.Skills.Types.{SkillError, RegisteredSkill, Capability}
use dymaxion.Prelude.Stateful.{Stateful}
pub use dymaxion.Prelude.Stateful.{continue, ◌>>=◌, ◌>>◌, lift}

-- `CapabilityPreflightGrantRecord`
pub record GrantRecord : Type 0 where
  pub slug : Text
  pub input_sha256 : Text
  pub agent_run_id : Option Text

pub record Execution : Type 0 where
  pub slug : Text
  pub agent_run_id : Option Text
  pub input : Json
  pub grant : Option ℕ

pub record Invocation : Type 0 where
  pub agent_run_id : Text
  pub slug : Text
  pub version : Text
  pub input : Json
  pub outcome : Option (Result SkillError Json)  -- `none` until `finish`

-- A grant is its place in the list; one that has been deleted is `none` there.
pub record World (S : Type 0) : Type 0 where
  pub store : S
  pub receipts : Registry
  pub preflight_grants : List (Option GrantRecord)
  pub invocations : List Invocation
  pub executions : List Execution

-- A value of type `unknown` where a preflight grant may stand
pub data GrantValue : Type 0 where
  absent not_an_object other_object : GrantValue
  preflight_grant : ℕ → GrantValue

-- `CapabilityExecutionContext`, as far as the dispatch reads it
pub record Context : Type 0 where
  pub agent_run_id : Option Text
  pub capability_preflight_grant : GrantValue
  pub approval_receipt : Value

-- What is outside: the approval store, the digest, the clock's reading, the boundary check of
-- security/boundary.ts, the environment with `JSON.parse`, `RegExp.test`, the two registries and
-- the run of a skill's own program.
pub record Environment (S : Type 0) : Type 0 where
  pub store : ApprovalStore S
  pub sha256 : Text → Text
  pub now : ℕ
  pub boundary : Json → Result SkillError (Unit {0})
  pub identities : Option Text
  pub parse_json : Text → Option Json
  pub matches : Text → Text → Bool
  pub capabilities : List (Text × Capability)
  pub skills : List (Text × RegisteredSkill)
  pub run_program : RegisteredSkill → Json → Result SkillError Json

abbrev pub Action : Type 0 → Type 0 → Type 0
Action S A = Stateful (World S) SkillError A
