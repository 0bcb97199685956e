-- ===== src/Approval/Trace.antt =====
-- What holds of a record of approval.ts over every sequence of store calls, by any callers in any
-- order, for every store that keeps the contract.
pub mod Record
pub mod Safety
use dymaxion.Prelude.{
  ℕ, ◌+◌, Text, text_eq, Option, none, some, is_none, Bool, true, false, not, ◌&&◌, if◌then◌else◌,
  List, [], ◌∷◌,
}
use dymaxion.Approval.Types.{Verdict, ApprovalRecord, ApprovalDraft, ApprovalBinding}
use dymaxion.Approval.Interface.{ApprovalStore}

pub data Call : Type 0 where
  create : ApprovalDraft → Call
  decide : Text → Verdict → Text → ℕ → Call
  expire : Text → ℕ → Call
  consume : Text → ApprovalBinding → ℕ → Call

module _ {S : Type 0} (store : ApprovalStore S) where
  unfoldable pub step : Call → S → S
  step (create d) s = (store.create d s).1
  step (decide k v by now) s = (store.decide_atomic k v by now s).1
  step (expire k now) s = (store.expire_atomic k now s).1
  step (consume k b now) s = (store.consume_atomic k b now s).1

  unfoldable pub run : List Call → S → S
  run [] s = s
  run (c ∷ cs) s = run cs (step c s)

  -- Whether the call consumes the approval `k`.
  unfoldable pub is_consumption : Text → Call → S → Bool
  is_consumption k (consume j b now) s =
      text_eq j k && not (is_none (store.consume_atomic j b now s).0)
  is_consumption k _ s = false

  unfoldable pub consumptions : Text → List Call → S → ℕ
  consumptions k [] s = 0
  consumptions k (c ∷ cs) s = (if is_consumption k c s then 1 else 0) + consumptions k cs (step c s)
