-- ===== src/Approval/Agreement.antt =====
-- The in-memory store of approval.ts, which its tests use, answers like the database store.
use dymaxion.Prelude.{◌≡◌, Text, text_eq, Option, some, true, List, [], ◌∷◌, Result, ok, err, any}
use dymaxion.Approval.Types.{ApprovalRecord}
use dymaxion.Approval.Interface.{ApprovalStore, StoreError}
use dymaxion.Approval.Memory
use dymaxion.Approval.Memory.{Records, memory_store}
use dymaxion.Approval.Postgres
use dymaxion.Approval.Postgres.{Database, postgres_store}
use dymaxion.Approval.Trace.{Call, create, decide, expire, consume, step}

abbrev created : Result StoreError ApprovalRecord → Result StoreError (Option ApprovalRecord)
created (ok r) = ok (some r)
created (err e) = err e

module _ {S : Type 0} (store : ApprovalStore S) where
  -- What the caller gets: what the method throws, or the record or nothing that it returns.
  unfoldable pub reply : Call → S → Result StoreError (Option ApprovalRecord)
  reply (create d) s = created (store.create d s).0
  reply (decide k v by now) s = ok (store.decide_atomic k v by now s).0
  reply (expire k now) s = ok (store.expire_atomic k now s).0
  reply (consume k b now) s = ok (store.consume_atomic k b now s).0

  unfoldable pub replies : List Call → S → List (Result StoreError (Option ApprovalRecord))
  unfolding step reply
  replies [] s = []
  replies (c ∷ cs) s = reply c s ∷ replies cs (step store c s)

-- Every new approval is of an agent run that the database knows.
abbrev pub IsKnown : List Text → Call → Type 0
IsKnown runs (create d) = any (text_eq d.agent_run_id) runs ≡ true
IsKnown runs _ = Unit {0}

abbrev pub AllKnown : List Text → List Call → Type 0
AllKnown runs [] = Unit {0}
AllKnown runs (c ∷ cs) = IsKnown runs c × AllKnown runs cs

abbrev pub Agree : Database → Records → Type 0
Agree db m = (j : Text) → Postgres.get j db ≡ Memory.find j m

abbrev Same : Call → Database → Records → Type 0
Same c db m =
    (reply postgres_store c db ≡ reply memory_store c m)
    × Agree (step postgres_store c db) (step memory_store c m)
    × ((step postgres_store c db).agent_runs ≡ db.agent_runs)
