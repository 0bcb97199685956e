-- ===== src/Approval/Tests.antt =====
-- The theorems on approval.ts at concrete records and payloads.
use dymaxion.Prelude.{◌≤◌, ◌≡◌, refl, text, text_eq, some}
use dymaxion.Approval.Types.{ApprovalRecord, approved}
use dymaxion.Approval.Interface.{fresh}
use dymaxion.Approval.Memory
use dymaxion.Approval.Memory.{Records, memory_store}
use dymaxion.Approval.Memory.Laws.{memory_laws}
use dymaxion.Approval.Postgres
use dymaxion.Approval.Postgres.{Database}
use dymaxion.Approval.Trace.{run, consumptions}
use dymaxion.Approval.Trace.Record.{Evolves, IsSound}
use dymaxion.Approval.Trace.Safety.{run_history, consumed_at_most_once, run-IsSound}
use dymaxion.Approval.Samples.{draft, race, no_records, stored, runs_in_memory}

race_consumes_once : consumptions memory_store (text "a1") race no_records ≡ 1
unfolding runs_in_memory
race_consumes_once = refl

consumed_at_most_once_example : consumptions memory_store (text "a1") race no_records ≤ 1
consumed_at_most_once_example =
    consumed_at_most_once memory_store memory_laws race no_records (text "a1") tt

run_history_example :
    (q : ApprovalRecord) × (Memory.find (text "a1") (run memory_store race stored) ≡ some q)
    × Evolves (fresh draft) q
unfolding Memory.find text_eq
run_history_example =
    run_history memory_store memory_laws race stored (text "a1") (fresh draft) tt refl

abbrev raced : ApprovalRecord
raced = record (fresh draft) {
  decision = some approved;
  decided_by = some (text "ann");
  responded_at = some 2000;
  consumed_at = some 3000;
}

run-IsSound_example : IsSound raced
unfolding runs_in_memory
run-IsSound_example =
    run-IsSound memory_store memory_laws race no_records (text "a1") raced tt (λ j r e. cc) refl
