-- ===== src/Approval/Postgres/Laws.antt =====
-- The database store keeps the contract of `StoreLaws` while no two rows share a primary key.
use dymaxion.Prelude.{
  ℕ, ◌≡◌, refl, inl, inr, Text, text_eq, text_eq_iff, Option, none, some, bind, if◌then◌else◌, Bool,
  true, List, [], ◌∷◌, ◌++◌, ok, err, arith, Option-cases, any,
}
use dymaxion.Approval.Types.{ApprovalRecord, ApprovalDraft, Verdict, ApprovalBinding}
use dymaxion.Approval.Interface.{
  StoreLaws, StoreError, already_exists, fresh, decided, timed_out, consumed, revise,
}
use dymaxion.Approval.Postgres.{
  Database, AuditRow, commit, select, update, create, get, decide_atomic, expire_atomic,
  consume_atomic, postgres_store,
}

abbrev pub IsKeyed : List ApprovalRecord → Type 0
IsKeyed [] = Unit
IsKeyed (r ∷ rs) = (select r.id rs ≡ none) × IsKeyed rs

-- An update that touches only rows with key `k`, and keeps the key.
module _ (k : Text) (fits : ApprovalRecord → Bool) (set : ApprovalRecord → ApprovalRecord)
    (keyed : (r : ApprovalRecord) → fits r ≡ true → text_eq r.id k ≡ true)
    (keeps : (r : ApprovalRecord) → (set r).id ≡ r.id) where
  update_absent : (rs : List ApprovalRecord) → select k rs ≡ none → update fits set rs ≡ (rs, none)
  unfolding select update
  update_absent [] h = refl
  update_absent (r ∷ rs) h = ground (arith, keyed r, update_absent rs)

  abbrev change : ApprovalRecord → Option ApprovalRecord
  change r = if fits r then some (set r) else none

  select-change :
      (rs : List ApprovalRecord) → IsKeyed rs → (update fits set rs).1 ≡ bind (select k rs) change
  unfolding select update
  select-change [] v = refl
  select-change (r ∷ rs) v =
      ground (arith, keyed r, select-change rs v.1, update_absent rs, text_eq_iff r.id k)

  select-update :
      (j : Text) (rs : List ApprovalRecord)
      → IsKeyed rs
      → select j (update fits set rs).0 ≡ revise k change (λ i. select i rs) j
  unfolding select update revise
  select-update j [] v = ground arith
  select-update j (r ∷ rs) v = ground (
    arith,
    keyed r,
    keeps r,
    select-update j rs v.1,
    update_absent rs,
    text_eq_iff r.id k,
    text_eq_iff r.id j,
    text_eq_iff k j,
  )

  update-IsKeyed : (rs : List ApprovalRecord) → IsKeyed rs → IsKeyed (update fits set rs).0
  unfolding select update revise
  update-IsKeyed [] v = tt
  update-IsKeyed (r ∷ rs) v = ground (
    arith,
    keyed r,
    keeps r,
    select-update r.id rs v.1,
    update-IsKeyed rs v.1,
    text_eq_iff k r.id,
  )

select_id :
    (k : Text) (rs : List ApprovalRecord) {q : ApprovalRecord}
    → select k rs ≡ some q
    → text_eq q.id k ≡ true
unfolding select
select_id k [] h = cc
select_id k (r ∷ rs) {q} h = ground (arith, select_id k rs {q = q})

-- The contract of one method, for its change of one record.
abbrev pub Revised :
    Text
    → (ApprovalRecord → Option ApprovalRecord)
    → Database
    → Option ApprovalRecord × Database
    → Type 0
Revised k f db p =
    (p.0 ≡ bind (get k db) f)
    × ((j : Text) → get j p.1 ≡ revise k f (λ i. get i db) j)
    × IsKeyed p.1.approval_requests

module _ (k : Text) (fits : ApprovalRecord → Bool) (set : ApprovalRecord → ApprovalRecord)
    (f : ApprovalRecord → Option ApprovalRecord)
    (keyed : (r : ApprovalRecord) → fits r ≡ true → text_eq r.id k ≡ true)
    (keeps : (r : ApprovalRecord) → (set r).id ≡ r.id)
    (agree : (r : ApprovalRecord)
      → text_eq r.id k ≡ true
      → change k fits set keyed keeps r ≡ f r) where
  bind_agree :
      (rs : List ApprovalRecord)
      → bind (select k rs) (change k fits set keyed keeps) ≡ bind (select k rs) f
  bind_agree rs = elim (Option-cases (select k rs)) [
    | inl e ↦ rw e
    | inr (r, e) ↦ rw e (agree r (select_id k rs e))
  ]

  commit-Revised :
      (audit : ApprovalRecord → AuditRow) (db : Database)
      → IsKeyed db.approval_requests
      → Revised k f db (commit db audit (update fits set db.approval_requests))
  unfolding get revise
  commit-Revised audit db v =
      let rs = db.approval_requests in
      let row = select-change k fits set keyed keeps rs v in
      let rest = update-IsKeyed k fits set keyed keeps rs v in
      elim (Option-cases (update fits set rs).1) [
        | inl e ↦ (
          ground (arith, row, bind_agree rs),
          λ j. ground (arith, select-update k fits set keyed keeps j rs v, bind_agree rs),
          ground arith,
        )
        | inr (r, e) ↦ (
          ground (arith, row, bind_agree rs),
          λ j. ground (arith, select-update k fits set keyed keeps j rs v, bind_agree rs),
          ground arith,
        )
      ]

pub decide_atomic-Revised :
    (k : Text) (v : Verdict) (by : Text) (now : ℕ) (db : Database)
    → IsKeyed db.approval_requests
    → Revised k (decided v by now) db (decide_atomic k v by now db)
unfolding decide_atomic decided
decide_atomic-Revised k v by now =
    commit-Revised k _ _ (decided v by now) (λ r h. ground arith) (λ r. refl) (λ r h. ground arith)
      _

pub expire_atomic-Revised :
    (k : Text) (now : ℕ) (db : Database)
    → IsKeyed db.approval_requests
    → Revised k (timed_out now) db (expire_atomic k now db)
unfolding expire_atomic timed_out
expire_atomic-Revised k now =
    commit-Revised k _ _ (timed_out now) (λ r h. ground arith) (λ r. refl) (λ r h. ground arith) _

pub consume_atomic-Revised :
    (k : Text) (b : ApprovalBinding) (now : ℕ) (db : Database)
    → IsKeyed db.approval_requests
    → Revised k (consumed b now) db (consume_atomic k b now db)
unfolding consume_atomic consumed
consume_atomic-Revised k b now =
    commit-Revised k _ _ (consumed b now) (λ r h. ground arith) (λ r. refl) (λ r h. ground arith) _

pub create_fails_postgres :
    (d : ApprovalDraft) (db : Database) {e : StoreError}
    → (create d db).0 ≡ err e
    → (create d db).1 ≡ db
unfolding create
create_fails_postgres d db h = ground arith

select-append :
    (j : Text) (rs : List ApprovalRecord) (r : ApprovalRecord)
    → select r.id rs ≡ none
    → select j (rs ++ r ∷ []) ≡ (if text_eq r.id j then some r else select j rs)
unfolding select
select-append j [] r h = refl
select-append j (q ∷ rs) r h =
    ground
      (arith, select-append j rs r, text_eq_iff q.id j, text_eq_iff r.id j, text_eq_iff q.id r.id)

append-IsKeyed :
    (rs : List ApprovalRecord) (r : ApprovalRecord)
    → select r.id rs ≡ none
    → IsKeyed rs
    → IsKeyed (rs ++ r ∷ [])
unfolding select
append-IsKeyed [] r h v = (refl, tt)
append-IsKeyed (q ∷ rs) r h v = ground (
  arith,
  select-append q.id rs r,
  append-IsKeyed rs r,
  text_eq_iff q.id r.id,
  text_eq_iff r.id q.id,
)

pub create_adds_postgres :
    (d : ApprovalDraft) (db : Database) {r : ApprovalRecord}
    → IsKeyed db.approval_requests
    → (create d db).0 ≡ ok r
    → (get d.id db ≡ none)
      × (r ≡ fresh d)
      × ((j : Text) → get j (create d db).1 ≡ (if text_eq d.id j then some (fresh d) else get j db))
      × IsKeyed (create d db).1.approval_requests
unfolding create get fresh
create_adds_postgres d db v h =
    let rs = db.approval_requests in
    (
      ground arith,
      ground arith,
      λ j. ground (arith, select-append j rs (fresh d)),
      ground (arith, append-IsKeyed rs (fresh d)),
    )

abbrev pub postgres_laws : StoreLaws postgres_store
postgres_laws = record {
  view = λ db k. get k db;
  IsValid = λ db. IsKeyed db.approval_requests;
  view-get = λ k db. refl;
  create_fails = create_fails_postgres;
  create_adds = create_adds_postgres;
  decide_revises = decide_atomic-Revised;
  expire_revises = expire_atomic-Revised;
  consume_revises = consume_atomic-Revised;
}

-- With a known agent run, an insert fails only on the primary key.
pub create_known :
    (d : ApprovalDraft) (db : Database)
    → any (text_eq d.agent_run_id) db.agent_runs ≡ true
    → get d.id db ≡ none
    → (create d db).0 ≡ ok (fresh d)
unfolding create get
create_known d db known absent = ground arith

pub create_taken :
    (d : ApprovalDraft) (db : Database) {r : ApprovalRecord}
    → get d.id db ≡ some r
    → (create d db).0 ≡ err already_exists
unfolding create get
create_taken d db taken = ground arith

-- No method touches the agent runs.
pub create-agent_runs :
    (d : ApprovalDraft) (db : Database) → (create d db).1.agent_runs ≡ db.agent_runs
unfolding create
create-agent_runs d db = ground arith

pub commit-agent_runs :
    (db : Database) (audit : ApprovalRecord → AuditRow)
    (u : List ApprovalRecord × Option ApprovalRecord)
    → (commit db audit u).1.agent_runs ≡ db.agent_runs
commit-agent_runs db audit u = ground arith

pub decide_atomic-agent_runs :
    (k : Text) (v : Verdict) (by : Text) (now : ℕ) (db : Database)
    → (decide_atomic k v by now db).1.agent_runs ≡ db.agent_runs
unfolding decide_atomic
decide_atomic-agent_runs k v by now db = commit-agent_runs db _ _

pub expire_atomic-agent_runs :
    (k : Text) (now : ℕ) (db : Database) → (expire_atomic k now db).1.agent_runs ≡ db.agent_runs
unfolding expire_atomic
expire_atomic-agent_runs k now db = commit-agent_runs db _ _

pub consume_atomic-agent_runs :
    (k : Text) (b : ApprovalBinding) (now : ℕ) (db : Database)
    → (consume_atomic k b now db).1.agent_runs ≡ db.agent_runs
unfolding consume_atomic
consume_atomic-agent_runs k b now db = commit-agent_runs db _ _
