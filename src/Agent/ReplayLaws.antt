-- ===== src/Agent/ReplayLaws.antt =====
-- When `replayRun` of agent/executor.ts makes a row, and what it may leave there.
use dymaxion.Prelude.{
  ℕ, ◌≡◌, refl, ap, ◌∙◌, Text, Option, none, some, is_none, get_or_else, true, false, List, [], ◌∷◌,
  map, length, Result, ok, err, is_ok, ◌⊎◌, inl, inr, arith,
}
use dymaxion.Prelude.Stateful.{continue}
use dymaxion.Skills.World.{World, Environment}
use dymaxion.Skills.Steps.{Registries}
use dymaxion.Skills.Refusal.{AllExact, create_replay-AllExact}
use dymaxion.Agent.Types.{AgentError, Narrative, RunStatus, completed, Run, Services}
use dymaxion.Agent.Steps.{LoopEnd, halted, finished}
use dymaxion.Agent.Run.{status_of, finish, send_final, deliver}
use dymaxion.Agent.Ending.{is_over, deliver-status, status_of-over}
use dymaxion.Agent.ReplayOpen.{IsOpen, replay_steps-IsOpen}
use dymaxion.Agent.Replay.{
  StoredStep, identity, new_row, conclude_replay, replay_body, replay_steps, replay_run,
}

-- A row of a run that has ended, and says how
abbrev pub IsClosed : {S : Type 0} → Run S → Type 0
IsClosed w = (is_over w.status ≡ true) × (is_none w.final_narrative ≡ false)

-- A stored plan that has a step, and every step of which has the kind of the one registry that has
-- its slug
abbrev pub IsReplayable : Registries → Option (List StoredStep) → Type 0
IsReplayable g none = ⊥
IsReplayable g (some []) = ⊥
IsReplayable g (some (s ∷ ss)) = AllExact g (map identity (s ∷ ss))

-- What `replayRun` returned or threw, and the row that it left, if it made one, for a plan that is
-- replayable or not and the loop over its steps, as it would go from the new row.
abbrev pub IsLeft :
    {S : Type 0}
    → Type 0
    → Result AgentError LoopEnd × Run S
    → Result AgentError (Unit {0}) × Option (Run S)
    → Type 0
IsLeft Replayable looped (ok u, none) = ⊥
IsLeft Replayable looped (err e, none) = ¬ Replayable
IsLeft Replayable looped (ok u, some row) = Replayable × (is_ok looped.0 ≡ true) × IsClosed row
IsLeft Replayable looped (err e, some row) =
    Replayable × (((looped ≡ (err e, row)) × IsOpen row) ⊎ ((is_ok looped.0 ≡ true) × IsClosed row))

module _ {S : Type 0} (env : Environment S) (services : Services S) where
  deliver-narrative :
      (s : RunStatus) (n : Narrative) (files : List Text) (cost : ℕ) (w : Run S)
      → is_none (deliver env services s n files cost w).1.final_narrative ≡ false
  unfolding finish send_final
  deliver-narrative s n files cost w = ground arith

  deliver-IsClosed :
      (s : RunStatus) (n : Narrative) (files : List Text) (cost : ℕ) (w : Run S)
      → is_over s ≡ true
      → IsClosed (deliver env services s n files cost w).1
  deliver-IsClosed s n files cost w h = (
    ap is_over (deliver-status env services s n files cost w) ∙ h,
    deliver-narrative s n files cost w,
  )

  conclude_replay-IsClosed :
      (total : ℕ) (end : LoopEnd) (w : Run S)
      → IsClosed (conclude_replay env services total end w).1
  conclude_replay-IsClosed total (halted n cost) w = deliver-IsClosed completed n [] cost w refl
  conclude_replay-IsClosed total (finished p) w =
      deliver-IsClosed (status_of env services p.results) _ p.attachments p.cost w
        (status_of-over env services p.results)

  closed-IsLeft :
      {P : Type 0} (end : LoopEnd) (w : Run S) (x : Result AgentError (Unit {0}) × Run S)
      → P
      → IsClosed x.1
      → IsLeft P (ok end, w) (x.0, some x.1)
  closed-IsLeft end w (ok u, row) p h = (p, refl, h)
  closed-IsLeft end w (err e, row) p h = (p, inr (refl, h))

  looped-IsLeft :
      {P : Type 0} (total : ℕ) (looped : Result AgentError LoopEnd × Run S)
      → P
      → IsOpen looped.1
      → let (r, row) = continue (conclude_replay env services total) looped in
        IsLeft P looped (r, some row)
  looped-IsLeft total (err e, w) p h = (p, inl (refl, h))
  looped-IsLeft total (ok end, w) p h =
      closed-IsLeft end w (conclude_replay env services total end w) p
        (conclude_replay-IsClosed total end w)

  -- Whatever the approvers, the gateway, the workflows and the skills do, `replayRun` does one of
  -- three things. It throws without making a row, just when the stored plan is missing, is empty or
  -- has a step that has not the kind of the one registry that has its slug. Or the loop over the
  -- stored steps comes back, from the new row, and then the row is left `completed` or `failed` with
  -- its narrative, even if the gateway throws behind that. Or the loop throws, at whichever step,
  -- and then `replayRun` throws that same error and leaves the row as the loop left it: `running` or
  -- `awaiting_approval`, with no narrative.
  pub replay_run-IsLeft :
      (g : Registries) (stored : Option (List StoredStep)) (w : World S)
      → IsLeft
          (IsReplayable g stored)
          (replay_steps env services (get_or_else stored []) 0 (new_row env services w))
          (replay_run env services g stored w)
  unfolding replay_run replay_body
  replay_run-IsLeft g none w = λ absent. absent
  replay_run-IsLeft g (some []) w = λ empty. empty
  replay_run-IsLeft g (some (s ∷ ss)) w =
      let row = new_row env services w in
      elim (create_replay-AllExact g (map identity (s ∷ ss)) (λ v. (ok (new_row env services v), v))
        w) [
          | inl (exact, same) ↦
              rw (replay_run, same)
                (looped-IsLeft (length (s ∷ ss)) (replay_steps env services (s ∷ ss) 0 row) exact
                  (replay_steps-IsOpen env services (s ∷ ss) 0 row (refl, refl)))
          | inr (other, (e, same)) ↦ rw (replay_run, same) other
        ]
