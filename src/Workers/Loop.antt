-- ===== src/Workers/Loop.antt =====
-- `run_worker_loop` of src/workers/mod.rs. What the loop meets from outside is a list of turns: what
-- the shutdown flag says when it is read, how a waiting ends, and what the rest of the service does
-- to the database between two ticks.
use telegraph_center.Base.{
  ◌≡◌, ◌⊎◌, refl, sym, ap, ◌∙◌, Bool, true, false, List, [], ◌∷◌, ◌++◌, inl, inr,
}
use mathlib.Core.Path.{fun_ext}
use telegraph_center.Storage.Rows.{Db, Result, ok, err, StorageError}
use telegraph_center.Storage.Tx.{Op}
use telegraph_center.Workers.{WorkOutcome, worked, idle}

-- How `select!` ends: the interval has passed, the flag has changed, or its sender is gone.
pub data Wake : Type 0 where
  elapsed changed dropped : Wake

pub record Turn : Type 0 where
  pub between : Db → Db
  pub stop_before : Bool
  pub tick : Op WorkOutcome
  pub stop_after : Bool
  pub wake : Wake

-- Whether the loop has ended, by itself or with the error of a tick, when the turns are over.
pub data LoopState : Type 0 where
  running stopped : LoopState
  failed : StorageError → LoopState

-- After a tick: whether there is another turn, which is `rest`.
unfoldable pub after_tick : WorkOutcome → Bool → Wake → (Db → LoopState × Db) → Db → LoopState × Db
after_tick outcome true wake rest db = (stopped, db)
after_tick worked false wake rest db = rest db
after_tick idle false elapsed rest db = rest db
after_tick idle false changed rest db = rest db
after_tick idle false dropped rest db = (stopped, db)

unfoldable pub ticked :
    Bool → Wake → (Db → LoopState × Db) → Result WorkOutcome × Db → LoopState × Db
unfolding after_tick
ticked stop wake rest (err e, db) = (failed e, db)
ticked stop wake rest (ok outcome, db) = after_tick outcome stop wake rest db

unfoldable pub run_turn :
    Bool → Op WorkOutcome → Bool → Wake → (Db → LoopState × Db) → Db → LoopState × Db
unfolding ticked
run_turn true tick stop wake rest db = (stopped, db)
run_turn false tick stop wake rest db = ticked stop wake rest (tick db)

unfoldable pub run_worker_loop : List Turn → Db → LoopState × Db
unfolding run_turn
run_worker_loop [] db = (running, db)
run_worker_loop (turn ∷ turns) db =
    run_turn turn.stop_before turn.tick turn.stop_after turn.wake (run_worker_loop turns)
      (turn.between db)

stops :
    (before : Bool) (tick : Op WorkOutcome) (stop : Bool) (wake : Wake) (x y : Db → LoopState × Db)
    (db : Db)
    → (before ≡ true) ⊎ (stop ≡ true)
    → run_turn before tick stop wake x db ≡ run_turn before tick stop wake y db
unfolding run_turn ticked after_tick
stops true tick stop wake x y db h = refl
stops false tick stop wake x y db (inl h) = cc
stops false tick stop wake x y db (inr h) =
    ap (λ b. ticked b wake x (tick db)) h
    ∙ ended (tick db)
    ∙ sym (ap (λ b. ticked b wake y (tick db)) h)
  where
    ended : (q : Result WorkOutcome × Db) → ticked true wake x q ≡ ticked true wake y q
    ended (err e, d) = refl
    ended (ok worked, d) = refl
    ended (ok idle, d) = refl

-- Once the loop reads that it is to stop, before a turn or right after its tick, no tick of a later
-- turn is started: whatever the later turns are, the result is that without them.
pub run_worker_loop-stops :
    (turns : List Turn) (last : Turn) (later : List Turn) (db : Db)
    → (last.stop_before ≡ true) ⊎ (last.stop_after ≡ true)
    → run_worker_loop (turns ++ last ∷ later) db ≡ run_worker_loop (turns ++ last ∷ []) db
unfolding run_worker_loop
run_worker_loop-stops [] last later db h =
    stops last.stop_before last.tick last.stop_after last.wake _ _ (last.between db) h
run_worker_loop-stops (turn ∷ turns) last later db h =
    ap (λ k. run_turn turn.stop_before turn.tick turn.stop_after turn.wake k (turn.between db))
      (fun_ext (λ d. run_worker_loop-stops turns last later d h))
