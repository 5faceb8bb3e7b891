-- ===== src/Router/Queue/Frees.antt =====
-- The turn lock of api/routers/sessions.py gets free: what its holder does to the end.
use harness_runtime.Base.{
  ltb, ℕ, ◌≤◌, ◌<◌, true, false, not, ◌≡◌, ◌≢◌, refl, ap, ◌∙◌, Option, none, some, inl, inr, arith,
  nat_eq, if_ind, length, length-keep-le, Bool-cases,
}
use mathlib.Core.Path.{subst}
use harness_runtime.Execution.Resume.{no_checkpointer, has_something_to_report}
use harness_runtime.Router.{
  Stage, ready, waiting, checking, attaching, working, done, Router, holds, is_waiting,
}
use harness_runtime.Router.Messages.{create_task, schedule_wake}
use harness_runtime.Router.Turns.{
  cancelled, Ending, completed, skipped, finish, end_task, check, attached,
}
use harness_runtime.Router.Steps.{
  interrupted, Schedule-trans, idle, then_step, Schedule, checks, attaches, ends, returns,
}
use harness_runtime.Router.Lock.{IsLocked}
use harness_runtime.Router.Queue.{IsQueued}

-- From `r` the lock of `o` gets free, before the task `i`, that waits for it, is touched.
pub record Freed (r : Router) (o i : ℕ) (s : Router) : Type 0 where
  pub steps : Schedule r s
  pub free : (s.states o).holder ≡ none
  pub shorter : length (s.states o).queue ≤ length (r.states o).queue
  pub same : s.tasks i ≡ r.tasks i

-- What a wake-up that is scheduled leaves alone.
pub record Keeps (r : Router) (o i : ℕ) (s : Router) : Type 0 where
  pub holder : (s.states o).holder ≡ (r.states o).holder
  pub queue : (s.states o).queue ≡ (r.states o).queue
  pub task : s.tasks i ≡ r.tasks i

pub schedule_wake-Keeps :
    (p : ℕ) (r : Router) (o i : ℕ) → i < r.next_task → Keeps r o i (schedule_wake p r)
unfolding schedule_wake create_task
schedule_wake-Keeps p r o i lt = record {
  holder = ground arith;
  queue = ground arith;
  task = ground arith;
}

-- A task that ends hands its lock on.
record Leaves (r : Router) (o i : ℕ) (s : Router) : Type 0 where
  free : (s.states o).holder ≡ none
  shorter : length (s.states o).queue ≤ length (r.states o).queue
  same : s.tasks i ≡ r.tasks i

end_task-Leaves :
    (j : ℕ) (e : Ending) (r : Router) (o i : ℕ)
    → (r.tasks j).owner ≡ o
    → (r.states o).holder ≡ some j
    → i ≢ j
    → Leaves r o i (end_task j e r)
unfolding end_task
end_task-Leaves j e r o i own held ne = record {
  free = ground (arith, own, held);
  shorter = ground (arith, own, length-keep-le (λ k. not (nat_eq k j)) (r.states o).queue);
  same = ground (arith, ne);
}

along : {r s t : Router} {o i : ℕ} → Leaves r o i s → Keeps s o i t → Leaves r o i t
along h k = record {
  free = k.holder ∙ h.free;
  shorter = omega (arith, h.shorter, ap length k.queue);
  same = k.task ∙ h.same;
}

finish-Leaves :
    (j : ℕ) (e : Ending) (r : Router) (o i : ℕ)
    → (r.tasks j).owner ≡ o
    → (r.states o).holder ≡ some j
    → i ≢ j
    → i < r.next_task
    → Leaves r o i (finish j e r)
unfolding finish
finish-Leaves j e r o i own held ne lt =
    let left = end_task-Leaves j e r o i own held ne in
    if_ind (λ (s : Router). Leaves r o i s) _
      (λ _.
        along left
          (schedule_wake-Keeps (r.tasks j).owner (end_task j e r) o i (unfold end_task in lt)))
      (λ _. left)

module _ (r : Router) (o i j : ℕ) (own : (r.tasks j).owner ≡ o)
    (held : (r.states o).holder ≡ some j) (ne : i ≢ j) (lt : i < r.next_task) where
  -- The task that holds the lock was cancelled.
  gives_up :
      holds (r.tasks j).stage ≡ true
      → (r.tasks j).cancelled ≡ true
      → Freed r o i (finish j cancelled r)
  gives_up h c =
      let left = finish-Leaves j cancelled r o i own held ne lt in
      record {
        steps = then_step idle (ends j cancelled (interrupted h c)) refl;
        free = left.free;
        shorter = left.shorter;
        same = left.same;
      }

  -- The task that holds the lock returns.
  works_on :
      (p : ℕ)
      → (r.tasks j).stage ≡ working p
      → (r.tasks j).cancelled ≡ false
      → Freed r o i (finish j completed r)
  works_on p e c =
      let left = finish-Leaves j completed r o i own held ne lt in
      record {
        steps = then_step idle (ends j completed (returns p e)) (ap not c);
        free = left.free;
        shorter = left.shorter;
        same = left.same;
      }

  -- A wake-up finds nothing to report.
  skips :
      (r.tasks j).stage ≡ checking
      → (r.tasks j).cancelled ≡ false
      → Freed r o i (check j false (λ id. none) (λ seen. false) no_checkpointer r)
  unfolding check has_something_to_report
  skips e c =
      let left = finish-Leaves j skipped r o i own held ne lt in
      record {
        steps =
            then_step idle (checks j false (λ id. none) (λ seen. false) no_checkpointer e)
              (ap not c);
        free = left.free;
        shorter = left.shorter;
        same = left.same;
      }

-- The task that holds the lock calls the model, and returns.
attaches_on :
    (r : Router) (o i j p : ℕ)
    → (r.tasks j).owner ≡ o
    → (r.states o).holder ≡ some j
    → i ≢ j
    → i < r.next_task
    → (r.tasks j).stage ≡ attaching p
    → (r.tasks j).cancelled ≡ false
    → (s : Router) × Freed r o i s
unfolding attached
attaches_on r o i j p own held ne lt e c =
    let s = attached j p r in
    let f =
      works_on s o i j (ground (arith, own)) (ground (arith, own, held)) ne lt p (ground (arith, e))
        (ground (arith, c)) in
    (
      finish j completed s,
      record {
        steps = Schedule-trans (then_step idle (attaches j p e) (ap not c)) f.steps;
        free = f.free;
        shorter = ground (arith, f.shorter, own);
        same = f.same ∙ ground (arith, ne);
      },
    )

-- A holder of the lock that was not cancelled gets through what is left of its work.
uncancelled_frees :
    (r : Router) (o i j : ℕ)
    → (r.tasks j).owner ≡ o
    → (r.states o).holder ≡ some j
    → i ≢ j
    → i < r.next_task
    → (stage : Stage) → (r.tasks j).stage ≡ stage
    → holds stage ≡ true
    → (r.tasks j).cancelled ≡ false
    → (s : Router) × Freed r o i s
uncancelled_frees r o i j own held ne lt checking e h c = (_, skips r o i j own held ne lt e c)
uncancelled_frees r o i j own held ne lt (working p) e h c =
    (_, works_on r o i j own held ne lt p e c)
uncancelled_frees r o i j own held ne lt (attaching p) e h c =
    attaches_on r o i j p own held ne lt e c
uncancelled_frees r o i j own held ne lt ready e h c = cc
uncancelled_frees r o i j own held ne lt (waiting p) e h c = cc
uncancelled_frees r o i j own held ne lt done e h c = cc

holder_frees :
    (r : Router) (o i j : ℕ)
    → (r.tasks j).owner ≡ o
    → (r.states o).holder ≡ some j
    → i ≢ j
    → i < r.next_task
    → holds (r.tasks j).stage ≡ true
    → (s : Router) × Freed r o i s
holder_frees r o i j own held ne lt h = elim (Bool-cases (r.tasks j).cancelled) [
  | inl c ↦ (_, gives_up r o i j own held ne lt h c)
  | inr c ↦ uncancelled_frees r o i j own held ne lt (r.tasks j).stage refl h c
]

differ :
    (r : Router) (i j : ℕ)
    → is_waiting (r.tasks i).stage ≡ true
    → holds (r.tasks j).stage ≡ true
    → i ≢ j
differ r i j w h e =
    unlike (r.tasks j).stage (subst (λ k. is_waiting (r.tasks k).stage ≡ true) e w) h
  where
    unlike : (stage : Stage) → is_waiting stage ≡ true → holds stage ≡ true → ⊥
    unlike (waiting p) w h = cc
    unlike ready w h = cc
    unlike checking w h = cc
    unlike (attaching p) w h = cc
    unlike (working p) w h = cc
    unlike done w h = cc

-- A task that waits has a number that is given.
pub known :
    (r : Router) (i : ℕ) → IsLocked r → is_waiting (r.tasks i).stage ≡ true → i < r.next_task
known r i l h = elim (Bool-cases (ltb i r.next_task)) [
  | inl yes_given ↦ ground (arith, yes_given)
  | inr unused ↦ ground (arith, l.unused i, h, unused)
]

-- In a state where the lock is free or gets so.
pub frees :
    (r : Router) (i : ℕ)
    → IsLocked r
    → IsQueued r
    → is_waiting (r.tasks i).stage ≡ true
    → (holder : Option ℕ) → (r.states (r.tasks i).owner).holder ≡ holder
    → (s : Router) × Freed r (r.tasks i).owner i s
frees r i l v h none e = (r, record { steps = idle; free = e; shorter = omega arith; same = refl })
frees r i l v h (some j) e =
    let w = v.works (r.tasks i).owner j e in
    holder_frees r (r.tasks i).owner i j w.1 e (differ r i j h w.0) (known r i l h) w.0
