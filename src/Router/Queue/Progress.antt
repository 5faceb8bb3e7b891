-- ===== src/Router/Queue/Progress.antt =====
-- The waiting for the turn lock of api/routers/sessions.py: schedules that end it.
use harness_runtime.Base.{
  ℕ, zero, suc, ◌≤◌, ◌<◌, String, true, false, not, ◌≡◌, refl, sym, ap, ◌∙◌, Option, none, some,
  inl, inr, List, [], ◌∷◌, arith, nat_eq, if_ind, length, length-keep-le, Bool-cases,
}
use mathlib.Core.Path.{subst}
use harness_runtime.Store.Chat.{ChatRow}
use harness_runtime.Router.{
  Work, turn, wake, Stage, ready, waiting, checking, attaching, working, done, Router, holds,
  is_waiting,
}
use harness_runtime.Router.Turns.{cancelled, Ending, finish, end_task, grant, entered}
use harness_runtime.Router.Steps.{
  Schedule-trans, Schedule-Steps, idle, then_step, Schedule, Step, grants, here, next, Reach,
}
use harness_runtime.Router.Lock.{IsLocked}
use harness_runtime.Router.Lock.Reached.{Steps-IsLocked, Reach-IsLocked}
use harness_runtime.Router.Queue.{IsQueued}
use harness_runtime.Router.Queue.Frees.{Keeps, schedule_wake-Keeps, known, frees}
use harness_runtime.Router.Queue.Reached.{Steps-IsQueued, Reach-IsQueued}

-- A state after `r`, reached by steps in which every cancellation takes effect, in which the task `i` has
-- the lock.
abbrev pub LockReached : Router → ℕ → Type 0
LockReached r i = (s : Router) × Schedule r s × (holds (s.tasks i).stage ≡ true)

waiting_at : (stage : Stage) → is_waiting stage ≡ true → (p : Option ℕ) × (stage ≡ waiting p)
waiting_at (waiting p) h = (p, refl)
waiting_at ready h = cc
waiting_at checking h = cc
waiting_at (attaching p) h = cc
waiting_at (working p) h = cc
waiting_at done h = cc

holds-entered : (work : Work) (p : Option ℕ) → holds (entered work p) ≡ true
holds-entered wake p = refl
holds-entered (turn content role attachments) none = refl
holds-entered (turn content role attachments) (some p) = refl

granted_self :
    (i : ℕ) (p : Option ℕ) (r : Router)
    → (r.tasks i).cancelled ≡ false
    → holds ((grant i p r).tasks i).stage ≡ true
unfolding grant
granted_self i p r wanted = ground (arith, wanted, holds-entered (r.tasks i).work p)

-- The first that waits leaves the queue, with the lock or, where it was cancelled, without it.
record Passes (r : Router) (o i : ℕ) (rest : List ℕ) (s : Router) : Type 0 where
  shorter : length (s.states o).queue ≤ length rest
  same : s.tasks i ≡ r.tasks i

along_pass :
    {r s t : Router} {o i : ℕ} {rest : List ℕ}
    → Passes r o i rest s
    → Keeps s o i t
    → Passes r o i rest t
along_pass h k = record {
  shorter = omega (arith, h.shorter, ap length k.queue);
  same = k.task ∙ h.same;
}

module _ (k i : ℕ) (r : Router) (o : ℕ) (rest : List ℕ) (own : (r.tasks k).owner ≡ o)
    (e : (r.states o).queue ≡ k ∷ rest) (other : nat_eq k i ≡ false) where
  end_task-Passes : (ending : Ending) → Passes r o i rest (end_task k ending r)
  unfolding end_task
  end_task-Passes ending = record {
    shorter = ground (arith, own, e, length-keep-le (λ j. not (nat_eq j k)) rest);
    same = ground (arith, other);
  }

  finish-Passes : (ending : Ending) → i < r.next_task → Passes r o i rest (finish k ending r)
  unfolding finish
  finish-Passes ending lt =
      let left = end_task-Passes ending in
      if_ind (λ (s : Router). Passes r o i rest s) _
        (λ _.
          along_pass left (
            schedule_wake-Keeps (r.tasks k).owner (end_task k ending r) o i
              (unfold end_task in lt)))
        (λ _. left)

  grant-Passes : (p : Option ℕ) → i < r.next_task → Passes r o i rest (grant k p r)
  unfolding grant
  grant-Passes p lt =
      if_ind (λ (s : Router). Passes r o i rest s) (r.tasks k).cancelled
        (λ _. finish-Passes cancelled lt)
        (λ _. record {
          shorter = ground (arith, own, e, length-keep-le (λ j. not (nat_eq j k)) rest);
          same = ground (arith, other);
        })

nat_eq-eq : (a b : ℕ) → nat_eq a b ≡ true → a ≡ b
nat_eq-eq a b h = ground (arith, h)

-- One step for the first that waits, and then the others.
serve_queue :
    (r : Router) (i : ℕ) (queue : List ℕ)
    → IsLocked r
    → IsQueued r
    → is_waiting (r.tasks i).stage ≡ true
    → (r.tasks i).cancelled ≡ false
    → (r.states (r.tasks i).owner).holder ≡ none
    → (r.states (r.tasks i).owner).queue ≡ queue
    → ((s : Router)
        → Step r s
        → s.tasks i ≡ r.tasks i
        → suc (length (s.states (r.tasks i).owner).queue) ≤ length queue
        → LockReached s i)
    → LockReached r i
serve_queue r i [] l v h wanted free e go = ground (arith, v.stands i h, e)
serve_queue r i (k ∷ rest) l v h wanted free e go =
    let o = (r.tasks i).owner in
    let w = v.waits o k (ground (arith, e)) in
    let (p, at) = waiting_at (r.tasks k).stage w.0 in
    let st =
      grants k p rest at (ap (λ u. (r.states u).holder) w.1 ∙ free)
        (ap (λ u. (r.states u).queue) w.1 ∙ e) in
    elim (Bool-cases (nat_eq k i)) [
      | inl same ↦ (
        grant k p r,
        then_step idle st refl,
        subst (λ j. holds ((grant k p r).tasks j).stage ≡ true) (nat_eq-eq k i same)
            (granted_self k p r
              (subst (λ j. (r.tasks j).cancelled ≡ false) (sym (nat_eq-eq k i same)) wanted)),
      )
      | inr other ↦
          let passed = grant-Passes k i r o rest w.1 e other p (known r i l h) in
          let (s, steps, held) = go (grant k p r) st passed.same (omega (arith, passed.shorter)) in
          (s, Schedule-trans (then_step idle st refl) steps, held)
    ]

gets :
    (n : ℕ) (r : Router) (i : ℕ)
    → IsLocked r
    → IsQueued r
    → is_waiting (r.tasks i).stage ≡ true
    → (r.tasks i).cancelled ≡ false
    → length (r.states (r.tasks i).owner).queue < n
    → LockReached r i
gets zero r i l v h wanted short = absurd (omega arith)
gets (suc n) r i l v h wanted short =
    let (s, f) = frees r i l v h (r.states (r.tasks i).owner).holder refl in
    let own = ap (λ t. t.owner) f.same in
    let ls = Steps-IsLocked (Schedule-Steps f.steps) l in
    let vs = Steps-IsQueued (Schedule-Steps f.steps) l v in
    let hs = subst (λ t. is_waiting t.stage ≡ true) (sym f.same) h in
    let ws = subst (λ t. t.cancelled ≡ false) (sym f.same) wanted in
    let (t, steps, held) =
      serve_queue s i (s.states (s.tasks i).owner).queue ls vs hs ws
        (ap (λ o. (s.states o).holder) own ∙ f.free) refl
        (λ t st same shorter.
          gets n t i (Steps-IsLocked (next here st) ls) (Steps-IsQueued (next here st) ls vs)
            (subst (λ u. is_waiting u.stage ≡ true) (sym same) hs)
            (subst (λ u. u.cancelled ≡ false) (sym same) ws)
            (omega (
              arith,
              shorter,
              f.shorter,
              ap (λ o. length (s.states o).queue) own,
              ap (λ u. length (t.states u.owner).queue) same,
            ))) in
    (t, Schedule-trans f.steps steps, held)

-- No turn waits for ever: in every state that a session can reach, whatever tasks were cancelled or
-- have failed, a task that waits for the turn lock and whose own cancellation was not asked for can
-- get it: by steps in which the tasks before it come to an end, those that were cancelled by their
-- cancellation.
pub turn_gets_lock :
    {session_id : String} {chat : List ChatRow} {r : Router}
    → Reach session_id chat r
    → (i : ℕ) → is_waiting (r.tasks i).stage ≡ true
    → (r.tasks i).cancelled ≡ false
    → LockReached r i
turn_gets_lock {r} reached i h wanted =
    gets _ r i (Reach-IsLocked reached) (Reach-IsQueued reached) h wanted (below _)
  where
    below : (n : ℕ) → n < suc n
    below n = omega arith
