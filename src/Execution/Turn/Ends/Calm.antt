-- ===== src/Execution/Turn/Ends/Calm.antt =====
-- Computations that return: what they find, they leave.
use harness_runtime.Base.{ℕ, String, Bool, true, ◌≡◌, ◌≢◌, refl, List, not, ◌&&◌, ◌==◌}
use harness_runtime.Publisher.{Call}
use harness_runtime.Reports.Throttle as Throttle
use harness_runtime.Execution.World as World
use harness_runtime.Execution.World.{
  Env, M, after, Thrown, exception, cancellation, ◌>>=◌, pure, throw, get_state, publish,
  publish_all, tick, report_if, throttled, post_as_sandbox, store_stopped, stamp,
}
use harness_runtime.Execution.World.Rules.{Leads, if-Leads, bind-Leads, pure-Leads}
use harness_runtime.Execution.Turn.{
  Snapshot, cancelled_read, unreadable, no_checkpoint, checkpoint_id, report_end,
  stamp_turn_checkpoint,
}

-- A computation that returns, with a property that it found.
abbrev pub Calm : (P : List Call → Type 0) {A : Type 0} → World.Outcome A × World.World → Type 0
Calm P (World.returned a, w) = P w.calls
Calm P (World.threw t, w) = ⊥

module _ (P : List Call → Type 0) where
  abbrev pub Found : World.World → Type 0
  Found w = P w.calls

  after-Calm :
      {A B : Type 0} (Q : World.Outcome B × World.World → Type 0)
      (r : World.Outcome A × World.World) (f : A → M B)
      → Calm P r
      → ((a : A) → Leads Found Q (f a))
      → Q (after r f)
  after-Calm Q (World.returned a, w) f h k = (k a).leads w h
  after-Calm Q (World.threw t, w) f h k = absurd h

  pub bind-Calm :
      {A B : Type 0} {S : World.World → Type 0} {m : M A}
      (Q : World.Outcome B × World.World → Type 0) {f : A → M B}
      → Leads S (Calm P) m
      → ((a : A) → Leads Found Q (f a))
      → Leads S Q (m >>= f)
  bind-Calm Q {f} h k = bind-Leads (Calm P) f h (λ r c. after-Calm Q r f c k)

  pub pure-Calm : {A : Type 0} (a : A) → Leads Found (Calm P) (pure a)
  pure-Calm a = pure-Leads a (λ w h. h)

  module _ (env : Env) (sends : (n : ℕ) → env.sends n ≡ true) where
    pub post-Calm : (route : String) → Leads Found (Calm P) (post_as_sandbox env route)
    unfolding post_as_sandbox
    post-Calm route = record { leads = λ w h. rw (sends w.ticks) h }

    pub report_if-Calm :
        (step : ℕ → Throttle.Slots → Bool × Throttle.Slots)
        → Leads Found (Calm P) (report_if env step)
    unfolding report_if throttled
    report_if-Calm step =
        bind-Calm (Calm P) (record { leads = λ w h. h })
          (λ sent. if-Leads sent (post-Calm _) (pure-Calm tt))

    pub report_end-Calm : Leads Found (Calm P) (report_end env)
    unfolding report_end get_state
    report_end-Calm =
        bind-Calm (Calm P) (record { leads = λ w h. h })
          (λ s.
            bind-Calm (Calm P)
              (if-Leads s.unanswered_question (post-Calm _)
                (if-Leads s.replied (post-Calm _) (pure-Calm tt)))
              (λ a. report_if-Calm _))

    pub stamp-Calm :
        (snapshot : Snapshot)
        → snapshot ≢ cancelled_read
        → Leads Found (Calm P) (stamp_turn_checkpoint env snapshot)
    unfolding stamp_turn_checkpoint
    stamp-Calm unreadable h = pure-Calm tt
    stamp-Calm no_checkpoint h = pure-Calm tt
    stamp-Calm (checkpoint_id id) h =
        if-Leads (env.has_pool && not (id == "")) (unfold stamp in record { leads = λ w k. k })
          (pure-Calm tt)
    stamp-Calm cancelled_read h = absurd (h refl)
