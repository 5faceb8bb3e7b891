-- ===== src/Execution/Turn/Ends/Turns.antt =====
-- The end of async_execute, from the end of its events on.
use harness_runtime.Base.{
  ℕ, String, Bool, true, false, ◌≡◌, ◌≢◌, refl, sym, ◌⊎◌, inl, inr, Option, some, none, [],
  if◌then◌else◌, ◌==◌,
}
use mathlib.Core.Path.{subst}
use harness_runtime.Value.Errors.{Error}
use harness_runtime.Publisher.{
  Call, ResultArgs, Outcome, completed, failed, cancelled, publish_turn_end,
}
use harness_runtime.Execution.World as World
use harness_runtime.Execution.World.{
  Env, M, after, Thrown, exception, cancellation, ◌>>=◌, pure, throw, get_state, publish,
  publish_all, tick, report_if, throttled, post_as_sandbox, store_stopped, stamp,
}
use harness_runtime.Execution.World.Rules.{
  Keeps, Rule, keep_pure, keep_lift, keep_bind, keep_if, keep_get_state, keep_throw, keep_report_if,
  Leads, IsBody, if-Leads, bind-Leads, keep-Leads, pure-Leads,
}
use harness_runtime.Execution.Turn.{
  Turn, Wait, passes, fails, is_cancelled, cancelled_read, wait, tolerant, handle_initial_setup,
  report_end, publish_success, publish_failure, run_turn, finish_turn, on_thrown, caught,
  async_execute, cancelled_args,
}
use harness_runtime.Execution.Turn.Ends.{AllBody, AllBody-snoc, Speaking, speaking}
use harness_runtime.Execution.Turn.Ends.Once.{Ended, ending, Handled, run_events-Handled}
use harness_runtime.Execution.Turn.Ends.Calm.{
  Calm, bind-Calm, pure-Calm, report_end-Calm, stamp-Calm,
}

-- Of the `try` of a turn: it returned with an end, or threw with none yet.
abbrev Tried : World.Outcome String × World.World → Type 0
Tried (World.returned text, w) =
    Ended "interrupted" completed w.calls ⊎ Ended "success" completed w.calls
Tried (World.threw t, w) = AllBody w.calls

module _ (env : Env) where
  rule : Rule env Speaking
  rule = speaking env

  keep_wait : (x : Wait) → Keeps Speaking (wait x)
  unfolding wait
  keep_wait passes = keep_pure tt
  keep_wait (fails e) = keep_throw _
  keep_wait is_cancelled = keep_throw _

  setup-Kept : (turn : Turn) → Keeps Speaking (handle_initial_setup env turn)
  unfolding handle_initial_setup
  setup-Kept turn =
      keep_bind (keep_lift _) (λ tools. keep_bind (rule.published _ tt) (λ a. rule.published _ tt))

  report_end-Kept : Keeps Speaking (report_end env)
  unfolding report_end
  report_end-Kept = keep_bind keep_get_state (λ s.
      keep_bind
        (keep_if s.unanswered_question (rule.posted _)
          (keep_if s.replied (rule.posted _) (keep_pure tt)))
        (λ a. keep_report_if _ rule))

  -- The end of a turn, and what it returns.
  end_then :
      {A : Type 0} (outcome : Outcome) (error : Option String) (args : ResultArgs) (a : A)
      (subtype : String)
      → args.subtype ≡ subtype
      → Leads Speaking
          (Calm (Ended subtype outcome))
          (publish_all (publish_turn_end outcome error args) >>= λ _. pure a)
  unfolding publish_all ◌>>=◌ pure
  end_then outcome error args a subtype named = record {
    leads = λ w h. rw (← named) (ending outcome error args w.calls h);
  }

  publish-Calm : (c : Call) → IsBody c → Leads Speaking (Calm AllBody) (publish c)
  unfolding publish
  publish-Calm c body = record { leads = λ w h. AllBody-snoc w.calls c h body }

  get_state-Calm : Leads Speaking (Calm AllBody) get_state
  unfolding get_state
  get_state-Calm = record { leads = λ w h. h }

  tick-Calm : Leads Speaking (Calm AllBody) tick
  unfolding tick
  tick-Calm = record { leads = λ w h. h }

  success-Calm : Leads Speaking (Calm (Ended "success" completed)) (publish_success env)
  unfolding publish_success
  success-Calm =
      let goal = Calm (Ended "success" completed) {A = String} in
      bind-Calm AllBody goal tick-Calm (λ n. bind-Calm AllBody goal get_state-Calm (λ s.
        bind-Calm AllBody goal
          (if-Leads (s.streamed_text == "") (pure-Calm AllBody tt) (publish-Calm _ tt))
          (λ a.
            bind-Calm AllBody goal (publish-Calm _ tt)
              (λ b. end_then completed none _ s.streamed_text "success" refl))))

  failure-Calm :
      (e : Error)
      → Leads Speaking (Calm (Ended "error_during_execution" failed)) (publish_failure env e)
  unfolding publish_failure
  failure-Calm e =
      let goal = Calm (Ended "error_during_execution" failed) {A = String} in
      bind-Calm AllBody goal tick-Calm (λ n.
        bind-Calm AllBody goal (publish-Calm _ tt)
          (λ b. end_then failed _ _ "" "error_during_execution" refl))

  -- The end of the `try`, by whether the events were handled to their end.
  module _ (turn : Turn) (sends : (n : ℕ) → env.sends n ≡ true)
      (kept : turn.snapshot ≢ cancelled_read) where
    drained-Tried : Leads Speaking Tried (finish_turn env turn)
    unfolding finish_turn
    drained-Tried =
        keep-Leads (λ w t h. h) (keep_wait turn.ends)
          (λ a.
            keep-Leads (λ w t h. h) (keep_wait (tolerant turn.stall_check))
              (λ b.
                keep-Leads (λ w t h. h) report_end-Kept
                  (λ c. bind-Calm (Ended "success" completed) Tried success-Calm (λ final.
                    bind-Calm (Ended "success" completed) Tried
                      (stamp-Calm (Ended "success" completed) env sends turn.snapshot kept)
                      (λ d. pure-Leads final (λ w h. inr h))))))

    tried :
        (r : World.Outcome Bool × World.World)
        → Handled r
        → Tried (
            after r (λ drained.
              if drained then finish_turn env turn else (report_end env >>= λ _. pure "")))
    tried (World.returned true, w) h = drained-Tried.leads w h
    tried (World.returned false, w) h =
        (bind-Calm (Ended "interrupted" completed) Tried
            (report_end-Calm (Ended "interrupted" completed) env sends)
            (λ a. pure-Leads "" (λ v k. inl k))).leads
          w h
    tried (World.threw t, w) h = h

    run_turn-Tried : Leads Speaking Tried (run_turn env turn)
    unfolding run_turn
    run_turn-Tried =
        keep-Leads (λ w t h. h) (setup-Kept turn)
          (λ a.
            keep-Leads (λ w t h. h) (keep_wait turn.starts)
              (λ b.
                bind-Leads Handled _
                  (record { leads = λ w h. run_events-Handled env turn.events w h }) tried))

-- How a turn ended: with a question, with a reply, or by an exception, it returned; when it was
-- cancelled, it threw the cancellation again, and nothing else.
abbrev pub TurnEnded : World.Outcome String × World.World → Type 0
TurnEnded (World.returned text, w) =
    Ended "interrupted" completed w.calls
    ⊎ Ended "success" completed w.calls
    ⊎ Ended "error_during_execution" failed w.calls
TurnEnded (World.threw t, w) = (t ≡ cancellation) × Ended "cancelled" cancelled w.calls

module _ (env : Env) where
  failed_end :
      (r : World.Outcome String × World.World)
      → Calm (Ended "error_during_execution" failed) r
      → TurnEnded r
  failed_end (World.returned text, w) h = inr (inr h)
  failed_end (World.threw t, w) h = absurd h

  store_stopped-Calm : Leads Speaking (Calm AllBody) (store_stopped env)
  unfolding store_stopped
  store_stopped-Calm = record { leads = λ w h. h }

  cancelled_end : Leads Speaking TurnEnded (
      publish_all
        (publish_turn_end cancelled (some "Execution cancelled by user") (cancelled_args env))
      >>= λ _. throw cancellation)
  unfolding publish_all ◌>>=◌ throw
  cancelled_end = record {
    leads = λ v k. (
      refl,
      ending cancelled (some "Execution cancelled by user") (cancelled_args env) v.calls k,
    );
  }

  cancelled-Ended : (w : World.World) → AllBody w.calls → TurnEnded (on_thrown env cancellation w)
  unfolding on_thrown
  cancelled-Ended w h =
      (bind-Calm AllBody TurnEnded (if-Leads env.has_pool store_stopped-Calm (pure-Calm AllBody tt))
          (λ a. cancelled_end)).leads
        w h

  caught-Ended : (r : World.Outcome String × World.World) → Tried r → TurnEnded (caught env r)
  caught-Ended (World.returned text, w) (inl h) = inl h
  caught-Ended (World.returned text, w) (inr h) = inr (inl h)
  caught-Ended (World.threw (exception e), w) h =
      unfold on_thrown in failed_end (publish_failure env e w) ((failure-Calm env e).leads w h)
  caught-Ended (World.threw cancellation, w) h = cancelled-Ended w h

-- Whatever events the graph streams, whatever they hold, whether Postgres answers, and however the
-- stream ends or fails, a turn ends exactly once: among its calls of the publisher there is one
-- result, it is followed by one event that closes the turn, and these are the last two. A turn that
-- the user cancels throws the cancellation again, and every other turn returns. Two conditions are
-- set: the reports of a turn can be handed to their thread, and the user does not cancel while the
-- checkpoint of an ended turn is read.
pub async_execute-TurnEnded :
    (env : Env) (turn : Turn) (w : World.World)
    → w.calls ≡ []
    → ((n : ℕ) → env.sends n ≡ true)
    → turn.snapshot ≢ cancelled_read
    → TurnEnded (async_execute env turn w)
unfolding async_execute
async_execute-TurnEnded env turn w new sends kept =
    caught-Ended env (run_turn env turn w)
      ((run_turn-Tried env turn sends kept).leads w (subst AllBody (sym new) tt))
