-- ===== src/Execution/Turn/Streamed.antt =====
-- What a client reads of the end of a turn: core/execution/executor.py through api/publisher.py, with
-- what _run_turn_async and _wake_async of api/routers/sessions.py publish after it.
use harness_runtime.Base.{
  some, ◌⊎◌, ℕ, ◌+◌, String, true, false, ◌≡◌, refl, ap, ◌∙◌, ◌≢◌, inl, inr, Option, List, [], ◌∷◌,
  ◌++◌, append_assoc, get_or,
}
use harness_runtime.Publisher.{
  Call, ResultArgs, Outcome, completed, failed, cancelled, publish_turn_end,
}
use harness_runtime.Sse.Frames.{
  Body, Entry, frame, event, result_frame, sentinel, message_end_usage, completed as completed_body,
  failed as failed_body, cancelled as cancelled_body,
}
use harness_runtime.Sse.{
  SsePublisher, fresh, perform, perform_all, close, emit, write, xadd, publish_result,
}
use harness_runtime.Sse.Blocks.{always}
use harness_runtime.Sse.Blocks.Steps.{perform_all-Agrees}
use harness_runtime.Router.Turns as Turns
use harness_runtime.Router.Turns.{results}
use harness_runtime.Execution.World as World
use harness_runtime.Execution.Turn.{Env, default_result, Turn, cancelled_read, async_execute}
use harness_runtime.Execution.Turn.Ends.Once.{Ended}
use harness_runtime.Execution.Turn.Ends.Turns.{async_execute-TurnEnded, TurnEnded}

-- The event that closes the turn's life.
abbrev pub closing_body : Outcome → Option String → Body
closing_body completed error = completed_body
closing_body failed error = failed_body (get_or error "")
closing_body cancelled error = cancelled_body (get_or error "Execution cancelled by user")

perform_all-append :
    (xs ys : List Call) (p : SsePublisher)
    → perform_all always (xs ++ ys) p ≡ perform_all always ys (perform_all always xs p)
unfolding perform_all
perform_all-append [] ys p = refl
perform_all-append (x ∷ xs) ys p = perform_all-append xs ys (perform always x p)

-- What the router's except clauses add to a turn. Of its exceptions only a cancellation leaves the
-- executor.
abbrev pub router_calls : World.Env → World.Outcome String → List Call
router_calls env (World.returned text) = results Turns.completed
router_calls env (World.threw World.cancellation) = results Turns.cancelled
router_calls env (World.threw (World.exception e)) = results (Turns.failed (env.error_text e))

-- The stream of a turn that has its publisher to itself, once the router has closed it.
abbrev pub stream_after :
    World.Env → String → List Entry → World.Outcome String × World.World → List Entry
stream_after env session_id old r =
    (close always
      (perform_all always (r.1.calls ++ router_calls env r.0) (fresh session_id old))).stream

-- The entries read last: a result, an event that closes the turn, and the sentinel.
abbrev pub one_result : Body → ResultArgs → ℕ → List Entry
one_result body args n = frame (result_frame args) ∷ frame (event n body) ∷ sentinel ∷ []

abbrev pub by_user : ResultArgs
by_user = record default_result {
  subtype = "cancelled";
  is_error = true;
  result = some "Turn cancelled by user";
}

-- The entries read last of a cancelled turn: a result, the event that closes the turn, a second
-- result with its usage, and the sentinel.
abbrev pub two_results : Body → ResultArgs → ℕ → List Entry
two_results body args n =
    frame (result_frame args)
    ∷ frame (event n body)
    ∷ frame (event (n + 1) message_end_usage)
    ∷ frame (result_frame by_user)
    ∷ sentinel
    ∷ []

-- The stream ends with these entries, for a result of the subtype.
pub record Reads (subtype : String) (last : ResultArgs → ℕ → List Entry) (stream : List Entry)
    : Type 0 where
  pub args : ResultArgs
  pub named : args.subtype ≡ subtype
  pub front : List Entry
  pub seq : ℕ
  pub stream_lem : stream ≡ front ++ last args seq

end-one_result :
    (outcome : Outcome) (error : Option String) (args : ResultArgs) (p : SsePublisher)
    → p.closed ≡ false
    → (close always (perform_all always (publish_turn_end outcome error args ++ []) p)).stream
      ≡ (p.stream ++ frame (event (p.seq + 1) message_end_usage) ∷ [])
        ++ one_result (closing_body outcome error) args (p.seq + 1 + 1)
unfolding publish_turn_end perform_all perform publish_result emit write xadd close
end-one_result completed error args p h = rw h (simp (append_assoc, one_result))
end-one_result failed error args p h = rw h (simp (append_assoc, one_result))
end-one_result cancelled error args p h = rw h (simp (append_assoc, one_result))

end-two_results :
    (error : Option String) (args : ResultArgs) (p : SsePublisher)
    → p.closed ≡ false
    → (close always (
        perform_all always
          (publish_turn_end cancelled error args ++ results Turns.cancelled)
          p)).stream
      ≡ (p.stream ++ frame (event (p.seq + 1) message_end_usage) ∷ [])
        ++ two_results (closing_body cancelled error) args (p.seq + 1 + 1)
unfolding publish_turn_end perform_all perform publish_result emit write xadd close results
end-two_results error args p h = rw h (simp (append_assoc, two_results))

module _ (session_id : String) (old : List Entry) where
  -- The calls of a turn that ended, and then the router's.
  Ended-Reads :
      (subtype : String) (outcome : Outcome) (calls more : List Call)
      (last : Option String → ResultArgs → ℕ → List Entry)
      → ((error : Option String) (args : ResultArgs) (p : SsePublisher)
          → p.closed ≡ false
          → (close always
              (perform_all always (publish_turn_end outcome error args ++ more) p)).stream
            ≡ (p.stream ++ frame (event (p.seq + 1) message_end_usage) ∷ [])
              ++ last error args (p.seq + 1 + 1))
      → (e : Ended subtype outcome calls)
      → Reads subtype
          (last e.turn_end.error)
          (close always (perform_all always (calls ++ more) (fresh session_id old))).stream
  Ended-Reads subtype outcome calls more last step e =
      let t = e.turn_end in
      let end_calls = publish_turn_end outcome t.error e.args in
      let p = perform_all always t.body (fresh session_id old) in
      let h = perform_all-Agrees session_id old t.body in
      record {
        args = e.args;
        named = e.named;
        front = p.stream ++ frame (event (p.seq + 1) message_end_usage) ∷ [];
        seq = p.seq + 1 + 1;
        stream_lem =
            ap (λ cs. (close always (perform_all always cs (fresh session_id old))).stream)
              (ap (λ cs. cs ++ more) t.ended ∙ append_assoc t.body end_calls more)
            ∙ ap (λ q. (close always q).stream)
                (perform_all-append t.body (end_calls ++ more) (fresh session_id old))
            ∙ step t.error e.args p h.sees.is_open;
      }

-- How the stream of a turn ends: with one result, of its question, its answer or its failure, or, where
-- the turn was cancelled, with the executor's result and then the router's.
abbrev pub ReadsEnd : World.Env → String → List Entry → World.Outcome String × World.World → Type 0
ReadsEnd env session_id old (World.returned text, w) =
    let stream = stream_after env session_id old (World.returned text, w) in
    Reads "interrupted" (one_result completed_body) stream
    ⊎ Reads "success" (one_result completed_body) stream
    ⊎ ((error : String) × Reads "error_during_execution" (one_result (failed_body error)) stream)
ReadsEnd env session_id old (World.threw t, w) =
    (reason : String) × Reads "cancelled" (two_results (cancelled_body reason))
      (stream_after env session_id old (World.threw t, w))

module _ (session_id : String) (old : List Entry) where
  of_turn :
      (env : World.Env) (r : World.Outcome String × World.World)
      → TurnEnded r
      → ReadsEnd env session_id old r
  unfolding results
  of_turn env (World.returned text, w) (inl e) = inl (
      Ended-Reads session_id old "interrupted" completed w.calls []
        (λ error. one_result completed_body) (end-one_result completed) e)
  of_turn env (World.returned text, w) (inr (inl e)) = inr (
      inl (
        Ended-Reads session_id old "success" completed w.calls []
          (λ error. one_result completed_body) (end-one_result completed) e))
  of_turn env (World.returned text, w) (inr (inr e)) = inr (
      inr (
        _,
        Ended-Reads session_id old "error_during_execution" failed w.calls []
            (λ error. one_result (failed_body (get_or error ""))) (end-one_result failed) e,
      ))
  of_turn env (World.threw World.cancellation, w) h = (
    _,
    Ended-Reads session_id old "cancelled" cancelled w.calls (results Turns.cancelled)
        (λ error. two_results (cancelled_body (get_or error "Execution cancelled by user")))
        end-two_results h.1,
  )
  of_turn env (World.threw (World.exception e), w) h =
      absurd (let e : World.exception e ≡ World.cancellation = h.0 in cc)

  -- From its agent's events to its client's stream: with Redis taking every write, the stream of a turn
  -- that has its publisher to itself ends, once the router has closed it, with the turn's result, the
  -- event that closes the turn, and the sentinel, in this order, the result being that of a question,
  -- a success or a failure; where the turn was cancelled, the router's own result follows the closing
  -- event. The conditions on the turn are those under which it ends once: its reports can be handed to
  -- their thread, and no cancellation comes while the checkpoint of the ended turn is read.
  pub async_execute-ReadsEnd :
      (env : World.Env) (turn : Turn) (w : World.World)
      → w.calls ≡ []
      → ((n : ℕ) → env.sends n ≡ true)
      → turn.snapshot ≢ cancelled_read
      → ReadsEnd env session_id old (async_execute env turn w)
  async_execute-ReadsEnd env turn w new sends kept =
      of_turn env (async_execute env turn w) (async_execute-TurnEnded env turn w new sends kept)
