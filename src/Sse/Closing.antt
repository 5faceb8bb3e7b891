-- ===== src/Sse/Closing.antt =====
-- The end of a publisher of api/publisher.py: the sentinel, what is written after it, and how long
-- the stream stays.
use harness_runtime.Base.{
  ℕ, String, Bool, true, false, ◌≡◌, refl, Option, some, List, [], ◌∷◌, ◌++◌, ◌==◌, arith,
  if◌then◌else◌,
}
use harness_runtime.Publisher.{
  Call, result, ResultArgs, lifecycle_completed, checkpoint, message_finish,
}
use harness_runtime.Sse.Frames.{Entry, sentinel}
use harness_runtime.Sse.Calls.{Rule, FrameRule, perform_plain_ind, perform_all_ind}
use harness_runtime.Sse.{
  SsePublisher, fresh, xadd, write, emit, perform, perform_all, publish_result, close,
  waiting_turn_ttl_seconds, finished_turn_ttl_seconds,
}

-- The publisher is closed and its stream is `s`, to expire after `t`.
pub record IsClosed (s : List Entry) (t : Option ℕ) (p : SsePublisher) : Type 0 where
  pub closed : p.closed ≡ true
  pub stream : p.stream ≡ s
  pub ttl : p.ttl ≡ t

closing : (accepts : ℕ → Bool) (s : List Entry) (t : Option ℕ) → Rule accepts (IsClosed s t)
unfolding emit write
closing accepts s t = record {
  frames = record {
    framed = λ b p h. ground arith;
    flags = λ p m b i c h. record { closed = h.closed; stream = h.stream; ttl = h.ttl };
  };
  waits = λ p w h. record { closed = h.closed; stream = h.stream; ttl = h.ttl };
  resulted = λ args p h. ground arith;
}

abbrev pub ttl_of : Bool → ℕ
ttl_of waiting = if waiting then waiting_turn_ttl_seconds else finished_turn_ttl_seconds

close-IsClosed :
    (accepts : ℕ → Bool) (s : List Entry) (t : Option ℕ) (p : SsePublisher)
    → IsClosed s t p
    → IsClosed s t (close accepts p)
unfolding close
close-IsClosed accepts s t p h = ground arith

close-IsClosed_open :
    (accepts : ℕ → Bool) (p : SsePublisher)
    → p.closed ≡ false
    → accepts p.attempts ≡ true
    → IsClosed (p.stream ++ sentinel ∷ []) (some (ttl_of p.awaiting_user)) (close accepts p)
unfolding close xadd
close-IsClosed_open accepts p is_open accepted = ground arith

-- Once an open publisher is closed, with Redis accepting the sentinel, the sentinel is the last entry
-- of its stream, and stays the last: any calls after it, and a second close, leave the stream and
-- its expiry as they are.
pub close_final :
    (accepts : ℕ → Bool) (p : SsePublisher) (late : List Call)
    → p.closed ≡ false
    → accepts p.attempts ≡ true
    → IsClosed
        (p.stream ++ sentinel ∷ [])
        (some (ttl_of p.awaiting_user))
        (close accepts (perform_all accepts late (close accepts p)))
close_final accepts p late is_open accepted =
    close-IsClosed accepts _ _ _ (
      perform_all_ind (closing accepts _ _) late _ (close-IsClosed_open accepts p is_open accepted))

-- Whether the last result among the calls, if there is one, ended the turn on a question.
abbrev pub ends_on_question : Bool → List Call → Bool
ends_on_question waiting [] = waiting
ends_on_question waiting (result args ∷ cs) = ends_on_question (args.subtype == "interrupted") cs
ends_on_question waiting (c ∷ cs) = ends_on_question waiting cs

-- The publisher is open, and waits for the user or not.
record IsOpen (waiting : Bool) (p : SsePublisher) : Type 0 where
  is_open : p.closed ≡ false
  waits : p.awaiting_user ≡ waiting

module _ (accepts : ℕ → Bool) where
  opening : (waiting : Bool) → FrameRule accepts (IsOpen waiting)
  unfolding emit write xadd
  opening waiting = record {
    framed = λ b p h. ground arith;
    flags = λ p m b i c h. record { is_open = h.is_open; waits = h.waits };
  }

  result-IsOpen :
      (args : ResultArgs) (p : SsePublisher)
      → p.closed ≡ false
      → IsOpen (args.subtype == "interrupted") (perform accepts (result args) p)
  unfolding perform
  result-IsOpen args p h = unfold publish_result emit write xadd in ground arith

  perform_all-IsOpen :
      (calls : List Call) (waiting : Bool) (p : SsePublisher)
      → IsOpen waiting p
      → IsOpen (ends_on_question waiting calls) (perform_all accepts calls p)
  unfolding perform_all
  perform_all-IsOpen [] waiting p h = h
  perform_all-IsOpen (result args ∷ cs) waiting p h =
      perform_all-IsOpen cs _ (perform accepts (result args) p) (result-IsOpen args p h.is_open)
  perform_all-IsOpen (lifecycle_completed ∷ cs) waiting p h =
      perform_all-IsOpen cs waiting (perform accepts lifecycle_completed p)
        (perform_plain_ind (opening waiting) lifecycle_completed p tt h)
  perform_all-IsOpen (checkpoint ∷ cs) waiting p h =
      perform_all-IsOpen cs waiting (perform accepts checkpoint p)
        (perform_plain_ind (opening waiting) checkpoint p tt h)
  perform_all-IsOpen (message_finish ∷ cs) waiting p h =
      perform_all-IsOpen cs waiting (perform accepts message_finish p)
        (perform_plain_ind (opening waiting) message_finish p tt h)
  perform_all-IsOpen (c ∷ cs) waiting p h =
      perform_all-IsOpen cs waiting (perform accepts c p)
        (perform_plain_ind (opening waiting) c p tt h)

-- With Redis accepting every write, the stream of a run stays for a day after it is closed when the
-- last result of the run ended the turn on a question, and for a minute otherwise.
close-ttl :
    (accepts : ℕ → Bool) (session_id : String) (old : List Entry) (calls : List Call)
    → ((n : ℕ) → accepts n ≡ true)
    → (close accepts (perform_all accepts calls (fresh session_id old))).ttl
      ≡ some (if ends_on_question false calls then 86400 else 60)
close-ttl accepts session_id old calls up =
    let p = perform_all accepts calls (fresh session_id old) in
    let h =
      perform_all-IsOpen accepts calls false (fresh session_id old)
        (record { is_open = refl; waits = refl }) in
    let c = close-IsClosed_open accepts p h.is_open (up p.attempts) in rw (← h.waits) c.ttl
