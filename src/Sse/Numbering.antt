-- ===== src/Sse/Numbering.antt =====
-- The sequence numbers of api/publisher.py.
use harness_runtime.Base.{
  inr, inl, ◌⊎◌, ℕ, ◌+◌, ◌≤◌, ◌<◌, String, Bool, true, ◌≡◌, refl, List, [], ◌∷◌, ◌++◌, append_assoc,
  append-nil, arith, if_ind, sym,
}
use harness_runtime.Publisher.{Call}
use harness_runtime.Sse.Frames.{Body, event, result_frame, Entry, frame, sentinel}
use harness_runtime.Sse.Calls.{Rule, perform_all_ind}
use harness_runtime.Sse.{SsePublisher, fresh, xadd, write, emit, perform_all, close}

-- The numbers of the events among the entries rise, from above `low` to at most `high`.
abbrev pub IsRising : ℕ → ℕ → List Entry → Type 0
IsRising low high [] = low ≤ high
IsRising low high (frame (event n b) ∷ es) = (low < n) × IsRising n high es
IsRising low high (frame (result_frame args) ∷ es) = IsRising low high es
IsRising low high (sentinel ∷ es) = IsRising low high es

-- What the publisher added to the stream since it held `old` is rising, up to its own counter.
pub record IsNumbered (old : List Entry) (p : SsePublisher) : Type 0 where
  pub added : List Entry
  pub stream : p.stream ≡ old ++ added
  pub rising : IsRising 0 p.seq added

IsRising-weaken :
    (low high : ℕ) (es : List Entry) → IsRising low high es → IsRising low (high + 1) es
IsRising-weaken low high [] h = omega arith
IsRising-weaken low high (frame (event n b) ∷ es) h = (h.0, IsRising-weaken n high es h.1)
IsRising-weaken low high (frame (result_frame args) ∷ es) h = IsRising-weaken low high es h
IsRising-weaken low high (sentinel ∷ es) h = IsRising-weaken low high es h

IsRising-event :
    (low high : ℕ) (b : Body) (es : List Entry)
    → IsRising low high es
    → IsRising low (high + 1) (es ++ frame (event (high + 1) b) ∷ [])
IsRising-event low high b [] h = (omega arith, omega arith)
IsRising-event low high b (frame (event n c) ∷ es) h = (h.0, IsRising-event n high b es h.1)
IsRising-event low high b (frame (result_frame args) ∷ es) h = IsRising-event low high b es h
IsRising-event low high b (sentinel ∷ es) h = IsRising-event low high b es h

IsRising-plain :
    (low high : ℕ) (e : Entry)
    → ((n : ℕ) (b : Body) → ¬ (e ≡ frame (event n b)))
    → (es : List Entry) → IsRising low high es
    → IsRising low high (es ++ e ∷ [])
IsRising-plain low high (frame (event n b)) no_event [] h = absurd (no_event n b refl)
IsRising-plain low high (frame (result_frame args)) no_event [] h = h
IsRising-plain low high sentinel no_event [] h = h
IsRising-plain low high e no_event (frame (event n b) ∷ es) h =
    (h.0, IsRising-plain n high e no_event es h.1)
IsRising-plain low high e no_event (frame (result_frame args) ∷ es) h =
    IsRising-plain low high e no_event es h
IsRising-plain low high e no_event (sentinel ∷ es) h = IsRising-plain low high e no_event es h

module _ (accepts : ℕ → Bool) (old : List Entry) where
  emit-IsNumbered :
      (b : Body) (p : SsePublisher) → IsNumbered old p → IsNumbered old (emit accepts b p)
  unfolding emit
  emit-IsNumbered b p h =
      let weaker = IsRising-weaken 0 p.seq h.added h.rising in
      let kept : IsNumbered old (record p { seq = p.seq + 1 }) = record {
        added = h.added;
        stream = h.stream;
        rising = weaker;
      } in
      if_ind (IsNumbered old) p.closed (λ _. kept)
        (λ _.
          if_ind
            (λ s.
              IsNumbered old (record p { seq = p.seq + 1; attempts = p.attempts + 1; stream = s }))
            (accepts p.attempts)
            (λ _. record {
              added = h.added ++ frame (event (p.seq + 1) b) ∷ [];
              stream = rw h.stream (append_assoc old h.added _);
              rising = IsRising-event 0 p.seq b h.added h.rising;
            })
            (λ _. record { added = h.added; stream = h.stream; rising = weaker }))

  xadd-IsNumbered :
      (e : Entry)
      → ((n : ℕ) (b : Body) → ¬ (e ≡ frame (event n b)))
      → (p : SsePublisher) → IsNumbered old p
      → IsNumbered old (xadd accepts e p)
  unfolding xadd
  xadd-IsNumbered e no_event p h =
      if_ind (λ s. IsNumbered old (record p { attempts = p.attempts + 1; stream = s }))
        (accepts p.attempts)
        (λ _. record {
          added = h.added ++ e ∷ [];
          stream = rw h.stream (append_assoc old h.added _);
          rising = IsRising-plain 0 p.seq e no_event h.added h.rising;
        })
        (λ _. record { added = h.added; stream = h.stream; rising = h.rising })

  numbering : Rule accepts (IsNumbered old)
  unfolding write
  numbering = record {
    frames = record {
      framed = emit-IsNumbered;
      flags = λ p m b i c h. record { added = h.added; stream = h.stream; rising = h.rising };
    };
    waits = λ p w h. record { added = h.added; stream = h.stream; rising = h.rising };
    resulted = λ args p h.
        if_ind (IsNumbered old) p.closed (λ _. h)
          (λ _. xadd-IsNumbered (frame (result_frame args)) (λ n b e. cc) p h);
  }

close-IsNumbered :
    (accepts : ℕ → Bool) (old : List Entry) (p : SsePublisher)
    → IsNumbered old p
    → IsNumbered old (close accepts p)
unfolding close
close-IsNumbered accepts old p h =
    if_ind (IsNumbered old) p.closed (λ _. h)
      (λ _.
        let r =
          xadd-IsNumbered accepts old sentinel (λ n b e. cc) (record p { closed = true })
            (record { added = h.added; stream = h.stream; rising = h.rising }) in
        if_ind (IsNumbered old) (accepts p.attempts)
          (λ _. record { added = r.added; stream = r.stream; rising = r.rising }) (λ _. r))

-- Closing adds nothing to the stream, or a sentinel.
abbrev pub AddsSentinel : List Entry → List Entry → Type 0
AddsSentinel before after = (after ≡ before) ⊎ (after ≡ before ++ sentinel ∷ [])

close-AddsSentinel :
    (accepts : ℕ → Bool) (p : SsePublisher) → AddsSentinel p.stream (close accepts p).stream
unfolding close xadd
close-AddsSentinel accepts p =
    if_ind (λ (q : SsePublisher). AddsSentinel p.stream q.stream) p.closed (λ _. inl refl)
      (λ _.
        if_ind (λ (q : SsePublisher). AddsSentinel p.stream q.stream) (accepts p.attempts)
          (λ on. inr (ground (arith, on))) (λ off. inl (ground (arith, off))))

-- Whatever a run calls and whichever writes Redis loses, the events that one publisher adds to the
-- stream of its session, until it is closed and with its closing, carry strictly rising numbers, and
-- the publisher's counter bounds them; its closing adds no event, but at most a sentinel.
pub perform_all-IsNumbered :
    (accepts : ℕ → Bool) (session_id : String) (old : List Entry) (calls : List Call)
    → let p = perform_all accepts calls (fresh session_id old) in
      IsNumbered old p
      × IsNumbered old (close accepts p)
      × AddsSentinel p.stream (close accepts p).stream
perform_all-IsNumbered accepts session_id old calls =
    let start : IsNumbered old (fresh session_id old) = record {
      added = [];
      stream = sym (append-nil old);
      rising = omega arith;
    } in
    let p = perform_all accepts calls (fresh session_id old) in
    let h = perform_all_ind (numbering accepts old) calls (fresh session_id old) start in
    (h, close-IsNumbered accepts old p h, close-AddsSentinel accepts p)
