-- ===== src/Router/Stream/Delivery.antt =====
-- What a client gets of a stream.
use harness_runtime.Base.{
  append-nil, ℕ, ltb, not, ◌≡◌, refl, sym, ap, ◌∙◌, List, [], ◌∷◌, ◌++◌, append_assoc, arith,
  if◌then◌else◌, take, is_empty, keep-append,
}
use mathlib.Core.Path.{ap₂}
use harness_runtime.Router.Stream.{
  StreamEntry, is_sentinel, Read, failed, found, ping, xread, send, round, generate,
}
use harness_runtime.Router.Stream.Order.{
  frames, got, IsRising, last_id, got-append, send-last_id, got-send, after_id, after-after,
  frames-after, after-all, IsRising-after, IsRising-take, le-last_id, take-nothing, take-rest,
  Within, Within-rising, Within-keep, Within-take, last_id-le,
}

-- What the stream becomes: its sentinels may be trimmed, and entries with higher ids be added.
pub record Grows (stream whole : List StreamEntry) : Type 0 where
  pub later : List StreamEntry
  pub split : frames whole ≡ frames stream ++ later
  pub above : IsRising (last_id 0 stream) later
  pub rising : IsRising 0 stream

-- What comes later is after all that is read now, unless nothing is.
later-same :
    (a m : ℕ) (es later : List StreamEntry)
    → Within m es
    → IsRising m later
    → IsRising a es
    → after_id (last_id a es) later ≡ after_id a later
later-same a m [] later w r s = refl
later-same a m (e ∷ es) later w r s =
    after-all (last_id e.id es) m later (last_id-le m e es w) r
    ∙ sym (after-all a m later (omega (arith, s.0, w.0)) r)

module _ (a : ℕ) {stream whole : List StreamEntry} (g : Grows stream whole) where
  abbrev read_now : List StreamEntry
  read_now = take 10 (after_id a stream)

  abbrev read_last : ℕ
  read_last = last_id a read_now

  now_rising : IsRising a read_now
  now_rising = IsRising-take 10 a (after_id a stream) (IsRising-after a 0 stream g.rising)

  left_over :
      after_id read_last (frames whole) ≡ frames (after_id read_last stream) ++ after_id a g.later
  left_over =
      ap (after_id read_last) g.split
      ∙ keep-append (λ e. ltb read_last e.id) (frames stream) g.later
      ∙ ap₂ ◌++◌ (sym (frames-after read_last stream)) (
          later-same a (last_id 0 stream) read_now g.later
            (Within-take 10 _ (after_id a stream)
              (Within-keep (λ e. ltb a e.id) _ stream (Within-rising 0 stream g.rising)))
            g.above now_rising)

  stream_whole : read_now ++ after_id read_last stream ≡ after_id a stream
  stream_whole =
      ap (λ l. read_now ++ l)
        (sym (after-after a read_last stream (le-last_id a read_now now_rising)))
      ∙ take-rest 10 a (after_id a stream) (IsRising-after a 0 stream g.rising)

  now-later : frames read_now ++ after_id read_last (frames whole) ≡ after_id a (frames whole)
  now-later =
      ap (λ l. frames read_now ++ l) left_over
      ∙ sym
          (append_assoc (frames read_now) (frames (after_id read_last stream)) (after_id a g.later))
      ∙ ap (λ l. l ++ after_id a g.later)
          (sym (keep-append (λ e. not (is_sentinel e.entry)) read_now (after_id read_last stream))
            ∙ ap frames stream_whole
            ∙ frames-after a stream)
      ∙ sym (keep-append (λ e. ltb a e.id) (frames stream) g.later)
      ∙ ap (after_id a) (sym g.split)

sends :
    (a : ℕ) (es : List StreamEntry)
    → let r = if is_empty es then (ping ∷ [], a) else send a es in
      (got r.0 ≡ frames es) × (r.1 ≡ last_id a es)
sends a [] = (refl, refl)
sends a (e ∷ es) = (got-send a (e ∷ es), send-last_id a (e ∷ es))

-- Each read that succeeds finds the stream on its way to `whole`.
abbrev pub AllGrow : List StreamEntry → List Read → Type 0
AllGrow whole [] = Unit {0}
AllGrow whole (failed ∷ rs) = AllGrow whole rs
AllGrow whole (found stream ∷ rs) = Grows stream whole × AllGrow whole rs

-- What was sent and what is still to be sent.
sent-later :
    (a : ℕ) (whole : List StreamEntry) (reads : List Read)
    → AllGrow whole reads
    → got (generate a reads).0 ++ after_id (generate a reads).1 (frames whole)
      ≡ after_id a (frames whole)
unfolding generate xread
sent-later a whole [] g = refl
sent-later a whole (failed ∷ rs) g = sent-later a whole rs g
sent-later a whole (found stream ∷ rs) g =
    let now = round a (found stream) in
    let s = sends a (take 10 (after_id a stream)) in
    ap (λ l. l ++ after_id (generate now.1 rs).1 (frames whole))
      (got-append now.0 (generate now.1 rs).0)
    ∙ append_assoc (got now.0) (got (generate now.1 rs).0)
        (after_id (generate now.1 rs).1 (frames whole))
    ∙ ap (λ l. got now.0 ++ l) (sent-later now.1 whole rs g.1)
    ∙ ap₂ (λ l n. l ++ after_id n (frames whole)) s.0 s.1
    ∙ now-later a g.0

-- A client that reads from an id on, with whatever reads fail, however the stream grows meanwhile, and
-- with its sentinels trimmed or not, has got, by the time nothing is left to read, exactly the
-- frames after that id, each once and in their order. A client that comes back with the id of the last
-- frame it got so goes on without a gap.
pub generate_complete :
    (a : ℕ) (whole : List StreamEntry) (reads : List Read)
    → AllGrow whole reads
    → xread (generate a reads).1 whole ≡ []
    → got (generate a reads).0 ≡ after_id a (frames whole)
unfolding xread
generate_complete a whole reads g all_read =
    let last = (generate a reads).1 in
    sym (append-nil (got (generate a reads).0))
    ∙ ap (λ l. got (generate a reads).0 ++ l)
        (ap frames (sym (take-nothing (after_id last whole) all_read)) ∙ frames-after last whole)
    ∙ sent-later a whole reads g
