-- ===== src/Router/Stream/Samples.antt =====
-- A client that reads a stream while it grows, and one whose sentinel is trimmed.
use harness_runtime.Base.{true, ◌≡◌, refl, List, [], ◌∷◌, arith}
use harness_runtime.Sse.Frames.{event, completed, message_end, frame, sentinel}
use harness_runtime.Router.Stream.{
  StreamEntry, Read, failed, found, ping, message, generate, round, send, xread, trim_sentinel,
}
use harness_runtime.Router.Stream.Order.{frames, after_id, got}
use harness_runtime.Router.Stream.Delivery.{Grows, generate_complete}
use harness_runtime.Router.Stream.Trimmed.{frames-trim_sentinel}

abbrev first : StreamEntry
first = record { id = 1; entry = frame (event 1 message_end) }

abbrev old_end : StreamEntry
old_end = record { id = 2; entry = sentinel }

abbrev last : StreamEntry
last = record { id = 3; entry = frame (event 2 completed) }

abbrev whole : List StreamEntry
whole = first ∷ old_end ∷ last ∷ []

abbrev reads : List Read
reads = failed ∷ found (first ∷ []) ∷ found (first ∷ []) ∷ found whole ∷ []

test_sent :
    (generate 0 reads).0
    ≡ message 1 (event 1 message_end) ∷ ping ∷ message 3 (event 2 completed) ∷ []
unfolding generate round send xread
test_sent = refl

partly : Grows (first ∷ []) whole
partly = record { later = last ∷ []; split = refl; above = omega arith; rising = omega arith }

wholly : Grows whole whole
wholly = record { later = []; split = refl; above = tt; rising = omega arith }

generate_complete_example : got (generate 0 reads).0 ≡ after_id 0 (frames whole)
unfolding generate round send xread
generate_complete_example = generate_complete 0 whole reads (partly, (partly, (wholly, tt))) refl

test_trimmed : trim_sentinel true whole ≡ first ∷ last ∷ []
unfolding trim_sentinel
test_trimmed = refl

frames-trim_sentinel_example : frames (trim_sentinel true whole) ≡ frames whole
frames-trim_sentinel_example = frames-trim_sentinel true whole (omega arith)
