-- ===== src/Router/Stream.antt =====
-- The Redis stream of a session in api/routers/sessions.py: _trim_sentinel, and the generator by which
-- stream_events sends it to a client. Redis gives the entries rising ids; a number stands for one, 0
-- for the id "0", before every entry.
pub mod Order
pub mod Delivery
pub mod Trimmed
mod Samples
use harness_runtime.Base.{
  ℕ, zero, suc, ltb, leb, nat_eq, Bool, true, false, not, ◌&&◌, ◌||◌, List, [], ◌∷◌, ◌++◌,
  if◌then◌else◌, keep, take, any, is_empty,
}
use harness_runtime.Sse.Frames.{Frame, Entry, frame, sentinel}

pub record StreamEntry : Type 0 where
  pub id : ℕ
  pub entry : Entry

abbrev pub is_sentinel : Entry → Bool
is_sentinel sentinel = true
is_sentinel (frame f) = false

abbrev pub reversed : List StreamEntry → List StreamEntry → List StreamEntry
reversed acc [] = acc
reversed acc (e ∷ es) = reversed (e ∷ acc) es

-- `r.xrevrange(key, count=10)`
abbrev pub newest_entries : List StreamEntry → List StreamEntry
newest_entries es = take 10 (reversed [] es)

-- `r.xdel(key, *ids)`
abbrev pub delete : List StreamEntry → List StreamEntry → List StreamEntry
delete gone = keep (λ e. not (any (λ g. nat_eq g.id e.id) gone))

-- A failure of Redis is logged, and leaves the stream.
unfoldable pub trim_sentinel : (up : Bool) → List StreamEntry → List StreamEntry
trim_sentinel up stream =
    if up then delete (keep (λ e. is_sentinel e.entry) (newest_entries stream)) stream else stream

-- What an XREAD gives: an exception, or the stream as it was then.
pub data Read : Type 0 where
  failed : Read
  found : List StreamEntry → Read

pub data Sent : Type 0 where
  ping : Sent
  message : (id : ℕ) → Frame → Sent

-- `r.xread({key: last_id}, count=10)`
unfoldable pub xread : ℕ → List StreamEntry → List StreamEntry
xread last stream = take 10 (keep (λ e. ltb last e.id) stream)

abbrev pub sent : ℕ → Entry → List Sent
sent id sentinel = []
sent id (frame f) = message id f ∷ []

-- The loop over the entries: what is sent, and the last id.
unfoldable pub send : ℕ → List StreamEntry → List Sent × ℕ
send last [] = ([], last)
send last (e ∷ es) = let rest = send e.id es in (sent e.id e.entry ++ rest.0, rest.1)

-- One round of the loop.
unfoldable pub round : ℕ → Read → List Sent × ℕ
unfolding xread send
round last failed = ([], last)
round last (found stream) =
    let entries = xread last stream in
    if is_empty entries then (ping ∷ [], last) else send last entries

-- `event_generator`, for as long as its client stays.
unfoldable pub generate : ℕ → List Read → List Sent × ℕ
unfolding round
generate last [] = ([], last)
generate last (r ∷ rs) =
    let now = round last r in let later = generate now.1 rs in (now.0 ++ later.0, later.1)
