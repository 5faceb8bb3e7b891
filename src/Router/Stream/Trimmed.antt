-- ===== src/Router/Stream/Trimmed.antt =====
-- What _trim_sentinel takes out of a stream.
use harness_runtime.Base.{
  ℕ, zero, suc, ◌≤◌, Bool, true, false, not, ◌&&◌, ◌||◌, ◌≡◌, refl, sym, ◌∙◌, List, [], ◌∷◌, arith,
  nat_eq, keep, take, all, any,
}
use harness_runtime.Router.Stream.{
  StreamEntry, is_sentinel, reversed, newest_entries, trim_sentinel,
}
use harness_runtime.Router.Stream.Order.{frames, IsRising}

-- Whether a sentinel has the id.
abbrev ends_at : ℕ → List StreamEntry → Bool
ends_at i = any (λ g. nat_eq g.id i && is_sentinel g.entry)

ends_at-keep :
    (i : ℕ) (es : List StreamEntry)
    → any (λ g. nat_eq g.id i) (keep (λ e. is_sentinel e.entry) es) ≡ ends_at i es
ends_at-keep i [] = refl
ends_at-keep i (e ∷ es) = ground (arith, ends_at-keep i es)

ends_at-take :
    (n i : ℕ) (es : List StreamEntry) → ends_at i (take n es) ≡ true → ends_at i es ≡ true
ends_at-take zero i es h = cc
ends_at-take (suc n) i [] h = cc
ends_at-take (suc n) i (e ∷ es) h = ground (arith, ends_at-take n i es)

ends_at-reversed :
    (i : ℕ) (acc es : List StreamEntry)
    → ends_at i (reversed acc es) ≡ (ends_at i acc || ends_at i es)
ends_at-reversed i acc [] = ground arith
ends_at-reversed i acc (e ∷ es) = ground (arith, ends_at-reversed i (e ∷ acc) es)

-- What is deleted is a sentinel of the stream.
deleted-ends :
    (i : ℕ) (es : List StreamEntry)
    → any (λ g. nat_eq g.id i) (keep (λ e. is_sentinel e.entry) (newest_entries es)) ≡ true
    → ends_at i es ≡ true
deleted-ends i es h =
    sym (ends_at-reversed i [] es)
    ∙ ends_at-take 10 i (reversed [] es) (sym (ends_at-keep i (newest_entries es)) ∙ h)

ends_at-below :
    (i low : ℕ) (es : List StreamEntry) → i ≤ low → IsRising low es → ends_at i es ≡ false
ends_at-below i low [] le r = refl
ends_at-below i low (e ∷ es) le r =
    ground (arith, r.0, ends_at-below i e.id es (omega (arith, r.0)) r.1)

-- No frame has the id of a sentinel.
abbrev apart : List StreamEntry → List StreamEntry → Bool
apart stream = all (λ e. is_sentinel e.entry || not (ends_at e.id stream))

apart-cons :
    (e : StreamEntry) (stream es : List StreamEntry)
    → IsRising e.id es
    → apart stream es ≡ true
    → apart (e ∷ stream) es ≡ true
apart-cons e stream [] r h = refl
apart-cons e stream (d ∷ es) r h =
    ground (arith, r.0, h, apart-cons e stream es (lower e.id d.id es (omega (arith, r.0)) r.1))
  where
    lower : (low mid : ℕ) (es : List StreamEntry) → low ≤ mid → IsRising mid es → IsRising low es
    lower low mid [] le r = tt
    lower low mid (e ∷ es) le r = (omega (arith, r.0), r.1)

rising-apart : (low : ℕ) (es : List StreamEntry) → IsRising low es → apart es es ≡ true
rising-apart low [] r = refl
rising-apart low (e ∷ es) r = ground (
  arith,
  apart-cons e es es r.1 (rising-apart e.id es r.1),
  ends_at-below e.id e.id es (omega arith) r.1,
)

frames-delete :
    (gone : ℕ → Bool) (stream es : List StreamEntry)
    → ((i : ℕ) → gone i ≡ true → ends_at i stream ≡ true)
    → apart stream es ≡ true
    → frames (keep (λ e. not (gone e.id)) es) ≡ frames es
frames-delete gone stream [] ends h = refl
frames-delete gone stream (e ∷ es) ends h =
    ground (arith, h, ends e.id, frames-delete gone stream es ends)

-- The trimming of a stream before a turn takes away no frame, whether or not Redis answers: in a stream
-- with rising ids, what a client has still to read stays.
pub frames-trim_sentinel :
    (up : Bool) (stream : List StreamEntry)
    → IsRising 0 stream
    → frames (trim_sentinel up stream) ≡ frames stream
unfolding trim_sentinel
frames-trim_sentinel true stream r =
    frames-delete
      (λ i. any (λ g. nat_eq g.id i) (keep (λ e. is_sentinel e.entry) (newest_entries stream)))
      stream stream (λ i. deleted-ends i stream) (rising-apart 0 stream r)
frames-trim_sentinel false stream r = refl
