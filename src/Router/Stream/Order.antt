-- ===== src/Router/Stream/Order.antt =====
-- Rising ids in a stream, what a read takes of it, and what it leaves.
use harness_runtime.Base.{
  ℕ, zero, suc, ◌≤◌, ◌<◌, ltb, leb, Bool, not, ◌&&◌, ◌≡◌, refl, sym, ap, ◌∙◌, List, [], ◌∷◌, ◌++◌,
  arith, if_ind, keep, take, keep-append,
}
use harness_runtime.Sse.Frames.{Entry, frame, sentinel}
use harness_runtime.Router.Stream.{sent, StreamEntry, is_sentinel, Sent, ping, message, send}

-- The frames of a stream.
abbrev pub frames : List StreamEntry → List StreamEntry
frames = keep (λ e. not (is_sentinel e.entry))

-- The frames that a client got.
abbrev pub got : List Sent → List StreamEntry
got [] = []
got (ping ∷ ss) = got ss
got (message id f ∷ ss) = record { id = id; entry = frame f } ∷ got ss

-- The ids rise from above `low`.
abbrev pub IsRising : ℕ → List StreamEntry → Type 0
IsRising low [] = Unit {0}
IsRising low (e ∷ es) = (low < e.id) × IsRising e.id es

abbrev pub between : ℕ → ℕ → StreamEntry → Bool
between a b e = ltb a e.id && leb e.id b

-- The id of the last entry, and of none the one before.
abbrev pub last_id : ℕ → List StreamEntry → ℕ
last_id a [] = a
last_id a (e ∷ es) = last_id e.id es

pub got-append : (xs ys : List Sent) → got (xs ++ ys) ≡ got xs ++ got ys
got-append [] ys = refl
got-append (ping ∷ xs) ys = got-append xs ys
got-append (message id f ∷ xs) ys =
    ap (λ l. record { id = id; entry = frame f } ∷ l) (got-append xs ys)

pub send-last_id : (a : ℕ) (es : List StreamEntry) → (send a es).1 ≡ last_id a es
unfolding send
send-last_id a [] = refl
send-last_id a (e ∷ es) = send-last_id e.id es

got-sent : (i : ℕ) (x : Entry) → got (sent i x) ≡ frames (record { id = i; entry = x } ∷ [])
got-sent i (frame f) = refl
got-sent i sentinel = refl

pub got-send : (a : ℕ) (es : List StreamEntry) → got (send a es).0 ≡ frames es
unfolding send
got-send a [] = refl
got-send a (e ∷ es) =
    got-append (sent e.id e.entry) (send e.id es).0
    ∙ ap (λ l. l ++ got (send e.id es).0) (got-sent e.id e.entry)
    ∙ ap (λ l. frames (e ∷ []) ++ l) (got-send e.id es)
    ∙ sym (keep-append (λ e. not (is_sentinel e.entry)) (e ∷ []) es)

-- The entries after an id.
abbrev pub after_id : ℕ → List StreamEntry → List StreamEntry
after_id a = keep (λ e. ltb a e.id)

pub after-after :
    (a b : ℕ) (es : List StreamEntry) → a ≤ b → after_id b (after_id a es) ≡ after_id b es
after-after a b [] le = refl
after-after a b (e ∷ es) le = ground (arith, after-after a b es)

pub frames-after : (a : ℕ) (es : List StreamEntry) → frames (after_id a es) ≡ after_id a (frames es)
frames-after a [] = refl
frames-after a (e ∷ es) = ground (arith, frames-after a es)

pub after-all : (a low : ℕ) (es : List StreamEntry) → a ≤ low → IsRising low es → after_id a es ≡ es
after-all a low [] le r = refl
after-all a low (e ∷ es) le r = ground (arith, r.0, after-all a e.id es (omega (arith, r.0)) r.1)

pub IsRising-keep :
    (p : StreamEntry → Bool) (low : ℕ) (es : List StreamEntry)
    → IsRising low es
    → IsRising low (keep p es)
IsRising-keep p low [] r = tt
IsRising-keep p low (e ∷ es) r =
    let rest = IsRising-keep p e.id es r.1 in
    if_ind (λ (l : List StreamEntry). IsRising low l) (p e) (λ _. (r.0, rest))
      (λ _. lower low e.id (keep p es) (omega (arith, r.0)) rest)
  where
    lower : (low mid : ℕ) (es : List StreamEntry) → low ≤ mid → IsRising mid es → IsRising low es
    lower low mid [] le r = tt
    lower low mid (e ∷ es) le r = (omega (arith, r.0), r.1)

pub IsRising-after :
    (a low : ℕ) (es : List StreamEntry) → IsRising low es → IsRising a (after_id a es)
IsRising-after a low [] r = tt
IsRising-after a low (e ∷ es) r =
    if_ind (λ (l : List StreamEntry). IsRising a l) (ltb a e.id)
      (λ lt. (ground (arith, lt), IsRising-keep (λ e. ltb a e.id) e.id es r.1))
      (λ _. IsRising-after a e.id es r.1)

pub IsRising-take : (n low : ℕ) (es : List StreamEntry) → IsRising low es → IsRising low (take n es)
IsRising-take zero low es r = tt
IsRising-take (suc n) low [] r = tt
IsRising-take (suc n) low (e ∷ es) r = (r.0, IsRising-take n e.id es r.1)

pub le-last_id : (a : ℕ) (es : List StreamEntry) → IsRising a es → a ≤ last_id a es
le-last_id a [] r = omega arith
le-last_id a (e ∷ es) r = omega (arith, r.0, le-last_id e.id es r.1)

pub take-nothing : (es : List StreamEntry) → take 10 es ≡ [] → es ≡ []
take-nothing [] h = refl
take-nothing (e ∷ es) h = cc

-- What is read, and what is left after it.
pub take-rest :
    (n a : ℕ) (es : List StreamEntry)
    → IsRising a es
    → take n es ++ after_id (last_id a (take n es)) es ≡ es
take-rest zero a es r = after-all a a es (omega arith) r
take-rest (suc n) a [] r = refl
take-rest (suc n) a (e ∷ es) r =
    ground
      (arith, take-rest n e.id es r.1, le-last_id e.id (take n es) (IsRising-take n e.id es r.1))

-- All ids up to a bound.
abbrev pub Within : ℕ → List StreamEntry → Type 0
Within m [] = Unit {0}
Within m (e ∷ es) = (e.id ≤ m) × Within m es

pub Within-rising : (low : ℕ) (es : List StreamEntry) → IsRising low es → Within (last_id low es) es
Within-rising low [] r = tt
Within-rising low (e ∷ es) r = (le-last_id e.id es r.1, Within-rising e.id es r.1)

pub Within-keep :
    (p : StreamEntry → Bool) (m : ℕ) (es : List StreamEntry) → Within m es → Within m (keep p es)
Within-keep p m [] w = tt
Within-keep p m (e ∷ es) w =
    if_ind (λ (l : List StreamEntry). Within m l) (p e) (λ _. (w.0, Within-keep p m es w.1))
      (λ _. Within-keep p m es w.1)

pub Within-take : (n m : ℕ) (es : List StreamEntry) → Within m es → Within m (take n es)
Within-take zero m es w = tt
Within-take (suc n) m [] w = tt
Within-take (suc n) m (e ∷ es) w = (w.0, Within-take n m es w.1)

pub last_id-le :
    (m : ℕ) (e : StreamEntry) (es : List StreamEntry) → Within m (e ∷ es) → last_id e.id es ≤ m
last_id-le m e [] w = w.0
last_id-le m e (d ∷ es) w = last_id-le m d es w.1
