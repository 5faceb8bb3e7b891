-- ===== src/Store/Stopped/Ordered.antt =====
-- ORDER BY sequence, on rows that stand in order already.
use harness_runtime.Base.{
  ℕ, ◌+◌, ◌≤◌, ◌≡◌, refl, ap, ◌∙◌, List, [], ◌∷◌, ◌++◌, arith, if_ind, keep, Bool,
}
use harness_runtime.Store.Chat.{ChatRow}
use harness_runtime.Store.Chat.Numbering.{IsRising}
use harness_runtime.Store.Stopped.{ordered, by_sequence}

IsRising-lower :
    (low mid high : ℕ) (rs : List ChatRow) → low ≤ mid → IsRising mid high rs → IsRising low high rs
IsRising-lower low mid high [] le h = omega arith
IsRising-lower low mid high (r ∷ rs) le h = (omega (arith, h.0), h.1)

pub IsRising-keep :
    (p : ChatRow → Bool) (low high : ℕ) (rs : List ChatRow)
    → IsRising low high rs
    → IsRising low high (keep p rs)
IsRising-keep p low high [] h = h
IsRising-keep p low high (r ∷ rs) h =
    let rest = IsRising-keep p (r.sequence + 1) high rs h.1 in
    if_ind (λ (l : List ChatRow). IsRising low high l) (p r) (λ _. (h.0, rest))
      (λ _. IsRising-lower low (r.sequence + 1) high (keep p rs) (omega (arith, h.0)) rest)

IsRising-le : (low high : ℕ) (rs : List ChatRow) → IsRising low high rs → low ≤ high
IsRising-le low high [] h = h
IsRising-le low high (r ∷ rs) h = omega (arith, h.0, IsRising-le (r.sequence + 1) high rs h.1)

pub IsRising-left :
    (low high : ℕ) (rs ss : List ChatRow) → IsRising low high (rs ++ ss) → IsRising low high rs
IsRising-left low high [] ss h = IsRising-le low high ss h
IsRising-left low high (r ∷ rs) ss h = (h.0, IsRising-left (r.sequence + 1) high rs ss h.1)

by_sequence-first :
    (high : ℕ) (r : ChatRow) (rs : List ChatRow)
    → IsRising (r.sequence + 1) high rs
    → by_sequence r rs ≡ r ∷ rs
unfolding by_sequence
by_sequence-first high r [] h = refl
by_sequence-first high r (s ∷ ss) h = ground (arith, h.0)

pub ordered-rising : (low high : ℕ) (rs : List ChatRow) → IsRising low high rs → ordered rs ≡ rs
unfolding ordered
ordered-rising low high [] h = refl
ordered-rising low high (r ∷ rs) h =
    ap (by_sequence r) (ordered-rising (r.sequence + 1) high rs h.1)
    ∙ by_sequence-first high r rs h.1
