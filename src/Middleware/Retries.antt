-- ===== src/Middleware/Retries.antt =====
-- The repeated calls of a model in core/middleware/invalid_tool_calls.py.
use harness_runtime.Base.{
  ℕ, suc, ◌-◌, ◌≤◌, ◌≡◌, refl, sym, ap, ◌∙◌, none, some, List, [], ◌∷◌, ◌++◌, map, arith,
}
use harness_runtime.Middleware.{
  ToolMessage, Message, ai, human, tool, system, reversed, streak_of, max_retries, retry_newest,
  retry_after_model,
}

-- How often the model is called again, when it gives these responses after a history: as long as the
-- middleware asks for it.
unfoldable pub times_retried : List Message → List Message → ℕ
unfolding retry_after_model
times_retried history [] = 0
times_retried history (r ∷ rs) = elim (retry_after_model (history ++ r ∷ [])) [
  | none ↦ 0
  | some replies ↦ suc (times_retried (history ++ r ∷ map tool replies) rs)
]

pub reversed-append :
    (acc xs ys : List Message) → reversed acc (xs ++ ys) ≡ reversed (reversed acc xs) ys
reversed-append acc [] ys = refl
reversed-append acc (x ∷ xs) ys = reversed-append (x ∷ acc) xs ys

streak-replies :
    (acc : List Message) (replies : List ToolMessage)
    → streak_of (reversed acc (map tool replies)) ≡ streak_of acc
unfolding streak_of
streak-replies acc [] = refl
streak-replies acc (t ∷ ts) = streak-replies (tool t ∷ acc) ts

newest-streak :
    (r : Message) (ms : List Message) (replies : List ToolMessage)
    → retry_newest (r ∷ ms) ≡ some replies
    → (streak_of (r ∷ ms) ≡ suc (streak_of ms)) × (streak_of (r ∷ ms) ≤ 2)
unfolding retry_newest streak_of
newest-streak (ai m) ms replies h = (ground (arith, h), ground (arith, h))
newest-streak (human m) ms replies h = ground (arith, h)
newest-streak (tool m) ms replies h = ground (arith, h)
newest-streak (system s) ms replies h = ground (arith, h)

-- What is left of the retries after a history.
abbrev allowed : List Message → ℕ
allowed history = 2 - streak_of (reversed [] history)

newest_first :
    (history : List Message) (r : Message)
    → reversed [] (history ++ r ∷ []) ≡ r ∷ reversed [] history
newest_first history r = reversed-append [] history (r ∷ [])

allowed-replies :
    (history : List Message) (r : Message) (replies : List ToolMessage)
    → retry_after_model (history ++ r ∷ []) ≡ some replies
    → suc (allowed (history ++ r ∷ map tool replies)) ≤ allowed history
unfolding retry_after_model
allowed-replies history r replies h =
    let n =
      newest-streak r (reversed [] history) replies
        (ap retry_newest (sym (newest_first history r)) ∙ h) in
    let e =
      ap streak_of (reversed-append [] history (r ∷ map tool replies))
      ∙ streak-replies (r ∷ reversed [] history) replies in
    omega (arith, n.0, n.1, e)

times-allowed :
    (history : List Message) (rs : List Message) → times_retried history rs ≤ allowed history
unfolding times_retried
times-allowed history [] = omega arith
times-allowed history (r ∷ rs) =
    elim (retry_after_model (history ++ r ∷ []))
        as (λ o.
          retry_after_model (history ++ r ∷ []) ≡ o
          → elim o [
            | none ↦ 0
            | some replies ↦ suc (times_retried (history ++ r ∷ map tool replies) rs)
          ]
            ≤ allowed history) [
              | none ↦ λ e. omega arith
              | some replies ↦ λ e. omega (
                arith,
                times-allowed (history ++ r ∷ map tool replies) rs,
                allowed-replies history r replies e,
              )
            ]
      refl

-- Whatever a model answers with, and whatever came before, it is called again at most twice in a row
-- for its invalid calls.
pub times_retried_bounded : (history rs : List Message) → times_retried history rs ≤ max_retries
times_retried_bounded history rs = omega (arith, times-allowed history rs)
