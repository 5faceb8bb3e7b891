-- ===== src/Value/Laws.antt =====
-- Dictionaries: what a lookup finds after a write or an update.
use harness_runtime.Base.{
  if_ind, false, Bool, String, ◌≡◌, refl, some, List, [], ◌∷◌, arith, ◌==◌, eq_iff, if◌then◌else◌,
  is_some,
}
use harness_runtime.Value.{
  str, equals, or_else, truthy, text, Value, Fields, end, field, lookup, insert, is_member,
  elements, items,
}

pub lookup-insert :
    (k j : String) (v : Value) (fs : Fields)
    → lookup j (insert k v fs) ≡ (if k == j then some v else lookup j fs)
lookup-insert k j v end = refl
lookup-insert k j v (field i w fs) =
    ground (arith, eq_iff k j, eq_iff i k, eq_iff i j, lookup-insert k j v fs)

pub is_member-lookup : (k : String) (fs : Fields) → is_member k fs ≡ is_some (lookup k fs)
is_member-lookup k end = refl
is_member-lookup k (field j v fs) = ground (arith, is_member-lookup k fs)

pub elements-items : (xs : List Value) → elements (items xs) ≡ xs
elements-items [] = refl
elements-items (x ∷ xs) = rw (elements-items xs)

-- Whether `id` is the text of the first of two values that is truthy.
abbrev pub bears : (first second : Value) → String → Bool
bears first second id = if truthy first then text first == id else text second == id

pub bears-or_else : (a b : Value) (id : String) → bears a b id ≡ (text (or_else a b) == id)
bears-or_else a b id =
    if_ind (λ (v : Value). bears a b id ≡ (text v == id)) (truthy a) (λ on. ground (arith, on))
      (λ off. ground (arith, off))

-- Under a test for a text that is not empty, a value is its text.
pub equals-text : (v : Value) (t : String) → (t == "") ≡ false → equals v t ≡ (text v == t)
equals-text (str s) t h = refl
equals-text v t h = ground (arith, h, eq_iff "" t, eq_iff t "")
