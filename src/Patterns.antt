-- ===== src/Patterns.antt =====
-- The tests on texts that core/workspace/backends/db.py uses: SQL's LIKE, fnmatch.fnmatch, `in`, and
-- sorted.
pub mod Literal
use Prim.Native.String.{compare}
use Prim.Native.Nat.{Ordering}
use Prim.Native.Char.{Char, code}
use harness_runtime.Base.{
  ℕ, zero, suc, String, Bool, true, false, not, ◌&&◌, ◌||◌, List, [], ◌∷◌, leb, nat_eq, ◌==◌,
  starts_with, if◌then◌else◌,
}

-- The next character of the text is `c`, and `rest` holds of what follows.
abbrev pub literal : Char → (String → Bool) → String → Bool
literal c rest String.[] = false
literal c rest (String.◌∷◌ d s) = nat_eq (code d) (code c) && rest s

abbrev pub skip_one : (String → Bool) → String → Bool
skip_one rest String.[] = false
skip_one rest (String.◌∷◌ d s) = rest s

abbrev pub some_end : (String → Bool) → String → Bool
some_end rest String.[] = rest String.[]
some_end rest (String.◌∷◌ d s) = rest (String.◌∷◌ d s) || some_end rest s

-- `s LIKE pattern`, from a place that a backslash escapes or not; a pattern that ends in a backslash,
-- an error of SQL, is of no text.
unfoldable pub like_from : (escaped : Bool) → (pattern s : String) → Bool
like_from escaped String.[] s = not escaped && s == ""
like_from escaped (String.◌∷◌ c pattern) s =
    if escaped
    then literal c (like_from false pattern) s
    else if nat_eq (code c) b'%'
    then some_end (like_from false pattern) s
    else if nat_eq (code c) b'_'
    then skip_one (like_from false pattern) s
    else if nat_eq (code c) b'\\'
    then like_from true pattern s
    else literal c (like_from false pattern) s

abbrev pub like : (s pattern : String) → Bool
like s pattern = like_from false pattern s

-- What stands between the brackets of a pattern before the first `]` that is not its first
-- character, and what follows it; `found` is false where there is none.
record Bracket : Type 0 where
  found : Bool
  inside : String
  after : String

add_inside : Char → Bracket → Bracket
add_inside c b = record b { inside = String.◌∷◌ c b.inside }

bracket : (first : Bool) → String → Bracket
unfolding add_inside
bracket first String.[] = record { found = false; inside = ""; after = "" }
bracket first (String.◌∷◌ c s) =
    let rest = add_inside c (bracket false s) in
    if nat_eq (code c) b']' && not first
    then record { found = true; inside = ""; after = s }
    else rest

-- Whether the number of a character is among those of a bracket: single ones, and ranges `a-z`.
among : ℕ → String → Bool
among n String.[] = false
among n (String.◌∷◌ a String.[]) = nat_eq n (code a)
among n (String.◌∷◌ a (String.◌∷◌ b String.[])) = nat_eq n (code a) || nat_eq n (code b)
among n (String.◌∷◌ a (String.◌∷◌ b (String.◌∷◌ c s))) =
    let ranged = among n s in
    let single = among n (String.◌∷◌ b (String.◌∷◌ c s)) in
    if nat_eq (code b) b'-'
    then (leb (code a) n && leb n (code c)) || ranged
    else nat_eq n (code a) || single

-- `[seq]`, and `[!seq]`, whose `!` comes before the first character.
in_bracket : String → ℕ → Bool
unfolding among
in_bracket String.[] n = false
in_bracket (String.◌∷◌ c s) n =
    if nat_eq (code c) b'!' then not (among n s) else among n (String.◌∷◌ c s)

negated : String → Bool
negated String.[] = false
negated (String.◌∷◌ c s) = nat_eq (code c) b'!'

-- The bracket after a `[`: a `]` that comes first, or first after `!`, does not end it.
opened : String → Bracket
unfolding bracket add_inside negated
opened String.[] = record { found = false; inside = ""; after = "" }
opened (String.◌∷◌ c s) =
    if nat_eq (code c) b'!' then add_inside c (bracket true s) else bracket true (String.◌∷◌ c s)

in_set : String → (String → Bool) → String → Bool
unfolding in_bracket
in_set inside rest String.[] = false
in_set inside rest (String.◌∷◌ d s) = in_bracket inside (code d) && rest s

-- `fnmatch.fnmatch(s, pattern)`: `*` is any text, `?` any character; the fuel is the pattern's length,
-- of which each round takes a character.
unfoldable pub fnmatch_from : ℕ → (pattern s : String) → Bool
unfolding opened in_set
fnmatch_from fuel String.[] s = s == ""
fnmatch_from zero (String.◌∷◌ c pattern) s = false
fnmatch_from (suc fuel) (String.◌∷◌ c pattern) s =
    let b = opened pattern in
    if nat_eq (code c) b'*'
    then some_end (fnmatch_from fuel pattern) s
    else if nat_eq (code c) b'?'
    then skip_one (fnmatch_from fuel pattern) s
    else if nat_eq (code c) b'[' && b.found
    then in_set b.inside (fnmatch_from fuel b.after) s
    else literal c (fnmatch_from fuel pattern) s

-- `pattern in s`
unfoldable pub occurs_in : (pattern s : String) → Bool
occurs_in pattern String.[] = pattern == ""
occurs_in pattern (String.◌∷◌ c s) = starts_with (String.◌∷◌ c s) pattern || occurs_in pattern s

-- `s <= t`, by code points
abbrev pub text_le : String → String → Bool
text_le s t = elim (compare s t) [ Ordering.gt ↦ false | _ ↦ true ]

module _ {ℓ} {A : Type ℓ} where
  abbrev pub insert_sorted : (A → A → Bool) → A → List A → List A
  insert_sorted le x [] = x ∷ []
  insert_sorted le x (y ∷ ys) =
      let rest = insert_sorted le x ys in if le x y then x ∷ y ∷ ys else y ∷ rest

  -- `sorted`, which is stable, with the order of its keys.
  abbrev pub sorted : (A → A → Bool) → List A → List A
  sorted le [] = []
  sorted le (x ∷ xs) = insert_sorted le x (sorted le xs)
