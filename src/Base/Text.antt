-- ===== src/Base/Text.antt =====
-- Texts: joining, cutting a prefix, and the tests on ends.
use Prim.Native.Nat.{ℕ, zero, suc, ◌+◌, ◌/◌, ◌%◌}
use Prim.Native.Char.{Char, code}
use Prim.Native.String.{String, ◌++◌ as append}
use mathlib.Core.Bool.{Bool, true, false, ◌&&◌, ◌||◌}
use mathlib.Core.List.{List, [], ◌∷◌}
use text.Mathlib.Text.{starts_with as begins}
use harness_runtime.Base.Tests.{leb, ◌==◌, nat_eq, if◌then◌else◌}

-- `s + t` and the joints of an f-string.
infixr 60 ◌<>◌
abbrev pub ◌<>◌ : String → String → String
s <> t = append s t

-- `s.startswith(t)`
abbrev pub starts_with : String → String → Bool
starts_with s t = begins s t

-- `s[n:]`, by characters
unfoldable pub slice_from : ℕ → String → String
slice_from zero s = s
slice_from (suc n) String.[] = String.[]
slice_from (suc n) (String.◌∷◌ c s) = slice_from n s

-- `s.lstrip(c)` for one character, by its code point
unfoldable pub lstrip : ℕ → String → String
lstrip n String.[] = String.[]
lstrip n (String.◌∷◌ c s) =
    let rest = lstrip n s in if nat_eq (code c) n then rest else String.◌∷◌ c s

-- `sep.join(parts)`
unfoldable pub join : String → List String → String
join sep [] = ""
join sep (x ∷ []) = x
join sep (x ∷ y ∷ ys) = x <> sep <> join sep (y ∷ ys)

digit : ℕ → String
digit n =
    if nat_eq n 0
    then "0"
    else if nat_eq n 1
    then "1"
    else if nat_eq n 2
    then "2"
    else if nat_eq n 3
    then "3"
    else if nat_eq n 4
    then "4"
    else if nat_eq n 5
    then "5"
    else if nat_eq n 6
    then "6"
    else if nat_eq n 7
    then "7"
    else if nat_eq n 8
    then "8"
    else "9"

digits : ℕ → ℕ → String → String
digits zero n s = s
digits (suc f) n s =
    let s' = digit (n % 10) <> s in
    let rest = digits f (n / 10) s' in if nat_eq (n / 10) 0 then s' else rest

-- `str(n)`: a number has no more digits than its successor counts.
unfoldable pub decimal : ℕ → String
unfolding digits digit
decimal n = digits (suc n) n ""

-- `s.rstrip(c)` for one character
unfoldable pub rstrip : ℕ → String → String
rstrip n String.[] = String.[]
rstrip n (String.◌∷◌ c s) =
    let rest = rstrip n s in
    if rest == "" && nat_eq (code c) n then String.[] else String.◌∷◌ c rest

-- `s.endswith(t)`
unfoldable pub ends_with : String → String → Bool
ends_with String.[] t = t == ""
ends_with (String.◌∷◌ c s) t = String.◌∷◌ c s == t || ends_with s t

push : Char → List String → List String
push c [] = String.◌∷◌ c String.[] ∷ []
push c (s ∷ ss) = String.◌∷◌ c s ∷ ss

-- `s.split(c)` for one character
unfoldable pub split : ℕ → String → List String
unfolding push
split n String.[] = String.[] ∷ []
split n (String.◌∷◌ c s) =
    let rest = split n s in if nat_eq (code c) n then String.[] ∷ rest else push c rest

-- `xs[-1]`, or "" of no list
abbrev pub last : List String → String
last [] = ""
last (x ∷ []) = x
last (x ∷ y ∷ ys) = last (y ∷ ys)

lower : ℕ → ℕ
lower n = if leb 65 n && leb n 90 then n + 32 else n

-- `s.lower() == t`, where no letter outside ASCII has a lower case in `t`
unfoldable pub equals_lowered : String → String → Bool
unfolding lower
equals_lowered String.[] String.[] = true
equals_lowered (String.◌∷◌ c s) (String.◌∷◌ d t) =
    nat_eq (lower (code c)) (code d) && equals_lowered s t
equals_lowered _ _ = false

-- The code points that `str.strip` removes.
abbrev is_space : ℕ → Bool
is_space n =
    (leb 9 n && leb n 13)
    || (leb 28 n && leb n 32)
    || nat_eq n 133
    || nat_eq n 160
    || nat_eq n 5760
    || (leb 8192 n && leb n 8202)
    || nat_eq n 8232
    || nat_eq n 8233
    || nat_eq n 8239
    || nat_eq n 8287
    || nat_eq n 12288

-- `not s.strip()`
unfoldable pub is_blank : String → Bool
is_blank String.[] = true
is_blank (String.◌∷◌ c s) = is_space (code c) && is_blank s

-- What is left of `s` before the spaces at its end.
strip_end : String → String
unfolding is_blank
strip_end String.[] = String.[]
strip_end (String.◌∷◌ c s) =
    let rest = strip_end s in
    if is_blank s && is_space (code c) then String.[] else String.◌∷◌ c rest

-- `s.strip()`
unfoldable pub strip : String → String
unfolding strip_end
strip String.[] = String.[]
strip (String.◌∷◌ c s) =
    let rest = strip s in if is_space (code c) then rest else strip_end (String.◌∷◌ c s)

abbrev is_break : ℕ → Bool
is_break n =
    (leb 10 n && leb n 13)
    || (leb 28 n && leb n 30)
    || nat_eq n 133
    || nat_eq n 8232
    || nat_eq n 8233

-- The pieces of a text between its line breaks: those of `s.splitlines()`, and empty ones.
unfoldable pub pieces : String → List String
unfolding push
pieces String.[] = String.[] ∷ []
pieces (String.◌∷◌ c s) =
    let rest = pieces s in if is_break (code c) then String.[] ∷ rest else push c rest

-- `len(s)`
unfoldable pub size : String → ℕ
size String.[] = 0
size (String.◌∷◌ c s) = suc (size s)
