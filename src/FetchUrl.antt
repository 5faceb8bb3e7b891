-- ===== src/FetchUrl.antt =====
-- core/middleware/url_fetch_middleware/fetch_url.py: what the tool fetch_url tells the model of a URL.
-- The path of a URL as urlparse gives it is a parameter; a header is of ASCII characters.
pub mod Handler
pub mod Chunks
mod Samples
use Prim.Native.Nat.{◌/◌, ◌%◌}
use Prim.Native.Char.{code}
use harness_runtime.Base.{
  ℕ, zero, suc, ◌+◌, ◌*◌, ◌-◌, String, Bool, true, false, not, ◌&&◌, ◌||◌, Option, none, some, List,
  [], ◌∷◌, ◌++◌, any, contains, length, ltb, leb, nat_eq, ◌==◌, ◌<>◌, get_or, if◌then◌else◌,
  starts_with, strip, split, size, decimal, equals_lowered, is_empty,
}
use harness_runtime.Value.{Value, null, bool, str, dict, Fields, end, field, list_of}
use harness_runtime.Store.Files.{path_suffix}

-- `s.lower().startswith(t)` and `s.lower().endswith(t)` for a lower-case `t`
unfoldable pub begins_lowered : (s t : String) → Bool
begins_lowered s String.[] = true
begins_lowered String.[] (String.◌∷◌ d t) = false
begins_lowered (String.◌∷◌ c s) (String.◌∷◌ d t) =
    equals_lowered (String.◌∷◌ c String.[]) (String.◌∷◌ d String.[]) && begins_lowered s t

unfoldable pub ends_lowered : (s t : String) → Bool
ends_lowered String.[] t = t == ""
ends_lowered (String.◌∷◌ c s) t = equals_lowered (String.◌∷◌ c s) t || ends_lowered s t

abbrev pub lookup_lowered : String → List (String × String) → Option String
lookup_lowered s [] = none
lookup_lowered s ((k, v) ∷ table) =
    let rest = lookup_lowered s table in if equals_lowered s k then some v else rest

abbrev pub extension_block_types : List (String × String)
extension_block_types =
    (".png", "image")
    ∷ (".jpeg", "image")
    ∷ (".jpg", "image")
    ∷ (".webp", "image")
    ∷ (".gif", "image")
    ∷ (".heic", "image")
    ∷ (".heif", "image")
    ∷ (".mp4", "video")
    ∷ (".mpeg", "video")
    ∷ (".mov", "video")
    ∷ (".avi", "video")
    ∷ (".webm", "video")
    ∷ (".wmv", "video")
    ∷ (".wav", "audio")
    ∷ (".mp3", "audio")
    ∷ (".aac", "audio")
    ∷ (".ogg", "audio")
    ∷ (".flac", "audio")
    ∷ (".pdf", "file")
    ∷ []

abbrev pub content_block_types : List (String × String)
content_block_types =
    ("image", "image")
    ∷ ("video", "video")
    ∷ ("audio", "audio")
    ∷ ("application/pdf", "file")
    ∷ ("text", "text")
    ∷ []

abbrev pub textual_content_types : List String
textual_content_types =
    "application/json" ∷ "application/xml" ∷ "application/xhtml+xml" ∷ "application/javascript"
    ∷ "application/x-yaml" ∷ "application/yaml" ∷ []

abbrev pub max_text_chars : ℕ
max_text_chars = 40000

abbrev pub max_fetch_bytes : ℕ
max_fetch_bytes = 10 * 1024 * 1024

-- `content_type.split(";")[0].strip()`
abbrev pub primary : String → String
primary content_type = elim (split b';' content_type) [ [] ↦ "" | p ∷ _ ↦ strip p ]

-- The first entry of the table that the type is, or is below.
abbrev pub by_prefix : String → List (String × String) → Option String
by_prefix s [] = none
by_prefix s ((prefix, block_type) ∷ table) =
    let rest = by_prefix s table in
    if equals_lowered s prefix || begins_lowered s (prefix <> "/") then some block_type else rest

unfoldable pub block_type_for : (url_path : String → String) → (url content_type : String) → String
unfolding begins_lowered ends_lowered
block_type_for url_path url content_type =
    let p = primary content_type in
    if any (equals_lowered p) textual_content_types
      || ends_lowered p "+json"
      || ends_lowered p "+xml"
    then "text"
    else get_or (by_prefix p content_block_types)
        (get_or (lookup_lowered (path_suffix (url_path url)) extension_block_types) "unknown")

-- The digits of a number, with single underscores between them: `Some n`.
abbrev pub digits_of : (after_digit : Bool) → ℕ → String → Option ℕ
digits_of after_digit n String.[] = if after_digit then some n else none
digits_of after_digit n (String.◌∷◌ c s) =
    let next = digits_of true (n * 10 + (code c - 48)) s in
    let past = digits_of false n s in
    if leb 48 (code c) && leb (code c) 57
    then next
    else if nat_eq (code c) b'_' && after_digit
    then past
    else none

-- `int(s)`: whether it is negative, and its size; `none` is the ValueError.
abbrev pub signed : String → Option (Bool × ℕ)
signed String.[] = none
signed (String.◌∷◌ c s) =
    if nat_eq (code c) b'-'
    then elim (digits_of false 0 s) [ none ↦ none | some n ↦ some (ltb 0 n, n) ]
    else if nat_eq (code c) b'+'
    then elim (digits_of false 0 s) [ none ↦ none | some n ↦ some (false, n) ]
    else elim (digits_of false 0 (String.◌∷◌ c s)) [ none ↦ none | some n ↦ some (false, n) ]

unfoldable pub int_of : String → Option (Bool × ℕ)
int_of s = signed (strip s)

-- `f"{n / unit:.1f}"`, which rounds to the nearest tenth, and to the even one of two
abbrev pub tenths : (n unit : ℕ) → String
tenths n unit =
    let q = (n * 10) / unit in
    let r = (n * 10) % unit in
    let up = ltb unit (2 * r) || (nat_eq (2 * r) unit && nat_eq (q % 2) 1) in
    let t = if up then q + 1 else q in decimal (t / 10) <> "." <> decimal (t % 10)

unfoldable pub human_bytes : Option String → String
unfolding int_of
human_bytes content_length = elim (int_of (get_or content_length "")) [
  | none ↦ "size not reported by the server"
  | some (true, n) ↦ "-" <> decimal n <> " bytes"
  | some (false, n) ↦
      if ltb n 1024
      then decimal n <> " bytes"
      else if ltb n (1024 * 1024)
      then tenths n 1024 <> " KB"
      else tenths n (1024 * 1024) <> " MB"
]
