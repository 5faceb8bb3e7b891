-- ===== src/FetchUrl/Samples.antt =====
-- Fetches of an image, of a track and of a page.
use harness_runtime.Base.{
  ℕ, String, none, some, List, [], ◌∷◌, ◌≡◌, inl, refl, strip, split, equals_lowered, decimal,
}
use harness_runtime.Store.Files.{path_parts, path_suffix}
use harness_runtime.FetchUrl.{block_type_for, begins_lowered, ends_lowered, human_bytes, int_of}
use harness_runtime.FetchUrl.Handler.{
  FetchReply, opened, failure, do_fetch, answer_message, inlined_message,
}
use harness_runtime.FetchUrl.Chunks.{do_fetch-chunks}

abbrev track : FetchReply
track = record {
  status_code = 200;
  content_type = "audio/wav";
  content_length = some "1900000";
  chunks = (1 ∷ 2 ∷ []) ∷ (3 ∷ []) ∷ [];
  broken = none;
}

abbrev told : List ℕ → String
told read = "bytes"

do_fetch-chunks_example :
    do_fetch (λ u. u) told told (λ _. opened track) "https://h/t.wav"
    ≡ do_fetch
        (λ u. u)
        told
        told
        (λ _. opened (record track { chunks = []; broken = some "reset" }))
        "https://h/t.wav"
unfolding block_type_for begins_lowered ends_lowered strip split equals_lowered
do_fetch-chunks_example =
    do_fetch-chunks (λ u. u) told told "https://h/t.wav" track [] (some "reset") (inl refl)

test_types :
    (block_type_for (λ u. "/a/b.PNG") "u" "" ≡ "image")
    × (block_type_for (λ u. "/a/b") "u" "Text/HTML; charset=utf-8" ≡ "text")
    × (block_type_for (λ u. "/a/b") "u" "application/problem+json" ≡ "text")
    × (block_type_for (λ u. "/a/b") "u" "application/zip" ≡ "unknown")
unfolding block_type_for begins_lowered ends_lowered strip split equals_lowered path_suffix
    path_parts
test_types = (refl, refl, refl, refl)

test_sizes :
    (human_bytes (some " 1_536 ") ≡ "1.5 KB")
    × (human_bytes (some "1900000") ≡ "1.8 MB")
    × (human_bytes (some "1k") ≡ "size not reported by the server")
unfolding human_bytes int_of strip decimal
test_sizes = (refl, refl, refl)

test_scheme :
    do_fetch (λ u. u) told told (λ _. opened track) "ftp://h/t.wav"
    ≡ some (failure "Error: fetch_url only accepts http:// or https:// URLs, got: ftp://h/t.wav")
unfolding do_fetch
test_scheme = refl

-- A length that is no number ends the call by an exception.
test_length :
    do_fetch
      (λ u. u)
      told
      told
      (λ _. opened (record track { content_type = "image/png"; content_length = some "many" }))
      "https://h/i.png"
    ≡ none
unfolding do_fetch block_type_for begins_lowered ends_lowered strip split equals_lowered
    answer_message inlined_message int_of
test_length = refl
