-- ===== src/FetchUrl/Chunks.antt =====
-- _do_fetch of fetch_url.py, and what of a response it depends on.
use mathlib.Core.Path.{subst}
use harness_runtime.Base.{
  starts_with, not, ℕ, ◌≤◌, String, Bool, true, false, ◌||◌, Option, none, some, List, [], ◌∷◌,
  ◌++◌, ◌≡◌, ◌⊎◌, inl, inr, refl, sym, ap, ◌∙◌, arith, contains, length, get_or, ◌<>◌,
  length-append, append_assoc, append-nil, ltb, if◌then◌else◌, ◌==◌, Bool-cases,
}
use harness_runtime.FetchUrl.{max_fetch_bytes, int_of, block_type_for}
use harness_runtime.FetchUrl.Handler.{
  failure, FetchReply, opened, ReadBody, too_long, bytes, broke_off, read_chunks, body_message,
  by_header, inlined_message, answer_message, do_fetch,
}

abbrev pub whole : List (List ℕ) → List ℕ
whole [] = []
whole (chunk ∷ chunks) = chunk ++ whole chunks

-- The bytes at hand at the end of a body that is not too long.
at_end : Option String → List ℕ → ReadBody
at_end none read = bytes read
at_end (some error) read = broke_off error

if_short :
    (n : ℕ) (r : ReadBody)
    → n ≤ max_fetch_bytes
    → (if ltb max_fetch_bytes n then too_long else r) ≡ r
if_short n r le = ground (arith, le)

if_long :
    (n m : ℕ) (r : ReadBody)
    → ltb max_fetch_bytes n ≡ true
    → n ≤ m
    → too_long ≡ (if ltb max_fetch_bytes m then too_long else r)
if_long n m r h le = ground (arith, h, le)

-- However a body is cut into chunks, it is too long, broke off, or gives its bytes.
read_chunks-whole :
    (broken : Option String) (chunks : List (List ℕ)) (read : List ℕ)
    → length read ≤ max_fetch_bytes
    → read_chunks broken chunks read ≡ (
        if ltb max_fetch_bytes (length (read ++ whole chunks))
        then too_long
        else at_end broken (read ++ whole chunks))
unfolding read_chunks at_end
read_chunks-whole none [] read le =
    ap bytes (sym (append-nil read))
    ∙ sym (if_short _ _ (subst (λ xs. length xs ≤ max_fetch_bytes) (sym (append-nil read)) le))
read_chunks-whole (some error) [] read le =
    sym (if_short _ _ (subst (λ xs. length xs ≤ max_fetch_bytes) (sym (append-nil read)) le))
read_chunks-whole broken (chunk ∷ chunks) read le =
    elim (Bool-cases (ltb max_fetch_bytes (length (read ++ chunk)))) [
      | inl d ↦ rw d (
          if_long (length (read ++ chunk)) (length (read ++ (chunk ++ whole chunks))) _ d (
            omega (
              arith,
              length-append read chunk,
              length-append read (chunk ++ whole chunks),
              length-append chunk (whole chunks),
            )))
      | inr d ↦ rw d (
          read_chunks-whole broken chunks (read ++ chunk) (ground (arith, d))
          ∙ ap (λ xs. if ltb max_fetch_bytes (length xs) then too_long else at_end broken xs)
              (append_assoc read chunk (whole chunks)))
    ]

if_neither {ℓ} :
    {A : Type ℓ} (b c : Bool) (x y z w : A)
    → ((b || c) ≡ true) ⊎ (z ≡ w)
    → (if b then x else if c then y else z) ≡ (if b then x else if c then y else w)
if_neither true c x y z w h = refl
if_neither false true x y z w h = refl
if_neither false false x y z w (inl h) = cc
if_neither false false x y z w (inr e) = e

-- What a tool message says of the body of a response.
module _ (url_path : String → String) (decode : List ℕ → String) (b64encode : List ℕ → String)
    (url : String) (reply : FetchReply) (chunks : List (List ℕ)) (broken : Option String) where
  other : FetchReply
  other = record reply { chunks = chunks; broken = broken }

  read_chunks-same :
      whole reply.chunks ≡ whole chunks
      → reply.broken ≡ broken
      → read_chunks reply.broken reply.chunks [] ≡ read_chunks broken chunks []
  read_chunks-same e b =
      read_chunks-whole reply.broken reply.chunks [] (omega arith)
      ∙ ap (λ xs. if ltb max_fetch_bytes (length xs) then too_long else at_end reply.broken xs) e
      ∙ ap
          (λ o.
            if ltb max_fetch_bytes (length (whole chunks))
            then too_long
            else at_end o (whole chunks))
          b
      ∙ sym (read_chunks-whole broken chunks [] (omega arith))

  inlined_message-same :
      (block_type : String)
      → whole reply.chunks ≡ whole chunks
      → reply.broken ≡ broken
      → inlined_message url_path decode b64encode url block_type reply
        ≡ inlined_message url_path decode b64encode url block_type other
  unfolding inlined_message other
  inlined_message-same block_type e b =
      let header = get_or reply.content_length "" in
      ap
        (λ body.
          let read =
            body_message url_path decode b64encode url block_type reply.content_type body in
          if header == "" then some read else by_header url header (int_of header) read)
        (read_chunks-same e b)

  answer_message-same :
      (block_type : String)
      → ((block_type == "unknown" || contains ("audio" ∷ "video" ∷ []) block_type) ≡ true)
        ⊎ ((whole reply.chunks ≡ whole chunks) × (reply.broken ≡ broken))
      → answer_message url_path decode b64encode url block_type reply
        ≡ answer_message url_path decode b64encode url block_type other
  unfolding answer_message other
  answer_message-same block_type h =
      if_neither (block_type == "unknown") (contains ("audio" ∷ "video" ∷ []) block_type) _ _ _ _
        (elim h [ inl n ↦ inl n | inr s ↦ inr (inlined_message-same block_type s.0 s.1) ])

-- The answer does not depend on how the network cuts the body into chunks: only on its bytes, and on
-- whether it broke off. Of audio, video and what is of no known type it depends on no byte of the body.
pub do_fetch-chunks :
    (url_path : String → String) (decode b64encode : List ℕ → String) (url : String)
    (reply : FetchReply) (chunks : List (List ℕ)) (broken : Option String)
    → let block_type = block_type_for url_path url reply.content_type in
      ((block_type == "unknown" || contains ("audio" ∷ "video" ∷ []) block_type) ≡ true)
        ⊎ ((whole reply.chunks ≡ whole chunks) × (reply.broken ≡ broken))
      → do_fetch url_path decode b64encode (λ _. opened reply) url
        ≡ do_fetch url_path decode b64encode
            (λ _. opened (record reply { chunks = chunks; broken = broken }))
            url
unfolding do_fetch other
do_fetch-chunks url_path decode b64encode url reply chunks broken h =
    ap
      (λ r.
        if not (starts_with url "http://" || starts_with url "https://")
        then some (failure ("Error: fetch_url only accepts http:// or https:// URLs, got: " <> url))
        else r)
      (answer_message-same url_path decode b64encode url reply chunks broken
        (block_type_for url_path url reply.content_type) h)
