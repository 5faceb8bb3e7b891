-- ===== src/FetchUrl/Handler.antt =====
-- The handler of the tool fetch_url. The client's response, the decoding of UTF-8 and base64 are
-- parameters.
use Prim.Native.Nat.{◌/◌, ◌%◌}
use Prim.Native.Char.{code}
use harness_runtime.Base.{
  ℕ, zero, suc, String, Bool, true, false, not, ◌&&◌, ◌||◌, Option, none, some, List, [], ◌∷◌, ◌++◌,
  contains, length, ltb, leb, nat_eq, ◌==◌, ◌<>◌, get_or, if◌then◌else◌, starts_with, size, decimal,
}
use harness_runtime.Value.{Value, bool, str, dict, Fields, end, field, list_of}
use harness_runtime.FetchUrl.{
  max_text_chars, max_fetch_bytes, primary, block_type_for, int_of, human_bytes,
}

-- A ToolMessage of fetch_url, but for its name and the id of its call.
pub record FetchMessage : Type 0 where
  pub content : Value
  pub status : String
  pub additional_kwargs : Fields

abbrev pub failure : String → FetchMessage
failure said = record { content = str said; status = "error"; additional_kwargs = end }

abbrev pub mime_of : String → String
mime_of content_type =
    if primary content_type == "" then "application/octet-stream" else primary content_type

unfoldable pub accessible_not_inlined :
    (url block_type content_type : String)
    → (content_length : Option String) → (status_code : ℕ) → FetchMessage
unfolding human_bytes
accessible_not_inlined url block_type content_type content_length status_code =
    let mime_type = mime_of content_type in
    record {
      content = str (
          "The URL resolves: HTTP "
          <> decimal status_code
          <> ", "
          <> mime_type
          <> ", "
          <> human_bytes content_length
          <> ". The address is reachable and serving "
          <> block_type
          <> ".\n\nNot checked: whether the bytes decode, are complete, or are the take you expect — the body was deliberately not read.\n\nIts bytes are not returned here, by design. You cannot read "
          <> block_type
          <> " content, and placing it in the conversation would consume the context window without telling you anything.\n\nNothing is blocked. The tools that process "
          <> block_type
          <> " take this URL and fetch the bytes themselves — they are what will detect a bad track. Proceed.");
      status = "success";
      additional_kwargs = field "fetch_url_source" (str url) (
          field "fetch_url_media_type" (str mime_type)
            (field "fetch_url_inlined" (bool false) end));
    }

abbrev pub all_digits : String → Bool
all_digits String.[] = true
all_digits (String.◌∷◌ c s) = leb 48 (code c) && leb (code c) 57 && all_digits s

-- A header that says that the resource is empty.
abbrev pub says_zero : Option String → Bool
says_zero content_length =
    let text = get_or content_length "" in
    not (text == "")
    && all_digits text
    && elim (int_of text) [ none ↦ false | some n ↦ nat_eq n.1 0 ]

-- What the request gives: an HTTPError, with its text, before the body or after some chunks of it.
pub record FetchReply : Type 0 where
  pub status_code : ℕ
  pub content_type : String
  pub content_length : Option String
  pub chunks : List (List ℕ)
  pub broken : Option String

pub data Fetched : Type 0 where
  http_error : String → Fetched
  opened : FetchReply → Fetched

pub data ReadBody : Type 0 where
  too_long : ReadBody
  broke_off : String → ReadBody
  bytes : List ℕ → ReadBody

-- The loop over the chunks.
unfoldable pub read_chunks : (broken : Option String) → List (List ℕ) → (read : List ℕ) → ReadBody
read_chunks none [] read = bytes read
read_chunks (some error) [] read = broke_off error
read_chunks broken (chunk ∷ chunks) read =
    let rest = read_chunks broken chunks (read ++ chunk) in
    if ltb max_fetch_bytes (length (read ++ chunk)) then too_long else rest

-- `s[:n]`, by characters
abbrev pub slice_to : ℕ → String → String
slice_to zero s = ""
slice_to (suc n) String.[] = ""
slice_to (suc n) (String.◌∷◌ c s) = String.◌∷◌ c (slice_to n s)

-- `f"{n:}"` for what a body's length is, below 10 ^ 9
abbrev pub padded : ℕ → String
padded n = if ltb n 10 then "00" <> decimal n else if ltb n 100 then "0" <> decimal n else decimal n

abbrev pub grouped : ℕ → String
grouped n =
    if ltb n 1000
    then decimal n
    else if ltb n 1000000
    then decimal (n / 1000) <> "," <> padded (n % 1000)
    else decimal (n / 1000000) <> "," <> padded ((n / 1000) % 1000) <> "," <> padded (n % 1000)

-- What is read, unless the header says that it is too long; a header that is no number is an exception
-- that is not caught, `none`.
abbrev pub by_header :
    (url header : String) → Option (Bool × ℕ) → FetchMessage → Option FetchMessage
by_header url header none read = none
by_header url header (some n) read =
    if not n.0 && ltb max_fetch_bytes n.1
    then some (
        failure (
          "Error: resource at "
          <> url
          <> " is "
          <> header
          <> " bytes, exceeds the "
          <> decimal max_fetch_bytes
          <> " byte limit"))
    else some read

module _ (url_path : String → String) (decode : List ℕ → String) (b64encode : List ℕ → String) where
  abbrev pub source_of : (url mime_type : String) → Fields → Fields
  source_of url mime_type rest =
      field "fetch_url_source" (str url) (field "fetch_url_media_type" (str mime_type) rest)

  unfoldable pub text_message : (url mime_type : String) → List ℕ → FetchMessage
  text_message url mime_type read =
      let body = decode read in
      let truncated = ltb max_text_chars (size body) in
      record {
        content = str (
            if truncated
            then slice_to max_text_chars body
              <> "\n\n[fetch_url] truncated: showing the first 40,000 of "
              <> grouped (length read)
              <> " bytes from "
              <> url
              <> ". Request a more specific page or anchor if you need the rest."
            else body);
        status = "success";
        additional_kwargs =
            source_of url mime_type (field "fetch_url_truncated" (bool truncated) end);
      }

  unfoldable pub block_message : (url block_type mime_type : String) → List ℕ → FetchMessage
  block_message url block_type mime_type read = record {
    content = list_of (
        dict (
          field "type" (str block_type)
            (field "base64" (str (b64encode read)) (field "mime_type" (str mime_type) end)))
        ∷ []);
    status = "success";
    additional_kwargs = source_of url mime_type end;
  }

  unfoldable pub body_message : (url block_type content_type : String) → ReadBody → FetchMessage
  unfolding text_message block_message
  body_message url block_type content_type too_long =
      failure (
        "Error: resource at " <> url <> " exceeds the " <> decimal max_fetch_bytes <> " byte limit")
  body_message url block_type content_type (broke_off error) =
      failure ("Error: failed to fetch " <> url <> ": " <> error)
  body_message url block_type content_type (bytes []) = record {
    content = str ("Error: " <> url <> " returned no content");
    status = "success";
    additional_kwargs = end;
  }
  body_message url block_type content_type (bytes (b ∷ bs)) =
      if block_type == "text"
      then text_message url (mime_of content_type) (b ∷ bs)
      else block_message url block_type (mime_of content_type) (b ∷ bs)

  unfoldable pub inlined_message : (url block_type : String) → FetchReply → Option FetchMessage
  unfolding body_message read_chunks int_of
  inlined_message url block_type reply =
      let read =
        body_message url block_type reply.content_type (read_chunks reply.broken reply.chunks []) in
      let header = get_or reply.content_length "" in
      if header == "" then some read else by_header url header (int_of header) read

  unfoldable pub answer_message : (url block_type : String) → FetchReply → Option FetchMessage
  unfolding inlined_message accessible_not_inlined
  answer_message url block_type reply =
      let kind =
        if primary reply.content_type == "" then "unknown" else primary reply.content_type in
      let reported = λ (what : String). some (
        accessible_not_inlined url what reply.content_type reply.content_length
          reply.status_code) in
      if block_type == "unknown"
      then reported ("resource of type " <> kind)
      else if contains ("audio" ∷ "video" ∷ []) block_type
      then (if says_zero reply.content_length
          then some (
              failure (
                "Error: " <> url <> " resolves but the server reports it is 0 bytes. The "
                <> block_type <> " has not been written yet, or was written empty."))
          else reported block_type)
      else inlined_message url block_type reply

  unfoldable pub do_fetch : (get : String → Fetched) → (url : String) → Option FetchMessage
  unfolding answer_message block_type_for
  do_fetch get url =
      if not (starts_with url "http://" || starts_with url "https://")
      then some (failure ("Error: fetch_url only accepts http:// or https:// URLs, got: " <> url))
      else (elim (get url) [
        | http_error error ↦ some (failure ("Error: failed to fetch " <> url <> ": " <> error))
        | opened reply ↦ answer_message url (block_type_for url_path url reply.content_type) reply
      ])
