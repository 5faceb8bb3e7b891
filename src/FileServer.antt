-- ===== src/FileServer.antt =====
-- api/routers/workspace_files.py and api/internal_auth.py: the endpoints that show the workspace and
-- ask for a checkpoint. The file system, with its links, the sidecar and the hash are parameters.
pub mod Trees
pub mod Endpoints
pub mod Walk
pub mod Containment
mod Samples
use harness_runtime.Base.{
  ℕ, zero, suc, ◌+◌, ◌*◌, String, Bool, true, false, not, ◌&&◌, ◌||◌, Option, none, some, List, [],
  ◌∷◌, ◌++◌, map, any, contains, length, ltb, leb, nat_eq, ◌==◌, ◌<>◌, get_or, if◌then◌else◌,
  starts_with, slice_from, lstrip, strip, is_blank, join, size, drop, decimal, equals_lowered,
}
use Prim.Native.Nat.{◌/◌}
use harness_runtime.Value.{Value, null, str, dict, Fields, end, field, lookup, or_null, truthy}
use harness_runtime.Patterns.{text_le, sorted}
use harness_runtime.Store.Files.{path_parts}

-- What an endpoint does: it answers, or raises an HTTPException, or another exception.
pub data HttpResponse {ℓ} (A : Type ℓ) : Type ℓ where
  answers : A → HttpResponse A
  http_exception : (status : ℕ) (detail : Value) → HttpResponse A
  raises : HttpResponse A

pub record AuthEnvironment : Type 0 where
  pub waypoint_env : Option String
  pub token_sha256 : Option String

unfoldable pub is_internal_caller :
    (sha256 : String → String) → AuthEnvironment → (token : Option String) → Bool
is_internal_caller sha256 env token =
    if get_or env.waypoint_env "" == "local"
    then true
    else if is_blank (get_or env.token_sha256 "")
    then not (get_or env.waypoint_env "" == "production")
    else if get_or token "" == ""
    then false
    else equals_lowered (strip (get_or env.token_sha256 "")) (sha256 (get_or token ""))

abbrev pub is_in_pod_caller : Option String → Bool
is_in_pod_caller client_host =
    contains ("127.0.0.1" ∷ "::1" ∷ "localhost" ∷ []) (get_or client_host "")

pub record Caller : Type 0 where
  pub host : Option String
  pub token : Option String

unfoldable pub require_auth {ℓ} :
    {A : Type ℓ}
    → (sha256 : String → String) → AuthEnvironment
    → Caller
    → HttpResponse A
    → HttpResponse A
unfolding is_internal_caller
require_auth sha256 env request answer =
    if is_in_pod_caller request.host || is_internal_caller sha256 env request.token
    then answer
    else http_exception 401 (str "Missing or invalid x-waypoint-internal-token")

abbrev pub max_read_bytes : ℕ
max_read_bytes = 2 * 1024 * 1024

abbrev pub is_prefix : List String → List String → Bool
is_prefix [] path = true
is_prefix (x ∷ xs) [] = false
is_prefix (x ∷ xs) (y ∷ ys) = x == y && is_prefix xs ys

-- The path below the root that is meant, from the caller's.
abbrev pub cleaned : (root_dir rel_path : String) → String
cleaned root_dir rel_path =
    let path = strip rel_path in
    lstrip b'/' (
      if path == root_dir
      then ""
      else if starts_with path (root_dir <> "/")
      then slice_from (size root_dir + 1) path
      else path)

-- `resolve` is Path.resolve on the parts of an absolute path; the root is an absolute path.
abbrev pub root_of : (List String → List String) → String → List String
root_of resolve root_dir = resolve (path_parts root_dir)

unfoldable pub resolve_within_root :
    (resolve : List String → List String)
    → (root_dir rel_path : String) → HttpResponse (List String)
resolve_within_root resolve root_dir rel_path =
    let root = root_of resolve root_dir in
    let candidate = resolve (root ++ path_parts (cleaned root_dir rel_path)) in
    if strip rel_path == ""
    then http_exception 400 (str "path is required")
    else if is_prefix root candidate
    then answers candidate
    else http_exception 400 (str "path escapes the workspace")

-- A regular file: what `stat` says of it, and its text, unless it is not UTF-8.
pub record File : Type 0 where
  pub size : ℕ
  pub modified_at : ℕ
  pub content : Option String

pub record FileContent : Type 0 where
  pub path : String
  pub content : String
  pub size : ℕ
  pub modified_at : ℕ

-- `str(full.relative_to(root))`
abbrev pub relative_path : (root full : List String) → String
relative_path root full = elim (drop (length root) full) [ [] ↦ "." | p ∷ ps ↦ join "/" (p ∷ ps) ]

unfoldable pub read_full :
    (root full : List String) → (path : String) → Option File → HttpResponse FileContent
read_full root full path none = http_exception 404 (str ("no such file: " <> path))
read_full root full path (some file) =
    if ltb max_read_bytes file.size
    then http_exception 413 (
        str (
          "file is "
          <> decimal file.size
          <> " bytes, above the "
          <> decimal max_read_bytes
          <> " limit"))
    else (elim file.content [
      | none ↦ http_exception 415 (str "file is not valid UTF-8 text")
      | some text ↦ answers (record {
        path = relative_path root full;
        content = text;
        size = file.size;
        modified_at = file.modified_at;
      })
    ])

unfoldable pub read_resolved :
    (disk : List String → Option File)
    → (root : List String) → (path : String) → HttpResponse (List String)
    → HttpResponse FileContent
unfolding read_full
read_resolved disk root path (answers full) = read_full root full path (disk full)
read_resolved disk root path (http_exception status detail) = http_exception status detail
read_resolved disk root path raises = raises

-- What the sidecar gives to a POST.
pub data Reply : Type 0 where
  connect_error : Reply
  timeout : Reply
  replied : (status : ℕ) (json : Option Value) (answer_text : String) → Reply

-- `body.get(key) or ""`
abbrev pub text_item : String → Fields → Value
text_item key body = let v = or_null (lookup key body) in if truthy v then v else str ""

unfoldable pub forwarded : Reply → HttpResponse Value
forwarded connect_error =
    http_exception 503
      (str "This sandbox has no workspace persistence; there is nothing to save to.")
forwarded timeout =
    http_exception 504 (str "Checkpoint did not complete within 180.0s; it may still be running.")
forwarded (replied status json answer_text) =
    let answer = get_or json (dict (field "error" (str answer_text) end)) in
    if leb 400 status then http_exception status answer else answers answer

abbrev pub payload : Fields → Fields
payload body =
    field "name" (text_item "name" body) (field "description" (text_item "description" body) end)

-- The endpoint's body: a value that is false, or no JSON (`null`), counts as {}; of one that is true and
-- no dict, `get` is an exception.
unfoldable pub save : (post : Fields → Reply) → (body : Value) → HttpResponse Value
unfolding forwarded
save post (dict body) = forwarded (post (payload body))
save post body = if truthy body then raises else forwarded (post (payload end))
