-- ===== src/Store/Artifacts.antt =====
-- core/tools/artifact_reader.py: how an agent's command line tools read and write the files of
-- agent_output_files. The environment variables are arguments.
pub mod Mirror
use harness_runtime.Base.{
  ℕ, zero, suc, ◌+◌, String, Bool, true, false, ◌&&◌, ◌||◌, not, Option, none, some, List, [], ◌∷◌,
  ◌++◌, ltb, nat_eq, ◌==◌, ◌<>◌, if◌then◌else◌, get_or, length, starts_with, ends_with, slice_from,
  lstrip, rstrip, split, last, equals_lowered,
}
use harness_runtime.Store.Files.{FileRow, same_key, upsert, file_format}

-- What the process's environment holds.
pub record Environment : Type 0 where
  pub database_url : Option String
  pub session_id : Option String
  pub workspace_id : Option String
  pub app_id : Option String

-- The keyword arguments.
pub record Ids : Type 0 where
  pub session_id : Option String
  pub workspace_id : Option String
  pub app_id : Option String

-- `a or b`, where "" is false.
abbrev pub or_text : Option String → Option String → Option String
or_text none b = b
or_text (some a) b = if a == "" then b else some a

unfoldable pub normalize_filepath : String → String
normalize_filepath path =
    let filepath = lstrip b'/' path in
    if starts_with filepath "home/ubuntu/"
    then slice_from 12 filepath
    else if starts_with filepath "workspace/"
    then slice_from 10 filepath
    else filepath

unfoldable pub scope_key : (filepath session_id workspace_id : String) → Option String → String
scope_key filepath session_id workspace_id app_id =
    let app = get_or app_id "" in
    if not (app == "") && not (workspace_id == "") && workspace_id == app
    then app
    else if not (app == "") && starts_with filepath ".global/"
    then app
    else session_id

pub data ArtifactError : Type 0 where
  not_available : ArtifactError
  not_found : (scope filepath : String) → ArtifactError
  query_failed : ArtifactError

pub data Answer (A : Type 0) : Type 0 where
  returns : A → Answer A
  raises : ArtifactError → Answer A

-- BTRIM removes spaces at both ends.
unfoldable pub btrim : String → String
btrim s = rstrip b' ' (lstrip b' ' s)

-- COALESCE(NULLIF(BTRIM(content), ''), url)
unfoldable pub shown : FileRow → Option String
shown r = elim r.content [ none ↦ r.url | some c ↦ if btrim c == "" then r.url else some (btrim c) ]

-- The SELECT: no row, or the row's value, which may be NULL. The key is unique.
unfoldable pub select_file : (scope filepath : String) → List FileRow → Option (Option String)
unfolding shown
select_file scope filepath [] = none
select_file scope filepath (r ∷ rs) =
    let rest = select_file scope filepath rs in
    if r.session_id == scope && r.filepath == filepath then some (shown r) else rest

-- The loop over the attempts left. What the table holds at an attempt, or `none` for a query that
-- fails, is the outside world's; the delay between attempts is left out.
unfoldable pub read_attempts :
    (world : ℕ → Option (List FileRow))
    → (scope filepath : String) → ℕ
    → (attempt : ℕ) → Answer String
unfolding select_file
read_attempts world scope filepath zero attempt = raises (not_found scope filepath)
read_attempts world scope filepath (suc left) attempt =
    let again = read_attempts world scope filepath left (attempt + 1) in
    elim (world attempt) [
      | none ↦ again
      | some rows ↦ elim (select_file scope filepath rows) [
        | none ↦ again
        | some none ↦ again
        | some (some v) ↦ returns v
      ]
    ]

abbrev pub is_set : Option String → Bool
is_set o = not (get_or o "" == "")

-- `workspace_id or os.environ.get("WORKSPACE_ID", "")`
abbrev pub resolved_workspace : Environment → Ids → String
resolved_workspace env ids =
    get_or (or_text ids.workspace_id (some (get_or env.workspace_id ""))) ""

unfoldable pub read_artifact_from_db :
    (world : ℕ → Option (List FileRow)) → Environment → Ids → (retries : ℕ) → String → Answer String
unfolding read_attempts normalize_filepath scope_key
read_artifact_from_db world env ids retries filename =
    let sid = or_text ids.session_id env.session_id in
    let wid = resolved_workspace env ids in
    let aid = or_text ids.app_id env.app_id in
    if not (is_set env.database_url) || not (is_set sid)
    then raises not_available
    else (let filepath = normalize_filepath filename in
        read_attempts world (scope_key filepath (get_or sid "") wid aid) filepath retries 1)

-- _MEDIA_TYPES.get(ext, "text/plain") of this file, for the lower-cased `ext`
unfoldable pub artifact_media_type : String → String
artifact_media_type ext =
    if equals_lowered ext ".md"
    then "text/markdown"
    else if equals_lowered ext ".json"
    then "application/json"
    else if equals_lowered ext ".jsonl"
    then "application/x-ndjson"
    else if equals_lowered ext ".tsx"
    then "text/typescript"
    else if equals_lowered ext ".ts"
    then "text/typescript"
    else if equals_lowered ext ".txt"
    then "text/plain"
    else if equals_lowered ext ".yaml"
    then "text/yaml"
    else if equals_lowered ext ".yml"
    then "text/yaml"
    else "text/plain"

extension : List String → String
extension [] = ""
extension (a ∷ []) = ""
extension (a ∷ b ∷ bs) = "." <> last (b ∷ bs)

unfoldable pub artifact_row : (scope filepath content : String) → FileRow
unfolding extension artifact_media_type
artifact_row scope filepath content =
    let file_name = last (split b'/' filepath) in
    record {
      session_id = scope;
      filename = file_name;
      filepath = filepath;
      content = some content;
      format = file_format filepath;
      media_type = artifact_media_type (extension (split b'.' file_name));
      url = some "";
    }

-- The table after the write, or the exception.
unfoldable pub write_artifact_to_db :
    (up : Bool)
    → Environment
    → Ids
    → (filename content : String) → List FileRow
    → Answer (List FileRow)
unfolding artifact_row normalize_filepath scope_key
write_artifact_to_db up env ids filename content rows =
    let sid = or_text ids.session_id env.session_id in
    let wid = resolved_workspace env ids in
    let aid = or_text ids.app_id env.app_id in
    if not (is_set env.database_url) || not (is_set sid)
    then raises not_available
    else if up
    then (let filepath = normalize_filepath filename in
        returns (
          upsert (artifact_row (scope_key filepath (get_or sid "") wid aid) filepath content) rows))
    else raises query_failed
