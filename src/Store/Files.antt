-- ===== src/Store/Files.antt =====
-- write_agent_output_files of core/persistence/message_writer.py, on the table agent_output_files.
-- The row's own id is a fresh UUID that nothing reads, and is left out; the rows stand in the order
-- of created_at.
pub mod Upsert
use harness_runtime.Base.{
  ℕ, String, Bool, true, false, ◌&&◌, ◌||◌, not, Option, none, some, List, [], ◌∷◌, ◌++◌, ltb,
  nat_eq, ◌==◌, ◌<>◌, if◌then◌else◌, get_or, keep, length, starts_with, ends_with, slice_from,
  lstrip, split, last, equals_lowered,
}
use harness_runtime.Value.{
  Value, null, bool, num, str, list, tuple, dict, object, Fields, end, field, lookup, or_null, text,
}

pub record FileRow : Type 0 where
  pub session_id : String
  pub filename : String
  pub filepath : String
  pub content : Option String
  pub format : String
  pub media_type : String
  pub url : Option String

abbrev slash : ℕ
slash = b'/'

abbrev dot : ℕ
dot = b'.'

-- The path below the workspace.
unfoldable pub normalize : String → String
normalize path =
    let filepath = lstrip slash path in
    if starts_with filepath "home/ubuntu/"
    then slice_from 12 filepath
    else if starts_with filepath "workspace/"
    then slice_from 10 filepath
    else filepath

-- The components of Path(s), without the root.
unfoldable pub path_parts : String → List String
path_parts s = keep (λ p. not (p == "") && not (p == ".")) (split slash s)

abbrev path_name : String → String
path_name s = last (path_parts s)

-- Path(s).suffix: from the last dot of the name, which neither begins nor ends it.
suffix_of : List String → String
suffix_of [] = ""
suffix_of (a ∷ []) = ""
suffix_of (a ∷ b ∷ []) = if a == "" || b == "" then "" else "." <> b
suffix_of (a ∷ b ∷ c ∷ cs) =
    let end_part = last (b ∷ c ∷ cs) in if end_part == "" then "" else "." <> end_part

-- Path(s).suffix
unfoldable pub path_suffix : String → String
unfolding suffix_of
path_suffix s = suffix_of (split dot (path_name s))

-- _MEDIA_TYPES.get(ext.lower(), "text/plain")
unfoldable pub media_type : String → String
media_type ext =
    if equals_lowered ext ".md"
    then "text/markdown"
    else if equals_lowered ext ".json"
    then "application/json"
    else if equals_lowered ext ".txt"
    then "text/plain"
    else if equals_lowered ext ".html"
    then "text/html"
    else if equals_lowered ext ".yaml"
    then "application/x-yaml"
    else if equals_lowered ext ".yml"
    then "application/x-yaml"
    else if equals_lowered ext ".csv"
    then "text/csv"
    else "text/plain"

-- `_file_scope_key`; an app id that is "" is no app id.
unfoldable pub file_scope_key : (filepath session_id workspace_id : String) → Option String → String
file_scope_key filepath session_id workspace_id app_id =
    let app = get_or app_id "" in
    if not (app == "") && workspace_id == app
    then app
    else if not (app == "") && starts_with filepath ".global/"
    then app
    else session_id

unfoldable pub file_format : String → String
file_format filepath = if ends_with filepath ".md" then "markdown" else "json"

-- The parameters of the INSERT for one file.
unfoldable pub file_row :
    (session_id workspace_id : String) → Option String → String → String → FileRow
unfolding suffix_of
file_row session_id workspace_id app_id path content =
    let filepath = normalize path in
    let parts = path_parts filepath in
    record {
      session_id = file_scope_key filepath session_id workspace_id app_id;
      filename =
          if starts_with filepath "skills/" && ltb 2 (length parts)
          then slice_from 7 filepath
          else path_name filepath;
      filepath = filepath;
      content = some content;
      format = file_format filepath;
      media_type = media_type (suffix_of (split dot (path_name filepath)));
      url = some "";
    }

abbrev pub same_key : FileRow → FileRow → Bool
same_key r s = r.session_id == s.session_id && r.filepath == s.filepath

-- INSERT … ON CONFLICT (session_id, filepath) DO UPDATE SET content, format, media_type
unfoldable pub upsert : FileRow → List FileRow → List FileRow
upsert x [] = x ∷ []
upsert x (r ∷ rs) =
    if same_key r x
    then record r { content = x.content; format = x.format; media_type = x.media_type } ∷ rs
    else r ∷ upsert x rs

module _ (session_id workspace_id : String) (app_id : Option String) where
  -- The loop; `none` is the exception of `file_info.get` on what is no dict, which undoes the
  -- transaction.
  unfoldable pub write_files : Fields → List FileRow → Option (List FileRow)
  unfolding upsert file_row
  write_files end rows = some rows
  write_files (field path (dict info) files) rows = write_files files (
      upsert
        (file_row session_id workspace_id app_id path
          (text (get_or (lookup "content" info) (str ""))))
        rows)
  write_files (field path null files) rows = none
  write_files (field path _ files) rows = none

  unfoldable pub write_agent_output_files : (up : Bool) → Fields → List FileRow → List FileRow
  unfolding write_files
  write_agent_output_files up end rows = rows
  write_agent_output_files up (field path info files) rows =
      if up then get_or (write_files (field path info files) rows) rows else rows
