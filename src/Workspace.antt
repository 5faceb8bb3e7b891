-- ===== src/Workspace.antt =====
-- core/workspace/backends/db.py: what a session sees of the files in agent_output_files. The table is
-- that of the output files, its rows in the order of created_at, which an upsert keeps; `up` is
-- whether a query succeeds.
pub mod Backend
mod Samples
use harness_runtime.Base.{
  ℕ, zero, suc, ◌+◌, String, Bool, true, false, not, ◌&&◌, ◌||◌, Option, none, some, List, [], ◌∷◌,
  ◌++◌, map, any, contains, keep, length, ltb, ◌==◌, ◌<>◌, get_or, if◌then◌else◌, starts_with,
  ends_with, slice_from, split, size,
}
use harness_runtime.Store.Files.{FileRow}
use harness_runtime.Patterns.{like, fnmatch_from, occurs_in, text_le, sorted}

pub record FileInfo : Type 0 where
  pub path : String
  pub is_dir : Bool
  pub size : ℕ
  pub modified_at : String

pub record GrepMatch : Type 0 where
  pub path : String
  pub line : ℕ
  pub line_text : String

-- What a backend is made for; an app id that is "" is no app id.
pub record Scope : Type 0 where
  pub workspace_id : String
  pub session_id : String
  pub app_id : Option String

abbrev pub app : Scope → String
app self = get_or self.app_id ""

abbrev pub has_app : Scope → Bool
has_app self = not (app self == "")

abbrev pub file_info : String → Bool → FileInfo
file_info path is_dir = record { path = path; is_dir = is_dir; size = 0; modified_at = "" }

abbrev pub is_global_db_path : String → Bool
is_global_db_path db_path = db_path == ".global" || starts_with db_path ".global/"

unfoldable pub normalize_db_path : String → String
normalize_db_path path =
    if path == "/workspace"
    then ""
    else if starts_with path "/workspace/"
    then slice_from 11 path
    else path

unfoldable pub format_agent_path : String → String
format_agent_path path = if starts_with path "/workspace" then path else "/workspace/" <> path

abbrev pub of_session : Scope → FileRow → Bool
of_session self r = r.session_id == self.session_id || r.session_id == self.workspace_id

-- The WHERE condition: the session's workspace, and the app's global files.
unfoldable pub scope_condition : Scope → FileRow → Bool
scope_condition self r =
    (of_session self r && not (like r.filepath ".global/%"))
    || (has_app self && r.session_id == app self && like r.filepath ".global/%")

-- ORDER BY created_at DESC LIMIT 1
abbrev pub latest : List FileRow → Option FileRow
latest [] = none
latest (r ∷ []) = some r
latest (r ∷ s ∷ rs) = latest (s ∷ rs)

-- SELECT DISTINCT
abbrev pub distinct : List String → List String
distinct [] = []
distinct (x ∷ xs) = x ∷ keep (λ y. not (x == y)) (distinct xs)

-- DISTINCT ON (filepath) … ORDER BY filepath, created_at DESC, but for the order of the paths, which is
-- the database's.
abbrev pub latest_each : List FileRow → List FileRow
latest_each [] = []
latest_each (r ∷ rs) =
    let rest = latest_each rs in if any (λ s. s.filepath == r.filepath) rs then rest else r ∷ rest

abbrev pub numbered : ℕ → List String → List (ℕ × String)
numbered n [] = []
numbered n (l ∷ ls) = (n, l) ∷ numbered (n + 1) ls

abbrev pub with_slash : String → String
with_slash db_path = if ends_with db_path "/" then db_path else db_path <> "/"

abbrev pub ls_prefix : String → String
ls_prefix db_path =
    if is_global_db_path db_path || not (db_path == "") then with_slash db_path else db_path

abbrev pub ls_rows : Scope → String → List FileRow → List FileRow
ls_rows self db_path rows =
    if is_global_db_path db_path
    then (if has_app self
        then keep (λ r. r.session_id == app self && like r.filepath (with_slash db_path <> "%"))
            rows
        else [])
    else keep (λ r. scope_condition self r && like r.filepath (ls_prefix db_path <> "%")) rows

abbrev pub relative : String → String → List String
relative prefix row = split b'/' (slice_from (size prefix) row)

abbrev pub in_subdir : String → String → Bool
in_subdir prefix row = ltb 1 (length (relative prefix row))

abbrev pub subdir : String → String → String
subdir prefix row = prefix <> elim (relative prefix row) [ [] ↦ "" | name ∷ _ ↦ name ] <> "/"

-- A filter that is absent, or "", lets every path pass.
abbrev pub passes : Option String → (String → Bool) → Bool
passes filter test = get_or filter "" == "" || test (get_or filter "")

abbrev pub fnmatch : String → String → Bool
fnmatch s pattern = fnmatch_from (size pattern) pattern s

abbrev pub lines_of : String → FileRow → List GrepMatch
lines_of pattern r =
    map (λ l. record { path = format_agent_path r.filepath; line = l.0; line_text = l.1 })
      (keep (λ l. occurs_in pattern l.1) (numbered 1 (split 10 (get_or r.content ""))))

-- The matches in the files whose path passes; the content of a file is never NULL.
abbrev pub grep_files : String → (path glob : Option String) → List FileRow → List GrepMatch
grep_files pattern path glob [] = []
grep_files pattern path glob (r ∷ rs) =
    let rest = grep_files pattern path glob rs in
    let agent_filepath = format_agent_path r.filepath in
    if passes path (starts_with agent_filepath) && passes glob (fnmatch agent_filepath)
    then lines_of pattern r ++ rest
    else rest

module _ (up : Bool) (self : Scope) where
  -- The row of a path, or `none`: its content.
  unfoldable pub query_db : String → List FileRow → Option FileRow
  query_db path rows =
      let db_path = normalize_db_path path in
      if not up
      then none
      else if is_global_db_path db_path
      then (if has_app self
          then latest (keep (λ r. r.session_id == app self && r.filepath == db_path) rows)
          else none)
      else latest (
          keep
            (λ r. of_session self r && r.filepath == db_path && not (like r.filepath ".global/%"))
            rows)

  unfoldable pub query_db_ls : String → List FileRow → List FileInfo
  query_db_ls path rows =
      let prefix = ls_prefix (normalize_db_path path) in
      let found = distinct (map (λ r. r.filepath) (ls_rows self (normalize_db_path path) rows)) in
      if up
      then map (λ row. file_info (format_agent_path row) false)
          (keep (λ row. not (in_subdir prefix row)) found)
        ++ map (λ d. file_info (format_agent_path d) true)
            (sorted text_le (distinct (map (subdir prefix) (keep (in_subdir prefix) found))))
      else []

  unfoldable pub query_db_filepaths : List FileRow → List String
  query_db_filepaths rows =
      if up
      then map format_agent_path
          (distinct (map (λ r. r.filepath) (keep (scope_condition self) rows)))
      else []

  unfoldable pub query_db_grep :
      String → (path glob : Option String) → List FileRow → List GrepMatch
  query_db_grep pattern path glob rows =
      if up
      then grep_files pattern path glob (latest_each (keep (scope_condition self) rows))
      else []
