-- ===== src/Workspace/Backend.antt =====
-- The overridden operations of DBBackend. What the inherited StateBackend answers from the state's
-- files is a parameter.
pub mod Isolation
pub mod Reads
pub mod Merging
use harness_runtime.Base.{
  ℕ, String, Bool, true, false, not, ◌&&◌, ◌||◌, Option, none, some, List, [], ◌∷◌, ◌++◌, map, any,
  keep, take, length, ltb, leb, nat_eq, ◌==◌, contains, get_or, is_some, is_empty, if◌then◌else◌,
  starts_with, slice_from, split, join, rstrip, drop,
}
use Prim.Native.Nat.{Ordering}
use Prim.Native.String.{compare}
use harness_runtime.Store.Files.{FileRow}
use harness_runtime.Patterns.{text_le, sorted}
use harness_runtime.Workspace.{
  FileInfo, GrepMatch, Scope, has_app, file_info, query_db, query_db_ls, query_db_filepaths,
  query_db_grep, passes, fnmatch,
}

pub record ReadResult : Type 0 where
  pub error : Option String
  pub file_data : Option (Option String × String)

pub record LsResult : Type 0 where
  pub error : Option String
  pub entries : Option (List FileInfo)

pub record GlobResult : Type 0 where
  pub error : Option String
  pub matches : Option (List FileInfo)

pub record GrepResult : Type 0 where
  pub error : Option String
  pub matches : Option (List GrepMatch)
  pub truncated : Bool

abbrev pub by_path : FileInfo → FileInfo → Bool
by_path a b = text_le a.path b.path

-- The order of `(path, line)`
abbrev pub by_place : GrepMatch → GrepMatch → Bool
by_place a b = elim (compare a.path b.path) [
  | Ordering.lt ↦ true
  | Ordering.eq ↦ leb a.line b.line
  | Ordering.gt ↦ false
]

abbrev pub same_place : GrepMatch → GrepMatch → Bool
same_place a b = a.path == b.path && nat_eq a.line b.line

-- The entries of the database whose path, or place, the state has none of.
abbrev pub new_paths : List FileInfo → List FileInfo → List FileInfo
new_paths have found = keep (λ e. not (any (λ f. f.path == e.path) have)) found

abbrev pub new_places : List GrepMatch → List GrepMatch → List GrepMatch
new_places have found = keep (λ e. not (any (λ f. same_place f e) have)) found

-- The ends of a path: "a/b/c", "b/c" and "c".
abbrev pub ends_of : List String → List String
ends_of [] = []
ends_of (p ∷ ps) = join "/" (p ∷ ps) ∷ ends_of ps

unfoldable pub glob_match : (filepath pattern : String) → Bool
glob_match filepath pattern =
    if starts_with pattern "**/"
    then any (λ e. fnmatch e (slice_from 3 pattern)) (ends_of (split b'/' filepath))
    else fnmatch filepath pattern

-- What the state gave without an error, or else the content of the row.
abbrev pub fallback : Option String → ReadResult → Option FileRow → ReadResult
fallback none state_result row = state_result
fallback (some failed) state_result none = state_result
fallback (some failed) state_result (some row) = record {
  error = none;
  file_data = some (row.content, "utf-8");
}

abbrev pub at_root : Scope → String → Bool
at_root self path = has_app self && (path == "/workspace" || path == "/workspace/")

abbrev pub is_global_dir : FileInfo → Bool
is_global_dir e = rstrip b'/' e.path == "/workspace/.global"

abbrev pub with_global : Scope → String → List FileInfo → List FileInfo
with_global self path entries =
    if at_root self path && not (any is_global_dir entries)
    then entries ++ (file_info "/workspace/.global" true ∷ [])
    else entries

abbrev pub cut_matches : ℕ → GrepResult → Option (List GrepMatch) → GrepResult
cut_matches max_count result none = result
cut_matches max_count result (some found) =
    if ltb max_count (length found)
    then record { error = result.error; matches = some (take max_count found); truncated = true }
    else result

-- No limit, or the first `max_count` matches.
abbrev pub cut : Option ℕ → GrepResult → GrepResult
cut none result = result
cut (some max_count) result = cut_matches max_count result result.matches

abbrev pub hydrate_row {ℓ} :
    {State : Type ℓ}
    → (String → Option String → State → State)
    → String
    → Option FileRow
    → State
    → State
hydrate_row hydrate file_path none state = state
hydrate_row hydrate file_path (some row) state = hydrate file_path row.content state

module _ (up : Bool) (self : Scope) where
  unfoldable pub read :
      (state_read : String → ℕ → ℕ → ReadResult)
      → (file_path : String) → (offset limit : ℕ) → List FileRow
      → ReadResult
  read state_read file_path offset limit rows =
      let state_result = state_read file_path offset limit in
      fallback state_result.error state_result (query_db up self file_path rows)

  -- `hydrate` is `_send_files_update` of a path and the stored form of a content; `state_edit` is the
  -- inherited edit.
  unfoldable pub edit {ℓ κ} :
      {State : Type ℓ} {Edited : Type κ}
      → (read_files : State → List String) → (hydrate : String → Option String → State → State)
      → (state_edit : String → String → String → Bool → State → Edited)
      → (file_path old_string new_string : String) → (replace_all : Bool) → List FileRow
      → State
      → Edited
  edit read_files hydrate state_edit file_path old_string new_string replace_all rows state =
      let hydrated =
        if contains (read_files state) file_path
        then state
        else hydrate_row hydrate file_path (query_db up self file_path rows) state in
      state_edit file_path old_string new_string replace_all hydrated

  unfoldable pub ls : (state_ls : String → LsResult) → (path : String) → List FileRow → LsResult
  ls state_ls path rows =
      let state_result = state_ls path in
      let state_entries = get_or state_result.entries [] in
      let to_add = new_paths state_entries (query_db_ls up self path rows) in
      if not (is_empty to_add) || at_root self path
      then record {
        error = none;
        entries = some (sorted by_path (with_global self path (state_entries ++ to_add)));
      }
      else state_result

  unfoldable pub glob :
      (state_glob : String → Option String → GlobResult)
      → (pattern : String) → (path : Option String) → List FileRow
      → GlobResult
  unfolding glob_match
  glob state_glob pattern path rows =
      let db_paths =
        keep (λ p. passes path (λ q. starts_with p q)) (query_db_filepaths up self rows) in
      let db_matches = map (λ p. file_info p false) (keep (λ p. glob_match p pattern) db_paths) in
      let state_result = state_glob pattern path in
      let state_matches = get_or state_result.matches [] in
      let to_add = new_paths state_matches db_matches in
      if not (is_empty to_add)
      then record { error = none; matches = some (sorted by_path (state_matches ++ to_add)) }
      else state_result

  unfoldable pub merged_grep :
      (state_grep : String → Option String → Option String → GrepResult)
      → (pattern : String) → (path glob : Option String) → List FileRow
      → GrepResult
  merged_grep state_grep pattern path glob rows =
      let state_result = state_grep pattern path glob in
      let state_matches = get_or state_result.matches [] in
      let to_add = new_places state_matches (query_db_grep up self pattern path glob rows) in
      if not (is_empty to_add)
      then record {
        error = none;
        matches = some (sorted by_place (state_matches ++ to_add));
        truncated = false;
      }
      else state_result

  unfoldable pub grep :
      (state_grep : String → Option String → Option String → GrepResult)
      → (pattern : String) → (path glob : Option String) → (max_count : Option ℕ) → List FileRow
      → GrepResult
  unfolding merged_grep
  grep state_grep pattern path glob max_count rows =
      cut max_count (merged_grep state_grep pattern path glob rows)
