-- ===== src/Workspace/Samples.antt =====
-- The database backend of an app's builder session on a small table.
use harness_runtime.Base.{
  ℕ, String, true, false, Option, none, some, List, [], ◌∷◌, ◌≡◌, refl, get_or, any, split,
  slice_from, lstrip, rstrip, size, join, ends_with, not, ◌&&◌, ◌||◌, ◌==◌, take, length, ltb,
}
use harness_runtime.Value.{str, dict, end, field}
use harness_runtime.Store.Files.{FileRow, normalize, write_agent_output_files}
use harness_runtime.Patterns.{fnmatch_from, like_from, occurs_in}
use harness_runtime.Workspace.{
  GrepMatch, Scope, file_info, query_db_ls, query_db_grep, normalize_db_path, format_agent_path,
  scope_condition, fnmatch,
}
use harness_runtime.Workspace.Backend.{
  ReadResult, LsResult, GlobResult, GrepResult, read, edit, ls, glob, grep, merged_grep, glob_match,
  at_root, is_global_dir,
}
use harness_runtime.Workspace.Backend.Isolation.{operations-scope}
use harness_runtime.Workspace.Backend.Reads.{read-write_agent_output_files}
use harness_runtime.Workspace.Backend.Merging.{is_at, has_path, ls-has_path, grep-is_at}

abbrev builder : Scope
builder = record { workspace_id = "shop"; session_id = "s1"; app_id = some "shop" }

abbrev row : String → String → String → FileRow
row session_id filepath content = record {
  session_id = session_id;
  filename = filepath;
  filepath = filepath;
  content = some content;
  format = "json";
  media_type = "text/plain";
  url = some "";
}

abbrev shared : List FileRow
shared = row "shop" "a_b/one.md" "x" ∷ row "shop" ".global/plan.md" "todo" ∷ []

abbrev foreign : FileRow
foreign = row "s9" "a_b/secret.md" "y"

abbrev no_read : String → ℕ → ℕ → ReadResult
no_read path offset limit = record { error = some "not found"; file_data = none }

abbrev no_ls : String → LsResult
no_ls path = record { error = none; entries = some [] }

abbrev no_glob : String → Option String → GlobResult
no_glob pattern path = record { error = none; matches = some [] }

abbrev no_grep : String → Option String → Option String → GrepResult
no_grep pattern path filter = record { error = none; matches = some []; truncated = false }

operations-scope_example :
    let others = foreign ∷ shared in
    (read true builder no_read "/workspace/a_b/one.md" 0 2000 shared
      ≡ read true builder no_read "/workspace/a_b/one.md" 0 2000 others)
    × (ls true builder no_ls "/workspace" shared ≡ ls true builder no_ls "/workspace" others)
    × (glob true builder no_glob "x" none shared ≡ glob true builder no_glob "x" none others)
    × (grep true builder no_grep "x" none none (some 10) shared
        ≡ grep true builder no_grep "x" none none (some 10) others)
unfolding scope_condition normalize_db_path like_from slice_from
operations-scope_example =
    operations-scope true builder shared (foreign ∷ shared) refl no_read no_ls no_glob no_grep
      "/workspace/a_b/one.md" "/workspace" "x" none none 0 2000 (some 10) refl

read-write_agent_output_files_example :
    let files = field "/workspace/.global/plan.md" (dict (field "content" (str "done") end)) end in
    let after = write_agent_output_files "s1" "shop" (some "shop") true files shared in
    (read true builder no_read "/workspace/.global/plan.md" 0 2000 after
      ≡ record { error = none; file_data = some (some "done", "utf-8") })
    × (edit true builder
          (λ (s : List String). s)
          (λ path content s. path ∷ s)
          (λ path old new replace_all s. s)
          "/workspace/.global/plan.md"
          "o"
          "n"
          false
          after
          []
        ≡ "/workspace/.global/plan.md" ∷ [])
unfolding normalize_db_path normalize lstrip slice_from
read-write_agent_output_files_example =
    read-write_agent_output_files builder no_read (λ s. s) (λ path content s. path ∷ s)
      (λ path old new replace_all s. s) "/workspace/.global/plan.md" "/workspace/.global/plan.md"
      "done" "not found" "o" "n" 0 2000 false shared [] refl refl refl (refl, (refl, tt)) refl refl
      refl

ls-has_path_example :
    let state = get_or (no_ls "/workspace").entries [] in
    let stored = query_db_ls true builder "/workspace" [] in
    any (has_path "/workspace/.global") (get_or (ls true builder no_ls "/workspace" []).entries [])
    ≡ (any (has_path "/workspace/.global") state
        || any (has_path "/workspace/.global") stored
        || (at_root builder "/workspace"
            && not (any is_global_dir state || any is_global_dir stored)
            && "/workspace/.global" == "/workspace/.global"))
ls-has_path_example = ls-has_path true builder [] no_ls "/workspace" "/workspace/.global"

abbrev place : GrepMatch
place = record { path = "/workspace/a_b/one.md"; line = 1; line_text = "x" }

grep-is_at_example :
    let state = get_or (no_grep "x" none none).matches [] in
    let whole = get_or (grep true builder no_grep "x" none none none shared).matches [] in
    let result = grep true builder no_grep "x" none none (some 0) shared in
    (any (is_at "/workspace/a_b/one.md" 1) whole ≡ (
      any (is_at "/workspace/a_b/one.md" 1) state
      || any (is_at "/workspace/a_b/one.md" 1) (query_db_grep true builder "x" none none shared)))
    × (get_or result.matches [] ≡ take 0 whole)
    × ((not (ltb 0 (length whole)) || result.truncated) ≡ true)
grep-is_at_example =
    grep-is_at true builder shared no_grep "x" none none 0 "/workspace/a_b/one.md" 1

-- The listing of an app's root has the directory .global, once.
test_root : ls true builder no_ls "/workspace" shared ≡ record {
  error = none;
  entries = some (file_info "/workspace/.global/" true ∷ file_info "/workspace/a_b/" true ∷ []);
}
unfolding ls query_db_ls scope_condition normalize_db_path format_agent_path like_from split
    slice_from ends_with size rstrip
test_root = refl

test_grep :
    grep true builder no_grep "x" (some "/workspace/a") (some "*.md") none shared
    ≡ record { error = none; matches = some (place ∷ []); truncated = false }
unfolding grep merged_grep query_db_grep scope_condition format_agent_path like_from split size
    fnmatch_from occurs_in
test_grep = refl

-- An underscore of a directory's name stands for any character: its listing has a file of another.
test_wildcard :
    query_db_ls true builder "/workspace/a_b" (row "s1" "axb/two.md" "z" ∷ shared)
    ≡ file_info "/workspace/axb/two.md" false ∷ file_info "/workspace/a_b/one.md" false ∷ []
unfolding query_db_ls scope_condition normalize_db_path format_agent_path like_from split slice_from
    ends_with size
test_wildcard = refl

test_fnmatch :
    (fnmatch "b1.md" "[!a-b]?.md" ≡ false)
    × (fnmatch "c1.md" "[!a-b]?.md" ≡ true)
    × (fnmatch "[x" "[x" ≡ true)
unfolding fnmatch_from size
test_fnmatch = (refl, refl, refl)

test_glob : glob_match "/workspace/a/b.md" "**/b.*" ≡ true
unfolding glob_match fnmatch_from split slice_from size join
test_glob = refl
