-- ===== src/FileServer/Samples.antt =====
-- A small workspace, read and listed.
use harness_runtime.Base.{
  ◌≤◌, String, true, false, Option, none, some, List, [], ◌∷◌, ◌≡◌, refl, length, take, lstrip,
  strip, slice_from, size, split, join, if◌then◌else◌, is_blank, ◌==◌,
}
use harness_runtime.Value.{null, str, dict, end, field, truthy}
use harness_runtime.Store.Files.{path_parts}
use harness_runtime.FileServer.{
  answers, http_exception, AuthEnvironment, Caller, File, require_auth, is_internal_caller,
  resolve_within_root, read_resolved, read_full, replied, connect_error, save, is_prefix,
}
use harness_runtime.FileServer.Trees.{
  Tree, tree, no_dirs, and_dir, walk, walk_files, walk_tree, max_entries,
}
use harness_runtime.FileServer.Endpoints.{read_file, checkpoint}
use harness_runtime.FileServer.Walk.{whole_tree, walk-whole_tree}
use harness_runtime.FileServer.Containment.{read_file-inside}

abbrev sources : Tree
sources = tree (("app.ts", some (3, 1)) ∷ ("gone.ts", none) ∷ (".DS_Store", some (9, 9)) ∷ []) (
    and_dir "node_modules" (tree (("x.js", some (1, 1)) ∷ []) no_dirs)
      (and_dir "src" (tree (("b.ts", some (2, 2)) ∷ []) no_dirs) no_dirs))

walk-whole_tree_example :
    ((walk sources).0 ≡ take max_entries (whole_tree "" sources))
    × (if (walk sources).1
        then max_entries ≤ length (whole_tree "" sources)
        else length (whole_tree "" sources) ≤ max_entries)
walk-whole_tree_example = walk-whole_tree sources

test_walk : walk sources ≡ (
  record { path = "app.ts"; size = 3; modified_at = 1 }
      ∷ record { path = "src/b.ts"; size = 2; modified_at = 2 }
      ∷ [],
  false,
)
unfolding walk walk_tree walk_files
test_walk = refl

abbrev disk : List String → Option File
disk p =
    if is_prefix ("workspace" ∷ []) p
    then some (record { size = 2; modified_at = 1; content = some "hi" })
    else none

abbrev wider : List String → Option File
wider p =
    if is_prefix ("workspace" ∷ []) p
    then some (record { size = 2; modified_at = 1; content = some "hi" })
    else some (record { size = 6; modified_at = 1; content = some "secret" })

-- `..` as the file system resolves it.
abbrev resolve : List String → List String
resolve [] = []
resolve (a ∷ []) = a ∷ []
resolve (a ∷ b ∷ rest) = if b == ".." then rest else a ∷ b ∷ rest

abbrev deployed : AuthEnvironment
deployed = record { waypoint_env = some "production"; token_sha256 = none }

abbrev in_pod : Caller
in_pod = record { host = some "127.0.0.1"; token = none }

inside : (p : List String) → is_prefix ("workspace" ∷ []) p ≡ true → disk p ≡ wider p
inside p h = rw h refl

read_file-inside_example :
    read_file (λ s. s) deployed "/workspace" resolve disk in_pod "/workspace/../etc/passwd"
    ≡ read_file (λ s. s) deployed "/workspace" resolve wider in_pod "/workspace/../etc/passwd"
unfolding path_parts split
read_file-inside_example =
    read_file-inside (λ s. s) deployed "/workspace" resolve disk wider in_pod
      "/workspace/../etc/passwd" inside

test_escape :
    read_file (λ s. s) deployed "/workspace" resolve wider in_pod "/workspace/../etc/passwd"
    ≡ http_exception 400 (str "path escapes the workspace")
unfolding read_file require_auth resolve_within_root read_resolved read_full strip slice_from size
    lstrip path_parts split join is_blank
test_escape = refl

test_read :
    read_file (λ s. s) deployed "/workspace" resolve disk in_pod " /workspace/a/b.md "
    ≡ answers (record { path = "a/b.md"; content = "hi"; size = 2; modified_at = 1 })
unfolding read_file require_auth resolve_within_root read_resolved read_full strip slice_from size
    lstrip path_parts split join is_blank
test_read = refl

test_refused :
    checkpoint
      (λ s. s)
      deployed
      "/workspace"
      (λ p. connect_error)
      (record { host = some "10.0.0.1"; token = some "t" })
      null
    ≡ http_exception 401 (str "Missing or invalid x-waypoint-internal-token")
unfolding checkpoint require_auth is_internal_caller is_blank
test_refused = refl

test_saved :
    checkpoint (λ s. s) deployed "/workspace" (λ p. replied 200 (some (dict p)) "") in_pod null
    ≡ answers (dict (field "name" (str "") (field "description" (str "") end)))
unfolding checkpoint require_auth save truthy
test_saved = refl
