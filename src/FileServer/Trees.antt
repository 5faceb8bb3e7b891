-- ===== src/FileServer/Trees.antt =====
-- The walk of api/routers/workspace_files.py over the workspace's directories, and its archive.
use Prim.Native.Nat.{◌/◌}
use harness_runtime.Base.{
  ℕ, ◌+◌, ◌*◌, String, Bool, true, false, Option, none, some, List, [], ◌∷◌, ◌++◌, contains, length,
  ltb, leb, ◌==◌, ◌<>◌, if◌then◌else◌, decimal,
}
use harness_runtime.Value.{str}
use harness_runtime.Patterns.{text_le, sorted}
use harness_runtime.FileServer.{HttpResponse, answers, http_exception}

abbrev pub skip_dirs : List String
skip_dirs =
    ".git" ∷ "node_modules" ∷ ".expo" ∷ ".next" ∷ "dist" ∷ "build" ∷ "__pycache__" ∷ ".venv"
    ∷ ".ruff_cache" ∷ ".turbo" ∷ ".cache" ∷ []

abbrev pub max_entries : ℕ
max_entries = 5000

abbrev pub max_download_bytes : ℕ
max_download_bytes = 100 * 1024 * 1024

pub record FileEntry : Type 0 where
  pub path : String
  pub size : ℕ
  pub modified_at : ℕ

-- A directory as os.walk meets it: its files, each with its size and time where it can be stat'ed, and
-- its directories; a link to a directory stands as one without entries.
mutual
  pub data Tree : Type 0 where
    tree : List (String × Option (ℕ × ℕ)) → Dirs → Tree

  pub data Dirs : Type 0 where
    no_dirs : Dirs
    and_dir : String → Tree → Dirs → Dirs

-- The files of one directory: the list so far, and whether it was cut off. `dirpath` is "", or the
-- directory's path below the root with a slash at its end.
unfoldable pub walk_files :
    (limit : ℕ)
    → (dirpath : String) → List (String × Option (ℕ × ℕ))
    → List FileEntry
    → List FileEntry × Bool
walk_files limit dirpath [] files = (files, false)
walk_files limit dirpath ((name, st) ∷ names) files =
    let passed = walk_files limit dirpath names files in
    let added = λ (s : ℕ × ℕ).
      walk_files limit dirpath names
        (files ++ record { path = dirpath <> name; size = s.0; modified_at = s.1 } ∷ []) in
    if name == ".DS_Store"
    then passed
    else if leb limit (length files)
    then (files, true)
    else elim st [ none ↦ passed | some s ↦ added s ]

abbrev pub go_on :
    List FileEntry × Bool → (List FileEntry → List FileEntry × Bool) → List FileEntry × Bool
go_on (files, true) next = (files, true)
go_on (files, false) next = next files

-- os.walk goes from the top down, and not into the directories that are taken out of its list.
unfoldable mutual
  unfolding walk_files

  pub walk_tree : (limit : ℕ) → (dirpath : String) → Tree → List FileEntry → List FileEntry × Bool
  walk_tree limit dirpath (tree names dirs) files =
      go_on (walk_files limit dirpath names files) (walk_dirs limit dirpath dirs)

  pub walk_dirs : (limit : ℕ) → (dirpath : String) → Dirs → List FileEntry → List FileEntry × Bool
  walk_dirs limit dirpath no_dirs files = (files, false)
  walk_dirs limit dirpath (and_dir name below dirs) files =
      let passed = walk_dirs limit dirpath dirs files in
      let below_it = walk_tree limit (dirpath <> name <> "/") below files in
      if contains skip_dirs name then passed else go_on below_it (walk_dirs limit dirpath dirs)

unfoldable pub walk : Tree → List FileEntry × Bool
walk root = walk_tree max_entries "" root []

abbrev pub by_path : FileEntry → FileEntry → Bool
by_path a b = text_le a.path b.path

abbrev pub total_size : List FileEntry → ℕ
total_size [] = 0
total_size (e ∷ es) = e.size + total_size es

-- The members of the archive; a file that is gone when it is read is left out.
abbrev pub archived {ℓ} :
    {Bytes : Type ℓ} → (read_bytes : String → Option Bytes) → List FileEntry → List (String × Bytes)
archived read_bytes [] = []
archived read_bytes (e ∷ es) =
    let rest = archived read_bytes es in
    elim (read_bytes e.path) [ none ↦ rest | some data_bytes ↦ (e.path, data_bytes) ∷ rest ]

abbrev pub megabytes : ℕ → String
megabytes n = decimal (n / (1024 * 1024))

unfoldable pub build_workspace_zip {ℓ} :
    {Bytes : Type ℓ}
    → (read_bytes : String → Option Bytes) → Tree
    → HttpResponse (List (String × Bytes))
unfolding walk
build_workspace_zip read_bytes root =
    let files = sorted by_path (walk root).0 in
    if ltb max_download_bytes (total_size files)
    then http_exception 413 (
        str (
          "Workspace size ("
          <> megabytes (total_size files)
          <> "MB) exceeds maximum download limit ("
          <> megabytes max_download_bytes
          <> "MB)"))
    else answers (archived read_bytes files)
