-- ===== src/FileServer/Containment.antt =====
-- read_file of api/routers/workspace_files.py, and what of the disk it depends on.
use harness_runtime.Base.{String, true, Option, List, ◌≡◌, refl, ap, ◌++◌, if_ind, ◌==◌, strip}
use harness_runtime.Store.Files.{path_parts}
use harness_runtime.FileServer.{
  read_full, HttpResponse, answers, http_exception, raises, AuthEnvironment, Caller, require_auth,
  root_of, cleaned, is_prefix, resolve_within_root, File, read_resolved,
}
use harness_runtime.FileServer.Endpoints.{read_file}

resolve_within_root-below :
    (resolve : List String → List String) (root_dir rel_path : String) (full : List String)
    → resolve_within_root resolve root_dir rel_path ≡ answers full
    → is_prefix (root_of resolve root_dir) full ≡ true
unfolding resolve_within_root
resolve_within_root-below resolve root_dir rel_path full =
    if_ind (λ (r : HttpResponse (List String)). r ≡ answers full → is_prefix root full ≡ true)
      (strip rel_path == "") (λ _ e. cc)
      (λ _.
        if_ind (λ (r : HttpResponse (List String)). r ≡ answers full → is_prefix root full ≡ true)
          (is_prefix root candidate) (λ inside e. cc) (λ _ e. cc))
  where
    root : List String
    root = root_of resolve root_dir

    candidate : List String
    candidate = resolve (root ++ path_parts (cleaned root_dir rel_path))

module _ (disk other : List String → Option File) (root : List String)
    (same : (p : List String) → is_prefix root p ≡ true → disk p ≡ other p) where
  read_resolved-inside :
      (path : String) (r : HttpResponse (List String))
      → ((full : List String) → r ≡ answers full → is_prefix root full ≡ true)
      → read_resolved disk root path r ≡ read_resolved other root path r
  unfolding read_resolved
  read_resolved-inside path (answers full) inside =
      ap (read_full root full path) (same full (inside full refl))
  read_resolved-inside path (http_exception status detail) inside = refl
  read_resolved-inside path raises inside = refl

-- What read_file gives depends on no file outside the workspace: however the file system resolves
-- paths, by links or by `..`, and whatever path is asked for, two disks with the same files below the
-- resolved root give the same answer or the same exception.
pub read_file-inside :
    (sha256 : String → String) (env : AuthEnvironment) (root_dir : String)
    (resolve : List String → List String) (disk other : List String → Option File)
    (request : Caller) (path : String)
    → ((p : List String) → is_prefix (root_of resolve root_dir) p ≡ true → disk p ≡ other p)
    → read_file sha256 env root_dir resolve disk request path
      ≡ read_file sha256 env root_dir resolve other request path
unfolding read_file
read_file-inside sha256 env root_dir resolve disk other request path same =
    ap (require_auth sha256 env request) (
      read_resolved-inside disk other (root_of resolve root_dir) same path
        (resolve_within_root resolve root_dir path)
        (resolve_within_root-below resolve root_dir path))
