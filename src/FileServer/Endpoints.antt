-- ===== src/FileServer/Endpoints.antt =====
-- The endpoints of api/routers/workspace_files.py.
use harness_runtime.Base.{String, Bool, false, Option, none, some, List, []}
use harness_runtime.Value.{Value, Fields}
use harness_runtime.Patterns.{sorted}
use harness_runtime.FileServer.{
  HttpResponse, answers, AuthEnvironment, Caller, require_auth, root_of, resolve_within_root, File,
  FileContent, read_resolved, Reply, save,
}
use harness_runtime.FileServer.Trees.{FileEntry, Tree, walk, by_path, build_workspace_zip}

pub record Listing : Type 0 where
  pub root : String
  pub files : List FileEntry
  pub truncated : Bool

-- The endpoints; `root_tree` is the workspace, where its root is a directory.
module _ (sha256 : String → String) (env : AuthEnvironment) (root_dir : String) where
  unfoldable pub list_files : (root_tree : Option Tree) → Caller → HttpResponse Listing
  unfolding require_auth walk
  list_files root_tree request = require_auth sha256 env request (elim root_tree [
    | none ↦ answers (record { root = root_dir; files = []; truncated = false })
    | some t ↦
        answers
          (record { root = root_dir; files = sorted by_path (walk t).0; truncated = (walk t).1 })
  ])

  unfoldable pub read_file :
      (resolve : List String → List String)
      → (disk : List String → Option File) → Caller
      → (path : String) → HttpResponse FileContent
  unfolding require_auth resolve_within_root read_resolved
  read_file resolve disk request path = require_auth sha256 env request (
      read_resolved disk (root_of resolve root_dir) path
        (resolve_within_root resolve root_dir path))

  unfoldable pub download_workspace {ℓ} :
      {Bytes : Type ℓ}
      → (read_bytes : String → Option Bytes) → (root_tree : Option Tree) → Caller
      → HttpResponse (List (String × Bytes))
  unfolding require_auth build_workspace_zip
  download_workspace read_bytes root_tree request =
      require_auth sha256 env request
        (elim root_tree [ none ↦ answers [] | some t ↦ build_workspace_zip read_bytes t ])

  unfoldable pub checkpoint : (post : Fields → Reply) → Caller → (body : Value) → HttpResponse Value
  unfolding require_auth save
  checkpoint post request body = require_auth sha256 env request (save post body)
