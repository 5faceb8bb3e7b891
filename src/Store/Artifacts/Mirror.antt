-- ===== src/Store/Artifacts/Mirror.antt =====
-- The command line tools and the harness agree on agent_output_files: what one writes, the other's
-- reader finds.
use harness_runtime.Base.{
  ◌∙◌, ℕ, suc, String, true, false, ◌≡◌, refl, Option, some, List, [], ◌∷◌, arith, ◌==◌, eq_iff,
  eq_refl, get_or,
}
use harness_runtime.Value.{str, dict, end, field}
use harness_runtime.Store.Files.{
  FileRow, upsert, file_row, file_scope_key, normalize, write_agent_output_files,
}
use harness_runtime.Store.Artifacts.{
  Environment, Ids, or_text, resolved_workspace, is_set, normalize_filepath, scope_key, returns,
  btrim, select_file, read_attempts, read_artifact_from_db, artifact_row, write_artifact_to_db,
}

-- The tools' path and scope are the harness's, for every path and ids.
scope_key-mirrors :
    (path session_id workspace_id : String) (app_id : Option String)
    → (normalize_filepath path ≡ normalize path)
      × (scope_key (normalize_filepath path) session_id workspace_id app_id
          ≡ file_scope_key (normalize path) session_id workspace_id app_id)
unfolding normalize_filepath normalize scope_key file_scope_key
scope_key-mirrors path session_id workspace_id app_id = (
  refl,
  ground (
    arith,
    eq_iff workspace_id (get_or app_id ""),
    eq_iff workspace_id "",
    eq_iff (get_or app_id "") "",
  ),
)

-- What the SELECT finds after an upsert at its key, when the content is not blank.
select-upsert :
    (x : FileRow) (c : String) (rows : List FileRow)
    → x.content ≡ some c
    → (btrim c == "") ≡ false
    → select_file x.session_id x.filepath (upsert x rows) ≡ some (some (btrim c))
unfolding select_file upsert
select-upsert x c [] e solid = rw (eq_refl x.session_id, eq_refl x.filepath, e, solid)
select-upsert x c (r ∷ rs) e solid = ground (arith, select-upsert x c rs e solid)

read_attempts_first :
    (rows : List FileRow) (scope filepath v : String) (left : ℕ)
    → select_file scope filepath rows ≡ some (some v)
    → read_attempts (λ _. some rows) scope filepath (suc left) 1 ≡ returns v
unfolding read_attempts
read_attempts_first rows scope filepath v left e = ground arith

module _ (env : Environment) (ids : Ids) {sid wid : String} where
  -- The reader with its ids resolved.
  read-resolved :
      (world : ℕ → Option (List FileRow)) (retries : ℕ) (path : String)
      → is_set env.database_url ≡ true
      → or_text ids.session_id env.session_id ≡ some sid
      → is_set (some sid) ≡ true
      → resolved_workspace env ids ≡ wid
      → read_artifact_from_db world env ids retries path
        ≡ read_attempts world
            (scope_key (normalize_filepath path) sid wid (or_text ids.app_id env.app_id))
            (normalize_filepath path)
            retries
            1
  unfolding read_artifact_from_db
  read-resolved world retries path db s solid w = rw (s, w, db) (rw solid)

-- A file with a text that is not blank, written by the harness for a session, is what a tool of that
-- session reads back under the same path, with the spaces at its ends removed: the tool needs a
-- database, at least one attempt, and the session, the workspace and the app that the harness wrote
-- under, be they given or in its environment.
pub write_agent_output_files-read_artifact :
    (env : Environment) (ids : Ids) (sid wid path content : String) (left : ℕ) (rows : List FileRow)
    → is_set env.database_url ≡ true
    → or_text ids.session_id env.session_id ≡ some sid
    → is_set (some sid) ≡ true
    → resolved_workspace env ids ≡ wid
    → (btrim content == "") ≡ false
    → let app = or_text ids.app_id env.app_id in
      let files = field path (dict (field "content" (str content) end)) end in
      read_artifact_from_db
        (λ _. some (write_agent_output_files sid wid app true files rows))
        env
        ids
        (suc left)
        path
      ≡ returns (btrim content)
unfolding read_artifact_from_db write_agent_output_files
write_agent_output_files-read_artifact env ids sid wid path content left rows db s solid_sid w
      solid =
    let app = or_text ids.app_id env.app_id in
    let x = file_row sid wid app path content in
    let found = select-upsert x content rows refl solid in
    read-resolved env ids (λ _. some (upsert x rows)) (suc left) path db s solid_sid w
    ∙ read_attempts_first (upsert x rows) _ _ (btrim content) left (
        rw (scope_key-mirrors path sid wid app).1
          (unfold file_row normalize_filepath normalize in found))

-- A tool's own write: with a database, a session, at least one attempt and a text that is not blank,
-- the write succeeds and the same ids read the text back under the same path, without the spaces at
-- its ends.
write_artifact-read_artifact :
    (env : Environment) (ids : Ids) (sid path content : String) (left : ℕ) (rows : List FileRow)
    → is_set env.database_url ≡ true
    → or_text ids.session_id env.session_id ≡ some sid
    → is_set (some sid) ≡ true
    → (btrim content == "") ≡ false
    → (after : List FileRow) × (write_artifact_to_db true env ids path content rows ≡ returns after)
      × (read_artifact_from_db (λ _. some after) env ids (suc left) path ≡ returns (btrim content))
unfolding write_artifact_to_db
write_artifact-read_artifact env ids sid path content left rows db s solid_sid solid =
    let aid = or_text ids.app_id env.app_id in
    let filepath = normalize_filepath path in
    let scope = scope_key filepath sid (resolved_workspace env ids) aid in
    let after = upsert (artifact_row scope filepath content) rows in
    (
      after,
      rw (s, db) (rw solid_sid),
      read-resolved env ids (λ _. some after) (suc left) path db s solid_sid refl
          ∙ read_attempts_first after scope filepath (btrim content) left (
              unfold artifact_row in
              select-upsert (artifact_row scope filepath content) content rows refl solid),
    )
