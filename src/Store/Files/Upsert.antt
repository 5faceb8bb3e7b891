-- ===== src/Store/Files/Upsert.antt =====
-- The upsert of agent_output_files: one row to a scope and path, and a write is seen at its key only.
use mathlib.Core.Path.{subst}
use harness_runtime.Base.{
  if_ind, ◌∙◌, String, Bool, true, false, ◌≡◌, refl, Option, none, some, List, [], ◌∷◌, arith,
  eq_iff, any, get_or,
}
use harness_runtime.Value.{null, dict, Fields, end, field}
use harness_runtime.Store.Files.{FileRow, same_key, upsert, write_files, write_agent_output_files}

-- The unique index (session_id, filepath).
abbrev pub IsKeyed : List FileRow → Type 0
IsKeyed [] = Unit
IsKeyed (r ∷ rs) = (any (same_key r) rs ≡ false) × IsKeyed rs

any-upsert :
    (r x : FileRow) (rs : List FileRow)
    → same_key r x ≡ false
    → any (same_key r) (upsert x rs) ≡ any (same_key r) rs
unfolding upsert
any-upsert r x [] ne = ground arith
any-upsert r x (s ∷ rs) ne =
    ground
      (arith, any-upsert r x rs, eq_iff s.session_id x.session_id, eq_iff s.filepath x.filepath)

upsert-IsKeyed : (x : FileRow) (rs : List FileRow) → IsKeyed rs → IsKeyed (upsert x rs)
unfolding upsert
upsert-IsKeyed x [] h = (refl, tt)
upsert-IsKeyed x (r ∷ rs) h =
    if_ind IsKeyed (same_key r x) (λ _. h)
      (λ ne. (any-upsert r x rs ne ∙ h.0, upsert-IsKeyed x rs h.1))

or_old-IsKeyed :
    (o : Option (List FileRow)) (rows : List FileRow)
    → ((after : List FileRow) → o ≡ some after → IsKeyed after)
    → IsKeyed rows
    → IsKeyed (get_or o rows)
or_old-IsKeyed none rows new h = h
or_old-IsKeyed (some after) rows new h = new after refl

module _ (session_id workspace_id : String) (app_id : Option String) where
  write_files-IsKeyed :
      (files : Fields) (rows after : List FileRow)
      → write_files session_id workspace_id app_id files rows ≡ some after
      → IsKeyed rows
      → IsKeyed after
  unfolding write_files
  write_files-IsKeyed end rows after e h = subst (λ o. IsKeyed (get_or o [])) e h
  write_files-IsKeyed (field path (dict info) files) rows after e h =
      write_files-IsKeyed files _ after e (upsert-IsKeyed _ rows h)
  write_files-IsKeyed (field path null files) rows after e h = cc
  write_files-IsKeyed (field path _ files) rows after e h = cc

-- A write of any files, whether or not it goes through, keeps one row to a scope and path.
pub write_agent_output_files-IsKeyed :
    (session_id workspace_id : String) (app_id : Option String) (up : Bool) (files : Fields)
    (rows : List FileRow)
    → IsKeyed rows
    → IsKeyed (write_agent_output_files session_id workspace_id app_id up files rows)
unfolding write_agent_output_files
write_agent_output_files-IsKeyed session_id workspace_id app_id up end rows h = h
write_agent_output_files-IsKeyed session_id workspace_id app_id false (field path info files) rows
      h =
    h
write_agent_output_files-IsKeyed session_id workspace_id app_id true (field path info files) rows
      h =
    or_old-IsKeyed (write_files session_id workspace_id app_id (field path info files) rows) rows
      (λ after e.
        write_files-IsKeyed session_id workspace_id app_id (field path info files) rows after e h)
      h
