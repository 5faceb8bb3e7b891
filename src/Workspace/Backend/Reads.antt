-- ===== src/Workspace/Backend/Reads.antt =====
-- read and edit of DBBackend in core/workspace/backends/db.py, after write_agent_output_files.
use harness_runtime.Patterns.{like}
use harness_runtime.Patterns.Literal.{like-starts}
use harness_runtime.Base.{
  contains, ℕ, ◌∙◌, eq_refl, if_ind, String, Bool, true, false, not, ◌&&◌, ◌||◌, ◌≡◌, refl, ap,
  List, [], ◌∷◌, arith, keep, ◌==◌, if◌then◌else◌, starts_with, none, some, Option, eq_iff, all,
  any,
}
use harness_runtime.Value.{str, dict, end, field}
use harness_runtime.Store.Files.{
  FileRow, same_key, upsert, file_row, normalize, file_scope_key, write_agent_output_files,
}
use harness_runtime.Store.Files.Upsert.{IsKeyed}
use harness_runtime.Workspace.{
  Scope, app, has_app, of_session, query_db, normalize_db_path, latest, is_global_db_path,
}
use harness_runtime.Workspace.Backend.{hydrate_row, edit, ReadResult, read, fallback}

content_of : Option FileRow → Option (Option String)
content_of none = none
content_of (some r) = some r.content

fallback-content :
    (state_result : ReadResult) (failed : String) (q : Option FileRow) (c : Option String)
    → content_of q ≡ some c
    → fallback (some failed) state_result q ≡ record { error = none; file_data = some (c, "utf-8") }
unfolding content_of
fallback-content state_result failed none c h = cc
fallback-content state_result failed (some r) c h = cc

hydrate_row-content {ℓ} :
    {State : Type ℓ} (hydrate : String → Option String → State → State) (file_path : String)
    (q : Option FileRow) (c : Option String) (state : State)
    → content_of q ≡ some c
    → hydrate_row hydrate file_path q state ≡ hydrate file_path c state
unfolding content_of
hydrate_row-content hydrate file_path none c state h = cc
hydrate_row-content hydrate file_path (some r) c state h = cc

all-imp {ℓ} :
    {A : Type ℓ} (p q : A → Bool) (xs : List A)
    → ((x : A) → p x ≡ true → q x ≡ true)
    → all p xs ≡ true
    → all q xs ≡ true
all-imp p q [] f h = refl
all-imp p q (x ∷ xs) f h = ground (arith, h, f x, all-imp p q xs f)

all-always {ℓ} :
    {A : Type ℓ} (p : A → Bool) (xs : List A) → ((x : A) → p x ≡ true) → all p xs ≡ true
all-always p [] f = refl
all-always p (x ∷ xs) f = ground (arith, f x, all-always p xs f)

module _ (f : String → String → Bool) where
  chosen : FileRow → Bool
  chosen r = f r.session_id r.filepath

  -- Only the key of `x` is chosen.
  only_key : FileRow → List FileRow → Bool
  only_key x rows = all (λ r. not (chosen r) || same_key r x) rows

  none_chosen :
      (r x : FileRow) (rs : List FileRow)
      → same_key r x ≡ true
      → any (same_key r) rs ≡ false
      → only_key x rs ≡ true
      → keep chosen rs ≡ []
  unfolding chosen only_key
  none_chosen r x [] s n o = refl
  none_chosen r x (q ∷ rs) s n o = ground (
    arith,
    s,
    n,
    o,
    none_chosen r x rs s,
    eq_iff r.session_id x.session_id,
    eq_iff r.filepath x.filepath,
    eq_iff q.session_id x.session_id,
    eq_iff q.filepath x.filepath,
    eq_iff r.session_id q.session_id,
    eq_iff r.filepath q.filepath,
  )

  latest-upsert :
      (x : FileRow) (rows : List FileRow)
      → chosen x ≡ true
      → IsKeyed rows
      → only_key x rows ≡ true
      → content_of (latest (keep chosen (upsert x rows))) ≡ some x.content
  unfolding chosen only_key content_of upsert
  latest-upsert x [] c k o = rw c refl
  latest-upsert x (r ∷ rs) c k o =
      if_ind (λ rows. content_of (latest (keep chosen rows)) ≡ some x.content) (same_key r x)
        (λ s.
          let own : f r.session_id r.filepath ≡ true =
            ground (arith, c, s, eq_iff r.session_id x.session_id, eq_iff r.filepath x.filepath) in
          rw (own, none_chosen r x rs s k.0 (ground (arith, o))) refl)
        (λ n.
          let other : f r.session_id r.filepath ≡ false = ground (arith, n, o) in
          rw other (latest-upsert x rs c k.1 (ground (arith, o))))

module _ (self : Scope) where
  -- In the session's workspace no other id than `key` has a file of the path.
  abbrev pub is_only : (key db_path : String) → List FileRow → Bool
  is_only key db_path rows =
      all (λ r. not (of_session self r && r.filepath == db_path) || r.session_id == key) rows

  found_global :
      (db_path : String) (x : FileRow) (rows : List FileRow)
      → (x.session_id == app self) ≡ true
      → (x.filepath == db_path) ≡ true
      → IsKeyed rows
      → content_of
          (latest (keep (λ r. r.session_id == app self && r.filepath == db_path) (upsert x rows)))
        ≡ some x.content
  unfolding chosen only_key
  found_global db_path x rows s p k =
      latest-upsert (λ i q. i == app self && q == db_path) x rows (ground (arith, s, p)) k
        (all-always _ rows (λ r. ground (
          arith,
          s,
          p,
          eq_iff r.session_id (app self),
          eq_iff x.session_id (app self),
          eq_iff r.session_id x.session_id,
          eq_iff r.filepath db_path,
          eq_iff x.filepath db_path,
          eq_iff r.filepath x.filepath,
        )))

  found_session :
      (db_path : String) (x : FileRow) (rows : List FileRow)
      → of_session self x ≡ true
      → (x.filepath == db_path) ≡ true
      → like x.filepath ".global/%" ≡ false
      → IsKeyed rows
      → is_only x.session_id db_path rows ≡ true
      → content_of (
          latest (
            keep
              (λ r. of_session self r && r.filepath == db_path && not (like r.filepath ".global/%"))
              (upsert x rows)))
        ≡ some x.content
  unfolding chosen only_key
  found_session db_path x rows s p l k o =
      latest-upsert
        (λ i q.
          (i == self.session_id || i == self.workspace_id)
          && q == db_path
          && not (like q ".global/%"))
        x rows (ground (arith, s, p, l)) k
        (all-imp _ _ rows
          (λ r h. ground (
            arith,
            h,
            p,
            eq_iff r.filepath db_path,
            eq_iff x.filepath db_path,
            eq_iff r.filepath x.filepath,
          ))
          o)

  key_of : String → String
  key_of p = file_scope_key p self.session_id self.workspace_id self.app_id

  key-global :
      (p : String)
      → starts_with p ".global/" ≡ true
      → has_app self ≡ true
      → (key_of p == app self) ≡ true
  unfolding key_of file_scope_key
  key-global p g a = ground (arith, g, a, eq_refl (app self))

  key-session :
      (p : String)
      → starts_with p ".global/" ≡ false
      → (key_of p == self.session_id || key_of p == self.workspace_id) ≡ true
  unfolding key_of file_scope_key
  key-session p g = ground (
    arith,
    g,
    eq_refl self.session_id,
    eq_refl (app self),
    eq_iff self.workspace_id (app self),
    eq_iff (app self) self.workspace_id,
  )

  query_db-found :
      (file_path : String) (x : FileRow) (rows : List FileRow)
      → normalize_db_path file_path ≡ x.filepath
      → (x.filepath == ".global") ≡ false
      → (not (starts_with x.filepath ".global/") || has_app self) ≡ true
      → x.session_id ≡ key_of x.filepath
      → IsKeyed rows
      → (starts_with x.filepath ".global/" || is_only x.session_id x.filepath rows) ≡ true
      → content_of (query_db true self file_path (upsert x rows)) ≡ some x.content
  unfolding query_db
  query_db-found file_path x rows e ne needs_app key keyed only = rw e (
      if_ind (λ q. content_of q ≡ some x.content) (is_global_db_path x.filepath)
        (λ g.
          let start : starts_with x.filepath ".global/" ≡ true = ground (arith, g, ne) in
          let with_app : has_app self ≡ true = ground (arith, start, needs_app) in
          rw with_app (
            found_global x.filepath x rows
              (ap (λ k. k == app self) key ∙ key-global x.filepath start with_app)
              (eq_refl x.filepath) keyed))
        (λ g.
          let other : starts_with x.filepath ".global/" ≡ false = ground (arith, g) in
          found_session x.filepath x rows
            (ap (λ k. k == self.session_id || k == self.workspace_id) key
              ∙ key-session x.filepath other)
            (eq_refl x.filepath) (ground (arith, other, like-starts ".global/" x.filepath refl))
            keyed (ground (arith, other, only))))

-- A file that the projection writes for a session is what the session's backend reads back, and what
-- its edit puts into the state before the replacement, when the state has no such file: it comes from
-- the table, whatever was in it before. The read and the edit name the same file, which is not .global
-- itself; a file below .global/ needs an app, and of any other the session and its workspace have no
-- file of that path under another id.
pub read-write_agent_output_files {ℓ κ} :
    {State : Type ℓ} {Edited : Type κ} (self : Scope) (state_read : String → ℕ → ℕ → ReadResult)
    (read_files : State → List String) (hydrate : String → Option String → State → State)
    (state_edit : String → String → String → Bool → State → Edited)
    (path file_path content failed old_string new_string : String) (offset limit : ℕ)
    (replace_all : Bool) (rows : List FileRow) (state : State)
    → normalize_db_path file_path ≡ normalize path
    → (normalize path == ".global") ≡ false
    → (not (starts_with (normalize path) ".global/") || has_app self) ≡ true
    → IsKeyed rows
    → (starts_with (normalize path) ".global/"
        || is_only self
            (file_scope_key (normalize path) self.session_id self.workspace_id self.app_id)
            (normalize path)
            rows)
      ≡ true
    → (state_read file_path offset limit).error ≡ some failed
    → contains (read_files state) file_path ≡ false
    → let files = field path (dict (field "content" (str content) end)) end in
      let after =
        write_agent_output_files self.session_id self.workspace_id self.app_id true files rows in
      (read true self state_read file_path offset limit after
        ≡ record { error = none; file_data = some (some content, "utf-8") })
      × (edit true self read_files hydrate state_edit file_path old_string new_string replace_all
            after state
          ≡ state_edit file_path old_string new_string replace_all
              (hydrate file_path (some content) state))
unfolding read edit write_agent_output_files key_of file_row
read-write_agent_output_files self state_read read_files hydrate state_edit path file_path content
      failed old_string new_string offset limit replace_all rows state e ne needs_app keyed only
      failed_read absent =
    let state_result = state_read file_path offset limit in
    let x = file_row self.session_id self.workspace_id self.app_id path content in
    let after = upsert x rows in
    let found = query_db-found self file_path x rows e ne needs_app refl keyed only in
    (
      ap (λ o. fallback o state_result (query_db true self file_path after)) failed_read
          ∙ fallback-content state_result failed _ (some content) found,
      ap
            (λ b. state_edit file_path old_string new_string replace_all (
              if b
              then state
              else hydrate_row hydrate file_path (query_db true self file_path after) state))
            absent
          ∙ ap (state_edit file_path old_string new_string replace_all)
              (hydrate_row-content hydrate file_path _ (some content) state found),
    )
