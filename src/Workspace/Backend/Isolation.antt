-- ===== src/Workspace/Backend/Isolation.antt =====
-- The operations of DBBackend in core/workspace/backends/db.py, and which rows they depend on.
use mathlib.Core.Path.{subst}
use harness_runtime.Patterns.{like}
use harness_runtime.Workspace.Backend.{
  ReadResult, LsResult, GlobResult, GrepResult, read, ls, glob, grep, merged_grep,
}
use harness_runtime.Patterns.Literal.{like-start, like-begins, like-starts, starts_with-append}
use harness_runtime.Base.{
  ends_with, if_ind, inr, inl, Bool-cases, ℕ, &&-both, String, Bool, true, false, not, ◌&&◌, ◌||◌,
  ◌≡◌, refl, sym, ap, List, [], ◌∷◌, arith, keep, ◌==◌, if◌then◌else◌, ◌∙◌, starts_with, Option,
  eq_iff, ◌<>◌,
}
use harness_runtime.Store.Files.{FileRow}
use harness_runtime.Workspace.{
  ls_prefix, with_slash, query_db_filepaths, query_db_ls, ls_rows, query_db_grep, Scope, app,
  has_app, of_session, scope_condition, query_db, normalize_db_path, latest, is_global_db_path,
}

if-ext {ℓ} :
    {A : Type ℓ} (b : Bool) (x y u v : A)
    → (b ≡ true → x ≡ u)
    → (b ≡ false → y ≡ v)
    → (if b then x else y) ≡ (if b then u else v)
if-ext true x y u v f g = f refl
if-ext false x y u v f g = g refl

keep-weaker {ℓ} :
    {A : Type ℓ} (p q : A → Bool) (xs : List A)
    → ((x : A) → p x ≡ true → q x ≡ true)
    → keep p (keep q xs) ≡ keep p xs
keep-weaker p q [] f = refl
keep-weaker p q (x ∷ xs) f = ground (arith, f x, keep-weaker p q xs f)

module _ (self : Scope) where
  abbrev in_scope : List FileRow → List FileRow
  in_scope rows = keep (scope_condition self) rows

  -- A row of the app below .global/ is in scope, and so is one of the session elsewhere.
  global_row :
      (r : FileRow)
      → has_app self ≡ true
      → (r.session_id == app self) ≡ true
      → like r.filepath ".global/%" ≡ true
      → scope_condition self r ≡ true
  unfolding scope_condition
  global_row r a s g = ground (arith, a, s, g)

  session_row :
      (r : FileRow)
      → of_session self r ≡ true
      → like r.filepath ".global/%" ≡ false
      → scope_condition self r ≡ true
  unfolding scope_condition
  session_row r s g = ground (arith, s, g)

  named_row :
      (db_path : String) (r : FileRow)
      → starts_with db_path ".global/" ≡ true
      → has_app self ≡ true
      → (r.session_id == app self && r.filepath == db_path) ≡ true
      → scope_condition self r ≡ true
  named_row db_path r b a h =
      let both = &&-both (r.session_id == app self) _ h in
      global_row r a both.0 (
        subst (λ p. like p ".global/%" ≡ true) (sym ((eq_iff r.filepath db_path).0 both.1))
          (like-begins ".global/" db_path refl b))

  query_db-scope :
      (up : Bool) (path : String) (rows : List FileRow)
      → (normalize_db_path path == ".global") ≡ false
      → query_db up self path (in_scope rows) ≡ query_db up self path rows
  unfolding query_db
  query_db-scope up path rows h =
      if-ext (not up) _ _ _ _ (λ _. refl)
        (λ _.
          if-ext (is_global_db_path (normalize_db_path path)) _ _ _ _
            (λ g.
              if-ext (has_app self) _ _ _ _
                (λ a. ap latest (
                  keep-weaker
                    (λ r. r.session_id == app self && r.filepath == normalize_db_path path)
                    (scope_condition self) rows
                    (λ r. named_row (normalize_db_path path) r (ground (arith, g, h)) a)))
                (λ _. refl))
            (λ g. ap latest (
              keep-weaker
                (λ r.
                  of_session self r
                  && r.filepath == normalize_db_path path
                  && not (like r.filepath ".global/%"))
                (scope_condition self) rows
                (λ r e. session_row r (ground (arith, e)) (ground (arith, e))))))

  -- The pattern of a listing below .global/ begins so.
  global_prefix :
      (db_path : String)
      → is_global_db_path db_path ≡ true
      → starts_with (with_slash db_path <> "%") ".global/" ≡ true
  unfolding ends_with
  global_prefix db_path h = elim (Bool-cases (db_path == ".global")) [
    | inl e ↦
        subst (λ p. starts_with (with_slash p <> "%") ".global/" ≡ true)
          (sym ((eq_iff db_path ".global").0 e)) refl
    | inr e ↦ starts_with-append (with_slash db_path) "%" ".global/" (
        if_ind (λ p. starts_with p ".global/" ≡ true) (ends_with db_path "/") (λ _. begins e)
          (λ _. starts_with-append db_path "/" ".global/" (begins e)))
  ]
    where
      begins : (db_path == ".global") ≡ false → starts_with db_path ".global/" ≡ true
      begins e = ground (arith, h, e)

  ls_rows-scope :
      (db_path : String) (rows : List FileRow)
      → ls_rows self db_path (in_scope rows) ≡ ls_rows self db_path rows
  ls_rows-scope db_path rows =
      if-ext (is_global_db_path db_path) _ _ _ _
        (λ g.
          if-ext (has_app self) _ _ _ _
            (λ a.
              keep-weaker
                (λ r. r.session_id == app self && like r.filepath (with_slash db_path <> "%"))
                (scope_condition self) rows
                (λ r e.
                  let both = &&-both (r.session_id == app self) _ e in
                  global_row r a both.0 (
                    like-start ".global/" (with_slash db_path <> "%") r.filepath refl
                      (global_prefix db_path g) both.1)))
            (λ _. refl))
        (λ _.
          keep-weaker (λ r. scope_condition self r && like r.filepath (ls_prefix db_path <> "%"))
            (scope_condition self) rows (λ r e. (&&-both (scope_condition self r) _ e).0))

  scope_twice : (rows : List FileRow) → in_scope (in_scope rows) ≡ in_scope rows
  scope_twice rows = keep-weaker (scope_condition self) (scope_condition self) rows (λ r e. e)

  module _ (up : Bool) where
    query_db_ls-scope :
        (path : String) (rows : List FileRow)
        → query_db_ls up self path (in_scope rows) ≡ query_db_ls up self path rows
    unfolding query_db_ls
    query_db_ls-scope path rows = rw (ls_rows-scope (normalize_db_path path) rows) refl

    query_db_filepaths-scope :
        (rows : List FileRow)
        → query_db_filepaths up self (in_scope rows) ≡ query_db_filepaths up self rows
    unfolding query_db_filepaths
    query_db_filepaths-scope rows = rw (scope_twice rows) refl

    query_db_grep-scope :
        (pattern : String) (path glob : Option String) (rows : List FileRow)
        → query_db_grep up self pattern path glob (in_scope rows)
          ≡ query_db_grep up self pattern path glob rows
    unfolding query_db_grep
    query_db_grep-scope pattern path glob rows = rw (scope_twice rows) refl

-- A row is visible: of the session or its workspace and not below .global/, or of the app and below it.
abbrev pub is_visible : Scope → FileRow → Bool
is_visible self r =
    if starts_with r.filepath ".global/"
    then has_app self && r.session_id == app self
    else r.session_id == self.session_id || r.session_id == self.workspace_id

like_global : (s : String) → like s ".global/%" ≡ starts_with s ".global/"
like_global s = both _ _ (like-starts ".global/" s refl) (like-begins ".global/" s refl)
  where
    both : (a b : Bool) → (a ≡ true → b ≡ true) → (b ≡ true → a ≡ true) → a ≡ b
    both true b f g = sym (f refl)
    both false true f g = g refl
    both false false f g = refl

keep_visible :
    (self : Scope) (rows : List FileRow)
    → keep (scope_condition self) rows ≡ keep (is_visible self) rows
unfolding scope_condition
keep_visible self [] = refl
keep_visible self (r ∷ rows) = ground (arith, like_global r.filepath, keep_visible self rows)

module _ (up : Bool) (self : Scope) (rows others : List FileRow)
    (e : keep (is_visible self) rows ≡ keep (is_visible self) others) where
  -- What is the same in scope is the same to a query.
  by_scope {ℓ} :
      {A : Type ℓ} (query : List FileRow → A)
      → ((table : List FileRow) → query (keep (scope_condition self) table) ≡ query table)
      → query rows ≡ query others
  by_scope query f =
      sym (f rows)
      ∙ ap query (keep_visible self rows ∙ e ∙ sym (keep_visible self others))
      ∙ f others

  -- Two tables that agree on the visible rows, those of the session and of its workspace outside
  -- .global/ and those of the app below it, give the same in every operation of a backend: a read, but
  -- of the path .global itself, a listing, a glob and a grep.
  pub operations-scope :
      (state_read : String → ℕ → ℕ → ReadResult) (state_ls : String → LsResult)
      (state_glob : String → Option String → GlobResult)
      (state_grep : String → Option String → Option String → GrepResult)
      (file_path path pattern : String) (below filter : Option String) (offset limit : ℕ)
      (max_count : Option ℕ)
      → (normalize_db_path file_path == ".global") ≡ false
      → (read up self state_read file_path offset limit rows
          ≡ read up self state_read file_path offset limit others)
        × (ls up self state_ls path rows ≡ ls up self state_ls path others)
        × (glob up self state_glob pattern below rows
            ≡ glob up self state_glob pattern below others)
        × (grep up self state_grep pattern below filter max_count rows
            ≡ grep up self state_grep pattern below filter max_count others)
  unfolding read ls glob grep merged_grep
  operations-scope state_read state_ls state_glob state_grep file_path path pattern below filter
        offset limit max_count ne =
      (
        rw (by_scope (query_db up self file_path) (λ t. query_db-scope self up file_path t ne))
            refl,
        rw (by_scope (query_db_ls up self path) (query_db_ls-scope self up path)) refl,
        rw (by_scope (query_db_filepaths up self) (query_db_filepaths-scope self up)) refl,
        rw
            (by_scope (query_db_grep up self pattern below filter)
              (query_db_grep-scope self up pattern below filter))
            refl,
      )
