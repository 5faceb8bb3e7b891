-- ===== src/Workspace/Backend/Merging.antt =====
-- ls and grep of DBBackend in core/workspace/backends/db.py: how two lists become one.
use harness_runtime.Base.{
  nat_eq, ℕ, zero, suc, String, Bool, true, false, not, ◌&&◌, ◌||◌, ◌≡◌, refl, sym, ap, ◌∙◌, List,
  [], ◌∷◌, ◌++◌, arith, keep, ◌==◌, if_ind, none, some, Option, eq_iff, any, any-append, take,
  length, ltb, is_empty, get_or, rstrip,
}
use harness_runtime.Store.Files.{FileRow}
use harness_runtime.Patterns.{insert_sorted, sorted}
use harness_runtime.Workspace.{FileInfo, GrepMatch, Scope, query_db_ls, query_db_grep, file_info}
use harness_runtime.Workspace.Backend.{
  cut_matches, LsResult, GrepResult, ls, grep, merged_grep, new_paths, new_places, same_place,
  at_root, is_global_dir, with_global, by_path, by_place,
}

module _ {ℓ} {A : Type ℓ} (q : A → Bool) where
  any-insert_sorted :
      (le : A → A → Bool) (x : A) (ys : List A) → any q (insert_sorted le x ys) ≡ (q x || any q ys)
  any-insert_sorted le x [] = refl
  any-insert_sorted le x (y ∷ ys) = ground (arith, any-insert_sorted le x ys)

  any-sorted : (le : A → A → Bool) (xs : List A) → any q (sorted le xs) ≡ any q xs
  any-sorted le [] = refl
  any-sorted le (x ∷ xs) =
      any-insert_sorted le x (sorted le xs) ∙ ap (λ b. q x || b) (any-sorted le xs)

  -- Where `q` does not tell apart what is the same, an item that the first list has the same of adds
  -- nothing to it.
  module _ (same : A → A → Bool)
      (resp : (f e : A) → same f e ≡ true → q e ≡ true → q f ≡ true) where
    any-same :
        (have : List A) (e : A) → any (λ f. same f e) have ≡ true → q e ≡ true → any q have ≡ true
    any-same [] e h g = cc
    any-same (f ∷ have) e h g = ground (arith, h, g, resp f e, any-same have e)

    any-new :
        (have found : List A)
        → (any q have || any q (keep (λ e. not (any (λ f. same f e) have)) found))
          ≡ (any q have || any q found)
    any-new have [] = refl
    any-new have (e ∷ found) = ground (arith, any-same have e, any-new have found)

  any-empty : (xs : List A) → is_empty xs ≡ true → any q xs ≡ false
  any-empty [] h = refl
  any-empty (x ∷ xs) h = cc

-- Items of one path are of it both or neither.
path-resp :
    (t : String → Bool) (f e : FileInfo)
    → (f.path == e.path) ≡ true
    → t e.path ≡ true
    → t f.path ≡ true
path-resp t f e h g = ap t ((eq_iff f.path e.path).0 h) ∙ g

-- Whether a match is of this line of this file.
abbrev pub is_at : String → ℕ → GrepMatch → Bool
is_at file line m = m.path == file && nat_eq m.line line

place-resp :
    (file : String) (line : ℕ) (f e : GrepMatch)
    → same_place f e ≡ true
    → is_at file line e ≡ true
    → is_at file line f ≡ true
place-resp file line f e h g =
    ground (arith, h, g, eq_iff f.path e.path, eq_iff e.path file, eq_iff f.path file)

abbrev pub has_path : String → FileInfo → Bool
has_path p e = e.path == p

take-all {ℓ} : {A : Type ℓ} (n : ℕ) (xs : List A) → ltb n (length xs) ≡ false → take n xs ≡ xs
take-all zero [] h = refl
take-all zero (x ∷ xs) h = ground (arith, h)
take-all (suc n) [] h = refl
take-all (suc n) (x ∷ xs) h = ap (λ ys. x ∷ ys) (take-all n xs (ground (arith, h)))

cut-take :
    (n : ℕ) (result : GrepResult) (matches : Option (List GrepMatch))
    → result.matches ≡ matches
    → (get_or (cut_matches n result matches).matches [] ≡ take n (get_or matches []))
      × ((not (ltb n (length (get_or matches []))) || (cut_matches n result matches).truncated)
          ≡ true)
cut-take n result none e =
    (ap (λ o. get_or o []) e ∙ sym (take-all n [] (ground arith)), ground arith)
cut-take n result (some found) e =
    if_ind
      (λ (r : GrepResult).
        (get_or r.matches [] ≡ take n found) × ((not (ltb n (length found)) || r.truncated) ≡ true))
      (ltb n (length found)) (λ long. (refl, ground (arith, long)))
      (λ short. (ap (λ o. get_or o []) e ∙ sym (take-all n found short), ground (arith, short)))

module _ (up : Bool) (self : Scope) (rows : List FileRow) where
  -- What a listing has of a path is what the state's listing and the database's have of it, and, at
  -- the workspace's root of an app, the directory .global where neither has it.
  pub ls-has_path :
      (state_ls : String → LsResult) (path p : String)
      → let state = get_or (state_ls path).entries [] in
        let stored = query_db_ls up self path rows in
        any (has_path p) (get_or (ls up self state_ls path rows).entries []) ≡ (
          any (has_path p) state
          || any (has_path p) stored
          || (at_root self path
              && not (any is_global_dir state || any is_global_dir stored)
              && "/workspace/.global" == p))
  unfolding ls
  ls-has_path state_ls path p =
      let state = get_or (state_ls path).entries [] in
      let stored = query_db_ls up self path rows in
      let new = new_paths state stored in
      let own =
        any-new (has_path p) (λ f e. f.path == e.path) (path-resp (λ r. r == p)) state stored in
      let dirs =
        any-new is_global_dir (λ f e. f.path == e.path)
          (path-resp (λ r. rstrip b'/' r == "/workspace/.global")) state stored in
      if_ind
        (λ (r : LsResult). any (has_path p) (get_or r.entries []) ≡ (
          any (has_path p) state
          || any (has_path p) stored
          || (at_root self path
              && not (any is_global_dir state || any is_global_dir stored)
              && "/workspace/.global" == p)))
        (not (is_empty new) || at_root self path)
        (λ some_new.
          any-sorted (has_path p) by_path (with_global self path (state ++ new))
          ∙ ground (
            arith,
            own,
            dirs,
            any-append (has_path p) state new,
            any-append is_global_dir state new,
            any-append (has_path p) (state ++ new) (file_info "/workspace/.global" true ∷ []),
          ))
        (λ none_new. ground (arith, none_new, own, any-empty (has_path p) new))

  merged-is_at :
      (state_grep : String → Option String → Option String → GrepResult) (pattern : String)
      (path glob : Option String) (file : String) (line : ℕ)
      → any
          (is_at file line)
          (get_or (merged_grep up self state_grep pattern path glob rows).matches [])
        ≡ (any (is_at file line) (get_or (state_grep pattern path glob).matches [])
            || any (is_at file line) (query_db_grep up self pattern path glob rows))
  unfolding merged_grep
  merged-is_at state_grep pattern path glob file line =
      let state = get_or (state_grep pattern path glob).matches [] in
      let stored = query_db_grep up self pattern path glob rows in
      let q = is_at file line in
      let new = new_places state stored in
      let own = any-new q same_place (place-resp file line) state stored in
      if_ind (λ (r : GrepResult). any q (get_or r.matches []) ≡ (any q state || any q stored))
        (not (is_empty new))
        (λ some_new. any-sorted q by_place (state ++ new) ∙ any-append q state new ∙ own)
        (λ none_new. ground (arith, none_new, own, any-empty q new))

  -- A grep without a limit has a match of a line of a file exactly where the state's grep or the
  -- database's has one; a grep with a limit gives the first of the same matches, and says so where it
  -- leaves one out.
  pub grep-is_at :
      (state_grep : String → Option String → Option String → GrepResult) (pattern : String)
      (path glob : Option String) (max_count : ℕ) (file : String) (line : ℕ)
      → let state = get_or (state_grep pattern path glob).matches [] in
        let whole = get_or (grep up self state_grep pattern path glob none rows).matches [] in
        let result = grep up self state_grep pattern path glob (some max_count) rows in
        (any (is_at file line) whole ≡ (
          any (is_at file line) state
          || any (is_at file line) (query_db_grep up self pattern path glob rows)))
        × (get_or result.matches [] ≡ take max_count whole)
        × ((not (ltb max_count (length whole)) || result.truncated) ≡ true)
  unfolding grep
  grep-is_at state_grep pattern path glob max_count file line =
      let whole = merged_grep up self state_grep pattern path glob rows in
      let cut_off = cut-take max_count whole whole.matches refl in
      (merged-is_at state_grep pattern path glob file line, cut_off.0, cut_off.1)
