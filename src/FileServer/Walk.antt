-- ===== src/FileServer/Walk.antt =====
-- _walk of api/routers/workspace_files.py, against the whole list of the files.
use mathlib.Core.Path.{subst}
use harness_runtime.Base.{
  inr, inl, Bool-cases, ℕ, zero, suc, ◌≤◌, String, Bool, true, false, Option, none, some, List, [],
  ◌∷◌, ◌++◌, ◌≡◌, refl, sym, ap, ◌∙◌, arith, length, length-append, append_assoc, append-nil, take,
  contains, leb, ◌==◌, ◌<>◌, if◌then◌else◌, if_ind,
}
use harness_runtime.FileServer.Trees.{
  FileEntry, Tree, tree, Dirs, no_dirs, and_dir, skip_dirs, max_entries, walk_files, walk_tree,
  walk_dirs, walk, go_on,
}

-- Every file of a directory that can be stat'ed, but for those named .DS_Store.
abbrev pub all_files : String → List (String × Option (ℕ × ℕ)) → List FileEntry
all_files dirpath [] = []
all_files dirpath ((name, none) ∷ names) = all_files dirpath names
all_files dirpath ((name, some s) ∷ names) =
    let rest = all_files dirpath names in
    if name == ".DS_Store"
    then rest
    else record { path = dirpath <> name; size = s.0; modified_at = s.1 } ∷ rest

unfoldable mutual
  pub whole_tree : String → Tree → List FileEntry
  whole_tree dirpath (tree names dirs) = all_files dirpath names ++ whole_dirs dirpath dirs

  pub whole_dirs : String → Dirs → List FileEntry
  whole_dirs dirpath no_dirs = []
  whole_dirs dirpath (and_dir name below dirs) =
      let rest = whole_dirs dirpath dirs in
      let below_it = whole_tree (dirpath <> name <> "/") below in
      if contains skip_dirs name then rest else below_it ++ rest

module _ (limit : ℕ) where
  -- A walk that goes on has listed all of `goal`; one that is cut off has filled the list with the
  -- first of it.
  IsWalk : (goal : List FileEntry) → List FileEntry × Bool → Type 0
  IsWalk goal (out, false) = (out ≡ goal) × (length out ≤ limit)
  IsWalk goal (out, true) = (length out ≡ limit) × ((left : List FileEntry) × (out ++ left ≡ goal))

  go_on-IsWalk :
      (goal later : List FileEntry) (r : List FileEntry × Bool)
      (next : List FileEntry → List FileEntry × Bool)
      → IsWalk goal r
      → ((out : List FileEntry) → length out ≤ limit → IsWalk (out ++ later) (next out))
      → IsWalk (goal ++ later) (go_on r next)
  unfolding IsWalk
  go_on-IsWalk goal later (out, true) next w f =
      (w.0, (w.1.0 ++ later, sym (append_assoc out w.1.0 later) ∙ ap (λ xs. xs ++ later) w.1.1))
  go_on-IsWalk goal later (out, false) next w f =
      subst (λ xs. IsWalk (xs ++ later) (next out)) w.0 (f out w.1)

  done : (files : List FileEntry) → length files ≤ limit → IsWalk (files ++ []) (files, false)
  unfolding IsWalk
  done files le = (sym (append-nil files), le)

  walk_files-IsWalk :
      (dirpath : String) (names : List (String × Option (ℕ × ℕ))) (files : List FileEntry)
      → length files ≤ limit
      → IsWalk (files ++ all_files dirpath names) (walk_files limit dirpath names files)
  unfolding IsWalk walk_files
  walk_files-IsWalk dirpath [] files le = done files le
  walk_files-IsWalk dirpath ((name, none) ∷ names) files le =
      let rest = walk_files-IsWalk dirpath names files le in
      if_ind (IsWalk (files ++ all_files dirpath names)) (name == ".DS_Store") (λ _. rest)
        (λ _.
          if_ind (IsWalk (files ++ all_files dirpath names)) (leb limit (length files))
            (λ full. (ground (arith, full, le), (all_files dirpath names, refl))) (λ _. rest))
  walk_files-IsWalk dirpath ((name, some s) ∷ names) files le =
      let entry : FileEntry = record { path = dirpath <> name; size = s.0; modified_at = s.1 } in
      let later = all_files dirpath names in
      elim (Bool-cases (name == ".DS_Store")) [
        | inl d ↦ rw d (walk_files-IsWalk dirpath names files le)
        | inr d ↦ rw d (
            if_ind (IsWalk (files ++ entry ∷ later)) (leb limit (length files))
              (λ full. (ground (arith, full, le), (entry ∷ later, refl)))
              (λ room.
                subst (λ xs. IsWalk xs (walk_files limit dirpath names (files ++ entry ∷ [])))
                  (append_assoc files (entry ∷ []) later)
                  (walk_files-IsWalk dirpath names (files ++ entry ∷ [])
                    (ground (arith, room, length-append files (entry ∷ []))))))
      ]

  mutual
    unfolding walk_tree walk_dirs whole_tree whole_dirs

    walk_tree-IsWalk :
        (dirpath : String) (t : Tree) (files : List FileEntry)
        → length files ≤ limit
        → IsWalk (files ++ whole_tree dirpath t) (walk_tree limit dirpath t files)
    walk_tree-IsWalk dirpath (tree names dirs) files le =
        subst (λ xs. IsWalk xs (walk_tree limit dirpath (tree names dirs) files))
          (append_assoc files (all_files dirpath names) (whole_dirs dirpath dirs))
          (go_on-IsWalk (files ++ all_files dirpath names) (whole_dirs dirpath dirs)
            (walk_files limit dirpath names files) (walk_dirs limit dirpath dirs)
            (walk_files-IsWalk dirpath names files le) (walk_dirs-IsWalk dirpath dirs))

    walk_dirs-IsWalk :
        (dirpath : String) (dirs : Dirs) (files : List FileEntry)
        → length files ≤ limit
        → IsWalk (files ++ whole_dirs dirpath dirs) (walk_dirs limit dirpath dirs files)
    walk_dirs-IsWalk dirpath no_dirs files le = done files le
    walk_dirs-IsWalk dirpath (and_dir name below dirs) files le =
        elim (Bool-cases (contains skip_dirs name)) [
          | inl d ↦ rw d (walk_dirs-IsWalk dirpath dirs files le)
          | inr d ↦ rw d (
              subst
                (λ xs. IsWalk xs (
                  go_on (walk_tree limit (dirpath <> name <> "/") below files)
                    (walk_dirs limit dirpath dirs)))
                (append_assoc files (whole_tree (dirpath <> name <> "/") below)
                  (whole_dirs dirpath dirs))
                (go_on-IsWalk (files ++ whole_tree (dirpath <> name <> "/") below)
                  (whole_dirs dirpath dirs) (walk_tree limit (dirpath <> name <> "/") below files)
                  (walk_dirs limit dirpath dirs)
                  (walk_tree-IsWalk (dirpath <> name <> "/") below files le)
                  (walk_dirs-IsWalk dirpath dirs)))
        ]

  take-full : (out left : List FileEntry) (n : ℕ) → length out ≡ n → take n (out ++ left) ≡ out
  take-full [] left zero e = refl
  take-full [] left (suc n) e = ground (arith, e)
  take-full (x ∷ out) left zero e = ground (arith, e)
  take-full (x ∷ out) left (suc n) e = ap (λ xs. x ∷ xs) (take-full out left n (ground (arith, e)))

  take-short : (xs : List FileEntry) (n : ℕ) → length xs ≤ n → take n xs ≡ xs
  take-short [] zero le = refl
  take-short [] (suc n) le = refl
  take-short (x ∷ xs) zero le = ground (arith, le)
  take-short (x ∷ xs) (suc n) le = ap (λ ys. x ∷ ys) (take-short xs n (ground (arith, le)))

  IsWalk-take :
      (goal : List FileEntry) (r : List FileEntry × Bool)
      → IsWalk goal r
      → (r.0 ≡ take limit goal) × (if r.1 then limit ≤ length goal else length goal ≤ limit)
  unfolding IsWalk
  IsWalk-take goal (out, true) w = (
    sym (take-full out w.1.0 limit w.0) ∙ ap (take limit) w.1.1,
    subst (λ xs. limit ≤ length xs) w.1.1 (omega (arith, w.0, length-append out w.1.0)),
  )
  IsWalk-take goal (out, false) w = (
    w.0 ∙ sym (take-short goal limit (subst (λ xs. length xs ≤ limit) w.0 w.1)),
    subst (λ xs. length xs ≤ limit) w.0 w.1,
  )

-- The walk of a workspace lists the first 5000 of its files, at whatever depth, without those that
-- cannot be stat'ed, those named .DS_Store, and those in directories that are skipped. It says that it
-- was cut off only where there are at least 5000 of these files, and otherwise it has listed all of
-- them.
pub walk-whole_tree :
    (t : Tree)
    → ((walk t).0 ≡ take max_entries (whole_tree "" t))
      × (if (walk t).1
          then max_entries ≤ length (whole_tree "" t)
          else length (whole_tree "" t) ≤ max_entries)
unfolding walk
walk-whole_tree t =
    IsWalk-take max_entries (whole_tree "" t) (walk_tree max_entries "" t [])
      (walk_tree-IsWalk max_entries "" t [] (omega arith))
