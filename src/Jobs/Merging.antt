-- ===== src/Jobs/Merging.antt =====
-- merge_pending_jobs of core/middleware/background_jobs/middleware.py, as a set.
use harness_runtime.Base.{
  String, Bool, true, false, not, ◌&&◌, ◌||◌, ◌≡◌, refl, ◌∙◌, Option, some, List, [], ◌∷◌, ◌++◌,
  arith, ◌==◌, eq_iff, if_ind, get_or, contains, contains-append, contains-keep, keep, all,
}
use harness_runtime.Jobs.{Update, more, removal, add_ids, merge_pending_jobs}

-- No id stands twice.
abbrev pub IsUnique : List String → Type 0
IsUnique [] = Unit
IsUnique (a ∷ as') = (contains as' a ≡ false) × IsUnique as'

pub contains-add_ids :
    (ids new : List String) (a : String)
    → contains (add_ids ids new) a ≡ (contains ids a || contains new a)
unfolding add_ids
contains-add_ids ids [] a = ground arith
contains-add_ids ids (x ∷ new) a =
    if_ind (λ l. contains (add_ids l new) a ≡ (contains ids a || (x == a || contains new a)))
      (contains ids x) (λ on. ground (arith, contains-add_ids ids new a, eq_iff x a))
      (λ off.
        ground (arith, contains-add_ids (ids ++ x ∷ []) new a, contains-append ids (x ∷ []) a))

-- What the merged list holds: of a list, the ids of both; of a removal, the ids that are not removed.
abbrev pub merged : Option (List String) → Update → String → Bool
merged current (more new) a = contains (get_or current []) a || contains new a
merged current (removal gone) a = contains (get_or current []) a && not (contains gone a)

-- The merged ids are the current ones with those of a list added, or those of a removal taken out.
-- So lists that agents write in parallel add up in whichever order they are merged.
contains-merge_pending_jobs :
    (current : Option (List String)) (update : Update) (a : String)
    → contains (merge_pending_jobs current update) a ≡ merged current update a
unfolding merge_pending_jobs
contains-merge_pending_jobs current (more new) a = contains-add_ids (get_or current []) new a
contains-merge_pending_jobs current (removal gone) a =
    contains-keep (λ id. not (contains gone id)) (get_or current []) a

IsUnique-snoc :
    (ids : List String) (x : String)
    → IsUnique ids
    → contains ids x ≡ false
    → IsUnique (ids ++ x ∷ [])
IsUnique-snoc [] x h new = (refl, tt)
IsUnique-snoc (a ∷ ids) x h new = (
  contains-append ids (x ∷ []) a ∙ ground (arith, eq_iff a x, eq_iff x a),
  IsUnique-snoc ids x h.1 (ground arith),
)

pub add_ids-IsUnique : (ids new : List String) → IsUnique ids → IsUnique (add_ids ids new)
unfolding add_ids
add_ids-IsUnique ids [] h = h
add_ids-IsUnique ids (x ∷ new) h =
    if_ind (λ l. IsUnique (add_ids l new)) (contains ids x) (λ _. add_ids-IsUnique ids new h)
      (λ off. add_ids-IsUnique (ids ++ x ∷ []) new (IsUnique-snoc ids x h off))

keep-IsUnique : (p : String → Bool) (ids : List String) → IsUnique ids → IsUnique (keep p ids)
keep-IsUnique p [] h = tt
keep-IsUnique p (a ∷ ids) h =
    if_ind IsUnique (p a) (λ _. (ground (arith, contains-keep p ids a), keep-IsUnique p ids h.1))
      (λ _. keep-IsUnique p ids h.1)

-- Pending jobs without a repetition stay so through every merge.
pub merge_pending_jobs-IsUnique :
    (current : Option (List String)) (update : Update)
    → IsUnique (get_or current [])
    → IsUnique (merge_pending_jobs current update)
unfolding merge_pending_jobs
merge_pending_jobs-IsUnique current (more new) h = add_ids-IsUnique (get_or current []) new h
merge_pending_jobs-IsUnique current (removal gone) h = keep-IsUnique _ (get_or current []) h

add_ids-echo : (ids back : List String) → all (contains ids) back ≡ true → add_ids ids back ≡ ids
unfolding add_ids
add_ids-echo ids [] h = refl
add_ids-echo ids (x ∷ back) h = ground (arith, add_ids-echo ids back)

-- A subagent that returns ids that are all pending already changes nothing.
pub merge_pending_jobs-echo :
    (ids back : List String)
    → all (contains ids) back ≡ true
    → merge_pending_jobs (some ids) (more back) ≡ ids
unfolding merge_pending_jobs
merge_pending_jobs-echo ids back h = add_ids-echo ids back h
