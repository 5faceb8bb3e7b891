-- ===== src/Jobs/Reporting.antt =====
-- before_model of core/middleware/background_jobs/middleware.py: which jobs it reports.
use harness_runtime.Base.{
  String, Bool, true, not, ◌≡◌, refl, sym, ap, ◌∙◌, Option, none, some, List, [], ◌∷◌, arith,
  eq_refl, contains, contains-keep, keep, map,
}
use harness_runtime.Value.{Value, Fields}
use harness_runtime.Jobs.{
  merge_pending_jobs, is_finished, outcome_message, Report, before_model, report_finished,
}

-- What a model call reports, and what is pending after it.
abbrev pub reported : Option Report → List String
reported none = []
reported (some report) = map (λ m. m.run_id) report.messages

abbrev pub left : List String → Option Report → List String
left pending none = pending
left pending (some report) = merge_pending_jobs (some pending) report.pending_jobs

module _ (str_of dumps : Value → String) (runs : String → Option Fields) where
  reported_lem : (ids : List String) → reported (report_finished str_of dumps runs ids) ≡ ids
  unfolding report_finished
  reported_lem [] = refl
  reported_lem (id ∷ ids) = ap (λ l. id ∷ l) (run_ids ids)
    where
      run_ids :
          (ids : List String)
          → map (λ m. m.run_id) (map (λ i. outcome_message str_of dumps i (runs i)) ids) ≡ ids
      run_ids [] = refl
      run_ids (id ∷ ids) = ap (λ l. id ∷ l) (run_ids ids)

  left_lem :
      (pending ids : List String)
      → left pending (report_finished str_of dumps runs ids)
        ≡ keep (λ id. not (contains ids id)) pending
  unfolding report_finished merge_pending_jobs
  left_lem pending [] = sym (keep_every pending)
    where
      keep_every : (xs : List String) → keep (λ id. not (contains [] id)) xs ≡ xs
      keep_every [] = refl
      keep_every (x ∷ xs) = ap (λ l. x ∷ l) (keep_every xs)
  left_lem pending (id ∷ ids) = refl

  abbrev pub finished : String → Bool
  finished id = is_finished (runs id)

  -- Taking the finished of a list out of a part of it leaves the part's unfinished.
  keep_unfinished :
      (all_ids ids : List String)
      → ((a : String) → contains ids a ≡ true → contains all_ids a ≡ true)
      → keep (λ id. not (contains (keep finished all_ids) id)) ids
        ≡ keep (λ id. not (finished id)) ids
  keep_unfinished all_ids [] within = refl
  keep_unfinished all_ids (x ∷ ids) within = ground (
    arith,
    within x,
    eq_refl x,
    contains-keep finished all_ids x,
    keep_unfinished all_ids ids (λ a h. within a (ground arith)),
  )

  keep_again : (ids : List String) → keep finished (keep (λ id. not (finished id)) ids) ≡ []
  keep_again [] = refl
  keep_again (x ∷ ids) = ground (arith, keep_again ids)

  -- Before a model call, with a database, each pending job that has finished is reported, in the order
  -- in which the jobs are pending, and no other; the jobs that are pending after it are those that
  -- have not finished. While no more of them finish, no later call reports any of these jobs again.
  pub before_model-reports :
      (pending : List String)
      → let report = before_model str_of dumps true runs pending in
        (reported report ≡ keep finished pending)
        × (left pending report ≡ keep (λ id. not (finished id)) pending)
        × (before_model str_of dumps true runs (left pending report) ≡ none)
  unfolding before_model report_finished
  before_model-reports pending =
      let rest =
        left_lem pending (keep finished pending) ∙ keep_unfinished pending pending (λ a h. h) in
      (reported_lem (keep finished pending), rest, rw (rest, keep_again pending) refl)
