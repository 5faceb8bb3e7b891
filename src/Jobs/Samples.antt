-- ===== src/Jobs/Samples.antt =====
-- Jobs at concrete ids.
use harness_runtime.Base.{
  any, contains, strip, pieces, String, true, not, ◌≡◌, refl, Option, some, none, [], ◌∷◌, ◌==◌,
  if◌then◌else◌, keep, size, arith, eq_iff, get_or, Bool-cases, inl, inr, ap,
}
use harness_runtime.Value.{Value, str, dict, Fields, field, end}
use harness_runtime.Jobs.Merging.{IsUnique}
use harness_runtime.Jobs.{before_model, started_jobs, output_of}
use harness_runtime.Jobs.Reporting.{reported, left, finished, before_model-reports}
use harness_runtime.Jobs.Tracking.{started_jobs-line_reports, line_reports, IsShorter}

-- Of two jobs, one has failed.
abbrev runs : String → Option Fields
runs id = some (field "status" (str (if id == "r1" then "failed" else "running")) end)

abbrev show : Value → String
show v = ""

before_model-reports_example :
    let report = before_model show show true runs ("r1" ∷ "r2" ∷ []) in
    (reported report ≡ keep (finished show show runs) ("r1" ∷ "r2" ∷ []))
    × (left ("r1" ∷ "r2" ∷ []) report
        ≡ keep (λ id. not (finished show show runs id)) ("r1" ∷ "r2" ∷ []))
    × (before_model show show true runs (left ("r1" ∷ "r2" ∷ []) report) ≡ none)
before_model-reports_example = before_model-reports show show runs ("r1" ∷ "r2" ∷ [])

-- A parser that knows two texts: a dispatcher's result, and the tool's text in its output.
abbrev loads : String → Option Value
loads s =
    if s == "{output}"
    then some (dict (field "output" (str "{job}") end))
    else if s == "{job}"
    then some (dict (field "status" (str "QUEUED") (field "run_id" (str "r7") end)))
    else none

tracks_inner : started_jobs loads show (str "{output}") ≡ "r7" ∷ []
unfolding started_jobs size
tracks_inner = refl

fields_of : Option Value → Fields
fields_of (some (dict fs)) = fs
fields_of _ = end

output_lem :
    (o : String) (fs gs : Fields)
    → some (dict gs) ≡ some (dict fs)
    → output_of loads fs ≡ some o
    → output_of loads gs ≡ some o
unfolding fields_of
output_lem o fs gs e k = rw (ap fields_of e) k

loads-IsShorter : IsShorter loads
unfolding size
loads-IsShorter s o fs e k = elim (Bool-cases (s == "{output}")) [
  | inl on ↦
      let at_text = (eq_iff s "{output}").0 on in
      let found = output_lem o fs (field "output" (str "{job}") end) (rw at_text at e) k in
      let same : "{job}" ≡ o = ap (λ x. get_or x "") found in rw (at_text, ← same) (omega arith)
  | inr off ↦ elim (Bool-cases (s == "{job}")) [
    | inl on ↦
        let at_text = (eq_iff s "{job}").0 on in
        let found = output_lem o fs _ (rw at_text at e) k in cc
    | inr gone ↦ cc
  ]
]

-- A tool starts two jobs, and says something before them.
abbrev job : String → Option Value
job id = some (dict (field "status" (str "QUEUED") (field "run_id" (str id) end)))

abbrev reads : String → Option Value
reads s = if s == "{job}" then job "r7" else if s == "{job 8}" then job "r8" else none

tracks_both : started_jobs reads show (str "Done.\n{job}\n {job 8}") ≡ "r7" ∷ "r8" ∷ []
unfolding started_jobs size pieces strip
tracks_both = refl

started_jobs-line_reports_example :
    IsUnique (started_jobs reads show (str "Done.\n{job}\n {job 8}"))
    × ((id : String)
        → contains (started_jobs reads show (str "Done.\n{job}\n {job 8}")) id
          ≡ any (line_reports reads id) (pieces "Done.\n{job}\n {job 8}"))
started_jobs-line_reports_example =
    started_jobs-line_reports reads show "Done.\n{job}\n {job 8}" refl
