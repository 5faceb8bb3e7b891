-- ===== src/Jobs/Tracking.antt =====
-- The tracking of jobs in core/middleware/background_jobs/middleware.py: which ids it reads of a result.
use harness_runtime.Base.{
  eq_iff, ◌&&◌, not, pieces, if_ind, strip, starts_with, true, ℕ, zero, suc, ◌<◌, String, Bool,
  false, ◌||◌, ◌≡◌, refl, sym, ap, ◌∙◌, Option, none, some, List, [], ◌∷◌, ◌++◌, arith, ◌==◌,
  if◌then◌else◌, contains, any, size, map, join,
}
use mathlib.Core.Path.{subst}
use harness_runtime.Value.{Value, null, str, list, dict, Fields, members}
use harness_runtime.Jobs.{
  text, lookup, or_null, line_objects, dicts_of, equals, objects, json_objects, output_of,
  of_output, of_parsed, queued, collect, add_ids, started_jobs, block_line,
}
use harness_runtime.Jobs.Merging.{IsUnique, add_ids-IsUnique, contains-add_ids}

-- The objects in a tool's content.
abbrev pub content_objects : (String → Option Value) → (Value → String) → Value → List Fields
content_objects loads str_of (str s) = json_objects loads s
content_objects loads str_of (list xs) =
    json_objects loads (join "\n" (map (block_line loads str_of) (members (list xs))))
content_objects loads str_of _ = []

abbrev with_id : Option String → List String → List String
with_id none ids = ids
with_id (some id) ids = id ∷ ids

-- The ids that the objects report, with repetitions.
abbrev queued_ids : List Fields → List String
queued_ids [] = []
queued_ids (fs ∷ fss) = with_id (queued fs) (queued_ids fss)

collect_lem :
    (ids : List String) (fss : List Fields) → collect ids fss ≡ add_ids ids (queued_ids fss)
unfolding collect add_ids
collect_lem ids [] = refl
collect_lem ids (fs ∷ fss) = of_queued (queued fs) (λ l. collect_lem l fss)
  where
    of_queued :
        (o : Option String)
        → ((l : List String) → collect l fss ≡ add_ids l (queued_ids fss))
        → elim o [
          | none ↦ collect ids fss
          | some id ↦ collect (if contains ids id then ids else ids ++ id ∷ []) fss
        ]
          ≡ add_ids ids (with_id o (queued_ids fss))
    of_queued none h = h ids
    of_queued (some id) h = h _

-- Whether an object reports this id as started.
abbrev pub reports_id : String → Fields → Bool
reports_id a fs = elim (queued fs) [ none ↦ false | some id ↦ id == a ]

contains-queued_ids :
    (fss : List Fields) (a : String) → contains (queued_ids fss) a ≡ any (reports_id a) fss
contains-queued_ids [] a = refl
contains-queued_ids (fs ∷ fss) a = of_queued (queued fs) (contains-queued_ids fss a)
  where
    of_queued :
        (o : Option String)
        → contains (queued_ids fss) a ≡ any (reports_id a) fss
        → contains (with_id o (queued_ids fss)) a
          ≡ (elim o [ none ↦ false | some id ↦ id == a ] || any (reports_id a) fss)
    of_queued none h = h
    of_queued (some id) h = rw h refl

started_lem :
    (loads : String → Option Value) (str_of : Value → String) (v : Value)
    → started_jobs loads str_of v ≡ collect [] (content_objects loads str_of v)
unfolding started_jobs
started_lem loads str_of (str s) = refl
started_lem loads str_of (list xs) = refl
started_lem loads str_of null = unfold collect in refl
started_lem loads str_of v = unfold collect in refl

-- From a tool result, whatever its content and whatever of it is JSON, exactly the ids that some
-- object in it reports as queued are tracked, and each once.
pub started_jobs-tracks :
    (loads : String → Option Value) (str_of : Value → String) (v : Value)
    → IsUnique (started_jobs loads str_of v)
      × ((a : String)
          → contains (started_jobs loads str_of v) a
            ≡ any (reports_id a) (content_objects loads str_of v))
started_jobs-tracks loads str_of v =
    let e = started_lem loads str_of v ∙ collect_lem [] (content_objects loads str_of v) in
    (
      subst IsUnique (sym e) (add_ids-IsUnique [] _ tt),
      λ a.
          ap (λ l. contains l a) e
          ∙ contains-add_ids [] (queued_ids (content_objects loads str_of v)) a
          ∙ contains-queued_ids (content_objects loads str_of v) a,
    )

-- Whether a text is no JSON object as a whole.
abbrev pub is_no_object : Option Value → Bool
is_no_object (some (dict fs)) = false
is_no_object v = true

-- Whether a JSON object says that the run of this id, which is not empty, is queued.
abbrev pub says_queued : String → Option Value → Bool
says_queued id (some (dict fs)) =
    equals (or_null (lookup "status" fs)) "QUEUED"
    && equals (or_null (lookup "run_id" fs)) id
    && not (id == "")
says_queued id v = false

-- Whether a line, without the blanks around it, is such an object and begins with a brace.
abbrev pub line_reports : (String → Option Value) → String → String → Bool
line_reports loads id line = starts_with (strip line) "{" && says_queued id (loads (strip line))

reports_id-fields : (id : String) (fs : Fields) → reports_id id fs ≡ says_queued id (some (dict fs))
reports_id-fields id fs = by_id (or_null (lookup "run_id" fs))
  where
    by_id :
        (v : Value)
        → elim (if equals (or_null (lookup "status" fs)) "QUEUED" && not (text v == "")
            then some (text v)
            else none) [ none ↦ false | some i ↦ i == id ]
          ≡ (equals (or_null (lookup "status" fs)) "QUEUED" && equals v id && not (id == ""))
    by_id (str t) = ground (arith, eq_iff t id, eq_iff t "", eq_iff id "")
    by_id v = ground arith

any-dicts_of :
    (id : String) (v : Option Value) (rest : List Fields)
    → any (reports_id id) (dicts_of v ++ rest) ≡ (says_queued id v || any (reports_id id) rest)
any-dicts_of id (some (dict fs)) rest =
    ap (λ b. b || any (reports_id id) rest) (reports_id-fields id fs)
any-dicts_of id none rest = refl
any-dicts_of id (some v) rest = refl

any-line_objects :
    (loads : String → Option Value) (id : String) (lines : List String)
    → any (reports_id id) (line_objects loads lines) ≡ any (line_reports loads id) lines
unfolding line_objects
any-line_objects loads id [] = refl
any-line_objects loads id (line ∷ lines) =
    let rest = any-line_objects loads id lines in
    if_ind
      (λ (fss : List Fields).
        any (reports_id id) fss ≡ (line_reports loads id line || any (line_reports loads id) lines))
      (starts_with (strip line) "{")
      (λ on.
        any-dicts_of id (loads (strip line)) (line_objects loads lines)
        ∙ ap (λ b. says_queued id (loads (strip line)) || b) rest
        ∙ ground (arith, on))
      (λ off. rest ∙ ground (arith, off))

json_objects-lines :
    (loads : String → Option Value) (s : String)
    → is_no_object (loads s) ≡ true
    → json_objects loads s ≡ line_objects loads (pieces s)
unfolding json_objects objects of_parsed
json_objects-lines loads s h = of_value (loads s) h
  where
    of_value :
        (v : Option Value)
        → is_no_object v ≡ true
        → of_parsed loads (objects loads (size s)) s v ≡ line_objects loads (pieces s)
    of_value none h = refl
    of_value (some (dict fs)) h = cc
    of_value (some v) h = refl

-- Of a tool's output in lines, which is no JSON object as a whole, every job that is reported as
-- started is tracked, and no other: a run id is tracked where some line, however many there are and
-- whatever stands in the others, is a JSON object that begins with a brace and says of this run that
-- it is queued; and each id is tracked once.
pub started_jobs-line_reports :
    (loads : String → Option Value) (str_of : Value → String) (s : String)
    → is_no_object (loads s) ≡ true
    → IsUnique (started_jobs loads str_of (str s))
      × ((id : String)
          → contains (started_jobs loads str_of (str s)) id
            ≡ any (line_reports loads id) (pieces s))
started_jobs-line_reports loads str_of s h =
    let tracked = started_jobs-tracks loads str_of (str s) in
    (
      tracked.0,
      λ id.
          tracked.1 id
          ∙ ap (any (reports_id id)) (json_objects-lines loads s h)
          ∙ any-line_objects loads id (pieces s),
    )

-- What the documentation of JSON says of a parser: a text that stands in a JSON text is shorter.
abbrev pub IsShorter : (String → Option Value) → Type 0
IsShorter loads =
    (s o : String) (fs : Fields)
    → loads s ≡ some (dict fs)
    → output_of loads fs ≡ some o
    → size o < size s

module _ (loads : String → Option Value) (shorter : IsShorter loads) where
  of_parsed-same :
      (f g : String → List Fields) (s : String)
      → ((o : String) → size o < size s → f o ≡ g o)
      → of_parsed loads f s (loads s) ≡ of_parsed loads g s (loads s)
  unfolding of_parsed
  of_parsed-same f g s h = of_value (loads s) refl
    where
      of_text :
          (fs : Fields) (o : Option String)
          → loads s ≡ some (dict fs)
          → output_of loads fs ≡ o
          → of_output loads f o ≡ of_output loads g o
      of_text fs none e k = refl
      of_text fs (some o) e k = h o (shorter s o fs e k)

      of_value : (v : Option Value) → loads s ≡ v → of_parsed loads f s v ≡ of_parsed loads g s v
      of_value (some (dict fs)) e = ap (λ l. fs ∷ l) (of_text fs (output_of loads fs) e refl)
      of_value none e = refl
      of_value (some null) e = refl
      of_value (some _) e = refl

  objects_enough :
      (n m : ℕ) (s : String) → size s < n → size s < m → objects loads n s ≡ objects loads m s
  unfolding objects
  objects_enough zero m s h k = absurd (omega (arith, h))
  objects_enough (suc n) zero s h k = absurd (omega (arith, k))
  objects_enough (suc n) (suc m) s h k =
      of_parsed-same (objects loads n) (objects loads m) s
        (λ o le. objects_enough n m o (omega arith) (omega arith))

  -- The generator never runs out of the calls that it is given: by a parser for which a text in a JSON
  -- text is shorter than it, the objects of a text are what its body says of them, with the generator
  -- itself for the output inside.
  pub json_objects_complete :
      (s : String) → json_objects loads s ≡ of_parsed loads (json_objects loads) s (loads s)
  unfolding json_objects objects
  json_objects_complete s =
      of_parsed-same (objects loads (size s)) (json_objects loads) s
        (λ o le. objects_enough (size s) (suc (size o)) o le (omega arith))
