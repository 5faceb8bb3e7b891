-- ===== src/Jobs.antt =====
-- core/middleware/background_jobs/middleware.py: the jobs that an agent started, which it is told of
-- when they finish. Run ids are texts. `loads` is `json.loads`, `none` where it raises.
pub mod Merging
pub mod Reporting
pub mod Tracking
mod Samples
use harness_runtime.Base.{
  ℕ, zero, suc, ◌+◌, String, Bool, true, false, not, ◌&&◌, ◌||◌, Option, none, some, List, [], ◌∷◌,
  ◌++◌, map, ◌==◌, ◌<>◌, if◌then◌else◌, get_or, is_some, contains, keep, any, join, strip, pieces,
  size, starts_with,
}
use harness_runtime.Value.{
  Value, null, str, list, dict, Fields, end, field, lookup, or_null, or_else, truthy, text, equals,
  is_str, members,
}
use harness_runtime.Execution.Messages.{str_text}

-- What is written to `pending_jobs`: a list, or `{"remove": [...]}`.
pub data Update : Type 0 where
  more : List String → Update
  removal : List String → Update

unfoldable pub add_ids : List String → List String → List String
add_ids ids [] = ids
add_ids ids (run_id ∷ rest) = add_ids (if contains ids run_id then ids else ids ++ run_id ∷ []) rest

unfoldable pub merge_pending_jobs : Option (List String) → Update → List String
unfolding add_ids
merge_pending_jobs current (removal removed) =
    keep (λ id. not (contains removed id)) (get_or current [])
merge_pending_jobs current (more ids) = add_ids (get_or current []) ids

abbrev pub dicts_of : Option Value → List Fields
dicts_of (some (dict fs)) = fs ∷ []
dicts_of _ = []

-- Of an object that reports a started job, the run id; of any other none.
abbrev pub queued : Fields → Option String
queued fs =
    let id = text (or_null (lookup "run_id" fs)) in
    if equals (or_null (lookup "status" fs)) "QUEUED" && not (id == "") then some id else none

unfoldable pub collect : List String → List Fields → List String
collect ids [] = ids
collect ids (fs ∷ rest) = elim (queued fs) [
  | none ↦ collect ids rest
  | some id ↦ collect (if contains ids id then ids else ids ++ id ∷ []) rest
]

module _ (loads : String → Option Value) where
  -- A line that begins with "{" and is an object.
  unfoldable pub line_objects : List String → List Fields
  line_objects [] = []
  line_objects (line ∷ lines) =
      let rest = line_objects lines in
      if starts_with (strip line) "{" then dicts_of (loads (strip line)) ++ rest else rest

  abbrev text_of : Option Value → Option String
  text_of (some (str s)) = some s
  text_of _ = none

  abbrev pub output_of : Fields → Option String
  output_of fs = text_of (lookup "output" fs)

  abbrev pub of_output : (deeper : String → List Fields) → Option String → List Fields
  of_output deeper none = []
  of_output deeper (some o) = deeper o

  -- The generator's body: of a text that is one object, the object and those of its output; of any
  -- other, those of its lines.
  unfoldable pub of_parsed : (deeper : String → List Fields) → String → Option Value → List Fields
  unfolding line_objects
  of_parsed deeper s (some (dict fs)) = fs ∷ of_output deeper (output_of fs)
  of_parsed deeper s none = line_objects (pieces s)
  of_parsed deeper s (some _) = line_objects (pieces s)

  -- The generator, with the calls of itself that are left.
  unfoldable pub objects : (fuel : ℕ) → String → List Fields
  unfolding of_parsed
  objects zero s = []
  objects (suc fuel) s = of_parsed (objects fuel) s (loads s)

  -- `_json_objects`: a text that stands in a JSON text is shorter than it.
  unfoldable pub json_objects : String → List Fields
  unfolding objects
  json_objects s = objects (suc (size s)) s

  abbrev block_line : (str_of : Value → String) → Value → String
  block_line str_of (dict block) = text (get_or (lookup "text" block) (str ""))
  block_line str_of v = str_text str_of v

  -- `started_jobs`, on a tool message's content
  unfoldable pub started_jobs : (str_of : Value → String) → Value → List String
  unfolding collect json_objects
  started_jobs str_of (str s) = collect [] (json_objects s)
  started_jobs str_of (list xs) =
      collect [] (json_objects (join "\n" (map (block_line str_of) (members (list xs)))))
  started_jobs str_of _ = []

unfoldable pub is_finished : Option Fields → Bool
is_finished none = true
is_finished (some run) =
    truthy (or_null (lookup "outcome" run))
    || equals (or_null (lookup "status" run)) "failed"
    || equals (or_null (lookup "status" run)) "cancelled"

abbrev title_field : Fields → Fields
title_field run = field "title" (or_else (or_null (lookup "name" run)) (str "")) end

abbrev entries_of : Value → Fields
entries_of (dict fs) = fs
entries_of _ = end

-- A recorded outcome is a dict.
unfoldable pub outcome_fields : Option Fields → Fields
outcome_fields none =
    field "type" (str "job/failed") (field "error" (str "The job can't be found.") end)
outcome_fields (some run) =
    let outcome = or_null (lookup "outcome" run) in
    if truthy outcome
    then entries_of outcome
    else if equals (or_null (lookup "status" run)) "cancelled"
    then field "type" (str "job/cancelled")
        (field "message" (str "The job was cancelled.") (title_field run))
    else field "type" (str "job/failed") (
        field "error" (or_else (or_null (lookup "error" run)) (str "The job failed."))
          (title_field run))

-- The first of the keys that has a value.
abbrev lead_key : Fields → String
lead_key fs =
    if truthy (or_null (lookup "message" fs))
    then "message"
    else if truthy (or_null (lookup "error" fs))
    then "error"
    else if truthy (or_null (lookup "title" fs))
    then "title"
    else ""

abbrev is_absent : Value → Bool
is_absent null = true
is_absent v = equals v ""

-- Python's `in` on texts.
occurs : String → String → Bool
occurs t String.[] = t == ""
occurs t (String.◌∷◌ c s) = let rest = occurs t s in starts_with (String.◌∷◌ c s) t || rest

-- `outcome_message`: the message's text, its id and the run that it reports.
pub record OutcomeMessage : Type 0 where
  pub content : String
  pub id : String
  pub run_id : String

-- The update of the state: the messages, and what is taken out of `pending_jobs`.
pub record Report : Type 0 where
  pub messages : List OutcomeMessage
  pub pending_jobs : Update

module _ (str_of dumps : Value → String) where
  -- A text as it is, and any other value as JSON.
  abbrev rendered : Value → String
  rendered (str s) = strip s
  rendered v = strip (dumps v)

  other_lines : (lead_key lead : String) → Fields → List String
  unfolding occurs
  other_lines key lead end = []
  other_lines key lead (field k v fs) =
      let rest = other_lines key lead fs in
      if (not (key == "") && k == key) || k == "run_id" || is_absent v
      then rest
      else if rendered v == "" || occurs (rendered v) lead
      then rest
      else (k <> ": " <> rendered v) ∷ rest

  unfoldable pub outcome_text : Fields → String
  unfolding other_lines
  outcome_text fs =
      let key = lead_key fs in
      let lead = if key == "" then "" else str_text str_of (or_null (lookup key fs)) in
      let lines = other_lines key lead fs in
      "[System Notification] " <> join "\n" (if lead == "" then lines else lead ∷ lines)

  abbrev pub outcome_message : String → Option Fields → OutcomeMessage
  outcome_message run_id run = record {
    content = outcome_text (outcome_fields run);
    id = "job-outcome-" <> run_id;
    run_id = run_id;
  }

  -- `_report(finished_jobs(pool, pending))`, on the rows that the SELECT finds.
  report_finished : (runs : String → Option Fields) → List String → Option Report
  report_finished runs [] = none
  report_finished runs (id ∷ ids) = some (record {
    messages = map (λ i. outcome_message i (runs i)) (id ∷ ids);
    pending_jobs = removal (id ∷ ids);
  })

  -- `before_model` of JobReportingMiddleware; without a pool there is nothing to look up.
  unfoldable pub before_model :
      (has_pool : Bool) → (runs : String → Option Fields) → List String → Option Report
  unfolding is_finished report_finished
  before_model has_pool runs pending =
      if has_pool then report_finished runs (keep (λ id. is_finished (runs id)) pending) else none
