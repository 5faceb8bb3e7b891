-- ===== src/Router/Messages.antt =====
-- The endpoints of the router on one session: handle_message and cancel_session, with
-- _write_notice_row, _may_finish_a_job and _schedule_wake. Between two `await`s nothing else runs, so
-- each part between them is one function. `loads` is `json.loads`, `none` where it raises.
use harness_runtime.Base.{
  is_empty, ℕ, ◌+◌, String, Bool, true, false, not, ◌&&◌, ◌||◌, Option, none, some, List, [], ◌∷◌,
  ◌++◌, ◌==◌, if◌then◌else◌, is_some,
}
use harness_runtime.Value.{
  Value, null, str, dict, Fields, end, field, lookup, or_null, equals, truthy,
}
use harness_runtime.Publisher.{values}
use harness_runtime.Store.Chat.{write_chat_messages}
use harness_runtime.Router.{
  Work, turn, wake, ready, SessionState, says, trims, Router, put_at, new_state, is_live, set_task,
}

-- `asyncio.create_task` and `state.task = ...`
unfoldable pub create_task : ℕ → Work → Router → Router
create_task o work r = record r {
  tasks =
      put_at r.tasks r.next_task
        (record { owner = o; work = work; stage = ready; cancelled = false });
  states = put_at r.states o (record (r.states o) { task = some r.next_task });
  next_task = r.next_task + 1;
}

-- `state.task is not None and not state.task.done()`
abbrev pub in_flight : Option ℕ → Router → Bool
in_flight none r = false
in_flight (some i) r = is_live (r.tasks i).stage

unfoldable pub schedule_wake : ℕ → Router → Router
schedule_wake o r = if in_flight (r.states o).task r then r else create_task o wake r

-- The request, and what the world answers. `workspace_id` is that of the body or the variable, and
-- "" where a text is missing. `failure` is what building a session raises.
pub record Request : Type 0 where
  pub message : String
  pub role : String
  pub attachments : List Value
  pub resume_payload : Option Value
  pub restore_checkpoint_id : String
  pub workspace_id : String

pub record Answers : Type 0 where
  pub has_pool : Bool
  pub up : Bool
  pub restore_error : Option String
  pub pending_restored : Bool
  pub failure : Option String

pub data Response : Type 0 where
  success : Response
  bad_request : (detail : String) → Response

abbrev is_started : Value → Bool
is_started (dict notice) = equals (or_null (lookup "type" notice)) "job/started"
is_started _ = false

-- Not "job/started": a text that is no JSON may mean a job finished.
abbrev not_started : Option Value → Bool
not_started none = true
not_started (some v) = not (is_started v)

unfoldable pub may_finish_a_job : (loads : String → Option Value) → String → Bool
may_finish_a_job loads notice = not_started (loads notice)

abbrev pub system_message : String → Fields
system_message notice = field "type" (str "system") (field "content" (str notice) end)

-- The frame for a chat that watches live, by a publisher of its own.
abbrev pub show_notice : String → Router → Router
show_notice notice r =
    if is_some r.stored
    then record r {
      effects =
          r.effects
          ++ says r.next_publisher (values (dict (system_message notice) ∷ []) end null null) ∷ [];
      next_publisher = r.next_publisher + 1;
    }
    else r

abbrev pub add_row : Answers → String → Router → Router
add_row a notice r = record r {
  chat =
      (write_chat_messages a.up r.session_id (system_message notice ∷ []) 0 "notification" none
        r.chat).1;
}

unfoldable pub write_notice_row : Answers → String → Router → Router
write_notice_row a notice r = show_notice notice (if a.has_pool then add_row a notice r else r)

abbrev pub is_notice : Request → Bool
is_notice q = q.role == "system" && not (q.message == "")

-- `if resume_payload:`
abbrev pub has_resume : Option Value → Bool
has_resume none = false
has_resume (some v) = truthy v

-- `session_store.pop(session_id, None)`
abbrev pub forget : Router → Router
forget r = record r { stored = none }

-- `session.initialize(resume_payload=...)`, where there is one.
abbrev resumed : Option Value → SessionState → SessionState
resumed payload s = if has_resume payload then record s { resume_payload = payload } else s

-- The session that is stored gets a new publisher.
unfoldable pub reuse : Request → ℕ → Router → Router
reuse q o r = record r {
  states =
      put_at r.states o
        (record (resumed q.resume_payload (r.states o)) { publisher = r.next_publisher });
  next_publisher = r.next_publisher + 1;
  effects = r.effects ++ trims ∷ [];
}

unfoldable pub build : Request → Router → Router
build q r = record r {
  stored = some r.next_state;
  states = put_at r.states r.next_state (resumed q.resume_payload (new_state r.next_publisher));
  next_state = r.next_state + 1;
  next_publisher = r.next_publisher + 1;
  effects = r.effects ++ trims ∷ [];
}

-- The end of handle_message, on the session's state.
unfoldable pub schedule : Request → (is_new : Bool) → ℕ → Router → Router
schedule q is_new o r =
    if is_notice q
    then schedule_wake o r
    else if not (q.message == "") || has_resume q.resume_payload || not (is_empty q.attachments)
    then create_task o (turn q.message q.role q.attachments) r
    else if is_new
    then schedule_wake o r
    else r

-- A session that cannot be built: the sentinels are trimmed by then.
abbrev pub refused : Router → Router
refused r = record r { next_publisher = r.next_publisher + 1; effects = r.effects ++ trims ∷ [] }

-- A session that is not stored, with what building it raises.
unfoldable pub serve_new : (failure : Option String) → Request → Router → Response × Router
serve_new (some detail) q r = (bad_request detail, refused r)
serve_new none q r = (success, schedule q true r.next_state (build q r))

-- From `new_session = ...` on.
unfoldable pub serve_with : (stored : Option ℕ) → Answers → Request → Router → Response × Router
serve_with (some o) a q r = (success, schedule q false o (reuse q o r))
serve_with none a q r = serve_new a.failure q r

unfoldable pub serve : Answers → Request → Router → Response × Router
unfolding serve_with serve_new
serve a q r = serve_with r.stored a q r

-- From the notice on; the restore that the pod was created for is applied before the session is used.
unfoldable pub handle_content :
    (loads : String → Option Value) → Answers → Request → Router → Response × Router
unfolding serve write_notice_row may_finish_a_job
handle_content loads a q r =
    let pending = λ (s : Router). if a.pending_restored then forget s else s in
    if is_notice q
    then (let noted = write_notice_row a q.message r in
        if may_finish_a_job loads q.message then serve a q (pending noted) else (success, noted))
    else serve a q (pending r)

-- After the restore: with nothing to run, the request is done.
unfoldable pub handle_restored :
    (error : Option String)
    → (loads : String → Option Value) → Answers
    → Request
    → Router
    → Response × Router
unfolding handle_content
handle_restored (some detail) loads a q r = (bad_request detail, r)
handle_restored none loads a q r =
    if q.message == "" && not (has_resume q.resume_payload)
    then (success, forget r)
    else handle_content loads a q (forget r)

unfoldable pub handle_message :
    (loads : String → Option Value) → Answers → Request → Router → Response × Router
unfolding handle_restored handle_content
handle_message loads a q r =
    if q.workspace_id == ""
    then (bad_request "workspace_id is required (set in POST body or WORKSPACE_ID env var)", r)
    else if q.restore_checkpoint_id == ""
    then handle_content loads a q r
    else handle_restored a.restore_error loads a q r

-- `state.task.cancel()`
abbrev pub cancel_task : Option ℕ → Router → Bool × Router
cancel_task none r = (false, r)
cancel_task (some i) r =
    if is_live (r.tasks i).stage
    then (true, set_task i (record (r.tasks i) { cancelled = true }) r)
    else (false, r)

abbrev pub cancel_with : (stored : Option ℕ) → Router → Bool × Router
cancel_with none r = (false, r)
cancel_with (some o) r = cancel_task (r.states o).task r

-- Whether a turn was cancelled.
unfoldable pub cancel_session : Router → Bool × Router
cancel_session r = cancel_with r.stored r
