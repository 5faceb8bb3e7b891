-- ===== src/Router/Steps/Requests.antt =====
-- A request that nothing interrupts is the steps of its parts, one after the other.
use harness_runtime.Base.{
  String, Bool, true, false, not, ◌&&◌, ◌==◌, Option, none, some, if◌then◌else◌,
}
use harness_runtime.Value.{Value}
use harness_runtime.Router.{Router}
use harness_runtime.Router.Messages.{
  Request, Answers, Response, success, bad_request, forget, is_notice, write_notice_row,
  may_finish_a_job, has_resume, serve, handle_content, handle_restored, handle_message,
}
use harness_runtime.Router.Steps.{forgets, notes, serves, Steps, here, next, Steps-trans}

either :
    (r : Router) (b : Bool) (t u : Response × Router)
    → Steps r t.1
    → Steps r u.1
    → Steps r (if b then t else u).1
either r true t u ht hu = ht
either r false t u ht hu = hu

pending : (b : Bool) (r s : Router) → Steps r s → Steps r (if b then forget s else s)
pending true r s steps = next steps forgets
pending false r s steps = steps

content-Steps :
    (loads : String → Option Value) (a : Answers) (q : Request) (r : Router)
    → Steps r (handle_content loads a q r).1
unfolding handle_content
content-Steps loads a q r =
    let noted = write_notice_row a q.message r in
    let written : Steps r noted = next here (notes a q.message) in
    let after = if a.pending_restored then forget noted else noted in
    let before = if a.pending_restored then forget r else r in
    either r (is_notice q)
      (if may_finish_a_job loads q.message then serve a q after else (success, noted))
      (serve a q before)
      (either r (may_finish_a_job loads q.message) (serve a q after) (success, noted)
        (next (pending a.pending_restored r noted written) (serves a q)) written)
      (next (pending a.pending_restored r r here) (serves a q))

restored-Steps :
    (error : Option String) (loads : String → Option Value) (a : Answers) (q : Request) (r : Router)
    → Steps r (handle_restored error loads a q r).1
unfolding handle_restored
restored-Steps (some detail) loads a q r = here
restored-Steps none loads a q r =
    let forgotten : Steps r (forget r) = next here forgets in
    either r (q.message == "" && not (has_resume q.resume_payload)) (success, forget r)
      (handle_content loads a q (forget r)) forgotten
      (Steps-trans forgotten (content-Steps loads a q (forget r)))

-- So what holds in every state that a session can reach holds after every request.
pub handle_message-Steps :
    (loads : String → Option Value) (a : Answers) (q : Request) (r : Router)
    → Steps r (handle_message loads a q r).1
unfolding handle_message
handle_message-Steps loads a q r =
    let content = content-Steps loads a q r in
    either r (q.workspace_id == "")
      (bad_request "workspace_id is required (set in POST body or WORKSPACE_ID env var)", r)
      (if q.restore_checkpoint_id == ""
        then handle_content loads a q r
        else handle_restored a.restore_error loads a q r)
      here
      (either r (q.restore_checkpoint_id == "") (handle_content loads a q r)
        (handle_restored a.restore_error loads a q r) content
        (restored-Steps a.restore_error loads a q r))
