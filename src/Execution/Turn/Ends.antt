-- ===== src/Execution/Turn/Ends.antt =====
-- How a turn of core/execution/executor.py ends: once, with its result directly before the event that
-- closes its life.
pub mod Once
pub mod Calm
pub mod Turns
use harness_runtime.Base.{
  ℕ, String, Bool, true, false, ◌≡◌, ◌≢◌, refl, sym, ap, ◌∙◌, Option, some, none, List, [], ◌∷◌,
  ◌++◌, append_assoc, if◌then◌else◌, arith, not, ◌&&◌, ◌==◌,
}
use harness_runtime.Value.{
  Value, null, bool, num, str, list, tuple, dict, object, Fields, text, or_null, lookup, entries,
  truthy, is_list,
}
use harness_runtime.Publisher.{Call, ResultArgs, Outcome, completed, publish_turn_end}
use harness_runtime.Execution.State.{Event}
use harness_runtime.Execution.World as World
use harness_runtime.Execution.World.{Env, M, after, ◌>>=◌, pure, publish, publish_all}
use harness_runtime.Execution.World.Rules.{Keeps, Rule, IsBody}
use harness_runtime.Execution.Handlers.{
  Handler, lifecycle_handler, subagent_message_handler, subagent_values_handler,
  subagent_lifecycle_handler, subagent_tools_handler, root_message_handler, root_tools_handler,
  root_values_handler, handle,
}
use harness_runtime.Execution.Handlers.Kept.{IsRelay}
use harness_runtime.Execution.Handlers.Subagents.{
  handle_lifecycle, handle_subagent_lifecycle, handle_subagent_message, handle_subagent_tools,
  is_end,
}
use harness_runtime.Execution.Handlers.Root.{handle_root_message, handle_root_tools}
use harness_runtime.Execution.Handlers.Values.{
  handle_subagent_values, on_subagent_values, subagent_values,
}

-- Calls of which none is a result or an end of the turn's life.
abbrev pub AllBody : List Call → Type 0
AllBody [] = Unit
AllBody (c ∷ cs) = IsBody c × AllBody cs

-- The calls are such calls, and then one result with one end of the turn's life directly after it.
pub record TurnEnd (outcome : Outcome) (args : ResultArgs) (calls : List Call) : Type 0 where
  pub body : List Call
  pub error : Option String
  pub all_body : AllBody body
  pub ended : calls ≡ body ++ publish_turn_end outcome error args

pub AllBody-snoc : (cs : List Call) (c : Call) → AllBody cs → IsBody c → AllBody (cs ++ c ∷ [])
AllBody-snoc [] c h k = (k, tt)
AllBody-snoc (d ∷ cs) c h k = (h.0, AllBody-snoc cs c h.1 k)

abbrev pub Speaking : World.World → Type 0
Speaking w = AllBody w.calls

pub speaking : (env : Env) → Rule env Speaking
unfolding World.change World.tick publish World.store_messages World.store_files
    World.post_as_sandbox World.throttled
speaking env = record {
  changed = λ f. record { kept = λ w h. h };
  ticked = record { kept = λ w h. h };
  published = λ c body. record { kept = λ w h. AllBody-snoc w.calls c h body };
  stored_messages = λ ms n s. record { kept = λ w h. h };
  stored_files = λ fs. record { kept = λ w h. h };
  posted = λ route. record { kept = λ w h. h };
  throttles = λ step. record { kept = λ w h. h };
}

-- A computation that never stops the turn.
pub record GoesOn (m : M Bool) : Type 0 where
  pub goes : (w : World.World) → (m w).0 ≢ World.returned false

going : GoesOn (pure true)
unfolding pure
going = record { goes = λ w e. cc }

going_after :
    {A : Type 0} (r : World.Outcome A × World.World) (f : A → M Bool)
    → ((a : A) → GoesOn (f a))
    → (after r f).0 ≢ World.returned false
going_after (World.returned a, w) f h = (h a).goes w
going_after (World.threw t, w) f h = λ e. cc

going_bind : {A : Type 0} (m : M A) {f : A → M Bool} → ((a : A) → GoesOn (f a)) → GoesOn (m >>= f)
unfolding ◌>>=◌
going_bind m {f} h = record { goes = λ w. going_after (m w) f h }

going_if : (b : Bool) {m n : M Bool} → GoesOn m → GoesOn n → GoesOn (if b then m else n)
going_if true h k = h
going_if false h k = k

going_then : {A : Type 0} (m : M A) → GoesOn (m >>= λ _. pure true)
going_then m = going_bind m (λ a. going)

on_values-GoesOn : (env : Env) (ns : List String) (v : Value) → GoesOn (on_subagent_values env ns v)
unfolding on_subagent_values subagent_values
on_values-GoesOn env ns (dict event) = going_bind _ (λ a. going_bind _ (λ b.
    going_bind _ (λ messages. going_bind _ (λ s.
      going_if _ (going_bind _ (λ c. going_bind _ (λ d. going_if _ going (going_then _)))) going))))
on_values-GoesOn env ns null = going
on_values-GoesOn env ns v = going

-- Only the root's values handler stops a turn.
pub handle-GoesOn : (env : Env) (h : Handler) (e : Event) → IsRelay h → GoesOn (handle env h e)
unfolding handle handle_lifecycle handle_subagent_message handle_subagent_values
    handle_subagent_lifecycle handle_subagent_tools handle_root_message handle_root_tools
handle-GoesOn env lifecycle_handler e relay = going_bind _ (λ event.
    let sub_event = text (or_null (lookup "event" event)) in
    let ns = or_null (lookup "namespace" event) in
    going_if (sub_event == "interrupted" && not (truthy ns)) (going_then _) (
      going_if (sub_event == "started") (going_then _)
        (going_if (is_end sub_event && is_list ns) (going_then _) going)))
handle-GoesOn env subagent_message_handler e relay =
    going_bind _ (λ s. going_if _ going (going_bind _ (λ payload. going_if _ (going_then _) going)))
handle-GoesOn env subagent_values_handler e relay = on_values-GoesOn env e.namespace e.payload
handle-GoesOn env subagent_lifecycle_handler e relay =
    going_bind _
      (λ event. going_if _ (going_if _ going (going_then _)) (going_if _ (going_then _) going))
handle-GoesOn env subagent_tools_handler e relay =
    going_bind _ (λ event. going_if _ (going_then _) going)
handle-GoesOn env root_message_handler e relay = going_bind _ (λ payload.
    let kind = text (or_null (lookup "event" (entries payload))) in
    going_if (kind == "content-block-delta") (going_then _) (
      going_if (kind == "content-block-start") (going_then _)
        (going_if (kind == "message-finish") (going_then _) going)))
handle-GoesOn env root_tools_handler e relay = going_bind _ (λ event.
    let kind = text (or_null (lookup "event" event)) in
    going_if (text (or_null (lookup "tool_call_id" event)) == "") going (
      going_if (kind == "tool-output-delta") (going_then _)
        (going_if (kind == "tool-finished") (going_then _) going)))
handle-GoesOn env root_values_handler e relay = absurd relay
