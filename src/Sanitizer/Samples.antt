-- ===== src/Sanitizer/Samples.antt =====
-- Messages with a call that nothing answers, and a result that answers none.
use harness_runtime.Base.{false, String, ◌≡◌, refl, List, [], ◌∷◌}
use harness_runtime.Value.{Value, str, dict, Fields, field, end, list_of, truthy}
use harness_runtime.Sanitizer.{sanitize_openai_messages, synthetic, ids_of}
use harness_runtime.Sanitizer.Protocol.{follows, IsOrder, sanitize_openai_messages-valid}
use harness_runtime.Sanitizer.Answered.{Obeys, sanitize_openai_messages-Obeys}
use harness_runtime.Sanitizer.Spoken.{sanitize_openai_messages-spoken, spoken}

abbrev message : String → Fields → Value
message role rest = dict (field "role" (str role) rest)

abbrev calling : Value
calling =
    message "assistant" (field "tool_calls" (list_of (dict (field "id" (str "c1") end) ∷ [])) end)

abbrev broken : List Value
broken = calling ∷ message "user" end ∷ message "tool" (field "tool_call_id" (str "c1") end) ∷ []

abbrev as_added : List String → List String
as_added ids = ids

as_added-IsOrder : IsOrder as_added
as_added-IsOrder = record { same = λ ids a. refl; unique = λ ids h. h }

sanitized :
    sanitize_openai_messages as_added broken ≡ calling ∷ synthetic "c1" ∷ message "user" end ∷ []
unfolding sanitize_openai_messages truthy ids_of
sanitized = refl

sanitize_openai_messages-Obeys_example :
    Obeys (λ id. false) (sanitize_openai_messages as_added broken)
sanitize_openai_messages-Obeys_example =
    sanitize_openai_messages-Obeys as_added as_added-IsOrder broken

sanitize_openai_messages-valid_example :
    sanitize_openai_messages as_added (calling ∷ synthetic "c1" ∷ [])
    ≡ calling ∷ synthetic "c1" ∷ []
unfolding follows truthy ids_of
sanitize_openai_messages-valid_example =
    sanitize_openai_messages-valid as_added as_added-IsOrder (calling ∷ synthetic "c1" ∷ []) refl

sanitize_openai_messages-spoken_example :
    spoken (sanitize_openai_messages as_added broken) ≡ spoken broken
sanitize_openai_messages-spoken_example = sanitize_openai_messages-spoken as_added broken
