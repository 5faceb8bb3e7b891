-- ===== src/AskUser/Samples.antt =====
-- Calls of ask_user.
use harness_runtime.Base.{true, false, none, some, [], ◌∷◌, ◌≡◌, refl, decimal, join}
use harness_runtime.Value.{null, str, dict, end, field, list_of, text}
use harness_runtime.AskUser.{
  AskUserQuestion, AskUserInput, AskUserOption, image, square, plain, card, carousel, approval,
  clarification, carousel_options_have_media, carousel_is_not_an_approval, is_valid, ask_payload,
  ask_user_answer,
}

abbrev voice : AskUserOption
voice = record {
  label = "Mine";
  badge = none;
  description = none;
  media = some (record { kind = image; url = "u"; aspect = square; poster = none });
}

abbrev voices : AskUserQuestion
voices = record {
  question = "Which?";
  options = some (card voice ∷ plain "Later" ∷ []);
  layout = carousel;
  blocking = none;
}

test_bare :
    carousel_options_have_media voices ≡ some "carousel options need media; options without it: 1"
unfolding carousel_options_have_media decimal join
test_bare = refl

abbrev shown : AskUserInput
shown = record {
  questions = record voices { options = some (card voice ∷ []) } ∷ [];
  ask_type = clarification;
  file_path = none;
  buttons = none;
}

test_valid : (is_valid shown ≡ true) × (is_valid (record shown { ask_type = approval }) ≡ false)
unfolding is_valid carousel_options_have_media carousel_is_not_an_approval
test_valid = (refl, refl)

test_answer :
    (ask_user_answer text null ≡ "")
    × (ask_user_answer text (str "raw") ≡ "raw")
    × (ask_user_answer text
          (dict (field "decisions" (list_of (dict (field "message" (str "yes") end) ∷ [])) end))
        ≡ "yes")
unfolding ask_user_answer
test_answer = (refl, refl, refl)

test_payload :
    ask_payload (record shown { questions = [] })
    ≡ dict (
        field "name" (str "ask_user") (
          field "args"
            (dict (
              field "questions" (list_of []) (
                field "type"
                  (str "clarification")
                  (field "file_path" null (field "buttons" null end)))))
            end))
unfolding ask_payload
test_payload = refl
