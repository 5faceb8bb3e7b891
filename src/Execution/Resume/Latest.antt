-- ===== src/Execution/Resume/Latest.antt =====
-- What _latest_user_text reads of a message at the end.
use harness_runtime.Base.{String, ◌≡◌, refl, ap, ◌∙◌, some, List, [], ◌∷◌, ◌++◌, strip}
use harness_runtime.Value.{Value, str, dict, Fields, end, field, lookup, list_of, members, or_null}
use harness_runtime.Value.Laws.{elements-items}
use harness_runtime.Execution.Resume.{latest_user_text, newest_user_text, reversed}

reversed-append :
    (acc xs : List Value) (x : Value) → reversed acc (xs ++ x ∷ []) ≡ x ∷ reversed acc xs
reversed-append acc [] x = refl
reversed-append acc (y ∷ xs) x = reversed-append (y ∷ acc) xs x

-- A plain message of the user at the end of the messages is the one that is read.
pub latest_user_text-last :
    (input : Fields) (before : List Value) (content : String)
    → lookup "messages" input
      ≡ some (
          list_of
            (before ++ dict (field "role" (str "user") (field "content" (str content) end)) ∷ []))
    → latest_user_text input ≡ strip content
unfolding latest_user_text newest_user_text
latest_user_text-last input before content h =
    ap (λ o. newest_user_text (reversed [] (members (or_null o)))) h
    ∙ ap (λ l. newest_user_text (reversed [] l)) (elements-items (before ++ _ ∷ []))
    ∙ ap newest_user_text (reversed-append [] before _)
