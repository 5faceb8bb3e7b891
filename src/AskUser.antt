-- ===== src/AskUser.antt =====
-- core/middleware/human_interaction/ask_user.py: which questions an agent may ask, what the graph is
-- interrupted with, and what the tool answers when it is resumed. `text_of` is Python's `str`.
mod Samples
use harness_runtime.Base.{
  ℕ, zero, suc, ◌+◌, String, Bool, true, false, not, ◌&&◌, ◌||◌, Option, none, some, List, [], ◌∷◌,
  map, any, all, leb, ◌<>◌, if◌then◌else◌, get_or, is_empty, is_some, size, join, decimal,
}
use harness_runtime.Value.{
  Value, null, bool, str, list, dict, Fields, end, field, lookup, or_null, truthy, list_of, cons,
  nil,
}

pub data MediaKind : Type 0 where
  image : MediaKind
  audio : MediaKind
  video : MediaKind

pub data Aspect : Type 0 where
  square : Aspect
  portrait : Aspect
  landscape : Aspect
  vertical : Aspect

pub record AskUserMedia : Type 0 where
  pub kind : MediaKind
  pub url : String
  pub aspect : Aspect
  pub poster : Option String

pub record AskUserOption : Type 0 where
  pub label : String
  pub badge : Option String
  pub description : Option String
  pub media : Option AskUserMedia

-- `str | AskUserOption`
pub data Choice : Type 0 where
  plain : String → Choice
  card : AskUserOption → Choice

pub data Layout : Type 0 where
  as_list : Layout
  carousel : Layout

pub record AskUserQuestion : Type 0 where
  pub question : String
  pub options : Option (List Choice)
  pub layout : Layout
  pub blocking : Option Bool

pub record AskUserButtons : Type 0 where
  pub submit : Option String
  pub skip : Option String
  pub hide_skip : Option Bool

pub data AskType : Type 0 where
  approval : AskType
  clarification : AskType

pub record AskUserInput : Type 0 where
  pub questions : List AskUserQuestion
  pub ask_type : AskType
  pub file_path : Option String
  pub buttons : Option AskUserButtons

abbrev pub has_media : Choice → Bool
has_media (plain s) = false
has_media (card o) = is_some o.media

abbrev pub is_carousel : AskUserQuestion → Bool
is_carousel q = elim q.layout [ as_list ↦ false | carousel ↦ true ]

-- The numbers of the options without media.
abbrev pub bare_options : ℕ → List Choice → List String
bare_options i [] = []
bare_options i (o ∷ os) =
    let rest = bare_options (i + 1) os in if has_media o then rest else decimal i ∷ rest

-- `_carousel_options_have_media`: the text of the ValueError, or `none` for a question that passes.
unfoldable pub carousel_options_have_media : AskUserQuestion → Option String
carousel_options_have_media q =
    let bare = bare_options 0 (get_or q.options []) in
    if not (is_carousel q)
    then none
    else if is_empty (get_or q.options [])
    then some "a carousel question needs options"
    else if not (is_empty bare)
    then some ("carousel options need media; options without it: " <> join ", " bare)
    else none

-- min_length=1, max_length=40
abbrev pub fits_button : Option String → Bool
fits_button none = true
fits_button (some s) = leb 1 (size s) && leb (size s) 40

abbrev pub fits_buttons : Option AskUserButtons → Bool
fits_buttons none = true
fits_buttons (some b) = fits_button b.submit && fits_button b.skip

abbrev pub is_approval : AskType → Bool
is_approval approval = true
is_approval clarification = false

unfoldable pub carousel_is_not_an_approval : AskUserInput → Option String
carousel_is_not_an_approval call =
    if is_approval call.ask_type && any is_carousel call.questions
    then some
        "a carousel question cannot be asked with type=\"approval\": the answer would be \"Approved\" without the chosen option. Ask it again without type."
    else none

-- Whether the call is validated; of one that is not, the agent is told the error.
unfoldable pub is_valid : AskUserInput → Bool
unfolding carousel_options_have_media carousel_is_not_an_approval
is_valid call =
    all (λ q. not (is_some (carousel_options_have_media q))) call.questions
    && fits_buttons call.buttons
    && not (is_some (carousel_is_not_an_approval call))

abbrev pub optional : Option String → Value
optional none = null
optional (some s) = str s

abbrev pub optional_bool : Option Bool → Value
optional_bool none = null
optional_bool (some b) = bool b

abbrev pub kind_name : MediaKind → String
kind_name image = "image"
kind_name audio = "audio"
kind_name video = "video"

abbrev pub aspect_name : Aspect → String
aspect_name square = "square"
aspect_name portrait = "portrait"
aspect_name landscape = "landscape"
aspect_name vertical = "vertical"

-- `model_dump` of the models
abbrev pub dump_media : Option AskUserMedia → Value
dump_media none = null
dump_media (some m) = dict (
    field "kind" (str (kind_name m.kind)) (
      field "url" (str m.url)
        (field "aspect" (str (aspect_name m.aspect)) (field "poster" (optional m.poster) end))))

abbrev pub dump_choice : Choice → Value
dump_choice (plain s) = str s
dump_choice (card o) = dict (
    field "label" (str o.label) (
      field "badge" (optional o.badge)
        (field "description" (optional o.description) (field "media" (dump_media o.media) end))))

abbrev pub dump_question : AskUserQuestion → Value
dump_question q = dict (
    field "question" (str q.question) (
      field "options" (elim q.options [ none ↦ null | some os ↦ list_of (map dump_choice os) ])
        (field "layout" (str (if is_carousel q then "carousel" else "list"))
          (field "blocking" (optional_bool q.blocking) end))))

-- A key that is left out where its value is None
abbrev pub unless_none : String → Value → Fields → Fields
unless_none k null rest = rest
unless_none k v rest = field k v rest

abbrev pub dump_buttons : Option AskUserButtons → Value
dump_buttons none = null
dump_buttons (some b) = dict (
    unless_none "submit" (optional b.submit) (
      unless_none "skip" (optional b.skip)
        (unless_none "hide_skip" (optional_bool b.hide_skip) end)))

-- What the graph is interrupted with.
unfoldable pub ask_payload : AskUserInput → Value
ask_payload call = dict (
    field "name" (str "ask_user") (
      field "args"
        (dict (
          field "questions" (list_of (map dump_question call.questions)) (
            field "type" (str (if is_approval call.ask_type then "approval" else "clarification")) (
              field "file_path" (optional call.file_path)
                (field "buttons" (dump_buttons call.buttons) end)))))
        end))

module _ (text_of : Value → String) where
  abbrev pub whole_text : Value → String
  whole_text null = ""
  whole_text v = text_of v

  -- The message of the first decision, or the value as a text.
  unfoldable pub ask_user_answer : (resume_value : Value) → String
  ask_user_answer (dict fields) = elim (get_or (lookup "decisions" fields) (list_of [])) [
    | list (cons (dict first) rest) ↦ text_of (get_or (lookup "message" first) (str ""))
    | _ ↦ whole_text (dict fields)
  ]
  ask_user_answer v = whole_text v
