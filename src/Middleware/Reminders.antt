-- ===== src/Middleware/Reminders.antt =====
-- The notice of an open list in core/middleware/todos.py, through a run.
use harness_runtime.Base.{
  String, true, not, ◌≡◌, ap, ◌∙◌, none, some, List, [], ◌∷◌, ◌++◌, arith, all,
}
use harness_runtime.Middleware.{
  Message, reversed, has_mark, is_input, reminded_newest, reminded_this_run, Todo, todo_after_model,
}
use harness_runtime.Middleware.Retries.{reversed-append}

reminded-later :
    (acc later : List Message)
    → reminded_newest acc ≡ true
    → all (λ m. not (is_input m)) later ≡ true
    → reminded_newest (reversed acc later) ≡ true
unfolding reminded_newest
reminded-later acc [] reminded h = reminded
reminded-later acc (m ∷ ms) reminded h = ground (arith, reminded, h, reminded-later (m ∷ acc) ms)

silent :
    (uuid : String) (messages : List Message) (todos : List Todo)
    → reminded_this_run messages ≡ true
    → todo_after_model uuid messages todos ≡ none
unfolding todo_after_model
silent uuid messages todos h = ground (arith, h)

given-marked :
    (uuid : String) (messages : List Message) (todos : List Todo) (notice : Message)
    → todo_after_model uuid messages todos ≡ some notice
    → has_mark "todo_reminder" notice ≡ true
unfolding todo_after_model
given-marked uuid messages todos notice h = ground (arith, h)

marked_first :
    (m : Message) (ms : List Message)
    → has_mark "todo_reminder" m ≡ true
    → reminded_newest (m ∷ ms) ≡ true
unfolding reminded_newest
marked_first m ms h = ground (arith, h)

-- Once the notice is given, it is not given again before the next input of the run, whatever the agent
-- answers and whatever its list says: only a human message that reports no finished job lets it come
-- again.
pub todo_after_model-once :
    (uuid : String) (history : List Message) (todos : List Todo) (notice : Message)
    → todo_after_model uuid history todos ≡ some notice
    → (later_uuid : String) (later : List Message) (later_todos : List Todo)
    → all (λ m. not (is_input m)) later ≡ true
    → todo_after_model later_uuid (history ++ notice ∷ later) later_todos ≡ none
unfolding reminded_this_run
todo_after_model-once uuid history todos notice given later_uuid later later_todos quiet =
    let marked = given-marked uuid history todos notice given in
    silent later_uuid (history ++ notice ∷ later) later_todos (
      ap reminded_newest (reversed-append [] history (notice ∷ later))
      ∙ reminded-later (notice ∷ reversed [] history) later
          (marked_first notice (reversed [] history) marked) quiet)
