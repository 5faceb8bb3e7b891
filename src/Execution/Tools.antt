-- ===== src/Execution/Tools.antt =====
-- compute_tools of core/execution/helpers.py: the tools that the system frame names. Names are texts.
use harness_runtime.Base.{
  String, Option, none, some, List, [], ◌∷◌, ◌++◌, map, ◌==◌, if◌then◌else◌, get_or, contains,
}
use harness_runtime.Value.{
  Value, null, str, list, dict, Fields, end, field, nil, lookup, or_null, truthy, text, members,
}
use harness_runtime.Value.Errors.{Result, ok, ◌>>=◌}
use harness_runtime.Execution.Messages.{iterate, get_fields}

-- `tool_def_map[name]`: the last definition of that name.
unfoldable pub definition_of : String → List Value → Option Fields
definition_of name [] = none
definition_of name (dict t ∷ ts) =
    let later = definition_of name ts in
    elim later [
      | some u ↦ some u
      | none ↦ if text (or_null (lookup "name" t)) == name then some t else none
    ]
definition_of name (null ∷ ts) = definition_of name ts
definition_of name (_ ∷ ts) = definition_of name ts

-- The loop over the names of one node, on the names seen and the tools found so far.
unfoldable pub add_tools :
    List Value → List Value → List String × List Value → List String × List Value
unfolding definition_of
add_tools definitions [] found = found
add_tools definitions (v ∷ names) (seen, tools) =
    let name = text v in
    let tool =
      get_or (definition_of name definitions)
        (field "name" (str name) (field "description" (str "") end)) in
    add_tools definitions names
      (if contains seen name then (seen, tools) else (seen ++ name ∷ [], tools ++ dict tool ∷ []))

unfoldable pub node_tools :
    List Value → List Value → List String × List Value → Result (List String × List Value)
unfolding add_tools
node_tools definitions [] found = ok found
node_tools definitions (v ∷ nodes) found = do
  node ← get_fields v
  config ← get_fields (get_or (lookup "config" node) (dict end))
  names ← iterate (get_or (lookup "tools" config) (list nil))
  node_tools definitions nodes (add_tools definitions names found)

-- The middleware's tools, which come first, are a library's.
unfoldable pub compute_tools :
    (middleware_tools : List (String × String)) → Fields → Result (List Value)
unfolding node_tools
compute_tools middleware_tools definition =
    let root_tools = get_or (lookup "tools" definition) (list nil) in
    let own =
      map (λ t. dict (field "name" (str t.0) (field "description" (str t.1) end)))
        middleware_tools in
    if truthy root_tools then ok (members root_tools) else (do
      definitions ← iterate (get_or (lookup "tool_definitions" definition) (list nil))
      nodes ← iterate (get_or (lookup "nodes" definition) (list nil))
      found ← node_tools definitions nodes (map (λ t. t.0) middleware_tools, own)
      ok found.1)
