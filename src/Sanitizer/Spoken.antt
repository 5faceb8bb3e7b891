-- ===== src/Sanitizer/Spoken.antt =====
-- sanitize_openai_messages on the messages that are no results.
use harness_runtime.Base.{
  String, Bool, true, false, not, ◌&&◌, ◌≡◌, refl, ap, ◌∙◌, List, [], ◌∷◌, ◌++◌, map, ◌==◌,
  if◌then◌else◌, if_ind, contains,
}
use harness_runtime.Value.{Value, null, dict, Fields}
use harness_runtime.Sanitizer.{
  synthetic, result_id, open_ids, discard, Role, assistant, tool, other, role_of, closing, sanitize,
  sanitize_openai_messages,
}

-- What is no result.
abbrev pub is_spoken : Value → Bool
is_spoken (dict m) = elim (role_of m) [ tool ↦ false | assistant ↦ true | other ↦ true ]
is_spoken v = true

abbrev pub spoken : List Value → List Value
spoken [] = []
spoken (v ∷ ms) = let rest = spoken ms in if is_spoken v then v ∷ rest else rest

module _ (order : List String → List String) where
  spoken-closing :
      (ids : List String) (rest : List Value) → spoken (map synthetic ids ++ rest) ≡ spoken rest
  spoken-closing [] rest = refl
  spoken-closing (a ∷ ids) rest = spoken-closing ids rest

  spoken-closing_end : (ids : List String) → spoken (map synthetic ids) ≡ []
  spoken-closing_end [] = refl
  spoken-closing_end (a ∷ ids) = spoken-closing_end ids

  spoken-first :
      (m : Fields) (l : List Value) (r : Role)
      → role_of m ≡ r
      → spoken (dict m ∷ l) ≡ (
          if elim r [ tool ↦ false | assistant ↦ true | other ↦ true ]
          then dict m ∷ spoken l
          else spoken l)
  spoken-first m l r e =
      ap
        (λ x.
          if elim x [ tool ↦ false | assistant ↦ true | other ↦ true ]
          then dict m ∷ spoken l
          else spoken l)
        e

  spoken-message :
      (ids : List String) (m : Fields) (r : Role)
      (kept dropped after_call after_other rest : List Value)
      → role_of m ≡ r
      → spoken kept ≡ rest
      → spoken dropped ≡ rest
      → spoken after_call ≡ rest
      → spoken after_other ≡ rest
      → spoken (elim r [
        | assistant ↦ closing order ids ++ dict m ∷ after_call
        | tool ↦
            if not (result_id m == "") && contains ids (result_id m) then dict m ∷ kept else dropped
        | other ↦ closing order ids ++ dict m ∷ after_other
      ])
        ≡ (if elim r [ tool ↦ false | assistant ↦ true | other ↦ true ]
            then dict m ∷ rest
            else rest)
  spoken-message ids m assistant kept dropped after_call after_other rest e k d c o =
      spoken-closing (order ids) (dict m ∷ after_call)
      ∙ spoken-first m after_call assistant e
      ∙ ap (λ l. dict m ∷ l) c
  spoken-message ids m tool kept dropped after_call after_other rest e k d c o =
      if_ind (λ l. spoken l ≡ rest) (not (result_id m == "") && contains ids (result_id m))
        (λ _. spoken-first m kept tool e ∙ k) (λ _. d)
  spoken-message ids m other kept dropped after_call after_other rest e k d c o =
      spoken-closing (order ids) (dict m ∷ after_other)
      ∙ spoken-first m after_other other e
      ∙ ap (λ l. dict m ∷ l) o

  spoken-sanitize :
      (ids : List String) (ms : List Value) → spoken (sanitize order ids ms) ≡ spoken ms
  unfolding sanitize
  spoken-sanitize ids [] = spoken-closing_end (order ids)
  spoken-sanitize ids (null ∷ ms) = ap (λ l. null ∷ l) (spoken-sanitize ids ms)
  spoken-sanitize ids (dict m ∷ ms) =
      spoken-message ids m (role_of m) _ _ _ _ (spoken ms) refl
        (spoken-sanitize (discard (result_id m) ids) ms) (spoken-sanitize ids ms)
        (spoken-sanitize (open_ids m) ms) (spoken-sanitize [] ms)
  spoken-sanitize ids (v ∷ ms) = ap (λ l. v ∷ l) (spoken-sanitize ids ms)

  -- Only results are dropped or added: the other messages are sent in their order.
  pub sanitize_openai_messages-spoken :
      (ms : List Value) → spoken (sanitize_openai_messages order ms) ≡ spoken ms
  unfolding sanitize_openai_messages
  sanitize_openai_messages-spoken ms = spoken-sanitize [] ms
