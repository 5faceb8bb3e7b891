-- ===== src/Session/Attachments.antt =====
-- inline_object_attachments of core/session/execution.py, where a download fails.
use mathlib.Core.Path.{subst}
use harness_runtime.Base.{
  Option, none, some, &&-both, ℕ, String, Bool, true, false, ◌&&◌, ◌≡◌, refl, sym, ap, ◌∙◌, List,
  [], ◌∷◌, arith, ltb, if◌then◌else◌, any,
}
use harness_runtime.Value.{Value, Fields, lookup, or_null, entries, equals, text}
use harness_runtime.Value.Errors.{Result, ok, err, is_ok, ◌>>=◌, key_error, value_error}
use harness_runtime.Session.{
  is_image, item, inlined, download, inline_attachment, inline_object_attachments,
  max_attachment_bytes,
}

-- An image that lies in the object store.
abbrev pub needs_download : Fields → Bool
needs_download a =
    is_image a && equals (or_null (lookup "type" (entries (or_null (lookup "source" a))))) "object"

-- Whether its download fails, or gives too much.
abbrev pub too_large : Result (ℕ × String) → Bool
too_large (ok (size, encoded)) = ltb max_attachment_bytes size
too_large (err e) = true

abbrev pub url_of : Fields → String
url_of a = text (or_null (lookup "value" (entries (or_null (lookup "source" a)))))

bind-fails {ℓ κ} :
    {A : Type ℓ} {B : Type κ} (m : Result A) (f : A → Result B)
    → ((a : A) → m ≡ ok a → is_ok (f a) ≡ false)
    → is_ok (m >>= f) ≡ false
bind-fails (ok a) f h = h a refl
bind-fails (err e) f h = refl

over_fails {ℓ} :
    {A : Type ℓ} (b : Bool) (r : Result A)
    → b ≡ true
    → is_ok (if b then err value_error else r) ≡ false
over_fails true r h = refl
over_fails false r h = cc

item-ok : (k : String) (fs : Fields) (v : Value) → item k fs ≡ ok v → or_null (lookup k fs) ≡ v
item-ok k fs v h = found (lookup k fs) h
  where
    found :
        (o : Option Value) → elim o [ none ↦ err key_error | some v ↦ ok v ] ≡ ok v → or_null o ≡ v
    found none h = cc
    found (some w) h = cc

size-large :
    (r : Result (ℕ × String)) (body : ℕ × String)
    → r ≡ ok body
    → too_large r ≡ true
    → ltb max_attachment_bytes body.0 ≡ true
size-large (ok b) body e h = ground (arith, e, h)
size-large (err x) body e h = cc

module _ (fetch : String → Result (ℕ × String)) where
  download_fails :
      (a source : Fields)
      → too_large (fetch (text (or_null (lookup "value" source)))) ≡ true
      → is_ok (download fetch a source) ≡ false
  unfolding download
  download_fails a source large = bind-fails (item "value" source) _ (λ url e.
      bind-fails (fetch (text url))
        (λ body.
          if ltb max_attachment_bytes body.0
          then err value_error
          else (item "mime" a >>= λ mime. ok (inlined a url (text mime) body.1)))
        (λ body f. over_fails _ _ (
          size-large (fetch (text url)) body f
            (subst (λ u. too_large (fetch (text u)) ≡ true) (item-ok "value" source url e) large))))

  inline_fails :
      (a : Fields)
      → needs_download a ≡ true
      → too_large (fetch (url_of a)) ≡ true
      → is_ok (inline_attachment fetch a) ≡ false
  unfolding inline_attachment
  inline_fails a needs large = bind-fails (item "source" a) _ (λ source e.
      bind-fails (item "type" (entries source)) _ (λ kind f.
        let es = item-ok "source" a source e in
        let ek =
          ap (λ s. or_null (lookup "type" (entries s))) es
          ∙ item-ok "type" (entries source) kind f in
        let image = &&-both (is_image a) _ needs in
        rw (image.0, sym (ap (λ k. equals k "object") ek) ∙ image.1)
          (download_fails a (entries source) (
            subst (λ s. too_large (fetch (text (or_null (lookup "value" (entries s))))) ≡ true) es
              large))))

  either_fails :
      (a : Result Fields) (b : Result (List Fields))
      → (is_ok a && is_ok b) ≡ false
      → is_ok (a >>= λ x. b >>= λ xs. ok (x ∷ xs)) ≡ false
  either_fails (err e) b h = refl
  either_fails (ok a) (err e) h = refl
  either_fails (ok a) (ok b) h = cc

  -- A turn does not go on without an image that the user gave: where one cannot be downloaded, or is
  -- larger than the limit, the attachments are an error, wherever it stands among them.
  pub inline_object_attachments-error :
      (attachments : List Fields)
      → any (λ a. needs_download a && too_large (fetch (url_of a))) attachments ≡ true
      → is_ok (inline_object_attachments fetch attachments) ≡ false
  unfolding inline_object_attachments
  inline_object_attachments-error [] h = cc
  inline_object_attachments-error (a ∷ rest) h =
      either_fails (inline_attachment fetch a) (inline_object_attachments fetch rest)
        (ground (arith, h, inline_fails a, inline_object_attachments-error rest))
