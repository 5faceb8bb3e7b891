-- ===== src/Patterns/Literal.antt =====
-- A LIKE pattern that begins with plain characters is of the texts that begin with them.
use Prim.Native.Char.{Char, code}
use mathlib.Core.Path.{subst}
use text.Mathlib.TextEquality.{starts_with_iff, Char-path}
use text.Mathlib.TextBridge.{IsPrefix}
use text.Mathlib.TextLemmas.{append_assoc}
use Prim.Native.String.append
use harness_runtime.Base.{
  starts_with, String, Bool, true, false, not, ◌&&◌, ◌||◌, ◌≡◌, refl, arith, nat_eq, ◌<>◌, sym, ap,
  ◌∙◌, &&-both, if◌then◌else◌,
}
use harness_runtime.Patterns.{literal, like_from, like}

abbrev pub is_plain : String → Bool
is_plain String.[] = true
is_plain (String.◌∷◌ c s) =
    not (nat_eq (code c) b'%' || nat_eq (code c) b'_' || nat_eq (code c) b'\\') && is_plain s

any_text : (s : String) → like_from false "%" s ≡ true
unfolding like_from
any_text String.[] = refl
any_text (String.◌∷◌ c s) = ground (arith, any_text s)

plain_step :
    (c : Char) (pattern s : String)
    → not (nat_eq (code c) b'%' || nat_eq (code c) b'_' || nat_eq (code c) b'\\') ≡ true
    → like s (String.◌∷◌ c pattern) ≡ literal c (like_from false pattern) s
unfolding like_from
plain_step c pattern s p =
    step _ _ _ _ (nat_eq (code c) b'%') (nat_eq (code c) b'_') (nat_eq (code c) b'\\') p
  where
    step :
        (u v w x a b d : Bool)
        → not (a || b || d) ≡ true
        → (if a then u else if b then v else if d then w else x) ≡ x
    step u v w x true b d h = cc
    step u v w x false true d h = cc
    step u v w x false false true h = cc
    step u v w x false false false h = refl

literal-imp :
    (c : Char) (p q : String → Bool) (s : String)
    → ((t : String) → p t ≡ true → q t ≡ true)
    → literal c p s ≡ true
    → literal c q s ≡ true
literal-imp c p q String.[] f h = h
literal-imp c p q (String.◌∷◌ d s) f h = ground (arith, h, f s)

like-plain :
    (start pattern s : String)
    → is_plain start ≡ true
    → like s (start <> pattern) ≡ true
    → like s (start <> "%") ≡ true
unfolding like_from
like-plain String.[] pattern s p h = any_text s
like-plain (String.◌∷◌ c start) pattern s p h =
    let plain = &&-both _ (is_plain start) p in
    let own = λ (t : String).
      sym (ap (like s) (append.cons c start t) ∙ plain_step c (start <> t) s plain.0) in
    sym (own "%")
    ∙ literal-imp c (λ t. like t (start <> pattern)) (λ t. like t (start <> "%")) s
        (λ t. like-plain start pattern t plain.1) (own pattern ∙ h)

-- A text that begins with plain characters is matched by them and `%`.
pub like-begins :
    (start s : String)
    → is_plain start ≡ true
    → starts_with s start ≡ true
    → like s (start <> "%") ≡ true
like-begins start s p h =
    let rest = (starts_with_iff s start).0 h in
    subst (λ t. like t (start <> "%") ≡ true) rest.1 (own start rest.0 p)
  where
    own : (start u : String) → is_plain start ≡ true → like (start <> u) (start <> "%") ≡ true
    own String.[] u p = ap (λ t. like t "%") (append.nil u) ∙ any_text u
    own (String.◌∷◌ c start) u p =
        let plain = &&-both _ (is_plain start) p in
        ap (λ t. like t (String.◌∷◌ c start <> "%")) (append.cons c start u)
        ∙ ap (like (String.◌∷◌ c (start <> u))) (append.cons c start "%")
        ∙ plain_step c (start <> "%") (String.◌∷◌ c (start <> u)) plain.0
        ∙ ground (arith, own start u plain.1)

-- A text that begins so begins so with more after it.
pub starts_with-append :
    (s t start : String) → starts_with s start ≡ true → starts_with (s <> t) start ≡ true
starts_with-append s t start h =
    let rest = (starts_with_iff s start).0 h in
    (starts_with_iff (s <> t) start).1
      (rest.0 <> t, sym (append_assoc start rest.0 t) ∙ ap (λ r. r <> t) rest.1)

-- What a pattern that begins with plain characters matches.
pub like-start :
    (start pattern s : String)
    → is_plain start ≡ true
    → starts_with pattern start ≡ true
    → like s pattern ≡ true
    → like s (start <> "%") ≡ true
like-start start pattern s p b h =
    let cut = (starts_with_iff pattern start).0 b in
    like-plain start cut.0 s p (subst (λ q. like s q ≡ true) (sym cut.1) h)

starting :
    (start s : String) → is_plain start ≡ true → like s (start <> "%") ≡ true → IsPrefix start s
starting String.[] s p h = (s, append.nil s)
starting (String.◌∷◌ c start) s p h =
    let plain = &&-both _ (is_plain start) p in
    begun s
      (sym (plain_step c (start <> "%") s plain.0)
        ∙ sym (ap (like s) (append.cons c start "%"))
        ∙ h)
      (λ t. starting start t plain.1)
  where
    begun :
        (s : String)
        → literal c (λ t. like t (start <> "%")) s ≡ true
        → ((t : String) → like t (start <> "%") ≡ true → IsPrefix start t)
        → IsPrefix (String.◌∷◌ c start) s
    begun String.[] h f = cc
    begun (String.◌∷◌ d s) h f =
        let both = &&-both (nat_eq (code d) (code c)) (like s (start <> "%")) h in
        let rest = f s both.1 in
        (
          rest.0,
          append.cons c start rest.0
              ∙ ap (String.◌∷◌ c) rest.1
              ∙ ap (λ e. String.◌∷◌ e s) (Char-path c d (ground (arith, both.0))),
        )

-- A text that plain characters and `%` match begins with them.
pub like-starts :
    (start s : String)
    → is_plain start ≡ true
    → like s (start <> "%") ≡ true
    → starts_with s start ≡ true
like-starts start s p h = (starts_with_iff s start).1 (starting start s p h)
