-- ===== src/Audit/Fields.antt =====
-- core/audit/writer.py, _entry_hash: the fields are read back from the text that is hashed.
use mathlib.Core.List.{append_assoc}
use growth_operator.Prelude.{
  ℕ, ◌≡◌, refl, String, Option, none, some, List, [], ◌∷◌, ◌++◌, codes, ap, ◌∙◌, sym, arith,
}
use growth_operator.Prelude.Int.{pos}
use growth_operator.Prelude.Json.{
  Json, int, str, dumps, insert_field, join_fields, comma_before, quote, escape, escape_all,
}
use growth_operator.Prelude.Json.Delimited.{Stops, cut, split_value}
use growth_operator.Prelude.Json.Canonical.{canonical}
use growth_operator.Prelude.Json.Injective.{Passes-dumps, dumps-injective}
use growth_operator.Prelude.Json.Escape.{quote-cut}
use growth_operator.Prelude.Json.Numbers.{head_or, tail_of}
use growth_operator.Audit.{body_text, or_null}

-- The text, with the keys in their order.
abbrev body_layout :
    ℕ → String → Option String → String → Option String → Json → Option String → List ℕ
body_layout seq actor_type actor_id action resource payload pmh =
    codes "{\"action\":"
    ++ (dumps (str action)
        ++ (codes ",\"actor_id\":"
            ++ (dumps (or_null actor_id)
                ++ (codes ",\"actor_type\":"
                    ++ (dumps (str actor_type)
                        ++ (codes ",\"payload\":"
                            ++ (dumps payload
                                ++ (codes ",\"permission_manifest_hash\":"
                                    ++ (dumps (or_null pmh)
                                        ++ (codes ",\"resource\":"
                                            ++ (dumps (or_null resource)
                                                ++ (codes ",\"seq\":"
                                                    ++ (dumps (int (pos seq))
                                                        ++ codes "}")))))))))))))

body_text_lem :
    (seq : ℕ) (actor_type : String) (actor_id : Option String) (action : String)
    (resource : Option String) (payload : Json) (pmh : Option String)
    → body_text seq actor_type actor_id action resource payload pmh
      ≡ body_layout seq actor_type actor_id action resource payload pmh
unfolding body_text dumps insert_field join_fields comma_before quote escape escape_all
body_text_lem seq actor_type actor_id action resource payload pmh = simp append_assoc

str-injective : (s t : String) → dumps (str s) ≡ dumps (str t) → s ≡ t
unfolding dumps
str-injective s t e = (quote-cut s t [] [] (ap (λ (l : List ℕ). l ++ []) e)).0

or_null-injective : (a b : Option String) → dumps (or_null a) ≡ dumps (or_null b) → a ≡ b
unfolding or_null dumps quote
or_null-injective none none e = refl
or_null-injective none (some t) e = absurd (omega (arith, ap head_or e))
or_null-injective (some s) none e = absurd (omega (arith, ap head_or e))
or_null-injective (some s) (some t) e = ap (λ (x : String). some x) (str-injective s t e)

-- A value behind one text and before two that end at once.
next_value :
    (j k : Json) (x y : List ℕ)
    → Stops x
    → Stops y
    → dumps j ++ x ≡ dumps k ++ y
    → (dumps j ≡ dumps k) × (x ≡ y)
next_value j k x y p q e = cut (dumps j) (dumps k) x y (Passes-dumps j) (Passes-dumps k) p q e

drop_front : (l x y : List ℕ) → l ++ x ≡ l ++ y → x ≡ y
drop_front [] x y e = e
drop_front (c ∷ l) x y e = drop_front l x y (ap tail_of e)

-- A text with a comma in front.
Stops-comma : (x : List ℕ) → Stops (b',' ∷ x)
unfolding split_value
Stops-comma x = refl

-- Two bodies of one text agree in every field, the payload up to the order of its keys.
pub body_text-injective :
    (seq seq' : ℕ) (type type' : String) (id id' : Option String) (action action' : String)
    (resource resource' : Option String) (payload payload' : Json) (pmh pmh' : Option String)
    → body_text seq type id action resource payload pmh
      ≡ body_text seq' type' id' action' resource' payload' pmh'
    → (action ≡ action')
      × (id ≡ id')
      × (type ≡ type')
      × (canonical payload ≡ canonical payload')
      × (pmh ≡ pmh')
      × (resource ≡ resource')
body_text-injective seq seq' type type' id id' action action' resource resource' payload payload'
      pmh pmh' e =
    let start =
      sym (body_text_lem seq type id action resource payload pmh)
      ∙ e
      ∙ body_text_lem seq' type' id' action' resource' payload' pmh' in
    let (a, e1) =
      next_value (str action) (str action') _ _ (Stops-comma _) (Stops-comma _)
        (drop_front (codes "{\"action\":") _ _ start) in
    let (b, e2) =
      next_value (or_null id) (or_null id') _ _ (Stops-comma _) (Stops-comma _)
        (drop_front (codes ",\"actor_id\":") _ _ e1) in
    let (c, e3) =
      next_value (str type) (str type') _ _ (Stops-comma _) (Stops-comma _)
        (drop_front (codes ",\"actor_type\":") _ _ e2) in
    let (d, e4) =
      next_value payload payload' _ _ (Stops-comma _) (Stops-comma _)
        (drop_front (codes ",\"payload\":") _ _ e3) in
    let (f, e5) =
      next_value (or_null pmh) (or_null pmh') _ _ (Stops-comma _) (Stops-comma _)
        (drop_front (codes ",\"permission_manifest_hash\":") _ _ e4) in
    let (g, e6) =
      next_value (or_null resource) (or_null resource') _ _ (Stops-comma _) (Stops-comma _)
        (drop_front (codes ",\"resource\":") _ _ e5) in
    (
      str-injective action action' a,
      or_null-injective id id' b,
      str-injective type type' c,
      dumps-injective payload payload' d,
      or_null-injective pmh pmh' f,
      or_null-injective resource resource' g,
    )
