-- ===== src/Prelude/Json/Canonical.antt =====
-- What a canonical text says of a value: all of it but the order of the keys of its objects.
use growth_operator.Prelude.{
  ℕ, String, ◌≡◌, refl, Bool, true, false, List, [], ◌∷◌, ◌++◌, if◌then◌else◌, codes, Bool-cases,
  inl, inr, ap, ◌∙◌, sym, str_le,
}
use growth_operator.Prelude.Json.{
  Json, Items, Fields, null, bool, int, str, arr, obj, nil, cons, end, field, print_ℤ, quote,
  insert_field, comma_before, join_fields, dump_bool, dumps, dump_items, dump_fields,
}

-- The fields in the order of their keys, as `sort_keys` has them.
abbrev insert_sorted : String → Json → Fields → Fields
insert_sorted k v end = field k v end
insert_sorted k v (field j w fs) =
    let rest = insert_sorted k v fs in
    if str_le k j then field k v (field j w fs) else field j w rest

mutual
  pub canonical : Json → Json
  canonical null = null
  canonical (bool b) = bool b
  canonical (int n) = int n
  canonical (str s) = str s
  canonical (arr xs) = arr (canonical_items xs)
  canonical (obj fs) = obj (canonical_fields fs)

  canonical_items : Items → Items
  canonical_items nil = nil
  canonical_items (cons x xs) = cons (canonical x) (canonical_items xs)

  canonical_fields : Fields → Fields
  canonical_fields end = end
  canonical_fields (field k v fs) = insert_sorted k (canonical v) (canonical_fields fs)

-- The text of a value with its keys in the order that they have.
unfoldable mutual
  unfolding quote print_ℤ join_fields comma_before dump_bool

  pub plain : Json → List ℕ
  plain null = codes "null"
  plain (bool b) = dump_bool b
  plain (int n) = print_ℤ n
  plain (str s) = quote s
  plain (arr xs) = b'[' ∷ plain_items true xs ++ b']' ∷ []
  plain (obj fs) = b'{' ∷ join_fields true (texts_of fs) ++ b'}' ∷ []

  pub plain_items : Bool → Items → List ℕ
  plain_items first nil = []
  plain_items first (cons x xs) = comma_before first ++ (plain x ++ plain_items false xs)

  pub texts_of : Fields → List (String × List ℕ)
  texts_of end = []
  texts_of (field k v fs) = (k, plain v) ∷ texts_of fs

texts_of-insert_sorted :
    (k : String) (v : Json) (fs : Fields)
    → texts_of (insert_sorted k v fs) ≡ insert_field k (plain v) (texts_of fs)
unfolding plain insert_field
texts_of-insert_sorted k v end = refl
texts_of-insert_sorted k v (field j w fs) = elim (Bool-cases (str_le k j)) [
  | inl before ↦ rw before refl
  | inr behind ↦
      rw behind
        (ap (λ (l : List (String × List ℕ)). (j, plain w) ∷ l) (texts_of-insert_sorted k v fs))
]

mutual
  unfolding dumps plain canonical

  pub dumps-canonical : (j : Json) → dumps j ≡ plain (canonical j)
  dumps-canonical null = refl
  dumps-canonical (bool b) = refl
  dumps-canonical (int n) = refl
  dumps-canonical (str s) = refl
  dumps-canonical (arr xs) = ap (λ (l : List ℕ). b'[' ∷ l ++ b']' ∷ []) (items-canonical true xs)
  dumps-canonical (obj fs) =
      ap (λ (l : List (String × List ℕ)). b'{' ∷ join_fields true l ++ b'}' ∷ [])
        (fields-canonical fs)

  items-canonical :
      (first : Bool) (xs : Items) → dump_items first xs ≡ plain_items first (canonical_items xs)
  items-canonical first nil = refl
  items-canonical first (cons x xs) =
      ap (λ (l : List ℕ). comma_before first ++ (l ++ dump_items false xs)) (dumps-canonical x)
      ∙ ap (λ (l : List ℕ). comma_before first ++ (plain (canonical x) ++ l))
          (items-canonical false xs)

  fields-canonical : (fs : Fields) → dump_fields fs ≡ texts_of (canonical_fields fs)
  fields-canonical end = refl
  fields-canonical (field k v fs) =
      ap (λ (l : List ℕ). insert_field k l (dump_fields fs)) (dumps-canonical v)
      ∙ ap (insert_field k (plain (canonical v))) (fields-canonical fs)
      ∙ sym (texts_of-insert_sorted k (canonical v) (canonical_fields fs))
