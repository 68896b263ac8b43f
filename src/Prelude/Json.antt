-- ===== src/Prelude/Json.antt =====
-- JSON values, and `json.dumps(..., sort_keys=True, separators=(",", ":"), ensure_ascii=False)`.
pub mod Delimited
pub mod Numbers
pub mod Canonical
pub mod Injective
pub mod Escape
use growth_operator.Prelude.{
  ℕ, zero, suc, ◌+◌, ◌/◌, ◌%◌, String, ◌≡◌, refl, Bool, true, false, List, [], ◌∷◌, ◌++◌, ltb, ◌==◌,
  if◌then◌else◌, codes, str_le,
}
use growth_operator.Prelude.Int.{ℤ, pos, negsuc}

mutual
  pub data Json : Type 0 where
    null : Json
    bool : Bool → Json
    int : ℤ → Json
    str : String → Json
    arr : Items → Json
    obj : Fields → Json

  pub data Items : Type 0 where
    nil : Items
    cons : Json → Items → Items

  pub data Fields : Type 0 where
    end : Fields
    field : String → Json → Fields → Fields

-- The decimal digits of a number, with fuel above it.
unfoldable pub print_fuel : ℕ → ℕ → List ℕ
print_fuel zero n = []
print_fuel (suc fuel) n =
    let front = print_fuel fuel (n / 10) in
    if ltb n 10 then (48 + n) ∷ [] else front ++ (48 + n % 10) ∷ []

unfoldable pub print_ℕ : ℕ → List ℕ
unfolding print_fuel
print_ℕ n = print_fuel (suc n) n

unfoldable pub print_ℤ : ℤ → List ℕ
unfolding print_ℕ
print_ℤ (pos n) = print_ℕ n
print_ℤ (negsuc n) = b'-' ∷ print_ℕ (suc n)

unfoldable pub hex_digit : ℕ → ℕ
hex_digit d = if ltb d 10 then 48 + d else 87 + d

-- One character of a JSON string.
unfoldable pub escape : ℕ → List ℕ
unfolding hex_digit
escape c =
    if c == 34
    then 92 ∷ 34 ∷ []
    else if c == 92
    then 92 ∷ 92 ∷ []
    else if c == 10
    then 92 ∷ b'n' ∷ []
    else if c == 13
    then 92 ∷ b'r' ∷ []
    else if c == 9
    then 92 ∷ b't' ∷ []
    else if c == 12
    then 92 ∷ b'f' ∷ []
    else if c == 8
    then 92 ∷ b'b' ∷ []
    else if ltb c 32
    then 92 ∷ b'u' ∷ 48 ∷ 48 ∷ hex_digit (c / 16) ∷ hex_digit (c % 16) ∷ []
    else c ∷ []

unfoldable pub escape_all : List ℕ → List ℕ
escape_all [] = []
escape_all (c ∷ s) = escape c ++ escape_all s

unfoldable pub quote : String → List ℕ
unfolding escape escape_all
quote s = 34 ∷ escape_all (codes s) ++ 34 ∷ []

-- The fields in the order of their keys.
unfoldable pub insert_field : String → List ℕ → List (String × List ℕ) → List (String × List ℕ)
insert_field k v [] = (k, v) ∷ []
insert_field k v ((j, w) ∷ fs) =
    let rest = insert_field k v fs in if str_le k j then (k, v) ∷ (j, w) ∷ fs else (j, w) ∷ rest

unfoldable pub comma_before : Bool → List ℕ
comma_before true = []
comma_before false = b',' ∷ []

unfoldable pub join_fields : Bool → List (String × List ℕ) → List ℕ
join_fields first [] = []
join_fields first ((k, v) ∷ fs) =
    comma_before first ++ (quote k ++ (b':' ∷ v ++ join_fields false fs))

unfoldable pub dump_bool : Bool → List ℕ
dump_bool true = codes "true"
dump_bool false = codes "false"

unfoldable mutual
  unfolding quote print_ℤ insert_field join_fields comma_before dump_bool

  pub dumps : Json → List ℕ
  dumps null = codes "null"
  dumps (bool b) = dump_bool b
  dumps (int n) = print_ℤ n
  dumps (str s) = quote s
  dumps (arr xs) = b'[' ∷ dump_items true xs ++ b']' ∷ []
  dumps (obj fs) = b'{' ∷ join_fields true (dump_fields fs) ++ b'}' ∷ []

  pub dump_items : Bool → Items → List ℕ
  dump_items first nil = []
  dump_items first (cons x xs) = comma_before first ++ (dumps x ++ dump_items false xs)

  pub dump_fields : Fields → List (String × List ℕ)
  dump_fields end = []
  dump_fields (field k v fs) = insert_field k (dumps v) (dump_fields fs)

dumps_runs :
    dumps (
      obj (
        field "b"
          (arr (cons (int (negsuc 11)) (cons null nil)))
          (field "a" (str "x\"y") (field "c" (bool true) end))))
    ≡ codes "{\"a\":\"x\\\"y\",\"b\":[-12,null],\"c\":true}"
unfolding dumps
dumps_runs = refl
