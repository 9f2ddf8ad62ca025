-- ===== src/Stratum/Value.antt =====
-- The JSON values that messages are made of, `serde_json::Value` as its documentation has it. Of
-- numbers only those that `as_u64` gives are told apart; the others keep their text.
use mac_solo_miner.Base.{ℕ, Bool, List, [], ◌∷◌, Option, none, some, ◌≡◌, refl, ap}

mutual
  pub data Value : Type 0 where
    null : Value
    boolean : Bool → Value
    unsigned : ℕ → Value
    number : List ℕ → Value
    string : List ℕ → Value
    array : Values → Value
    object : Fields → Value

  pub data Values : Type 0 where
    end : Values
    item : Value → Values → Values

  -- Each name once, as in a map.
  pub data Fields : Type 0 where
    no_more : Fields
    field : List ℕ → Value → Fields → Fields

abbrev pub items : Values → List Value
items end = []
items (item value rest) = value ∷ items rest

abbrev pub values : List Value → Values
values [] = end
values (value ∷ rest) = item value (values rest)

abbrev pub json_array : List Value → Value
json_array list = array (values list)

pub items-values : (list : List Value) → items (values list) ≡ list
items-values [] = refl
items-values (value ∷ rest) = ap (◌∷◌ value) (items-values rest)

abbrev pub as_array : Value → Option (List Value)
as_array null = none
as_array (boolean b) = none
as_array (unsigned n) = none
as_array (number text) = none
as_array (string text) = none
as_array (array list) = some (items list)
as_array (object fields) = none

abbrev pub as_str : Value → Option (List ℕ)
as_str null = none
as_str (boolean b) = none
as_str (unsigned n) = none
as_str (number text) = none
as_str (string text) = some text
as_str (array list) = none
as_str (object fields) = none

abbrev pub as_bool : Value → Option Bool
as_bool null = none
as_bool (boolean b) = some b
as_bool (unsigned n) = none
as_bool (number text) = none
as_bool (string text) = none
as_bool (array list) = none
as_bool (object fields) = none

abbrev pub as_u64 : Value → Option ℕ
as_u64 null = none
as_u64 (boolean b) = none
as_u64 (unsigned n) = some n
as_u64 (number text) = none
as_u64 (string text) = none
as_u64 (array list) = none
as_u64 (object fields) = none
