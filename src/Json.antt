-- ===== src/Json.antt =====
-- JSON values as `serde_json::Value` has them, with the accessors that
-- crates/benchmark-core/src/docker uses. The parser is serde's and a parameter where it is used;
-- numbers are kept as their text. A key that an object has twice is the parser's to resolve: `get`
-- reads the first.
use llm_benchmark.Common.{
  ◌≡◌, refl, ap, Bool, true, false, String, List, [], ◌∷◌, Option, none, some, if◌then◌else◌,
  str_eq,
}

mutual
  pub data Value : Type 0 where
    null : Value
    boolean : Bool → Value
    number : String → Value
    string : String → Value
    array : Values → Value
    object : Fields → Value

  pub data Values : Type 0 where
    nil : Values
    cons : Value → Values → Values

  pub data Fields : Type 0 where
    end : Fields
    field : String → Value → Fields → Fields

unfoldable pub to_list : Values → List Value
to_list nil = []
to_list (cons v vs) = v ∷ to_list vs

unfoldable pub from_list : List Value → Values
from_list [] = nil
from_list (v ∷ vs) = cons v (from_list vs)

get_field : String → Fields → Option Value
get_field k end = none
get_field k (field j v fs) = if str_eq j k then some v else get_field k fs

-- `value.get(key)`.
unfoldable pub get : String → Value → Option Value
unfolding get_field
get k (object fs) = get_field k fs
get k _ = none

-- `as_str`, `as_array`, `is_object`.
unfoldable pub as_str : Value → Option String
as_str (string s) = some s
as_str _ = none

unfoldable pub as_array : Value → Option (List Value)
unfolding to_list
as_array (array vs) = some (to_list vs)
as_array _ = none

unfoldable pub is_object : Value → Bool
is_object (object fs) = true
is_object _ = false

-- `and_then` of `Option`, under `do`.
infixl 5 ◌>>=◌
abbrev pub ◌>>=◌ {ℓ κ} : {A : Type ℓ} {B : Type κ} → Option A → (A → Option B) → Option B
none >>= f = none
some a >>= f = f a

-- `value.get(key).and_then(|v| v.as_str())`.
unfoldable pub get_str : String → Value → Option String
unfolding get as_str
get_str k v = get k v >>= as_str

-- `... == Some(text)`.
abbrev pub is_text : Option String → String → Bool
is_text none t = false
is_text (some s) t = str_eq s t

unfoldable pub has_text : String → String → Value → Bool
unfolding get_str
has_text k t v = is_text (get_str k v) t

pub to_list-from_list : (vs : List Value) → to_list (from_list vs) ≡ vs
unfolding to_list from_list
to_list-from_list [] = refl
to_list-from_list (v ∷ vs) = ap (◌∷◌ v) (to_list-from_list vs)
