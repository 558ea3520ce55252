-- ===== src/Protocol/Json.antt =====
-- The interface of `serde_json::Value`, which the crates only call. `V` stands for the values.
use codex_warden.Prelude.{
  ℕ, ◌≡◌, Bool, String, Option, none, some, List, Map, lookup, string_eq, ◌<◌, word_mod, ℤ,
}

pub record Json (V : Type 0) : Type 0 where
  pub get : V → String → Option V
  pub as_str : V → Option String
  pub as_bool : V → Option Bool
  pub as_u64 : V → Option ℕ
  pub as_i64 : V → Option ℤ
  pub as_array : V → Option (List V)
  -- `Value::Null`, `Value::String` and `Value::Number` at a `u64`
  pub null : V
  pub string : String → V
  pub number : ℕ → V
  -- `Value::Bool` and `Value::Array`
  pub bool : Bool → V
  pub array : List V → V
  -- `json!({ ... })`, with its keys and values in order
  pub object : List (String × V) → V
  -- `Display`: the compact text of a value
  pub to_string : V → String

-- The documented behaviour that the theorems about built values rely on: a value reads back as
-- what it was built from.
pub record JsonLaws {V : Type 0} (J : Json V) : Type 0 where
  pub get-object :
      (fields : Map String V) (k : String) → J.get (J.object fields) k ≡ lookup k fields
  pub as_str-string : (s : String) → J.as_str (J.string s) ≡ some s
  pub as_u64-number : (n : ℕ) → n < word_mod → J.as_u64 (J.number n) ≡ some n
  pub as_u64-string : (s : String) → J.as_u64 (J.string s) ≡ none
