-- ===== src/Tests/Sample.antt =====
-- A concrete type of values, for the tests: the interface of src/protocol can be met.
use codex_warden.Prelude.{
  ℕ, ℤ, ◌≡◌, refl, Bool, String, Option, none, some, List, [], ◌∷◌, Map, lookup, string_eq, ◌==◌,
  if◌then◌else◌, arith,
}
use codex_warden.Protocol.Json.{Json, JsonLaws}
use codex_warden.Protocol.Frame.{IncomingFrame, classify}
use codex_warden.Protocol.Event.{SequencedEvent, from_frame}
use codex_warden.Protocol.Request.{turn_params}

mutual
  pub data Value : Type 0 where
    nothing : Value
    truth : Bool → Value
    num : ℕ → Value
    text : String → Value
    items : Items → Value
    fields : Fields → Value

  pub data Items : Type 0 where
    end : Items
    item : Value → Items → Items

  pub data Fields : Type 0 where
    stop : Fields
    field : String → Value → Fields → Fields

abbrev pub get_field : Fields → String → Option Value
get_field stop k = none
get_field (field j v fs) k = if j == k then some v else get_field fs k

abbrev pub to_fields : List (String × Value) → Fields
to_fields [] = stop
to_fields ((k, v) ∷ l) = field k v (to_fields l)

abbrev pub to_items : List Value → Items
to_items [] = end
to_items (v ∷ l) = item v (to_items l)

abbrev pub from_items : Items → List Value
from_items end = []
from_items (item v xs) = v ∷ from_items xs

abbrev pub get : Value → String → Option Value
get (fields fs) k = get_field fs k
get nothing k = none
get (truth b) k = none
get (num n) k = none
get (text s) k = none
get (items xs) k = none

abbrev pub as_str : Value → Option String
as_str (text s) = some s
as_str nothing = none
as_str (truth b) = none
as_str (num n) = none
as_str (items xs) = none
as_str (fields fs) = none

abbrev pub as_bool : Value → Option Bool
as_bool (truth b) = some b
as_bool nothing = none
as_bool (text s) = none
as_bool (num n) = none
as_bool (items xs) = none
as_bool (fields fs) = none

abbrev pub as_u64 : Value → Option ℕ
as_u64 (num n) = some n
as_u64 nothing = none
as_u64 (text s) = none
as_u64 (truth b) = none
as_u64 (items xs) = none
as_u64 (fields fs) = none

abbrev pub as_i64 : Value → Option ℤ
as_i64 (num n) = some (ℤ.pos n)
as_i64 nothing = none
as_i64 (text s) = none
as_i64 (truth b) = none
as_i64 (items xs) = none
as_i64 (fields fs) = none

abbrev pub as_array : Value → Option (List Value)
as_array (items xs) = some (from_items xs)
as_array nothing = none
as_array (text s) = none
as_array (truth b) = none
as_array (num n) = none
as_array (fields fs) = none

-- Enough of a text for the tests: that of a text value.
abbrev pub to_string : Value → String
to_string (text s) = s
to_string nothing = "null"
to_string (truth b) = ""
to_string (num n) = ""
to_string (items xs) = ""
to_string (fields fs) = ""

abbrev pub sample : Json Value
sample = record {
  get = get;
  as_str = as_str;
  as_bool = as_bool;
  as_u64 = as_u64;
  as_i64 = as_i64;
  as_array = as_array;
  null = nothing;
  string = text;
  number = num;
  bool = truth;
  array = λ l. items (to_items l);
  object = λ l. fields (to_fields l);
  to_string = to_string;
}

get-to_fields : (l : Map String Value) (k : String) → get_field (to_fields l) k ≡ lookup k l
unfolding lookup
get-to_fields [] k = refl
get-to_fields ((j, v) ∷ l) k = ground (arith, get-to_fields l k)

pub sample_laws : JsonLaws sample
sample_laws = record {
  get-object = get-to_fields;
  as_str-string = λ s. refl;
  as_u64-number = λ n h. refl;
  as_u64-string = λ s. refl;
}

-- A notification of a turn "u" of thread "t", received with a sequence.
abbrev pub event : ℕ → String → SequencedEvent Value
event n m =
    from_frame sample n n n
      (IncomingFrame.notification m (turn_params sample "t" "u") (classify m) nothing)

-- Each event takes ten bytes.
abbrev pub ten : SequencedEvent Value → Option ℕ
ten e = some 10
