-- ===== src/Ingest/Reading.antt =====
-- What the ingestor reads out of JSON values (src/ingest/src/lib.rs).
use Prim.Native.Char.{Char, code}
use Prim.Native.String.{char_at, [] as empty_text, ◌∷◌ as char_cons}
use codex_warden.Prelude.{
  ℕ, ◌+◌, ◌-◌, ◌*◌, ℤ, Bool, false, not, ◌&&◌, ◌||◌, String, Option, none, some, and_then, or_else,
  is_some_and, find?, any, reverse, ◌==◌, string_eq, nat_eq, option_eq, leb, ltb, if◌then◌else◌,
  word_mod,
}
use codex_warden.Protocol.Json.{Json}
use codex_warden.Protocol.Frame.{contains}
use codex_warden.Protocol.Event.{get_str}
use codex_warden.Reducer.Subscribe.{is_terminal, open_turn}

-- `to_ascii_lowercase`
abbrev lower_char : Char → Char
lower_char c =
    if leb 65 (code c) && leb (code c) 90
    then char_at "abcdefghijklmnopqrstuvwxyz" (code c - 65)
    else c

unfoldable pub to_ascii_lowercase : String → String
to_ascii_lowercase empty_text = empty_text
to_ascii_lowercase (char_cons c s) = char_cons (lower_char c) (to_ascii_lowercase s)

-- `str::parse::<u64>`: digits behind a plus sign, if there is one, of a value that a word can hold.
unfoldable pub parse_digits : ℕ → String → Option ℕ
parse_digits n empty_text = some n
parse_digits n (char_cons c s) =
    let rest = parse_digits (n * 10 + (code c - 48)) s in
    if leb 48 (code c) && leb (code c) 57 then rest else none

abbrev pub unsigned : String → String
unsigned empty_text = empty_text
unsigned (char_cons c s) = if code c == 43 then s else char_cons c s

unfoldable pub parse_u64 : String → Option ℕ
unfolding parse_digits
parse_u64 s =
    if unsigned s == ""
    then none
    else and_then (parse_digits 0 (unsigned s)) λ n. if ltb n word_mod then some n else none

module _ {V : Type 0} (J : Json V) where
  open J use {get, as_str, as_u64, as_i64, as_array, to_string}

  unfoldable pub status_type : Option V → Option String
  status_type params =
      and_then params
        λ p. and_then (get p "status") λ status. or_else (get_str J status "type") (as_str status)

  unfoldable pub in_flight_turn_id : V → Option String
  unfolding open_turn
  in_flight_turn_id thread = and_then (and_then (get thread "turns") as_array) λ turns.
      and_then (find? (λ turn. not (is_terminal J turn)) (reverse turns))
        λ turn. get_str J turn "id"

  unfoldable pub thread_is_active : V → Bool
  thread_is_active thread =
      option_eq.beq (and_then (get thread "status") (λ status. get_str J status "type"))
        (some "active")
      || is_some_and (and_then (get thread "turns") as_array)
          (any (λ turn. not (is_terminal J turn)))

  unfoldable pub numeric_timestamp : Option V → Option ℕ
  unfolding parse_u64
  numeric_timestamp value = and_then value λ v. or_else (as_u64 v) (and_then (as_str v) parse_u64)

  unfoldable pub is_ephemeral_error : V → Bool
  unfolding to_ascii_lowercase contains
  is_ephemeral_error error =
      let text = to_ascii_lowercase (to_string error) in
      contains text "ephemeral" || contains text "rollout" || contains text "not found"

  -- -32001
  abbrev pub is_overload_code : ℤ → Bool
  is_overload_code (ℤ.pos n) = false
  is_overload_code (ℤ.negsuc n) = n == 32000

  unfoldable pub is_retryable_server_error : V → Bool
  unfolding to_ascii_lowercase contains
  is_retryable_server_error error =
      let text = to_ascii_lowercase (to_string error) in
      is_some_and (and_then (get error "code") as_i64) is_overload_code
      && (contains text "overload" || contains text "retry" || contains text "transient")
