-- ===== src/Supervisor/Processes.antt =====
-- What the supervisor reads out of the listings of processes and sockets
-- (src/supervisor/src/lib.rs), with the functions on text that it uses.
use Prim.Native.Char.{Char, code}
use Prim.Native.String.{[] as empty_text, ◌∷◌ as char_cons}
use text.Mathlib.Text.{starts_with}
use codex_warden.Prelude.{
  Bool, not, ◌&&◌, ◌||◌, String, get_or, List, [], ◌∷◌, map, length, filter, any, find?, nat_eq,
  string_eq, ◌==◌, leb, ltb, if◌then◌else◌,
}
use codex_warden.Protocol.Frame.{contains, ends_with}

-- `str::lines`: a line ends with a line feed, or with a carriage return and a line feed.
abbrev extend_line : Char → List String → List String
extend_line c [] = char_cons c "" ∷ []
extend_line c (line ∷ rest) = char_cons c line ∷ rest

unfoldable pub lines : String → List String
lines empty_text = []
lines (char_cons c s) =
    let rest = lines s in
    if code c == 10
    then "" ∷ rest
    else if code c == 13 && starts_with s "\n"
    then rest
    else extend_line c rest

-- `char::is_whitespace`
abbrev pub is_whitespace : Char → Bool
is_whitespace c =
    let n = code c in
    leb 9 n && leb n 13
    || n == 32
    || n == 133
    || n == 160
    || n == 5760
    || leb 8192 n && leb n 8202
    || n == 8232
    || n == 8233
    || n == 8239
    || n == 8287
    || n == 12288

unfoldable pub trim_start : String → String
trim_start empty_text = ""
trim_start (char_cons c s) =
    let rest = trim_start s in if is_whitespace c then rest else char_cons c s

unfoldable pub trim_end : String → String
trim_end empty_text = ""
trim_end (char_cons c s) =
    let rest = trim_end s in if is_whitespace c && rest == "" then "" else char_cons c rest

-- `str::trim`
abbrev pub trim : String → String
trim s = trim_end (trim_start s)

-- The ancestors of a path that is written with single slashes, the longest first. The last of them,
-- the root or the empty path, is the empty one or is left out: it has no extension.
unfoldable pub ancestors : String → List String
ancestors empty_text = "" ∷ []
ancestors (char_cons c s) =
    let rest = map (char_cons c) (ancestors s) in if code c == 47 then end_with "" rest else rest
  where
    end_with : String → List String → List String
    end_with last [] = last ∷ []
    end_with last (x ∷ xs) = x ∷ end_with last xs

-- `path.extension()` is `app`: the last name has something before the last dot.
abbrev pub is_application : String → Bool
is_application path = ends_with path ".app" && not (ends_with path "/.app") && not (path == ".app")

unfoldable pub application_bundle : String → String
unfolding ancestors ends_with
application_bundle executable = get_or (find? is_application (ancestors executable)) executable

unfoldable pub has_managed_daemon : String → String → Bool
unfolding lines contains
has_managed_daemon processes codex =
    any
      (λ line.
        contains line codex
        && contains line "app-server"
        && (contains line "daemon" || contains line "--listen unix://"))
      (lines processes)

unfoldable pub gui_running : String → String → Bool
unfolding lines contains
gui_running processes gui = any (λ line. contains line gui) (lines processes)

unfoldable pub gui_mode_enabled : String → String → Bool
unfolding lines contains
gui_mode_enabled processes gui =
    any
      (λ line.
        contains line gui
        && contains line "CODEX_APP_SERVER_USE_LOCAL_DAEMON=1"
        && not (contains line "CODEX_APP_SERVER_FORCE_CLI=1")
        && not (contains line "CODEX_CLI_PATH="))
      (lines processes)

unfoldable pub has_accepted_socket_connection : String → Bool
unfolding lines trim_start trim_end
has_accepted_socket_connection users = ltb 1 (
    length (
      filter (λ line. not (trim line == "") && not (starts_with (trim line) "COMMAND"))
        (lines users)))
