-- ===== src/Core/Paths.antt =====
-- The components of a path, as the check of skill roots uses them (src/core/src/skills.rs). A path
-- is its text.
use Prim.Native.Char.{code}
use Prim.Native.String.{[] as empty_text, ◌∷◌ as char_cons, ◌++◌ as str_append}
use text.Mathlib.Text.{starts_with}
use codex_warden.Prelude.{
  Bool, true, false, ◌||◌, String, List, [], ◌∷◌, nat_eq, string_eq, ◌==◌, if◌then◌else◌,
}
use codex_warden.Protocol.Frame.{ends_with}

-- `std::path::Component` on Unix
pub data Component : Type 0 where
  root_dir cur_dir parent_dir : Component
  normal : String → Component

unfoldable pub split_slashes : String → List String
split_slashes empty_text = "" ∷ []
split_slashes (char_cons c s) =
    let rest = split_slashes s in if code c == 47 then "" ∷ rest else put_first rest
  where
    put_first : List String → List String
    put_first [] = char_cons c "" ∷ []
    put_first (name ∷ names) = char_cons c name ∷ names

-- A name between slashes; an empty one and a dot are no component.
abbrev pub with_name : String → List Component → List Component
with_name name rest =
    if name == "" || name == "."
    then rest
    else if name == ".."
    then parent_dir ∷ rest
    else normal name ∷ rest

abbrev pub named : List String → List Component
named [] = []
named (name ∷ rest) = with_name name (named rest)

-- A dot counts where a relative path begins with it.
abbrev pub relative : List String → List Component
relative [] = []
relative (name ∷ rest) = if name == "." then cur_dir ∷ named rest else with_name name (named rest)

abbrev pub is_absolute : String → Bool
is_absolute path = starts_with path "/"

unfoldable pub components : String → List Component
unfolding split_slashes
components path =
    if is_absolute path
    then root_dir ∷ named (split_slashes path)
    else relative (split_slashes path)

abbrev pub component_text : Component → String
component_text root_dir = "/"
component_text cur_dir = "."
component_text parent_dir = ".."
component_text (normal name) = name

-- `PathBuf::push` of a component
abbrev pub push_name : String → String → String
push_name path name =
    if path == "" || ends_with path "/"
    then str_append path name
    else str_append path (str_append "/" name)

abbrev pub push_component : String → Component → String
push_component path root_dir = "/"
push_component path cur_dir = push_name path "."
push_component path parent_dir = push_name path ".."
push_component path (normal name) = push_name path name

-- `collect::<PathBuf>()`
abbrev pub collect_path : String → List Component → String
collect_path path [] = path
collect_path path (c ∷ rest) = collect_path (push_component path c) rest

abbrev pub is_dots : Component → Bool
is_dots root_dir = false
is_dots cur_dir = true
is_dots parent_dir = true
is_dots (normal name) = false
