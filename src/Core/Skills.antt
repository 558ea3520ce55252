-- ===== src/Core/Skills.antt =====
-- `SkillController` (src/core/src/skills.rs). The derived parsers of its responses are arguments; a
-- path that is not UTF-8 has no text and no case here.
use codex_warden.Prelude.{
  Bool, true, false, not, ◌||◌, String, Option, none, some, List, [], ◌∷◌, map, any, Result, ok,
  err, string_eq, ◌==◌, if◌then◌else◌,
}
use codex_warden.Protocol.Json.{Json}
use codex_warden.Control.Client.{Answer, RequestError, Client, request}
use codex_warden.Core.Paths.{components, is_absolute, is_dots, collect_path}

pub data SkillManagementError (V : Type 0) : Type 0 where
  -- the field, the path, the requirement
  invalid_path : String → String → String → SkillManagementError V
  request_failed : RequestError V → SkillManagementError V
  -- the method and the error
  invalid_response : String → String → SkillManagementError V

-- The client and the remembered roots; the roots are locked for as long as a call runs.
pub record SkillController (V : Type 0) : Type 0 where
  pub client : Client V
  pub extra_roots : Option (List String)

abbrev pub new_skills : {V : Type 0} → Client V → SkillController V
new_skills client = record { client = client; extra_roots = none }

unfoldable pub is_bad_root : String → Bool
unfolding components
is_bad_root path =
    not (is_absolute path)
    || not (path == collect_path "" (components path))
    || any is_dots (components path)

module _ {V : Type 0} where
  abbrev put_path :
      String
      → Result (List String) (SkillManagementError V)
      → Result (List String) (SkillManagementError V)
  put_path path (ok paths) = ok (path ∷ paths)
  put_path path (err e) = err e

  unfoldable pub encode_extra_roots : List String → Result (List String) (SkillManagementError V)
  encode_extra_roots [] = ok []
  encode_extra_roots (path ∷ rest) =
      let encoded = encode_extra_roots rest in
      if is_bad_root path
      then err (invalid_path "skill extra root" path "absolute and lexically normalized")
      else put_path path encoded

abbrev pub Called : Type 0 → Type 0 → Type 0
Called V A = Option (Result A (SkillManagementError V) × SkillController V)

module _ {V : Type 0} (J : Json V) (from_empty : V → Result (Unit {0}) String) where
  abbrev pub roots_params : List String → V
  roots_params encoded = J.object (("extraRoots", J.array (map J.string encoded)) ∷ [])

  -- the response to the roots
  abbrev pub roots_answered : Answer V → Result (Unit {0}) (SkillManagementError V)
  roots_answered (err e) = err (request_failed e)
  roots_answered (ok value) = elim (from_empty value) [
    | ok u ↦ ok tt
    | err e ↦ err (invalid_response "skills/extraRoots/set" e)
  ]

  -- `send_extra_roots`, and what is done with its result
  abbrev pub send_extra_roots :
      {A : Type 0}
      → List String
      → (Result (Unit {0}) (SkillManagementError V) → Client V → A)
      → Client V
      → Option A
  send_extra_roots encoded finish client =
      elim (request "skills/extraRoots/set" (roots_params encoded) client) [
        | none ↦ none
        | some reply ↦ some (finish (roots_answered reply.0) reply.1)
      ]

  -- The roots are remembered when their response was observed.
  abbrev pub remember :
      List String
      → Option (List String)
      → Result (Unit {0}) (SkillManagementError V)
      → Client V
      → Result (Unit {0}) (SkillManagementError V) × SkillController V
  remember roots old (ok u) client = (ok tt, record { client = client; extra_roots = some roots })
  remember roots old (err e) client = (err e, record { client = client; extra_roots = old })

  abbrev pub set_encoded :
      List String
      → Result (List String) (SkillManagementError V)
      → SkillController V
      → Called V (Unit {0})
  set_encoded roots (err e) c = some (err e, c)
  set_encoded roots (ok encoded) c =
      send_extra_roots encoded (remember roots c.extra_roots) c.client

  unfoldable pub set_extra_roots : List String → SkillController V → Called V (Unit {0})
  unfolding encode_extra_roots request
  set_extra_roots roots c = set_encoded roots (encode_extra_roots roots) c

  abbrev pub reapplied :
      Option (List String)
      → Result (Unit {0}) (SkillManagementError V)
      → Client V
      → Result Bool (SkillManagementError V) × SkillController V
  reapplied old (ok u) client = (ok true, record { client = client; extra_roots = old })
  reapplied old (err e) client = (err e, record { client = client; extra_roots = old })

  abbrev pub reapply_encoded :
      Result (List String) (SkillManagementError V) → SkillController V → Called V Bool
  reapply_encoded (err e) c = some (err e, c)
  reapply_encoded (ok encoded) c = send_extra_roots encoded (reapplied c.extra_roots) c.client

  abbrev pub reapply_remembered : Option (List String) → SkillController V → Called V Bool
  reapply_remembered none c = some (ok false, c)
  reapply_remembered (some roots) c = reapply_encoded (encode_extra_roots roots) c

  unfoldable pub reapply_extra_roots : SkillController V → Called V Bool
  unfolding encode_extra_roots request
  reapply_extra_roots c = reapply_remembered c.extra_roots c

module _ {V A : Type 0} (J : Json V) (list_from_value : V → Result A String) where
  abbrev pub refresh_answered : Answer V → Result A (SkillManagementError V)
  refresh_answered (err e) = err (request_failed e)
  refresh_answered (ok value) = elim (list_from_value value) [
    | ok response ↦ ok response
    | err e ↦ err (invalid_response "skills/list" e)
  ]

  unfoldable pub force_refresh : List String → SkillController V → Called V A
  unfolding request
  force_refresh cwds c =
      elim (request "skills/list"
        (J.object (("cwds", J.array (map J.string cwds)) ∷ ("forceReload", J.bool true) ∷ []))
        c.client) [
          | none ↦ none
          | some reply ↦ some (refresh_answered reply.0, record c { client = reply.1 })
        ]
