-- ===== src/Core/Hooks.antt =====
-- `HookController` (src/core/src/hooks.rs). The derived parsers of its responses are arguments.
use codex_warden.Prelude.{
  true, String, Option, none, some, List, [], ◌∷◌, Map, insert, map, Result, ok, err, string_eq,
}
use codex_warden.Protocol.Json.{Json}
use codex_warden.Control.Client.{Answer, RequestError, Client, request}

pub record HookTrustUpdate : Type 0 where
  pub key : String
  pub current_hash : String

pub data HookManagementError (V : Type 0) : Type 0 where
  request_failed : RequestError V → HookManagementError V
  -- the method and the error
  invalid_response : String → String → HookManagementError V

module _ {V A : Type 0} (J : Json V) (method : String) (from_value : V → Result A String) where
  abbrev pub hook_answered : Answer V → Result A (HookManagementError V)
  hook_answered (err e) = err (request_failed e)
  hook_answered (ok value) = elim (from_value value) [
    | ok response ↦ ok response
    | err e ↦ err (invalid_response method e)
  ]

  abbrev pub hook_request : V → Client V → Option (Result A (HookManagementError V) × Client V)
  hook_request params client = elim (request method params client) [
    | none ↦ none
    | some reply ↦ some (hook_answered reply.0, reply.1)
  ]

module _ {V A : Type 0} (J : Json V) (from_value : V → Result A String) where
  unfoldable pub list_hooks :
      List String → Client V → Option (Result A (HookManagementError V) × Client V)
  unfolding request
  list_hooks cwds client =
      hook_request J "hooks/list" from_value (J.object (("cwds", J.array (map J.string cwds)) ∷ []))
        client

module _ {V : Type 0} (J : Json V) (from_value : V → Result (Unit {0}) String) where
  -- Of two updates of one hook the later counts.
  abbrev pub trusted : List HookTrustUpdate → Map String V → Map String V
  trusted [] values = values
  trusted (update ∷ rest) values =
      trusted rest
        (insert update.key (J.object (("trusted_hash", J.string update.current_hash) ∷ [])) values)

  unfoldable pub trust :
      List HookTrustUpdate
      → Client V
      → Option (Result (Unit {0}) (HookManagementError V) × Client V)
  unfolding request insert
  trust updates client =
      hook_request J "config/batchWrite" from_value
        (J.object (
          (
            "edits",
            J.array (
                J.object (
                  ("keyPath", J.string "hooks.state")
                  ∷ ("value", J.object (trusted updates []))
                  ∷ ("mergeStrategy", J.string "upsert")
                  ∷ [])
                ∷ []),
          )
          ∷ ("filePath", J.null)
          ∷ ("expectedVersion", J.null)
          ∷ ("reloadUserConfig", J.bool true)
          ∷ []))
        client
