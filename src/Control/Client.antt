-- ===== src/Control/Client.antt =====
-- `RequestError` and the client (src/transport/src/lib.rs), and `send_not_written_safe`
-- (src/control/src/lib.rs).
use codex_warden.Prelude.{
  ℕ, ◌+◌, String, Option, none, some, List, [], ◌∷◌, ◌++◌, Result, ok, err, ltb, if◌then◌else◌,
}
use codex_warden.Protocol.Frame.{RpcId}

pub data RequestError (V : Type 0) : Type 0 where
  not_written : String → RequestError V
  -- the request's id, its method, the detail
  written_outcome_unknown : RpcId → String → String → RequestError V
  -- the method, the error
  rejected : String → V → RequestError V
  -- the method
  timed_out : String → RequestError V
  closed : RequestError V

abbrev pub Answer : Type 0 → Type 0
Answer V = Result V (RequestError V)

-- The answers that are still to come, and the requests made so far: methods and parameters.
pub record Client (V : Type 0) : Type 0 where
  pub answers : List (Answer V)
  pub sent : List (String × V)

module _ {V : Type 0} where
  abbrev pub note_request : String → V → List (Answer V) → Client V → Client V
  note_request method params rest client = record {
    answers = rest;
    sent = client.sent ++ (method, params) ∷ [];
  }

  -- `request(method, params).await`; `none` where no answer ever comes.
  unfoldable pub request : String → V → Client V → Option (Answer V × Client V)
  request method params client = elim client.answers [
    | [] ↦ none
    | answer ∷ rest ↦ some (answer, note_request method params rest client)
  ]

  -- The loop of `send_not_written_safe` on the answers to come, after some retries.
  unfoldable pub send_loop :
      (limit retries : ℕ) → String → V → List (Answer V) → Client V → Option (Answer V × Client V)
  send_loop limit retries method params [] client = none
  send_loop limit retries method params (ok v ∷ rest) client =
      some (ok v, note_request method params rest client)
  send_loop limit retries method params (err (RequestError.not_written d) ∷ rest) client =
      let asked = note_request method params rest client in
      let again = send_loop limit (retries + 1) method params rest asked in
      if ltb retries limit then again else some (err (RequestError.not_written d), asked)
  send_loop limit retries method params (err (RequestError.written_outcome_unknown i m d) ∷ rest)
        client =
      some
        (err (RequestError.written_outcome_unknown i m d), note_request method params rest client)
  send_loop limit retries method params (err (RequestError.rejected m e) ∷ rest) client =
      some (err (RequestError.rejected m e), note_request method params rest client)
  send_loop limit retries method params (err (RequestError.timed_out m) ∷ rest) client =
      some (err (RequestError.timed_out m), note_request method params rest client)
  send_loop limit retries method params (err RequestError.closed ∷ rest) client =
      some (err RequestError.closed, note_request method params rest client)

  unfoldable pub send_not_written_safe : ℕ → String → V → Client V → Option (Answer V × Client V)
  unfolding send_loop
  send_not_written_safe limit method params client =
      send_loop limit 0 method params client.answers client
