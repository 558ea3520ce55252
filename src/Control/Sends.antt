-- ===== src/Control/Sends.antt =====
-- How often `send_not_written_safe` asks (src/control/src/lib.rs).
use mathlib.Core.List.{append_assoc}
use codex_warden.Prelude.{
  ℕ, zero, suc, ◌+◌, ◌≤◌, ◌<◌, ◌≡◌, refl, ◌∙◌, true, false, String, some, List, [], ◌∷◌, ◌++◌, map,
  ok, err, length, replicate, arith, ltb, ap, subst,
}
use codex_warden.Control.Client.{
  RequestError, Answer, Client, note_request, send_loop, send_not_written_safe,
}

module _ {V : Type 0} where
  abbrev pub refusal : String → Answer V
  refusal d = err (RequestError.not_written d)

  -- The client was asked once for each answer that it consumed: some refusals of requests that
  -- were never written, at most the given number of them, and then the answer. The answer is
  -- itself such a refusal only where no retry is left.
  pub record IsAttempt (limit : ℕ) (method : String) (params : V) (answers : List (Answer V))
      (client after : Client V) (answer : Answer V) : Type 0 where
    pub refusals : List String
    pub consumed : answers ≡ map refusal refusals ++ answer ∷ after.answers
    pub asked : after.sent ≡ client.sent ++ replicate (suc (length refusals)) (method, params)
    pub bounded : length refusals ≤ limit
    pub exhausted : (d : String) → answer ≡ refusal d → length refusals ≡ limit

  first_answer :
      (limit : ℕ) (method : String) (params : V) (answer : Answer V) (rest : List (Answer V))
      (client : Client V)
      → ((d : String) → answer ≡ refusal d → 0 ≡ limit)
      → IsAttempt limit method params
          (answer ∷ rest)
          client
          (note_request method params rest client)
          answer
  first_answer limit method params answer rest client last = record {
    refusals = [];
    consumed = refl;
    asked = refl;
    bounded = omega arith;
    exhausted = last;
  }

  send_loop_lem :
      (left retries : ℕ) (method : String) (params : V) (answers : List (Answer V))
      (client : Client V)
      → left < length answers
      → (answer : Answer V) × (after : Client V) × (send_loop
            (left + retries)
            retries
            method
            params
            answers
            client
          ≡ some (answer, after))
        × IsAttempt left method params answers client after answer
  unfolding send_loop
  send_loop_lem left retries method params [] client h = absurd (omega arith)
  send_loop_lem left retries method params (ok v ∷ rest) client h = (
    ok v,
    note_request method params rest client,
    refl,
    first_answer left method params (ok v) rest client (λ d p. absurd (ground arith)),
  )
  send_loop_lem left retries method params (err (RequestError.written_outcome_unknown i m d) ∷ rest)
        client h =
      (
        _,
        note_request method params rest client,
        refl,
        first_answer left method params _ rest client (λ d p. absurd (ground arith)),
      )
  send_loop_lem left retries method params (err (RequestError.rejected m e) ∷ rest) client h = (
    _,
    note_request method params rest client,
    refl,
    first_answer left method params _ rest client (λ d p. absurd (ground arith)),
  )
  send_loop_lem left retries method params (err (RequestError.timed_out m) ∷ rest) client h = (
    _,
    note_request method params rest client,
    refl,
    first_answer left method params _ rest client (λ d p. absurd (ground arith)),
  )
  send_loop_lem left retries method params (err RequestError.closed ∷ rest) client h = (
    _,
    note_request method params rest client,
    refl,
    first_answer left method params _ rest client (λ d p. absurd (ground arith)),
  )
  send_loop_lem zero retries method params (err (RequestError.not_written d) ∷ rest) client h =
      let stop : ltb retries (0 + retries) ≡ false = ground arith in
      (
        refusal d,
        note_request method params rest client,
        rw stop refl,
        first_answer 0 method params (refusal d) rest client (λ d p. refl),
      )
  send_loop_lem (suc left) retries method params (err (RequestError.not_written d) ∷ rest) client
        h =
      let go : ltb retries (suc left + retries) ≡ true = ground arith in
      let (answer, after, runs, a) =
        send_loop_lem left (retries + 1) method params rest (note_request method params rest client)
          (omega arith) in
      let same : left + (retries + 1) ≡ suc left + retries = omega arith in
      (
        answer,
        after,
        rw go (
            subst
              (λ n.
                send_loop n (retries + 1) method params rest
                  (note_request method params rest client)
                ≡ some (answer, after))
              same runs),
        record {
          refusals = d ∷ a.refusals;
          consumed = ap (λ l. refusal d ∷ l) a.consumed;
          asked =
              a.asked
              ∙ append_assoc client.sent ((method, params) ∷ [])
                  (replicate (suc (length a.refusals)) (method, params));
          bounded = omega (arith, a.bounded);
          exhausted = λ d p. ap suc (a.exhausted d p);
        },
      )

  -- A request is sent again only if it was never written. Where the client gives one answer more
  -- than the retries allowed, the call returns. It asked once for each answer, always the same
  -- method and parameters; every answer but the last was a refusal before the write; there are at
  -- most as many of these as retries allowed, and the last answer is one only if the retries were
  -- used up.
  pub send_not_written_safe-IsAttempt :
      (limit : ℕ) (method : String) (params : V) (client : Client V)
      → limit < length client.answers
      → (answer : Answer V) × (after : Client V) × (send_not_written_safe limit method params client
          ≡ some (answer, after))
        × IsAttempt limit method params client.answers client after answer
  unfolding send_not_written_safe
  send_not_written_safe-IsAttempt limit method params client h =
      let (answer, after, runs, a) = send_loop_lem limit 0 method params client.answers client h in
      (
        answer,
        after,
        subst (λ n. send_loop n 0 method params client.answers client ≡ some (answer, after))
            (let p : limit + 0 ≡ limit = omega arith in p) runs,
        a,
      )
