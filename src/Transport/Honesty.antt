-- ===== src/Transport/Honesty.antt =====
-- No answer misreports whether its request was written (src/transport/src/lib.rs).
use codex_warden.Prelude.{
  ◌≡◌, refl, sym, subst, ◌⊎◌, inl, inr, ℕ, String, Option, none, some, List, [], ◌∷◌, Map, map,
  lookup, insert, remove, Result, ok, err, All, All-append, All-map, In, arith, Bool-cases,
}
use codex_warden.Protocol.Json.{Json}
use codex_warden.Protocol.Frame.{RpcId}
use codex_warden.Control.Client.{Answer, RequestError}
use codex_warden.Transport.State.{
  TransportConfig, request, Pending, Link, Session, rpc_id_beq, rpc_id_beq_iff, rpc_id_eq,
}
use codex_warden.Transport.Drive.{
  Step, then_drive, Input, command, unknown_outcome, exit_detail, drain, finish_drive, drive_step,
  drive_loop, drive,
}
use codex_warden.Transport.Moves.{IsAnswer, Move, quiet, answers, writes, fails, drive_step-Move}

module _ (P : RpcId × Pending → Type 0) where
  All-insert :
      (id : RpcId) (p : Pending) (m : Map RpcId Pending)
      → P (id, p)
      → All P m
      → All P (insert id p m)
  unfolding insert
  All-insert id p [] h a = (h, tt)
  All-insert id p ((j, r) ∷ m) h a = elim (Bool-cases (rpc_id_beq j id)) [
    | inl e ↦ rw (insert, e) (h, a.1)
    | inr e ↦ rw (insert, e) (a.0, All-insert id p m h a.1)
  ]

  All-remove : (id : RpcId) (m : Map RpcId Pending) → All P m → All P (remove id m)
  unfolding remove
  All-remove id [] a = tt
  All-remove id ((j, r) ∷ m) a = elim (Bool-cases (rpc_id_beq j id)) [
    | inl e ↦ rw (remove, e) (All-remove id m a.1)
    | inr e ↦ rw (remove, e) (a.0, All-remove id m a.1)
  ]

  All-lookup :
      (id : RpcId) (p : Pending) (m : Map RpcId Pending)
      → All P m
      → lookup id m ≡ some p
      → P (id, p)
  unfolding lookup
  All-lookup id p [] a l = absurd (ground (arith, l))
  All-lookup id p ((j, r) ∷ m) a l = elim (Bool-cases (rpc_id_beq j id)) [
    | inl e ↦
        subst (λ k. P (k, p)) ((rpc_id_beq_iff j id).0 e)
          (subst (λ q. P (j, q)) (ground (arith, e, l)) a.0)
    | inr e ↦ All-lookup id p m a.1 (ground (arith, e, l))
  ]

module _ {V : Type 0} where
  -- A request on a channel was among the inputs, and its write ended so.
  abbrev pub IsSent : List (Input V) → RpcId → String → ℕ → Option String → Type 0
  IsSent inputs id method channel e =
      (params : V) × In (command (some (request id method params channel)) e) inputs

  -- What an answer says of the write is so.
  abbrev pub IsTruthful : List (Input V) → ℕ × Answer V → Type 0
  IsTruthful inputs (c, ok v) = (id : RpcId) × (method : String) × IsSent inputs id method c none
  IsTruthful inputs (c, err (RequestError.rejected method e)) =
      (id : RpcId) × IsSent inputs id method c none
  IsTruthful inputs (c, err (RequestError.not_written d)) =
      (id : RpcId) × (method : String) × IsSent inputs id method c (some d)
  IsTruthful inputs (c, err (RequestError.written_outcome_unknown id method d)) =
      IsSent inputs id method c none
  IsTruthful inputs (c, err (RequestError.timed_out method)) = ⊥
  IsTruthful inputs (c, err RequestError.closed) = ⊥

  -- the answers that the connection found, and its own
  abbrev pub AreTruthful : List (Input V) → (before after : List (ℕ × Answer V)) → Type 0
  AreTruthful inputs before after = All (λ r. In r before ⊎ IsTruthful inputs r) after

  abbrev IsWaiting : List (Input V) → RpcId × Pending → Type 0
  IsWaiting inputs (id, p) = IsSent inputs id p.method p.response none

  record IsHonest (inputs : List (Input V)) (before : List (ℕ × Answer V)) (s : Session V)
      : Type 0 where
    replies : AreTruthful inputs before s.link.replies
    waiting : All (IsWaiting inputs) s.pending

  answer-IsTruthful :
      (inputs : List (Input V)) (id : RpcId) (p : Pending) (answer : Answer V)
      → IsSent inputs id p.method p.response none
      → IsAnswer p.method answer
      → IsTruthful inputs (p.response, answer)
  answer-IsTruthful inputs id p (ok v) h a = (id, p.method, h)
  answer-IsTruthful inputs id p (err (RequestError.rejected m e)) h a =
      (id, subst (λ n. IsSent inputs id n p.response none) (sym a) h)
  answer-IsTruthful inputs id p (err (RequestError.not_written d)) h a = absurd a
  answer-IsTruthful inputs id p (err (RequestError.written_outcome_unknown i m d)) h a = absurd a
  answer-IsTruthful inputs id p (err (RequestError.timed_out m)) h a = absurd a
  answer-IsTruthful inputs id p (err RequestError.closed) h a = absurd a

  Move-IsHonest :
      (inputs : List (Input V)) (before : List (ℕ × Answer V)) (input : Input V) (s s' : Session V)
      → In input inputs
      → Move input s s'
      → IsHonest inputs before s
      → IsHonest inputs before s'
  Move-IsHonest inputs before input s s' i (quiet r p q) h = record {
    replies = rw r h.replies;
    waiting = rw p h.waiting;
  }
  Move-IsHonest inputs before input s s' i (answers id p answer found good r left q) h = record {
    replies = rw r (
        All-append (λ r. In r before ⊎ IsTruthful inputs r) s.link.replies _ h.replies
          (
            inr (
                answer-IsTruthful inputs id p answer
                  (All-lookup (IsWaiting inputs) id p s.pending h.waiting found) good),
            tt,
          ));
    waiting = rw left (All-remove (IsWaiting inputs) id s.pending h.waiting);
  }
  Move-IsHonest inputs before input s s' i (writes id method params channel e r p) h = record {
    replies = rw r h.replies;
    waiting = rw p (
        All-insert (IsWaiting inputs) id (record { method = method; response = channel }) s.pending
          (params, rw e at i) h.waiting);
  }
  Move-IsHonest inputs before input s s' i (fails id method params channel d e r p) h = record {
    replies = rw r (
        All-append (λ r. In r before ⊎ IsTruthful inputs r) s.link.replies _ h.replies
          (inr (id, method, (params, rw e at i)), tt));
    waiting = rw p h.waiting;
  }

  unknown_outcome-AreTruthful :
      (inputs : List (Input V)) (before : List (ℕ × Answer V)) (detail : String)
      (m : Map RpcId Pending)
      → All (IsWaiting inputs) m
      → AreTruthful inputs before (map (unknown_outcome detail) m)
  unknown_outcome-AreTruthful inputs before detail [] h = tt
  unknown_outcome-AreTruthful inputs before detail ((id, p) ∷ m) h =
      (inr h.0, unknown_outcome-AreTruthful inputs before detail m h.1)

  finish_drive-AreTruthful :
      (inputs : List (Input V)) (before : List (ℕ × Answer V)) (step : Step V)
      → IsHonest inputs before step.1
      → AreTruthful inputs before (finish_drive step).1.replies
  unfolding finish_drive drain
  finish_drive-AreTruthful inputs before (none, s) h = h.replies
  finish_drive-AreTruthful inputs before (some x, s) h =
      All-append (λ r. In r before ⊎ IsTruthful inputs r) s.link.replies _ h.replies
        (unknown_outcome-AreTruthful inputs before (exit_detail x) s.pending h.waiting)

  then_drive-IsHonest :
      (inputs : List (Input V)) (before : List (ℕ × Answer V)) (step : Step V)
      (rest : Session V → Step V)
      → IsHonest inputs before step.1
      → ((next : Session V) → IsHonest inputs before next → IsHonest inputs before (rest next).1)
      → IsHonest inputs before (then_drive step rest).1
  then_drive-IsHonest inputs before (some exit, s) rest h ih = h
  then_drive-IsHonest inputs before (none, s) rest h ih = ih s h

  In-itself : (before : List (ℕ × Answer V)) → All (λ r. In r before) before
  In-itself before = go before before (λ r i. i)
    where
      go :
          (all rest : List (ℕ × Answer V))
          → ((r : ℕ × Answer V) → In r rest → In r all)
          → All (λ r. In r all) rest
      go all [] h = tt
      go all (r ∷ rest) h = (h r (inl refl), go all rest (λ x i. h x (inr i)))

module _ {V : Type 0} (J : Json V) (from_str : String → Result V String)
    (from_slice : List ℕ → Result V String) (idle_text : ℕ → String) (config : TransportConfig)
    (attempts : ℕ) where
  drive_loop-IsHonest :
      (inputs rest : List (Input V)) (before : List (ℕ × Answer V)) (s : Session V)
      → ((input : Input V) → In input rest → In input inputs)
      → IsHonest inputs before s
      → IsHonest inputs before (drive_loop J from_str from_slice idle_text config attempts rest s).1
  unfolding drive_loop
  drive_loop-IsHonest inputs [] before s i h = h
  drive_loop-IsHonest inputs (input ∷ rest) before s i h =
      let step = drive_step J from_str from_slice idle_text config attempts input s in
      then_drive-IsHonest inputs before step
        (drive_loop J from_str from_slice idle_text config attempts rest)
        (Move-IsHonest inputs before input s step.1 (i input (inl refl))
          (drive_step-Move J from_str from_slice idle_text config attempts input s) h)
        (λ next k. drive_loop-IsHonest inputs rest before next (λ x j. i x (inr j)) k)

  -- No answer misreports whether its request was written. After `drive`, each answer was there
  -- before or is true: for one that reports a request as not written, the inputs hold a request on
  -- that channel whose write failed with the detail reported; for a result, a rejection or an
  -- unknown outcome, they hold a request on that channel that was written, in the last case with
  -- the id and the method reported. No answer is a timeout or a closed transport.
  pub drive-AreTruthful :
      (inputs : List (Input V)) (started : ℕ) (link : Link V)
      → AreTruthful inputs link.replies
          (drive J from_str from_slice idle_text config attempts started inputs link).1.replies
  unfolding drive
  drive-AreTruthful inputs started link = finish_drive-AreTruthful inputs link.replies _ (
      drive_loop-IsHonest inputs inputs link.replies
        (record { link = link; pending = []; last_read = started }) (λ x i. i)
        (record {
          replies =
              All-map (λ r. In r link.replies) _ link.replies (λ r i. inl i)
                (In-itself link.replies);
          waiting = tt;
        }))
