-- ===== src/Transport/Ledger.antt =====
-- Each request that a connection takes is answered once (src/transport/src/lib.rs).
use codex_warden.Prelude.{
  ℕ, ◌+◌, ◌≡◌, refl, ap, inr, String, none, some, List, [], ◌∷◌, ◌++◌, Map, map, lookup,
  lookup-insert, lookup-remove, Result, err, arith,
}
use codex_warden.Protocol.Json.{Json}
use codex_warden.Protocol.Frame.{RpcId}
use codex_warden.Control.Client.{Answer, RequestError}
use codex_warden.Transport.State.{
  TransportConfig, Pending, Link, Session, rpc_id_beq_iff, rpc_id_eq,
}
use codex_warden.Transport.Drive.{
  DriveExit, Step, then_drive, Input, unknown_outcome, exit_detail, drain, finish_drive, drive_step,
  drive_loop, drive,
}
use codex_warden.Transport.Moves.{request_of, Move, quiet, answers, writes, fails, drive_step-Move}
use codex_warden.Transport.Taken.{taken_by, taken, begun, inputs_taken, drive_loop-taken}
use codex_warden.Transport.Channels.{
  count, channels, HasUniqueIds, count-insert, insert-HasUniqueIds, count-remove,
  remove-HasUniqueIds, IsApart, HasUniqueIds-rest, first-IsApart, next-IsApart,
}

module _ {V : Type 0} where
  -- the requests of the inputs
  abbrev pub requests : List (Input V) → Map RpcId ℕ
  requests [] = []
  requests (input ∷ rest) = request_of input ++ requests rest

  -- how often a channel is asked for, and how often it was answered
  abbrev pub asked : ℕ → List (Input V) → ℕ
  asked c [] = 0
  asked c (input ∷ rest) =
      count c (map (λ (id, channel). channel) (request_of input)) + asked c rest

  abbrev pub answered : ℕ → List (ℕ × Answer V) → ℕ
  answered c replies = count c (map (λ (channel, answer). channel) replies)

  answered-snoc :
      (c d : ℕ) (answer : Answer V) (replies : List (ℕ × Answer V))
      → answered c (replies ++ (d, answer) ∷ []) ≡ answered c replies + count c (d ∷ [])
  answered-snoc c d answer [] = omega arith
  answered-snoc c d answer ((x, a) ∷ replies) = ground (arith, answered-snoc c d answer replies)

  answered-append :
      (c : ℕ) (xs ys : List (ℕ × Answer V)) → answered c (xs ++ ys) ≡ answered c xs + answered c ys
  answered-append c [] ys = omega arith
  answered-append c ((x, a) ∷ xs) ys = ground (arith, answered-append c xs ys)

  -- the answers given and those still owed
  abbrev accounts : ℕ → Session V → ℕ
  accounts c s = answered c s.link.replies + count c (channels s.pending)

  -- Requests were taken, and each is answered or pending.
  record IsSettled (taken : Map RpcId ℕ) (s s' : Session V) : Type 0 where
    counted :
        (c : ℕ) → accounts c s' ≡ accounts c s + count c (map (λ (id, channel). channel) taken)
    unique : HasUniqueIds s'.pending
    absent :
        (i : RpcId) → lookup i taken ≡ none → lookup i s.pending ≡ none → lookup i s'.pending ≡ none

  Move-IsSettled :
      (input : Input V) (s s' : Session V)
      → HasUniqueIds s.pending
      → IsApart (request_of input) s.pending
      → Move input s s'
      → IsSettled (request_of input) s s'
  unfolding lookup
  Move-IsSettled input s s' u apart (quiet r p q) = record {
    counted = λ c. rw (r, p, q) (omega arith);
    unique = rw p u;
    absent = λ i t l. rw p l;
  }
  Move-IsSettled input s s' u apart (answers id p answer found good r left q) = record {
    counted = λ c.
        rw (r, left, q)
          (omega (
            arith,
            answered-snoc c p.response answer s.link.replies,
            count-remove c id p s.pending u found,
          ));
    unique = rw left (remove-HasUniqueIds id s.pending u);
    absent = λ i t l. rw left (ground (arith, l, lookup-remove id i s.pending));
  }
  Move-IsSettled input s s' u apart (writes id method params channel i r p) =
      let waiting : Pending = record { method = method; response = channel } in
      let here = rw i at apart id in
      record {
        counted = λ c.
            rw (r, p, i)
              (omega (
                arith,
                count-insert c id waiting s.pending (ground (arith, here, rpc_id_beq_iff id id)),
              ));
        unique = rw p (insert-HasUniqueIds id waiting s.pending u);
        absent = λ j t l. rw p (ground (arith, rw i at t, l, lookup-insert id j waiting s.pending));
      }
  Move-IsSettled input s s' u apart (fails id method params channel detail i r p) = record {
    counted = λ c.
        rw (r, p, i)
          (omega (
            arith,
            answered-snoc c channel (err (RequestError.not_written detail)) s.link.replies,
          ));
    unique = rw p u;
    absent = λ j t l. rw p l;
  }

answered-unknown_outcome :
    (V : Type 0) (c : ℕ) (detail : String) (m : Map RpcId Pending)
    → answered {V = V} c (map (unknown_outcome detail) m) ≡ count c (channels m)
answered-unknown_outcome V c detail [] = refl
answered-unknown_outcome V c detail ((id, p) ∷ m) =
    ground (arith, answered-unknown_outcome V c detail m)

module _ {V : Type 0} (J : Json V) (from_str : String → Result V String)
    (from_slice : List ℕ → Result V String) (idle_text : ℕ → String) (config : TransportConfig)
    (attempts : ℕ) where
  -- No request is answered or pending but as the inputs taken ask for it, and these are the first.
  record Outcome (inputs : List (Input V)) (s : Session V) (r : Step V) (took : List (Input V))
      : Type 0 where
    left : List (Input V)
    split : inputs ≡ took ++ left
    counted : (c : ℕ) → accounts c r.1 ≡ accounts c s + asked c took

  then_drive-Outcome :
      (input : Input V) (inputs : List (Input V)) (s : Session V) (step : Step V)
      (rest : Session V → Step V) (more : Session V → List (Input V))
      → IsSettled (request_of input) s step.1
      → (IsSettled (request_of input) s step.1 → Outcome inputs step.1 (rest step.1) (more step.1))
      → Outcome (input ∷ inputs) s (then_drive step rest) (taken_by input step more)
  then_drive-Outcome input inputs s (some exit, next) rest more h ih = record {
    left = inputs;
    split = refl;
    counted = λ c. omega (arith, h.counted c);
  }
  then_drive-Outcome input inputs s (none, next) rest more h ih =
      let deeper = ih h in
      record {
        left = deeper.left;
        split = ground (arith, deeper.split);
        counted = λ c. omega (arith, h.counted c, deeper.counted c);
      }

  drive_loop-Outcome :
      (inputs : List (Input V)) (s : Session V)
      → HasUniqueIds s.pending
      → HasUniqueIds (requests inputs)
      → IsApart (requests inputs) s.pending
      → Outcome inputs s
          (drive_loop J from_str from_slice idle_text config attempts inputs s)
          (taken J from_str from_slice idle_text config attempts inputs s)
  unfolding drive_loop
  drive_loop-Outcome [] s u distinct apart = record {
    left = [];
    split = refl;
    counted = λ c. omega arith;
  }
  drive_loop-Outcome (input ∷ rest) s u distinct apart =
      let step = drive_step J from_str from_slice idle_text config attempts input s in
      then_drive-Outcome input rest s step
        (drive_loop J from_str from_slice idle_text config attempts rest)
        (taken J from_str from_slice idle_text config attempts rest)
        (Move-IsSettled input s step.1 u
          (first-IsApart (request_of input) (requests rest) s.pending apart)
          (drive_step-Move J from_str from_slice idle_text config attempts input s))
        (λ h.
          drive_loop-Outcome rest step.1 h.unique
            (HasUniqueIds-rest (request_of input) (requests rest) distinct)
            (next-IsApart (request_of input) (requests rest) s.pending step.1.pending distinct apart
              h.absent))

  finish_drive-answered :
      (c : ℕ) (step : Step V) (exit : DriveExit)
      → step.0 ≡ some exit
      → answered c (finish_drive step).1.replies ≡ accounts c step.1
  unfolding finish_drive drain
  finish_drive-answered c (none, s) exit e = absurd (ground (arith, e))
  finish_drive-answered c (some x, s) exit e =
      let owed = answered-unknown_outcome V c (exit_detail x) s.pending in
      let given =
        answered-append c s.link.replies (map (unknown_outcome (exit_detail x)) s.pending) in
      omega (arith, owed, given)

  -- Every request is answered exactly once, also when the connection ends. If the ids of the
  -- requests among the inputs differ and the loop ends, then the inputs that it takes, up to the
  -- one that ends it and with that one, are the first of the inputs and decide all that it does.
  -- Each channel was answered as often as the requests among these name it, beside the answers
  -- that it had before, and no request stays pending.
  pub drive-answered :
      (inputs : List (Input V)) (started : ℕ) (link : Link V)
      → HasUniqueIds (requests inputs)
      → (exit : DriveExit)
      → (drive J from_str from_slice idle_text config attempts started inputs link).0 ≡ some exit
      → let ended = drive J from_str from_slice idle_text config attempts started inputs link in
        let took =
          inputs_taken J from_str from_slice idle_text config attempts started inputs link in
        ((left : List (Input V)) × (inputs ≡ took ++ left))
        × (drive J from_str from_slice idle_text config attempts started took link ≡ ended)
        × (ended.2 ≡ [])
        × ((c : ℕ) → answered c ended.1.replies ≡ answered c link.replies + asked c took)
  unfolding drive finish_drive lookup
  drive-answered inputs started link distinct exit ends =
      let looped =
        drive_loop J from_str from_slice idle_text config attempts inputs (begun started link) in
      let o = drive_loop-Outcome inputs (begun started link) tt distinct (λ i. inr refl) in
      let done = exits looped exit ends in
      (
        (o.left, o.split),
        ap finish_drive (
            drive_loop-taken J from_str from_slice idle_text config attempts inputs
              (begun started link) exit done),
        settled looped exit ends,
        λ c. omega (arith, o.counted c, finish_drive-answered c looped exit done),
      )
    where
      exits :
          (step : Step V) (exit : DriveExit)
          → (finish_drive step).0 ≡ some exit
          → step.0 ≡ some exit
      exits (none, s) exit e = e
      exits (some x, s) exit e = e

      settled :
          (step : Step V) (exit : DriveExit)
          → (finish_drive step).0 ≡ some exit
          → (finish_drive step).2 ≡ []
      settled (none, s) exit e = absurd (ground (arith, e))
      settled (some x, s) exit e = refl
