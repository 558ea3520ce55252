-- ===== src/Transport/Numbering.antt =====
-- The ids that a handle gives to its requests (src/transport/src/lib.rs).
use codex_warden.Prelude.{
  ℕ, ◌+◌, ◌≤◌, ◌<◌, ◌≡◌, refl, inl, inr, Bool, not, ◌&&◌, String, Option, none, some, List, [], ◌∷◌,
  Map, map, lookup, length, arith, Bool-cases, word_mod, wrapping_add-eq,
}
use codex_warden.Protocol.Frame.{RpcId}
use codex_warden.Control.Client.{Answer}
use codex_warden.Transport.State.{Command, request, notify, reconciled, shutdown, rpc_id_eq}
use codex_warden.Transport.Drive.{Input, command}
use codex_warden.Transport.Handle.{
  TransportHandle, spawn, request_inner, notify_inner, mark_reconciled, shutdown_command,
}
use codex_warden.Transport.Channels.{HasUniqueIds}
use codex_warden.Transport.Ledger.{requests}

-- What is called on a handle or on a clone of it; they share their state.
pub data Call (V : Type 0) : Type 0 where
  -- the method, the parameters, whether it is an action, the channel, what ends the wait
  ask : String → V → Bool → ℕ → Option (Option (Answer V)) → Call V
  tell : String → V → Call V
  -- the channel, and whether the loop completes it
  mark : ℕ → Bool → Call V
  stop : ℕ → Call V

lookup_behind :
    (m i channel : ℕ) (rest : Map RpcId ℕ)
    → i < m
    → lookup (RpcId.number i) rest ≡ none
    → lookup (RpcId.number i) ((RpcId.number m, channel) ∷ rest) ≡ none
unfolding lookup
lookup_behind m i channel rest lt h = ground (arith, lt, h)

module _ {V : Type 0} where
  unfoldable pub call : Call V → TransportHandle → Option (Command V) × TransportHandle
  unfolding request_inner notify_inner mark_reconciled shutdown_command
  call (ask method params action channel wait) h =
      let (sent, answer, h') = request_inner method params action channel wait h in (sent, h')
  call (tell method params) h = ((notify_inner method params h).0, h)
  call (mark channel answered) h =
      let (sent, e, h') = mark_reconciled {V = V} channel answered h in (sent, h')
  call (stop channel) h = (shutdown_command channel h, h)

  abbrev pub with_sent : Option (Command V) → List (Command V) → List (Command V)
  with_sent none rest = rest
  with_sent (some c) rest = c ∷ rest

  -- the commands that the calls send
  unfoldable pub calls : List (Call V) → TransportHandle → List (Command V)
  unfolding call
  calls [] h = []
  calls (c ∷ rest) h = let (sent, h') = call c h in with_sent sent (calls rest h')

  -- the commands as the loop takes them, each with the error of its write
  abbrev pub as_inputs : (Command V → Option String) → List (Command V) → List (Input V)
  as_inputs write commands = map (λ c. command (some c) (write c)) commands

  -- No request, or one under the next id.
  abbrev IsNumbered : Option (Command V) → TransportHandle → TransportHandle → Type 0
  IsNumbered none h h' = (h.next_id ≤ h'.next_id) × (h'.next_id ≤ h.next_id + 1)
  IsNumbered (some (request id method params channel)) h h' =
      (id ≡ RpcId.number h.next_id) × (h'.next_id ≡ h.next_id + 1)
  IsNumbered (some (notify method params)) h h' = h'.next_id ≡ h.next_id
  IsNumbered (some (reconciled channel)) h h' = h'.next_id ≡ h.next_id
  IsNumbered (some (shutdown channel)) h h' = h'.next_id ≡ h.next_id

  request_inner-IsNumbered :
      (method : String) (params : V) (action : Bool) (channel : ℕ)
      (wait : Option (Option (Answer V))) (h : TransportHandle)
      → h.next_id + 1 < word_mod
      → let (sent, answer, h') = request_inner method params action channel wait h in
        IsNumbered sent h h'
  unfolding request_inner
  request_inner-IsNumbered method params action channel wait h fits =
      let next = wrapping_add-eq h.next_id 1 fits in
      elim (Bool-cases (action && not h.gate)) [
        | inl shut ↦ rw (shut, request_inner) (omega arith, omega arith)
        | inr through ↦ elim (Bool-cases h.open_channel) [
          | inl here ↦ rw (through, here, request_inner) (refl, next)
          | inr gone ↦ rw (through, gone, request_inner) (omega (arith, next), omega (arith, next))
        ]
      ]

  call-IsNumbered :
      (c : Call V) (h : TransportHandle)
      → h.next_id + 1 < word_mod
      → IsNumbered (call c h).0 h (call c h).1
  unfolding call notify_inner mark_reconciled shutdown_command
  call-IsNumbered (ask method params action channel wait) h fits =
      request_inner-IsNumbered method params action channel wait h fits
  call-IsNumbered (tell method params) h fits = elim (Bool-cases h.open_channel) [
    | inl here ↦ rw (here, call) refl
    | inr gone ↦ rw (gone, call) (omega arith, omega arith)
  ]
  call-IsNumbered (mark channel answered) h fits = elim (Bool-cases h.open_channel) [
    | inl here ↦ rw (here, call) refl
    | inr gone ↦ rw (gone, call) (omega arith, omega arith)
  ]
  call-IsNumbered (stop channel) h fits = elim (Bool-cases h.open_channel) [
    | inl here ↦ rw (here, call) refl
    | inr gone ↦ rw (gone, call) (omega arith, omega arith)
  ]

  -- the later ids are new
  record IsNew (write : Command V → Option String) (h : TransportHandle)
      (commands : List (Command V)) : Type 0 where
    absent :
        (i : ℕ)
        → i < h.next_id
        → lookup (RpcId.number i) (requests (as_inputs write commands)) ≡ none
    unique : HasUniqueIds (requests (as_inputs write commands))

  with_sent-IsNew :
      (write : Command V → Option String) (sent : Option (Command V)) (h h' : TransportHandle)
      (rest : List (Command V))
      → IsNumbered sent h h'
      → IsNew write h' rest
      → IsNew write h (with_sent sent rest)
  unfolding lookup
  with_sent-IsNew write none h h' rest n r = record {
    absent = λ i lt. r.absent i (omega (arith, n.0, lt));
    unique = r.unique;
  }
  with_sent-IsNew write (some (request id method params channel)) h h' rest n r = record {
    absent = λ i lt. rw n.0 (
        lookup_behind h.next_id i channel (requests (as_inputs write rest)) lt
          (r.absent i (omega (arith, n.1, lt))));
    unique = rw n.0 (r.absent h.next_id (omega (arith, n.1)), r.unique);
  }
  with_sent-IsNew write (some (notify method params)) h h' rest n r = record {
    absent = λ i lt. r.absent i (omega (arith, n, lt));
    unique = r.unique;
  }
  with_sent-IsNew write (some (reconciled channel)) h h' rest n r = record {
    absent = λ i lt. r.absent i (omega (arith, n, lt));
    unique = r.unique;
  }
  with_sent-IsNew write (some (shutdown channel)) h h' rest n r = record {
    absent = λ i lt. r.absent i (omega (arith, n, lt));
    unique = r.unique;
  }

  IsNumbered-next_id :
      (sent : Option (Command V)) (h h' : TransportHandle)
      → IsNumbered sent h h'
      → h'.next_id ≤ h.next_id + 1
  IsNumbered-next_id none h h' n = n.1
  IsNumbered-next_id (some (request id method params channel)) h h' n = omega (arith, n.1)
  IsNumbered-next_id (some (notify method params)) h h' n = omega (arith, n)
  IsNumbered-next_id (some (reconciled channel)) h h' n = omega (arith, n)
  IsNumbered-next_id (some (shutdown channel)) h h' n = omega (arith, n)

  calls-IsNew :
      (write : Command V → Option String) (cs : List (Call V)) (h : TransportHandle)
      → h.next_id + length cs < word_mod
      → IsNew write h (calls cs h)
  unfolding calls lookup
  calls-IsNew write [] h fits = record { absent = λ i lt. refl; unique = tt }
  calls-IsNew write (c ∷ cs) h fits =
      let n = call-IsNumbered c h (omega (arith, fits)) in
      with_sent-IsNew write (call c h).0 h (call c h).1 (calls cs (call c h).1) n (
        calls-IsNew write cs (call c h).1
          (omega (arith, fits, IsNumbered-next_id (call c h).0 h (call c h).1 n)))

  -- The ids of the requests that a handle and its clones send all differ, whatever is called in
  -- what order, for fewer calls than a word can count, less one. This is what the loop's account
  -- of its answers asks of its inputs.
  pub calls-HasUniqueIds :
      (write : Command V → Option String) (cs : List (Call V))
      → length cs + 1 < word_mod
      → HasUniqueIds (requests (as_inputs write (calls cs spawn)))
  calls-HasUniqueIds write cs fits = (calls-IsNew write cs spawn (omega (arith, fits))).unique
