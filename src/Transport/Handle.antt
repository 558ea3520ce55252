-- ===== src/Transport/Handle.antt =====
-- The handle's side of the transport (src/transport/src/lib.rs): what it sends to the loop, and
-- what its caller gets.
use codex_warden.Prelude.{
  ℕ, Bool, true, false, not, ◌&&◌, String, Option, none, some, err, wrapping_add, if◌then◌else◌,
}
use codex_warden.Protocol.Frame.{RpcId}
use codex_warden.Control.Client.{RequestError, Answer}
use codex_warden.Transport.State.{Command, request, notify, reconciled, shutdown}

-- `gate` is the flag that the handle shares with the loop; `open_channel` says whether the loop
-- still receives commands, `ingress` whether the receiver of the ingress is still there to be
-- taken.
pub record TransportHandle : Type 0 where
  pub next_id : ℕ
  pub gate : Bool
  pub open_channel : Bool
  pub ingress : Bool

abbrev pub spawn : TransportHandle
spawn = record { next_id = 1; gate = false; open_channel = true; ingress = true }

-- Whether the receiver is had, and the handle without it.
abbrev pub take_ingress : TransportHandle → Bool × TransportHandle
take_ingress h = (h.ingress, record h { ingress = false })

abbrev pub is_reconciled : TransportHandle → Bool
is_reconciled h = h.gate

module _ {V : Type 0} where
  -- What ends the wait for a response: a timeout, that the sender is gone, or an answer.
  abbrev pub waited : String → Option (Option (Answer V)) → Answer V
  waited method none = err (RequestError.timed_out method)
  waited method (some none) = err RequestError.closed
  waited method (some (some answer)) = answer

  -- What is sent, the answer, and the handle; `channel` is the one that is made for the response.
  unfoldable pub request_inner :
      String
      → V
      → (action : Bool) → (channel : ℕ) → (wait : Option (Option (Answer V))) → TransportHandle
      → Option (Command V) × Answer V × TransportHandle
  unfolding wrapping_add
  request_inner method params action channel wait h =
      let numbered = record h { next_id = wrapping_add h.next_id 1 } in
      if action && not (is_reconciled h)
      then (none, err (RequestError.not_written "reconciliation gate is closed"), h)
      else if h.open_channel
      then (
        some (request (RpcId.number h.next_id) method params channel),
        waited method wait,
        numbered,
      )
      else (none, err RequestError.closed, numbered)

  unfoldable pub notify_inner :
      String → V → TransportHandle → Option (Command V) × Option (RequestError V)
  notify_inner method params h =
      if h.open_channel
      then (some (notify method params), none)
      else (none, some RequestError.closed)

  -- `answered` says whether the loop completes the command.
  unfoldable pub mark_reconciled :
      (channel : ℕ)
      → (answered : Bool) → TransportHandle
      → Option (Command V) × Option (RequestError V) × TransportHandle
  mark_reconciled channel answered h =
      if h.open_channel
      then (
        some (reconciled channel),
        (if answered then none else some RequestError.closed),
        record h { gate = true },
      )
      else (none, some RequestError.closed, record h { gate = false })

  unfoldable pub shutdown_command : (channel : ℕ) → TransportHandle → Option (Command V)
  shutdown_command channel h = if h.open_channel then some (shutdown channel) else none
