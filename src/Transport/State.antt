-- ===== src/Transport/State.antt =====
-- The configuration, the health, the commands and the state of a connection
-- (src/transport/src/lib.rs). Times are in milliseconds since the start.
use codex_warden.Prelude.{
  ℕ, ◌*◌, Bool, true, false, ◌≡◌, ◌↔◌, String, Option, none, some, get_or, List, [], ◌∷◌, ◌++◌, Map,
  arith, Eq, nat_eq, string_eq, eq_iff, ◌==◌,
}
use Prim.Native.String.{◌++◌ as str_append}
use codex_warden.Protocol.Frame.{RpcId}
use codex_warden.Protocol.Event.{SequencedEvent}
use codex_warden.Control.Client.{Answer}

-- `Eq` of `RpcId`, as it is derived
abbrev pub rpc_id_beq : RpcId → RpcId → Bool
rpc_id_beq (RpcId.number m) (RpcId.number n) = m == n
rpc_id_beq (RpcId.number m) (RpcId.string t) = false
rpc_id_beq (RpcId.string s) (RpcId.number n) = false
rpc_id_beq (RpcId.string s) (RpcId.string t) = s == t

pub rpc_id_beq_iff : (a b : RpcId) → (rpc_id_beq a b ≡ true) ↔ (a ≡ b)
rpc_id_beq_iff (RpcId.number m) (RpcId.number n) = ground arith
rpc_id_beq_iff (RpcId.number m) (RpcId.string t) = ground arith
rpc_id_beq_iff (RpcId.string s) (RpcId.number n) = ground arith
rpc_id_beq_iff (RpcId.string s) (RpcId.string t) = ground (arith, eq_iff s t)

instance abbrev pub rpc_id_eq : Eq RpcId
rpc_id_eq = record { beq = rpc_id_beq; beq_iff = rpc_id_beq_iff }

pub record TransportConfig : Type 0 where
  pub socket_path : String
  pub connect_timeout : ℕ
  pub read_idle_timeout : ℕ
  pub request_timeout : ℕ
  pub retry_initial : ℕ
  pub retry_max : ℕ
  pub max_incoming_bytes : ℕ
  pub client_name : String
  pub client_version : String

-- The variable HOME and the version of the package are arguments. A path joined to `home` is put
-- behind a slash.
abbrev pub default_transport : Option String → String → TransportConfig
default_transport home version = record {
  socket_path =
      str_append (get_or home "/var/empty") "/.codex/app-server-control/app-server-control.sock";
  connect_timeout = 3 * 1000;
  read_idle_timeout = 30 * 1000;
  request_timeout = 15 * 1000;
  retry_initial = 100;
  retry_max = 5 * 1000;
  max_incoming_bytes = 32 * 1048576;
  client_name = "codex-control";
  client_version = version;
}

pub data ConnectionPhase : Type 0 where
  connecting handshaking reconciling connected degraded stopped : ConnectionPhase

pub record Health : Type 0 where
  pub phase : ConnectionPhase
  pub reconnect_attempts : ℕ
  pub last_frame_sequence : ℕ
  pub detail : Option String

abbrev pub default_health : Health
default_health = record {
  phase = connecting;
  reconnect_attempts = 0;
  last_frame_sequence = 0;
  detail = none;
}

-- A channel that answers one request or command is a number.
pub data Command (V : Type 0) : Type 0 where
  -- the id, the method, the parameters, the channel of the response
  request : RpcId → String → V → ℕ → Command V
  notify : String → V → Command V
  reconciled : ℕ → Command V
  shutdown : ℕ → Command V

pub record Pending : Type 0 where
  pub method : String
  pub response : ℕ

-- A websocket message; `other` is one that carries no value, such as a pong.
pub data Message : Type 0 where
  text : String → Message
  binary : List ℕ → Message
  ping : List ℕ → Message
  close other : Message

-- What is written on the socket.
pub data Wire (V : Type 0) : Type 0 where
  frame : V → Wire V
  pong : List ℕ → Wire V
  ping : Wire V

-- What the loop of the connection shares: the counter of frames, the gate, the health, and what it
-- has sent: events to the two receivers, answers and completions to channels, messages to the
-- socket.
pub record Link (V : Type 0) : Type 0 where
  pub sequence : ℕ
  pub ready : Bool
  pub health : Health
  pub ingress : List (SequencedEvent V)
  pub inbound : List (SequencedEvent V)
  pub replies : List (ℕ × Answer V)
  pub done : List ℕ
  pub written : List (Wire V)

-- A connection that is driven: the requests that wait, and when it was last read.
pub record Session (V : Type 0) : Type 0 where
  pub link : Link V
  pub pending : Map RpcId Pending
  pub last_read : ℕ

-- What comes with a message: the two clocks at its receipt, whether the receiver of the ingress is
-- still there, and the error of the write that answers a ping, if there is one.
pub record Arrival : Type 0 where
  pub elapsed : ℕ
  pub now : ℕ
  pub ingress_open : Bool
  pub write_error : Option String

abbrev pub new_link : {V : Type 0} → Link V
new_link = record {
  sequence = 0;
  ready = false;
  health = default_health;
  ingress = [];
  inbound = [];
  replies = [];
  done = [];
  written = [];
}

module _ {V : Type 0} where
  -- a write, by the error that it ends in
  abbrev pub write : Option String → Wire V → Link V → Link V
  write none message link = record link { written = link.written ++ message ∷ [] }
  write (some detail) message link = link

  abbrev pub reply : ℕ → Answer V → Link V → Link V
  reply channel answer link = record link { replies = link.replies ++ (channel, answer) ∷ [] }

  abbrev pub complete : ℕ → Link V → Link V
  complete channel link = record link { done = link.done ++ channel ∷ [] }

  -- `health.send(Health { phase, reconnect_attempts, last_frame_sequence: sequence.load(), detail
  -- })`
  abbrev pub report : ConnectionPhase → ℕ → Option String → Link V → Link V
  report phase attempts detail link = record link {
    health = record {
      phase = phase;
      reconnect_attempts = attempts;
      last_frame_sequence = link.sequence;
      detail = detail;
    };
  }

  abbrev pub set_ready : Bool → Link V → Link V
  set_ready ready link = record link { ready = ready }
