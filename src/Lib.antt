-- ===== src/Lib.antt =====
-- Models and proofs of codex-warden: the Rust workspace under src/ that keeps an embedding program
-- in step with a shared Codex app-server.
--
-- Every inbound JSON-RPC frame gets a receipt sequence and becomes a `SequencedEvent`
-- (src/protocol/src/lib.rs). The event goes to the reducer (src/reducer/src/lib.rs), then to the
-- store (src/store/src/lib.rs), then to lossy fan-out.
--
-- Prelude            shared names: Boolean tests, lists over native numbers, 64-bit words, maps.
-- Protocol           src/protocol/src/lib.rs. Json is the interface of serde_json's values, Frame has
--                    IncomingFrame::parse, classify and plane_for_method, Event has from_frame and the
--                    extract functions, Request has request, notification and
--                    reconstructed_active_turn; Laws holds their theorems.
-- Store              src/store/src/lib.rs. State has Inner and remove_at, Prune has record_locked,
--                    prune_locked, evict_idle_content and record_reconstructed_active_turn, Query has
--                    the two queries. Sizes, Accounting, Order, Limits, Victim, Gaps, Replies, Idle
--                    and Anchor hold the theorems.
-- Reducer            src/reducer/src/lib.rs. State has the records, Apply has the three blocks of
--                    apply, Subscribe has the subscription calls, evict_idle and reconcile_thread,
--                    Replay has events_since. Relevance, Log, Waiters and Turns hold the theorems.
-- Streaming          src/streaming/src/lib.rs: publish and the two streams. Session says what a channel
--                    may do, Complete and Deltas hold the theorems.
-- Control            src/control/src/lib.rs. Client has RequestError of src/transport/src/lib.rs and
--                    send_not_written_safe, State the records, Action the actions, Observed what their
--                    waiters yield, Terminal what a read shows; Sends, Outcomes and Interrupt hold
--                    the theorems.
-- Ingest             src/ingest/src/lib.rs. Ingress has process and run, Discover has discover and
--                    handle_signal, Reconcile has reconcile, release_if_idle and
--                    unsubscribe_all_best_effort, Reading the readers of JSON values; Applied,
--                    Capacity, Discovered, Quiet, Settled, Total and Listing hold the theorems.
-- Transport          src/transport/src/lib.rs. State has the configuration, the health and the state of a
--                    connection, Handshake has message_json and initialize, Drive has drive, Connection
--                    has connection_loop and reject_while_disconnected, Handle has TransportHandle.
--                    Moves says what a round does to the requests; Ledger, Honesty, Numbering, Order
--                    and Gate hold the theorems, Taken, Channels, Sequences, Greetings and Pauses
--                    their lemmas.
-- Supervisor         src/supervisor/src/lib.rs. State has the records and ProcessOps, Processes the
--                    readers of listings, Run the actions and their do blocks, Start has initialize and
--                    its waits, Check has check and monitor; Ends and Verified hold the theorems,
--                    Rules and Reached the rules for actions, Quitting and Seen what the parts of
--                    initialize see.
-- Core               src/core/src. Threads has list_all and read (threads.rs), Paths and Skills the check
--                    of skill roots and the calls that set and replay them (skills.rs), Hooks the two
--                    calls of hooks.rs; Calls is a run of skill calls, Listing and Roots hold the
--                    theorems.
-- Tests              runs at concrete inputs, over a small type of JSON values.
--
-- Conventions. An operation that runs under a lock is a function from the locked state to the state
-- that it leaves. The calls that await other locks in between are compositions of such functions.
-- u64 and usize values are native numbers, with the wrap-around of += and the saturation of
-- saturating_add written out (Prelude.Words). Strings are native strings. A HashMap is an association
-- list with one entry for a key; where the code depends on the order of iteration (the search for a
-- thread over its limit in prune_locked) that order is an argument, of which the theorems assume that
-- it yields the entries of the map and no others.
--
-- Parameters. The JSON values (`Json`, with `JsonLaws` where a theorem reads back what was built), the
-- length of a serialized event (`to_vec_len`), and the clocks.
--
-- Fuel. `expire` has as many rounds as events, `enforce` one more than events: each round removes an
-- event, and Store.Limits proves that the loop ends within that fuel. `take_ready` has as many rounds
-- as waiters: each round leaves one waiter less ahead of its index. The waits of the supervisor have one
-- round for each unit of fuel; Supervisor.Ends proves how much is enough.
--
-- Clients and channels. A client is the answers that it will give, in order, and the requests made
-- of it; a call that runs out of answers waits, and yields none. What a broadcast receiver yields is
-- an argument, as are the events that the reducer applies while a waiter of the controller waits; the
-- waiter yields the first that passes its predicate (Control.Observed). The loops over answers recur
-- on the answers, those over pages on the pages left, those of the transport on what they meet: a
-- greeting, an input of select!, a try to connect.
--
-- The gate. Handles and the connection loop share the flag of the reconciliation, and the loop only
-- stores in it. What the handles last stored in a round, behind the stores of the loop, comes with
-- the round (`stored` of Dial in Transport.Connection); their stores in between are not seen.
--
-- Not modelled. Of the embedding API, the facade's own loops (src/core/src/lib.rs); the locks of
-- threads in the controller, logging and pauses; calls of the ingestor that interleave; of the
-- transport, the socket itself (connect); of the supervisor, RealProcessOps, which only calls
-- programs, and paths that are not UTF-8; the mock server, the examples and the generated protocol
-- types, which are input and output only.
pub mod Prelude
pub mod Protocol
pub mod Store
pub mod Reducer
pub mod Streaming
pub mod Control
pub mod Transport
pub mod Supervisor
pub mod Core
pub mod Ingest
mod Tests
