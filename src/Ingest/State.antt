-- ===== src/Ingest/State.antt =====
-- The configuration, states and outcomes of the ingestor (src/ingest/src/lib.rs).
use codex_warden.Prelude.{
  ℕ, Bool, true, false, String, Option, none, some, get_or, [], Map, lookup, string_eq,
}
use codex_warden.Control.Client.{Client, RequestError}
use codex_warden.Reducer.State.{ReducerState}
use codex_warden.Store.State.{Inner}

-- Times in milliseconds.
pub record IngestConfig : Type 0 where
  pub reconcile_page_size : ℕ
  pub reconcile_page_bound : ℕ
  pub reconcile_candidate_limit : ℕ
  pub subscription_cap : ℕ
  pub resume_retry_limit : ℕ
  pub retry_delay : ℕ
  pub release_idle_subscriptions : Bool
  pub reactivation_verified : Bool

abbrev pub default_ingest : IngestConfig
default_ingest = record {
  reconcile_page_size = 50;
  reconcile_page_bound = 4;
  reconcile_candidate_limit = 200;
  subscription_cap = 512;
  resume_retry_limit = 8;
  retry_delay = 250;
  release_idle_subscriptions = false;
  reactivation_verified = false;
}

pub data DiscoverySource : Type 0 where
  thread_started activation_status reconciliation : DiscoverySource

pub data SubscriptionState : Type 0 where
  unseen : SubscriptionState
  subscribing : DiscoverySource → ℕ → SubscriptionState
  subscribed : SubscriptionState
  retry_wait : ℕ → SubscriptionState
  ephemeral capacity_degraded released : SubscriptionState
  failed : String → SubscriptionState

pub data DiscoveryOutcome : Type 0 where
  subscribed already_managed ephemeral capacity_degraded : DiscoveryOutcome
  failed : String → DiscoveryOutcome

pub data IngestError (V : Type 0) : Type 0 where
  request : RequestError V → IngestError V
  malformed_list : IngestError V

-- The ingestor with the parts of the reducer and of the store that it writes.
pub record ThreadIngestor (V : Type 0) : Type 0 where
  pub client : Client V
  pub reducer : ReducerState V
  pub config : IngestConfig
  pub states : Map String SubscriptionState
  pub watermark : ℕ
  pub reactivation_verified : Bool
  pub store : Option (Inner V)

module _ {V : Type 0} where
  abbrev pub new_ingestor : Client V → ReducerState V → IngestConfig → ThreadIngestor V
  new_ingestor client reducer config = record {
    client = client;
    reducer = reducer;
    config = config;
    states = [];
    watermark = 0;
    reactivation_verified = config.reactivation_verified;
    store = none;
  }

  abbrev pub with_store : Inner V → ThreadIngestor V → ThreadIngestor V
  with_store store i = record i { store = some store }

  unfoldable pub state : String → ThreadIngestor V → SubscriptionState
  state thread_id i = get_or (lookup thread_id i.states) SubscriptionState.unseen

  abbrev pub set_reactivation_verified : Bool → ThreadIngestor V → ThreadIngestor V
  set_reactivation_verified verified i = record i { reactivation_verified = verified }

-- `Subscribed`, `Subscribing` or `RetryWait`
abbrev pub is_managed : SubscriptionState → Bool
is_managed SubscriptionState.subscribed = true
is_managed (SubscriptionState.subscribing source attempt) = true
is_managed (SubscriptionState.retry_wait attempt) = true
is_managed SubscriptionState.unseen = false
is_managed SubscriptionState.ephemeral = false
is_managed SubscriptionState.capacity_degraded = false
is_managed SubscriptionState.released = false
is_managed (SubscriptionState.failed detail) = false
