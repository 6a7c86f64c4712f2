-- ===== src/Db/MarketRepository/State.antt =====
-- `record_success`, `record_failure` and `provider_state` of
-- services/api/app/db/market_repository.py.
pub mod Machine
use event_alpha.Prelude.{ℕ, ◌+◌, String, Bool, true, false, Option, none, some, ltb, if◌then◌else◌}
use event_alpha.Contracts.{ProviderStatus, healthy, degraded, unavailable}
use event_alpha.Contracts.Time.{Instant}
use event_alpha.Db.Schema.{ProviderStateRow, Dialect, utc}
use event_alpha.Db.MarketRepository.Base.{MarketSchema, MarketDb, ensure_provider}
use event_alpha.Db.MarketRepository.Quotes.{read_optional}

-- StoredMarketProviderState of services/api/app/market/service.py.
pub record StoredMarketProviderState : Type 0 where
  pub provider_id : String
  pub heartbeat_at : Instant
  pub last_message_received_at : Option Instant
  pub last_success_at : Option Instant
  pub last_failure_at : Option Instant
  pub consecutive_failures : ℕ
  pub reconnect_count : ℕ
  pub status : ProviderStatus
  pub detail : Option String

-- The time of receipt that the row holds after an update: the given one, if there is one and it
-- is later than the stored one, which is read through `_utc`.
unfoldable pub new_message : Dialect → Option Instant → Option Instant → Option Instant
new_message dialect current none = current
new_message dialect none (some given) = some given
new_message dialect (some current) (some given) =
    if ltb (utc (dialect.column current)) given then some given else some current

abbrev pub failure_status : Bool → ProviderStatus
failure_status true = unavailable
failure_status false = degraded

module _ (dialect : Dialect) where
  -- The row after a success: `none` is the first call for the provider.
  unfoldable pub success_row :
      String → Instant → Option Instant → Bool → Option ProviderStateRow → ProviderStateRow
  unfolding new_message
  success_row provider observed_at last_message reconnected none = record {
    provider_id = provider;
    heartbeat_at = observed_at;
    last_message_received_at = last_message;
    last_success_at = some observed_at;
    last_failure_at = none;
    consecutive_failures = 0;
    reconnect_count = if reconnected then 1 else 0;
    status = healthy;
    detail = none;
  }
  success_row provider observed_at last_message reconnected (some state) = record state {
    heartbeat_at = observed_at;
    last_message_received_at = new_message dialect state.last_message_received_at last_message;
    last_success_at = some observed_at;
    consecutive_failures = 0;
    reconnect_count = state.reconnect_count + (if reconnected then 1 else 0);
    status = healthy;
    detail = none;
  }

  -- The row after a failure: `none` is the first call for the provider.
  unfoldable pub failure_row :
      String → Instant → String → Bool → Option Instant → Option ProviderStateRow → ProviderStateRow
  unfolding new_message
  failure_row provider observed_at detail exhausted last_message none = record {
    provider_id = provider;
    heartbeat_at = observed_at;
    last_message_received_at = last_message;
    last_success_at = none;
    last_failure_at = some observed_at;
    consecutive_failures = 1;
    reconnect_count = 0;
    status = failure_status exhausted;
    detail = some detail;
  }
  failure_row provider observed_at detail exhausted last_message (some state) = record state {
    heartbeat_at = observed_at;
    last_message_received_at = new_message dialect state.last_message_received_at last_message;
    last_failure_at = some observed_at;
    consecutive_failures = state.consecutive_failures + 1;
    status = failure_status exhausted;
    detail = some detail;
  }

module _ (schema : MarketSchema) where
  open schema use {dialect, states}

  unfoldable pub record_success :
      String → Instant → Option Instant → Bool → MarketDb schema → MarketDb schema
  record_success provider observed_at last_message reconnected db =
      let ensured = ensure_provider schema provider observed_at db in
      record ensured {
        states =
            states.put
              (success_row dialect provider observed_at last_message reconnected
                (states.get ensured.states provider))
              ensured.states;
      }

  unfoldable pub record_failure :
      String → Instant → String → Bool → Option Instant → MarketDb schema → MarketDb schema
  record_failure provider observed_at detail exhausted last_message db =
      let ensured = ensure_provider schema provider observed_at db in
      record ensured {
        states =
            states.put
              (failure_row dialect provider observed_at detail exhausted last_message
                (states.get ensured.states provider))
              ensured.states;
      }

  unfoldable pub read_state : ProviderStateRow → StoredMarketProviderState
  read_state row = record {
    provider_id = row.provider_id;
    heartbeat_at = utc (dialect.column row.heartbeat_at);
    last_message_received_at = read_optional dialect row.last_message_received_at;
    last_success_at = read_optional dialect row.last_success_at;
    last_failure_at = read_optional dialect row.last_failure_at;
    consecutive_failures = row.consecutive_failures;
    reconnect_count = row.reconnect_count;
    status = row.status;
    detail = row.detail;
  }

  abbrev state_of : Option ProviderStateRow → Option StoredMarketProviderState
  state_of none = none
  state_of (some row) = some (read_state row)

  unfoldable pub provider_state : String → MarketDb schema → Option StoredMarketProviderState
  unfolding read_state
  provider_state provider db = state_of (states.get db.states provider)
