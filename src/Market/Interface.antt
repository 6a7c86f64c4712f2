-- ===== src/Market/Interface.antt =====
-- The protocols MarketPersistence (services/api/app/market/service.py) and MarketDataProvider
-- (services/api/app/providers/market.py), each over the state of its implementation. Any call may
-- raise.
use event_alpha.Prelude.{ℕ, String, Bool, List, Option}
use event_alpha.Exec.{Exec}
use event_alpha.Contracts.Time.{Instant}
use event_alpha.Contracts.Market.{MarketBar, MarketQuote, MarketTimeframe, ProviderHealth}
use event_alpha.Db.MarketRepository.State.{StoredMarketProviderState}

pub record MarketPersistence : Type 1 where
  pub S : Type 0
  pub save_quote : MarketQuote → Exec S Bool
  pub save_bars : List MarketBar → Exec S ℕ
  pub latest_quote : String → String → Option Instant → Exec S (Option MarketQuote)
  pub bars : String → String → MarketTimeframe → ℕ → Option Instant → Bool → Exec S (List MarketBar)
  pub record_success : String → Instant → Option Instant → Bool → Exec S (Unit {0})
  pub record_failure : String → Instant → String → Bool → Option Instant → Exec S (Unit {0})
  pub provider_state : String → Exec S (Option StoredMarketProviderState)

-- One stream is read at a time, so it is part of the state: `stream_quotes` opens one in place of
-- the one before, and `anext` waits for its next quote, with the idle timeout: it raises
-- StopAsyncIteration at the end of the stream, and a timeout error when nothing comes in time.
pub record MarketDataProvider : Type 1 where
  pub P : Type 0
  pub name : String
  pub latest_quote : String → Exec P MarketQuote
  pub bars : String → MarketTimeframe → ℕ → Exec P (List MarketBar)
  pub stream_quotes : List String → Exec P (Unit {0})
  pub anext : Exec P MarketQuote
  pub health : Instant → Exec P ProviderHealth
