-- ===== src/Db/Schema.antt =====
-- The rows of services/api/app/db/models.py, and the CHECK constraints on them. The columns for
-- times hold instants: how a dialect gives them back is `Dialect`.
use event_alpha.Prelude.{ℕ, String, Bool, ◌≡◌, ◌<◌, ◌⊎◌, ◌≢◌, List, Option, none, some, arith}
use event_alpha.Prelude.Int.{ℤ, pos, ◌≤ℤ◌, ◌<ℤ◌}
use event_alpha.Contracts.{Uuid, ProviderStatus, StoragePolicy}
use event_alpha.Contracts.Time.{Instant, DateTime, naive, aware}
use event_alpha.Contracts.Market.{Decimal, MarketTimeframe}
use event_alpha.Contracts.Event.{Digest, Hundredths}

pub record SourceRow : Type 0 where
  pub source_id : String
  pub provider : String
  pub source_type : String
  pub credibility_prior : Hundredths
  pub storage_policy : StoragePolicy

pub record RawItemRow : Type 0 where
  pub id : Uuid
  pub trace_id : Uuid
  pub provider : String
  pub source_id : String
  pub native_id : Option String
  pub event_time : Option Instant
  pub published_at : Option Instant
  pub received_at : Instant
  pub processed_at : Instant
  pub title : String
  pub url : String
  pub language : String
  pub category : String
  pub content_hash : Digest
  pub storage_policy : StoragePolicy
  pub independence_group : Option String
  pub derived_attributes : List (String × String)

pub record EventRow : Type 0 where
  pub event_id : Uuid
  pub event_version : ℕ
  pub version_created_at : Instant
  pub clustering_version : String
  pub canonical_title : String
  pub event_type : String
  pub event_time : Option Instant
  pub first_received_at : Instant
  pub last_updated_at : Instant
  pub language : String
  pub novelty : Hundredths
  pub source_independence : Hundredths

pub record EventMentionRow : Type 0 where
  pub raw_item_id : Uuid
  pub event_id : Uuid
  pub event_version : ℕ
  pub source_id : String
  pub independence_group : String
  pub published_at : Option Instant
  pub received_at : Instant

pub record ProviderRow : Type 0 where
  pub provider_id : String
  pub provider_type : String
  pub created_at : Instant

pub record InstrumentRow : Type 0 where
  pub symbol : String
  pub asset_class : String
  pub active : Bool
  pub created_at : Instant

pub record MarketBarRow : Type 0 where
  pub content_hash : Digest
  pub observation_id : Uuid
  pub trace_id : Uuid
  pub provider : String
  pub native_id : Option String
  pub symbol : String
  pub timeframe : MarketTimeframe
  pub bar_start_at : Instant
  pub bar_end_at : Instant
  pub provider_updated_at : Option Instant
  pub received_at : Instant
  pub processed_at : Instant
  pub is_final : Bool
  pub open_price : Decimal
  pub high : Decimal
  pub low : Decimal
  pub close : Decimal
  pub volume : Option ℤ

pub record MarketQuoteRow : Type 0 where
  pub content_hash : Digest
  pub observation_id : Uuid
  pub trace_id : Uuid
  pub provider : String
  pub native_id : Option String
  pub symbol : String
  pub bid : Option Decimal
  pub ask : Option Decimal
  pub last : Option Decimal
  pub provider_timestamp : Option Instant
  pub received_at : Instant
  pub processed_at : Instant

pub record ProviderStateRow : Type 0 where
  pub provider_id : String
  pub heartbeat_at : Instant
  pub last_message_received_at : Option Instant
  pub last_success_at : Option Instant
  pub last_failure_at : Option Instant
  pub consecutive_failures : ℕ
  pub reconnect_count : ℕ
  pub status : ProviderStatus
  pub detail : Option String

-- `column IS NULL OR p`
abbrev pub NullOr : {A : Type 0} → (A → Type 0) → Option A → Type 0
NullOr P none = Unit
NullOr P (some a) = P a

-- `bid IS NULL OR ask IS NULL OR bid <= ask`
abbrev pub Uncrossed : Option Decimal → Option Decimal → Type 0
Uncrossed (some bid) (some ask) = bid ≤ℤ ask
Uncrossed _ _ = Unit

-- ck_market_bar_interval, ck_market_bar_high, ck_market_bar_low and ck_market_bar_volume
pub record BarChecks (row : MarketBarRow) : Type 0 where
  pub interval : row.bar_start_at < row.bar_end_at
  pub high_bound : (row.open_price ≤ℤ row.high) × (row.close ≤ℤ row.high) × (row.low ≤ℤ row.high)
  pub low_bound : (row.low ≤ℤ row.open_price) × (row.low ≤ℤ row.close) × (row.low ≤ℤ row.high)
  pub volume_bound : NullOr (λ n. pos 0 ≤ℤ n) row.volume

-- ck_market_quote_bid, ..._ask, ..._last, ..._spread and ..._has_price
pub record QuoteChecks (row : MarketQuoteRow) : Type 0 where
  pub bid_bound : NullOr (λ d. pos 0 <ℤ d) row.bid
  pub ask_bound : NullOr (λ d. pos 0 <ℤ d) row.ask
  pub last_bound : NullOr (λ d. pos 0 <ℤ d) row.last
  pub spread : Uncrossed row.bid row.ask
  pub has_price : (row.bid ≢ none) ⊎ (row.ask ≢ none) ⊎ (row.last ≢ none)

-- How a dialect gives the instant of a column back: SQLite as a naive datetime in UTC, PostgreSQL
-- as an aware one with the offset of its session.
pub record Dialect : Type 0 where
  pub column : Instant → DateTime
  pub column_lem :
      (t : Instant) → (column t ≡ naive t) ⊎ ((offset : ℤ) × (column t ≡ aware t offset))

-- `_utc`: a naive datetime is taken to be in UTC.
unfoldable pub utc : DateTime → Instant
utc (naive wall) = wall
utc (aware at offset) = at

unfoldable pub utc_optional : Option DateTime → Option Instant
unfolding utc
utc_optional none = none
utc_optional (some value) = some (utc value)

module _ (dialect : Dialect) where
  open dialect use {column, column_lem}

  pub utc-column : (t : Instant) → utc (column t) ≡ t
  unfolding utc
  utc-column t = ground (arith, column_lem t)
