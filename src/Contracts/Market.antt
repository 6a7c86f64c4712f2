-- ===== src/Contracts/Market.antt =====
-- MarketBar, MarketQuote and ProviderHealth of services/api/app/contracts.py.
use event_alpha.Prelude.{
  ℕ, String, Bool, true, false, not, ◌&&◌, ◌||◌, Option, none, some, leb, is_none,
}
use event_alpha.Prelude.Int.{ℤ, pos, ltb_ℤ, max_ℤ, min_ℤ}
use event_alpha.Errors.{Result, ok, value_error, require, ◌>>◌}
use event_alpha.Contracts.Base.{
  Uuid, ProviderStatus, length_between, optional_length, symbol_pattern,
}
use event_alpha.Contracts.Time.{Instant}

-- A price in units of 10^-10, the scale of the NUMERIC(28, 10) columns.
abbrev pub Decimal : Type 0
Decimal = ℤ

-- Literal["1m", "5m", "15m", "1h", "1d"]
pub data MarketTimeframe : Type 0 where
  m1 m5 m15 h1 d1 : MarketTimeframe

pub record MarketBar : Type 0 where
  pub id : Uuid
  pub trace_id : Uuid
  pub provider : String
  pub native_id : Option String
  pub symbol : String
  pub timeframe : MarketTimeframe
  pub timestamp : Instant
  pub bar_end_at : Instant
  pub provider_updated_at : Option Instant
  pub received_at : Instant
  pub processed_at : Instant
  pub is_final : Bool
  pub open_price : Decimal
  pub high : Decimal
  pub low : Decimal
  pub close : Decimal
  pub volume : Option ℤ

-- Field(gt=0), and Field(default=None, ge=0)
abbrev gt_zero : Decimal → Bool
gt_zero d = ltb_ℤ (pos 0) d

abbrev optional_gt_zero : Option Decimal → Bool
optional_gt_zero none = true
optional_gt_zero (some d) = gt_zero d

abbrev pub optional_ge_zero : Option ℤ → Bool
optional_ge_zero none = true
optional_ge_zero (some n) = not (ltb_ℤ n (pos 0))

-- The field constraints of a bar. `timeframe` and the timestamps are constrained by their types.
unfoldable pub bar_fields : MarketBar → Bool
bar_fields b =
    length_between 1 100 b.provider
    && optional_length 500 b.native_id
    && symbol_pattern b.symbol
    && gt_zero b.open_price
    && gt_zero b.high
    && gt_zero b.low
    && gt_zero b.close
    && optional_ge_zero b.volume

-- `validate_ohlc_bounds`
unfoldable pub validate_ohlc_bounds : MarketBar → Result MarketBar
validate_ohlc_bounds b = do
  require (not (leb b.bar_end_at b.timestamp)) value_error
  require
      (not (ltb_ℤ b.high (max_ℤ b.open_price b.close) || ltb_ℤ (min_ℤ b.open_price b.close) b.low))
      value_error
  require (not (ltb_ℤ b.high b.low)) value_error
  ok b

unfoldable pub validate_bar : MarketBar → Result MarketBar
validate_bar b = do require (bar_fields b) value_error; validate_ohlc_bounds b

pub record MarketQuote : Type 0 where
  pub id : Uuid
  pub trace_id : Uuid
  pub symbol : String
  pub native_id : Option String
  pub bid : Option Decimal
  pub ask : Option Decimal
  pub last : Option Decimal
  pub provider_timestamp : Option Instant
  pub received_at : Instant
  pub processed_at : Instant
  pub provider : String

unfoldable pub quote_fields : MarketQuote → Bool
quote_fields q =
    symbol_pattern q.symbol
    && optional_length 500 q.native_id
    && optional_gt_zero q.bid
    && optional_gt_zero q.ask
    && optional_gt_zero q.last

-- self.bid is not None and self.ask is not None and self.bid > self.ask
abbrev pub is_crossed : Option Decimal → Option Decimal → Bool
is_crossed (some bid) (some ask) = ltb_ℤ ask bid
is_crossed _ _ = false

-- `validate_spread`
unfoldable pub validate_spread : MarketQuote → Result MarketQuote
validate_spread q = do
  require (not (is_crossed q.bid q.ask)) value_error
  require (not (is_none q.bid && is_none q.ask && is_none q.last)) value_error
  ok q

unfoldable pub validate_quote : MarketQuote → Result MarketQuote
validate_quote q = do require (quote_fields q) value_error; validate_spread q

-- `freshness_ms` is constrained by its type.
pub record ProviderHealth : Type 0 where
  pub name : String
  pub status : ProviderStatus
  pub last_message_at : Option Instant
  pub freshness_ms : Option ℕ
  pub detail : Option String
