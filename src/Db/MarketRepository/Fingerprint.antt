-- ===== src/Db/MarketRepository/Fingerprint.antt =====
-- `_fingerprint`, `quote_fingerprint` and `bar_fingerprint` of
-- services/api/app/db/market_repository.py.
use Prim.Native.String.{◌++◌}
use event_alpha.Prelude.{String, Bool, true, false, List, [], ◌∷◌, Option, none, some, or_else}
use event_alpha.Prelude.Int.{ℤ}
use event_alpha.Contracts.Time.{Instant}
use event_alpha.Contracts.Event.{Digest}
use event_alpha.Contracts.Market.{
  Decimal, MarketBar, MarketQuote, MarketTimeframe, m1, m5, m15, h1, d1,
}

-- What the program takes from Python's text and hashing functions: the SHA-256 digest of a text in
-- UTF-8, isoformat(timespec="microseconds") in UTC, format(value.normalize(), "f"), str of an
-- int, and str.upper.
pub record Runtime : Type 0 where
  pub sha256 : String → Digest
  pub iso_text : Instant → String
  pub plain_text : Decimal → String
  pub int_text : ℤ → String
  pub upper : String → String

-- "\x1f".join(parts)
unfoldable pub join : List String → String
join [] = ""
join (part ∷ []) = part
join (part ∷ part' ∷ parts) = part ++ ("\u{1f}" ++ join (part' ∷ parts))

abbrev pub timeframe_text : MarketTimeframe → String
timeframe_text m1 = "1m"
timeframe_text m5 = "5m"
timeframe_text m15 = "15m"
timeframe_text h1 = "1h"
timeframe_text d1 = "1d"

abbrev pub bool_text : Bool → String
bool_text true = "True"
bool_text false = "False"

abbrev or_null : {A : Type 0} → (A → String) → Option A → String
or_null text none = "null"
or_null text (some a) = text a

module _ (runtime : Runtime) where
  open runtime use {sha256, iso_text, plain_text, int_text}

  unfoldable pub fingerprint : List String → Digest
  fingerprint parts = sha256 (join parts)

  -- `_decimal_text`
  unfoldable pub decimal_text : Option Decimal → String
  decimal_text = or_null plain_text

  -- `_time_text`
  unfoldable pub time_text : Option Instant → String
  time_text = or_null iso_text

  unfoldable pub quote_fingerprint : MarketQuote → Digest
  quote_fingerprint quote =
      let effective_time = or_else quote.provider_timestamp quote.received_at in
      fingerprint (
        quote.provider
        ∷ quote.symbol
        ∷ or_else quote.native_id ""
        ∷ time_text (some effective_time)
        ∷ decimal_text quote.bid
        ∷ decimal_text quote.ask
        ∷ decimal_text quote.last
        ∷ [])

  unfoldable pub bar_fingerprint : MarketBar → Digest
  bar_fingerprint bar = fingerprint (
      bar.provider
      ∷ bar.symbol
      ∷ timeframe_text bar.timeframe
      ∷ time_text (some bar.timestamp)
      ∷ time_text (some bar.bar_end_at)
      ∷ decimal_text (some bar.open_price)
      ∷ decimal_text (some bar.high)
      ∷ decimal_text (some bar.low)
      ∷ decimal_text (some bar.close)
      ∷ or_null int_text bar.volume
      ∷ bool_text bar.is_final
      ∷ [])
