-- ===== src/Market/Service.antt =====
-- MarketDataService of services/api/app/market/service.py: the reads, the saves and the errors of
-- the persistence. The watchlist and bar refreshes are in the child modules.
pub mod Watchlist
pub mod Frame
pub mod Durability
pub mod Durable
pub mod ReadOnly
pub mod Repository
pub mod Bars
pub mod Health
pub mod Latest
pub mod Unmoved
pub mod Calm
pub mod Retries
pub mod Attempts
use event_alpha.Prelude.{
  ℕ, ◌+◌, ◌*◌, ◌^◌, String, Bool, true, false, not, ◌&&◌, List, [], ◌∷◌, Option, none, some,
  or_else, str_eq, ltb, if◌then◌else◌,
}
use Prim.Native.Nat.{min}
use Prim.Native.String.{◌++◌}
use event_alpha.Prelude.Order.{lex_le}
use event_alpha.Errors.{
  Exc, Result, ok, err, value_error, runtime_error, key_error, market_persistence_error, type_name,
  is_transient,
}
use event_alpha.Exec.{Exec, after, ◌>>=◌, ◌>>◌, pure, raise, handled, catch}
use event_alpha.Contracts.Time.{Instant, DateTime, naive, aware}
use event_alpha.Contracts.Market.{
  MarketBar, MarketQuote, MarketTimeframe, ProviderHealth, m1, m5, m15, h1, d1,
}
use event_alpha.Market.Interface.{MarketPersistence, MarketDataProvider}

-- `_default_backoff`, in milliseconds: `jitter` is the value of randbelow(51).
unfoldable pub default_backoff : ℕ → ℕ → ℕ
default_backoff jitter attempt =
    let delay = 100 * 2 ^ attempt + jitter in if ltb delay 1000 then delay else 1000

-- A timeframe is one of the supported texts, or is refused.
unfoldable pub timeframe_of : String → Option MarketTimeframe
timeframe_of text =
    if str_eq text "1m"
    then some m1
    else if str_eq text "5m"
    then some m5
    else if str_eq text "15m"
    then some m15
    else if str_eq text "1h"
    then some h1
    else if str_eq text "1d"
    then some d1
    else none

-- The arguments of the constructor. `persistent` says that a persistence is given; `clock` gives
-- the successive readings of the clock.
pub record Settings : Type 0 where
  pub persistent : Bool
  pub provider_reads_enabled : Bool
  pub clock : ℕ → DateTime
  pub upper : String → String

-- `_quote_rank`
unfoldable pub rank_of_quote : MarketQuote → List ℕ
rank_of_quote quote =
    or_else quote.provider_timestamp quote.received_at ∷ quote.received_at ∷ quote.id ∷ []

-- The dict `_latest`, by symbol.
abbrev pub Quotes : Type 0
Quotes = List (String × MarketQuote)

unfoldable pub get : String → Quotes → Option MarketQuote
get symbol [] = none
get symbol ((s, quote) ∷ rest) = if str_eq s symbol then some quote else get symbol rest

-- `_remember_quote`: a quote takes the place of the current one only if it ranks above it.
abbrev pub is_newer : MarketQuote → Option MarketQuote → Bool
is_newer quote none = true
is_newer quote (some current) = not (lex_le (rank_of_quote quote) (rank_of_quote current))

unfoldable pub remember_quote : MarketQuote → Quotes → Quotes
remember_quote quote latest =
    if is_newer quote (get quote.symbol latest) then (quote.symbol, quote) ∷ latest else latest

module _ (persistence : MarketPersistence) (provider : MarketDataProvider) where
  -- What a service has and changes: the persistence, the provider, the number of readings that
  -- were taken of the clock, the quotes that it shows, and the attempts for which it has slept, the
  -- latest first.
  pub record World : Type 0 where
    pub store : persistence.S
    pub source : provider.P
    pub ticks : ℕ
    pub latest : Quotes
    pub sleeps : List ℕ

  -- A call of the persistence, and one of the provider.
  abbrev pub stored : {A : Type 0} → Exec persistence.S A → Exec World A
  stored m w = let (r, store) = m w.store in (r, record w { store = store })

  abbrev pub provided : {A : Type 0} → Exec provider.P A → Exec World A
  provided m w = let (r, source) = m w.source in (r, record w { source = source })

  module _ (settings : Settings) where
    -- `_now`
    abbrev pub reading : DateTime → Result Instant
    reading (naive wall) = err value_error
    reading (aware at offset) = ok at

    unfoldable pub now : Exec World Instant
    now w = (reading (settings.clock w.ticks), record w { ticks = w.ticks + 1 })

    -- `_raise_persistence_failure`: the failure is recorded if it can be, and the error that is
    -- raised is always MarketPersistenceError.
    unfoldable pub raise_persistence_failure : {A : Type 0} → Exc → Option Instant → Exec World A
    unfolding now
    raise_persistence_failure error last_message =
        if settings.persistent
        then (do
          catch
              (do
                at ← now
                stored (
                    persistence.record_failure provider.name at ("persistence:" ++ type_name error)
                      true last_message))
              (λ _. pure tt)
          raise (market_persistence_error error))
        else raise (market_persistence_error error)

    -- `_save_quote`
    unfoldable pub save_quote : MarketQuote → Exec World (Unit {0})
    unfolding raise_persistence_failure
    save_quote quote =
        if settings.persistent
        then catch (do stored (persistence.save_quote quote); pure tt)
            (λ error. raise_persistence_failure error (some quote.received_at))
        else pure tt

    -- max((bar.received_at for bar in bars), default=None)
    abbrev pub last_received : Option Instant → List MarketBar → Option Instant
    last_received t [] = t
    last_received none (bar ∷ bars) = last_received (some bar.received_at) bars
    last_received (some t) (bar ∷ bars) =
        last_received (some (if ltb t bar.received_at then bar.received_at else t)) bars

    -- `_save_bars`
    unfoldable pub save_bars : List MarketBar → Exec World (Unit {0})
    unfolding raise_persistence_failure
    save_bars bars =
        if settings.persistent
        then catch (do stored (persistence.save_bars bars); pure tt)
            (λ error. raise_persistence_failure error (last_received none bars))
        else pure tt

    -- `_record_success`
    unfoldable pub record_success : Option Instant → Bool → Exec World (Unit {0})
    unfolding raise_persistence_failure now
    record_success last_message reconnected =
        if settings.persistent
        then catch
            (do
              at ← now
              stored (persistence.record_success provider.name at last_message reconnected))
            (λ error. raise_persistence_failure error last_message)
        else pure tt

    unfoldable pub remember : MarketQuote → Exec World (Unit {0})
    remember quote w = (ok tt, record w { latest = remember_quote quote w.latest })

    -- Reads come from the persistence where there is one and provider reads are disabled.
    abbrev pub reads_stored : Bool
    reads_stored = settings.persistent && not settings.provider_reads_enabled

    abbrev pub found_or_raise : String → Option MarketQuote → Exec World MarketQuote
    found_or_raise symbol none = raise (key_error symbol)
    found_or_raise symbol (some quote) = pure quote

    -- `latest`
    unfoldable pub latest : String → Option Instant → Exec World MarketQuote
    unfolding save_quote remember
    latest symbol as_of =
        let normalized = settings.upper symbol in
        if reads_stored
        then (do
          read ← stored (persistence.latest_quote provider.name normalized as_of)
          quote ← found_or_raise normalized read
          remember quote
          pure quote)
        else (do
          quote ← provided (provider.latest_quote normalized)
          save_quote quote
          remember quote
          pure quote)

    abbrev pub bars_in :
        String → ℕ → Option Instant → Option MarketTimeframe → Exec World (List MarketBar)
    bars_in normalized limit as_of none = raise value_error
    bars_in normalized limit as_of (some timeframe) =
        if reads_stored
        then stored (persistence.bars provider.name normalized timeframe limit as_of true)
        else (do
          bars ← provided (provider.bars normalized timeframe limit)
          save_bars bars
          pure bars)

    -- `bars`
    unfoldable pub bars : String → String → ℕ → Option Instant → Exec World (List MarketBar)
    unfolding save_bars timeframe_of
    bars symbol timeframe limit as_of =
        bars_in (settings.upper symbol) limit as_of (timeframe_of timeframe)
