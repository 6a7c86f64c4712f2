-- ===== src/Market/Service/ReadOnly.antt =====
-- A service of services/api/app/market/service.py with a persistence and no provider reads.
use event_alpha.Prelude.{ℕ, ◌≡◌, refl, ◌∙◌, String, true, false, List, Option, none, some}
use event_alpha.Errors.{Result, ok, err, runtime_error}
use event_alpha.Exec.{Exec, after, after_both, ◌>>=◌, ◌>>◌, pure}
use event_alpha.Contracts.Time.{Instant}
use event_alpha.Contracts.Market.{MarketQuote, MarketTimeframe}
use event_alpha.Db.MarketRepository.State.{StoredMarketProviderState}
use event_alpha.Market.Freshness.{Doubles}
use event_alpha.Market.Interface.{MarketPersistence, MarketDataProvider}
use event_alpha.Market.Service.{
  World, Settings, stored, now, latest, bars, remember, reads_stored, timeframe_of, found_or_raise,
  bars_in, reading,
}
use event_alpha.Market.Service.Bars.{refresh_bars}
use event_alpha.Market.Service.Health.{health, observed, health_of}
use event_alpha.Market.Service.Watchlist.{refresh_watchlist}

module _ (doubles : Doubles) (persistence : MarketPersistence) (provider : MarketDataProvider)
    (settings : Settings) (persistent : settings.persistent ≡ true)
    (read_only : settings.provider_reads_enabled ≡ false) where
  abbrev WorldOf : Type 0
  WorldOf = World persistence provider

  abbrev SameSource : WorldOf → WorldOf → Type 0
  SameSource w w' = w'.source ≡ w.source

  stored_reads : reads_stored persistence provider settings ≡ true
  stored_reads = rw (persistent, read_only) refl

  found-source :
      (symbol : String) (read : Option MarketQuote) (w : WorldOf)
      → let m : Exec WorldOf MarketQuote = do
        quote ← found_or_raise persistence provider settings symbol read
        remember persistence provider settings quote
        pure quote
        in SameSource w (m w).1
  unfolding remember
  found-source symbol none w = refl
  found-source symbol (some quote) w = refl

  found-after :
      (symbol : String) (r : Result (Option MarketQuote)) (w s : WorldOf)
      → SameSource w s
      → SameSource w
          (after r
            (λ read. do
              quote ← found_or_raise persistence provider settings symbol read
              remember persistence provider settings quote
              pure quote)
            s).1
  found-after symbol r w s h =
      after_both SameSource r _ w s h (λ read. found-source symbol read s ∙ h)

  latest-source :
      (symbol : String) (as_of : Option Instant) (w : WorldOf)
      → SameSource w (latest persistence provider settings symbol as_of w).1
  unfolding latest remember
  latest-source symbol as_of w = rw stored_reads (
      let read =
        stored persistence provider
          (persistence.latest_quote provider.name (settings.upper symbol) as_of) w in
      found-after (settings.upper symbol) read.0 w read.1 refl)

  bars_in-source :
      (symbol : String) (limit : ℕ) (as_of : Option Instant) (timeframe : Option MarketTimeframe)
      (w : WorldOf)
      → SameSource w (bars_in persistence provider settings symbol limit as_of timeframe w).1
  bars_in-source symbol limit as_of none w = refl
  bars_in-source symbol limit as_of (some timeframe) w = rw stored_reads refl

  bars-source :
      (symbol timeframe : String) (limit : ℕ) (as_of : Option Instant) (w : WorldOf)
      → SameSource w (bars persistence provider settings symbol timeframe limit as_of w).1
  unfolding bars
  bars-source symbol timeframe limit as_of w =
      bars_in-source (settings.upper symbol) limit as_of (timeframe_of timeframe) w

  answered-source :
      (name : String) (at : Instant) (r : Result (Option StoredMarketProviderState)) (w : WorldOf)
      → SameSource w (after {S = WorldOf} r (λ state. pure (health_of doubles name at state)) w).1
  answered-source name at (ok state) w = refl
  answered-source name at (err e) w = refl

  observed-source :
      (at : Instant) (w : WorldOf)
      → SameSource w (observed doubles persistence provider settings at w).1
  observed-source at w =
      let read = stored persistence provider (persistence.provider_state provider.name) w in
      rw stored_reads (answered-source provider.name at read.0 read.1)

  health-source : (w : WorldOf) → SameSource w (health doubles persistence provider settings w).1
  unfolding health now
  health-source w =
      after_both SameSource (reading persistence provider settings (settings.clock w.ticks))
        (observed doubles persistence provider settings) w _ refl
        (λ at. observed-source at (now persistence provider settings w).1)

  -- A service with a persistence and no provider reads never calls its provider: the provider is left
  -- as it is by `latest`, `bars` and `health`, and both refreshes are refused with RuntimeError at
  -- once, with nothing changed.
  pub read_only_source :
      (symbol timeframe : String) (symbols : List String) (limit attempts fuel : ℕ)
      (as_of : Option Instant) (w : WorldOf)
      → ((latest persistence provider settings symbol as_of w).1.source ≡ w.source)
        × ((bars persistence provider settings symbol timeframe limit as_of w).1.source ≡ w.source)
        × ((health doubles persistence provider settings w).1.source ≡ w.source)
        × (refresh_watchlist persistence provider settings fuel symbols attempts w
            ≡ some (err runtime_error, w))
        × (refresh_bars persistence provider settings symbols timeframe limit attempts w
            ≡ (err runtime_error, w))
  unfolding refresh_watchlist refresh_bars
  read_only_source symbol timeframe symbols limit attempts fuel as_of w = (
    latest-source symbol as_of w,
    bars-source symbol timeframe limit as_of w,
    health-source w,
    rw read_only refl,
    rw read_only refl,
  )
