-- ===== src/Market/Service/Bars.antt =====
-- `refresh_bars` of services/api/app/market/service.py.
use event_alpha.Prelude.{
  ℕ, zero, suc, ◌+◌, ◌-◌, String, Bool, not, List, [], ◌∷◌, Option, none, some, ltb, ◌==◌, length,
  if◌then◌else◌,
}
use event_alpha.Errors.{Exc, Result, ok, err, value_error, runtime_error, type_name, is_transient}
use event_alpha.Exec.{Exec, ◌>>=◌, ◌>>◌, pure, raise}
use event_alpha.Contracts.Market.{MarketBar, MarketTimeframe}
use event_alpha.Market.Interface.{MarketPersistence, MarketDataProvider}
use event_alpha.Market.Service.{
  World, Settings, stored, provided, now, save_bars, record_success, timeframe_of,
}
use event_alpha.Market.Service.Watchlist.{sleep}

module _ (persistence : MarketPersistence) (provider : MarketDataProvider)
    (settings : Settings) where
  abbrev WorldOf : Type 0
  WorldOf = World persistence provider

  -- The record of a failed attempt. Here an error of the persistence is raised as it is.
  unfoldable pub note_attempt : Exc → Bool → Exec WorldOf (Unit {0})
  note_attempt error exhausted =
      if settings.persistent
      then (do
        at ← now persistence provider settings
        stored persistence provider
            (persistence.record_failure provider.name at (type_name error) exhausted none))
      else pure tt

  -- self._sleeper(self._backoff(attempt)), and the next attempts
  unfoldable pub sleep_then : ℕ → Exec WorldOf ℕ → Exec WorldOf ℕ
  unfolding sleep
  sleep_then attempt rest w = rest (sleep persistence provider settings attempt w)

  unfoldable pub on_fetched : ℕ → ℕ → Exec WorldOf ℕ → Result (List MarketBar) → Exec WorldOf ℕ
  unfolding note_attempt sleep_then
  on_fetched attempts attempt rest (ok bars) = do
    save_bars persistence provider settings bars
    record_success persistence provider settings none (ltb 0 attempt)
    pure (length bars)
  on_fetched attempts attempt rest (err error) =
      if is_transient error
      then (do
        let exhausted = attempt == attempts - 1
        note_attempt error exhausted
        if exhausted then raise error else sleep_then attempt rest)
      else raise error

  -- The attempts for one symbol, of which `left` are left: the number of bars that were fetched.
  unfoldable pub fetch : ℕ → MarketTimeframe → ℕ → ℕ → ℕ → String → Exec WorldOf ℕ
  fetch attempts timeframe limit zero attempt symbol w = pure 0 w
  fetch attempts timeframe limit (suc left) attempt symbol w =
      let rest = fetch attempts timeframe limit left (attempt + 1) symbol in
      let (r, w') = provided persistence provider (provider.bars symbol timeframe limit) w in
      on_fetched attempts attempt rest r w'

  -- The loop over the symbols.
  unfoldable pub fetch_each : ℕ → MarketTimeframe → ℕ → ℕ → List String → Exec WorldOf ℕ
  fetch_each attempts timeframe limit count [] = pure count
  fetch_each attempts timeframe limit count (symbol ∷ symbols) = do
    fetched ← fetch attempts timeframe limit attempts 0 symbol
    fetch_each attempts timeframe limit (count + fetched) symbols

  abbrev pub supported : List String → ℕ → ℕ → Option MarketTimeframe → Exec WorldOf ℕ
  supported symbols limit attempts none = raise value_error
  supported symbols limit attempts (some timeframe) =
      if ltb attempts 1 then raise value_error else fetch_each attempts timeframe limit 0 symbols

  -- `refresh_bars`
  unfoldable pub refresh_bars : List String → String → ℕ → ℕ → Exec WorldOf ℕ
  unfolding fetch_each
  refresh_bars symbols timeframe limit attempts =
      if not settings.provider_reads_enabled
      then raise runtime_error
      else supported symbols limit attempts (timeframe_of timeframe)
