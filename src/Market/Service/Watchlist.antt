-- ===== src/Market/Service/Watchlist.antt =====
-- `refresh_watchlist` and `refresh_bars` of services/api/app/market/service.py. The two nested
-- loops of the first are one loop over its rounds: opening a stream and waiting for its next quote.
use event_alpha.Prelude.{
  ℕ, zero, suc, ◌+◌, ◌-◌, String, Bool, true, false, not, List, ◌∷◌, Option, none, some, ltb, leb,
  if◌then◌else◌,
}
use event_alpha.Errors.{
  Exc, Result, ok, err, value_error, runtime_error, stop_async_iteration, market_persistence_error,
  type_name, is_transient,
}
use event_alpha.Exec.{Exec, ◌>>=◌, ◌>>◌, pure, raise, catch}
use event_alpha.Contracts.Time.{Instant}
use event_alpha.Contracts.Market.{MarketQuote}
use event_alpha.Market.Interface.{MarketPersistence, MarketDataProvider}
use event_alpha.Market.Service.{
  World, Settings, stored, provided, now, save_quote, record_success, remember,
}

-- The local variables of the loop; `streaming` says that a stream is open.
pub record Progress : Type 0 where
  pub count : ℕ
  pub last_message : Option Instant
  pub consecutive_failures : ℕ
  pub reconnect_pending : Bool
  pub streaming : Bool

abbrev pub start : Progress
start = record {
  count = 0;
  last_message = none;
  consecutive_failures = 0;
  reconnect_pending = false;
  streaming = false;
}

-- received_at if last_message is None else max(last_message, received_at)
abbrev pub later_of : Option Instant → Instant → Instant
later_of none t = t
later_of (some s) t = if ltb s t then t else s

-- After a round the loop goes on, or the call ends with a result.
pub data Next : Type 0 where
  more : Progress → Next
  done : Result ℕ → Next

module _ (persistence : MarketPersistence) (provider : MarketDataProvider)
    (settings : Settings) where
  abbrev WorldOf : Type 0
  WorldOf = World persistence provider

  -- self._provider.stream_quotes(symbols), unless a stream is open, and anext(stream)
  unfoldable pub pull : List String → Bool → Exec WorldOf MarketQuote
  pull symbols true = provided persistence provider provider.anext
  pull symbols false = do
    provided persistence provider (provider.stream_quotes symbols)
    provided persistence provider provider.anext

  -- The rest of the body of the loop: the quote is saved, then the success is recorded, and only
  -- then is the quote shown.
  unfoldable pub publish : Progress → MarketQuote → Exec WorldOf Progress
  publish progress quote = do
    save_quote persistence provider settings quote
    let last_message = later_of progress.last_message quote.received_at
    record_success persistence provider settings (some last_message) progress.reconnect_pending
    remember persistence provider settings quote
    pure (record {
      count = progress.count + 1;
      last_message = some last_message;
      consecutive_failures = 0;
      reconnect_pending = false;
      streaming = true;
    })

  -- The record of a transient failure: an error on the way is raised as MarketPersistenceError.
  unfoldable pub note_failure : Exc → Bool → Option Instant → Exec WorldOf (Unit {0})
  note_failure error exhausted last_message =
      if settings.persistent
      then catch
          (do
            at ← now persistence provider settings
            stored persistence provider (
                persistence.record_failure provider.name at (type_name error) exhausted
                  last_message))
          (λ persistence_error. raise (market_persistence_error persistence_error))
      else pure tt

  -- self._sleeper(self._backoff(attempt))
  unfoldable pub sleep : ℕ → WorldOf → WorldOf
  sleep attempt w = record w { sleeps = attempt ∷ w.sleeps }

  unfoldable pub on_noted : Exc → Bool → Progress → Result (Unit {0}) → WorldOf → Next × WorldOf
  unfolding sleep
  on_noted error exhausted progress (err e) w = (done (err e), w)
  on_noted error true progress (ok _) w = (done (err error), w)
  on_noted error false progress (ok _) w =
      (more progress, sleep (progress.consecutive_failures - 1) w)

  -- `except TRANSIENT_MARKET_ERRORS as error`
  unfoldable pub on_transient : ℕ → Exc → Progress → WorldOf → Next × WorldOf
  unfolding on_noted
  on_transient attempts error progress w =
      let failures = progress.consecutive_failures + 1 in
      let exhausted = leb attempts failures in
      let (noted, w') = note_failure error exhausted progress.last_message w in
      on_noted error exhausted
        (record progress {
          consecutive_failures = failures;
          reconnect_pending = true;
          streaming = false;
        })
        noted w'

  abbrev pub is_stop : Exc → Bool
  is_stop stop_async_iteration = true
  is_stop _ = false

  unfoldable pub on_result : ℕ → Progress → Result Progress → WorldOf → Next × WorldOf
  on_result attempts progress (ok next) w = (more next, w)
  on_result attempts progress (err error) w =
      if is_stop error
      then (done (ok progress.count), w)
      else if is_transient error
      then on_transient attempts error progress w
      else (done (err error), w)

  -- One round of the loop.
  unfoldable pub round : List String → ℕ → Progress → WorldOf → Next × WorldOf
  round symbols attempts progress w =
      let (r, w') = (pull symbols progress.streaming >>= publish progress) w in
      on_result attempts progress r w'

  -- The loop, for at most `fuel` rounds: `none` means that it has not ended.
  unfoldable pub loop : ℕ → List String → ℕ → Next → WorldOf → Option (Result ℕ × WorldOf)
  loop fuel symbols attempts (done r) w = some (r, w)
  loop zero symbols attempts (more progress) w = none
  loop (suc fuel) symbols attempts (more progress) w =
      let (next, w') = round symbols attempts progress w in loop fuel symbols attempts next w'

  -- `refresh_watchlist`
  unfoldable pub refresh_watchlist : ℕ → List String → ℕ → WorldOf → Option (Result ℕ × WorldOf)
  refresh_watchlist fuel symbols attempts w =
      if not settings.provider_reads_enabled
      then some (err runtime_error, w)
      else if ltb attempts 1
      then some (err value_error, w)
      else loop fuel symbols attempts (more start) w
