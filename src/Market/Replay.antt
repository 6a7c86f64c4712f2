-- ===== src/Market/Replay.antt =====
-- services/api/app/providers/replay_market.py: the deterministic market data provider, as an
-- implementation of the protocol.
pub mod Bars
pub mod Streams
use Prim.Native.Nat.{min, max}
use Prim.Native.String.{◌++◌}
use event_alpha.Prelude.{
  ℕ, zero, suc, ◌+◌, ◌-◌, ◌*◌, ◌/◌, ◌%◌, String, Bool, true, false, ◌||◌, List, [], ◌∷◌, Option,
  none, some, ltb, leb, str_eq, if◌then◌else◌,
}
use event_alpha.Prelude.Int.{ℤ, pos}
use event_alpha.Errors.{
  Result, ok, err, value_error, key_error, stop_async_iteration, other, ◌>>=◌ as ◌then◌,
}
use event_alpha.Exec.{Exec, after, ◌>>=◌, ◌>>◌, pure, raise}
use event_alpha.Contracts.{Uuid, ProviderStatus, healthy, degraded}
use event_alpha.Contracts.Time.{Instant, DateTime, naive, aware, microseconds_per_second}
use event_alpha.Contracts.Market.{
  Decimal, MarketBar, MarketQuote, MarketTimeframe, m1, ProviderHealth, validate_bar,
  validate_quote,
}
use event_alpha.Market.Freshness.{Doubles, to_ms}
use event_alpha.Market.Interface.{MarketDataProvider}

-- What the provider takes from Python: its clock, by the number of readings taken before,
-- str.upper(), datetime.isoformat() of a time in UTC, uuid5(NAMESPACE_URL, text) and the
-- milliseconds of a timedelta.
pub record ReplayRuntime : Type 0 where
  pub clock : ℕ → DateTime
  pub upper : String → String
  pub isoformat : Instant → String
  pub uuid5 : String → Uuid
  pub doubles : Doubles

abbrev pub minute : ℕ
minute = 60 * microseconds_per_second

-- The minutes between 0001-01-01 and 1970-01-01.
abbrev pub epoch_minute : ℕ
epoch_minute = 719_162 * 1440

-- 0.01, in units of 10 ^ -10
abbrev pub cent : ℕ
cent = 100_000_000

-- int(timestamp.timestamp() // 60) % 100, where the remainder is not negative
unfoldable pub minute_bucket : Instant → ℕ
minute_bucket timestamp = (timestamp / minute + (100 - epoch_minute % 100)) % 100

-- normalized in {"ACME", "SPY"}
unfoldable pub is_replayed : String → Bool
is_replayed symbol = str_eq symbol "ACME" || str_eq symbol "SPY"

-- min(max(limit, 1), 1000)
abbrev pub bar_count : ℕ → ℕ
bar_count limit = min (max limit 1) 1000

-- What a provider has and changes: the readings taken of the clock, the time of its last message
-- and the symbols that are left of the stream that is open.
pub record ReplayState : Type 0 where
  pub ticks : ℕ
  pub last_message_at : Option Instant
  pub stream : List String

module _ (runtime : ReplayRuntime) where
  abbrev pub reading : DateTime → Result Instant
  reading (naive wall) = err value_error
  reading (aware at offset) = ok at

  -- `_now`
  unfoldable pub now : Exec ReplayState Instant
  now s = (reading (runtime.clock s.ticks), record s { ticks = s.ticks + 1 })

  abbrev pub returned : {A : Type 0} → Result A → Exec ReplayState A
  returned r s = (r, s)

  abbrev pub seen : Instant → Exec ReplayState (Unit {0})
  seen at s = (ok tt, record s { last_message_at = some at })

  -- Decimal("101.24") if normalized == "ACME" else Decimal("542.18")
  abbrev pub last_price : String → ℕ
  last_price symbol = if str_eq symbol "ACME" then 10_124 * cent else 54_218 * cent

  unfoldable pub replayed_quote : String → Instant → MarketQuote
  replayed_quote normalized at =
      let last = last_price normalized in
      let native_id = normalized ++ ":" ++ runtime.isoformat at in
      record {
        id = runtime.uuid5 ("eventalpha:quote:" ++ native_id);
        trace_id = runtime.uuid5 ("eventalpha:quote-trace:" ++ native_id);
        symbol = normalized;
        native_id = some native_id;
        bid = some (pos (last - 2 * cent));
        ask = some (pos (last + 2 * cent));
        last = some (pos last);
        provider_timestamp = some at;
        received_at = at;
        processed_at = at;
        provider = "replay-market";
      }

  abbrev quoted : String → Exec ReplayState MarketQuote
  quoted normalized = do at ← now; seen at; returned (validate_quote (replayed_quote normalized at))

  unfoldable pub latest_quote : String → Exec ReplayState MarketQuote
  unfolding now
  latest_quote symbol =
      let normalized = runtime.upper symbol in
      if is_replayed normalized then quoted normalized else raise (key_error normalized)

  -- Decimal("100.00") if normalized == "ACME" else Decimal("540.00")
  abbrev pub anchor_price : String → ℕ
  anchor_price symbol = if str_eq symbol "ACME" then 10_000 * cent else 54_000 * cent

  unfoldable pub replayed_bar : String → Instant → Instant → MarketBar
  replayed_bar normalized received_at timestamp =
      let bucket = minute_bucket timestamp in
      let close = anchor_price normalized + bucket * (8 * cent) in
      let native_id = normalized ++ ":1m:" ++ runtime.isoformat timestamp in
      record {
        id = runtime.uuid5 ("eventalpha:bar:" ++ native_id);
        trace_id = runtime.uuid5 ("eventalpha:bar-trace:" ++ native_id);
        provider = "replay-market";
        native_id = some native_id;
        symbol = normalized;
        timeframe = m1;
        timestamp = timestamp;
        bar_end_at = timestamp + minute;
        provider_updated_at = some received_at;
        received_at = received_at;
        processed_at = received_at;
        is_final = true;
        open_price = pos (close - 3 * cent);
        high = pos (close + 5 * cent);
        low = pos (close - 6 * cent);
        close = pos close;
        volume = some (pos (10_000 + bucket * 100));
      }

  -- now - timedelta(minutes=n): a time before the year 1 is an error.
  abbrev pub before : Instant → ℕ → Result Instant
  before present n =
      if ltb present (n * minute) then err (other "OverflowError") else ok (present - n * minute)

  -- The loop, for the bars that are `left` minutes and less before the present one.
  unfoldable pub replayed_bars : String → Instant → Instant → ℕ → Result (List MarketBar)
  unfolding replayed_bar
  replayed_bars normalized received_at present zero = ok []
  replayed_bars normalized received_at present (suc left) =
      let rest = replayed_bars normalized received_at present left in
      before present (suc left) then λ timestamp.
      validate_bar (replayed_bar normalized received_at timestamp) then λ bar.
      rest then λ bars. ok (bar ∷ bars)

  abbrev replayed_at : String → ℕ → Exec ReplayState (List MarketBar)
  replayed_at normalized limit = do
    received_at ← now
    returned (
        replayed_bars normalized received_at (received_at - received_at % minute) (bar_count limit))

  unfoldable pub bars : String → MarketTimeframe → ℕ → Exec ReplayState (List MarketBar)
  unfolding now
  bars symbol m1 limit =
      let normalized = runtime.upper symbol in
      if is_replayed normalized then replayed_at normalized limit else raise (key_error normalized)
  bars symbol _ limit = raise value_error

  -- `stream_quotes`, and one step of the generator
  abbrev stream_quotes : List String → Exec ReplayState (Unit {0})
  stream_quotes symbols s = (ok tt, record s { stream = symbols })

  abbrev pub next_quote : List String → Exec ReplayState MarketQuote
  next_quote [] s = (err stop_async_iteration, s)
  next_quote (symbol ∷ symbols) s = latest_quote symbol (record s { stream = symbols })

  -- max(0, int((now - last).total_seconds() * 1000))
  abbrev pub freshness_of : Instant → Option Instant → Option ℕ
  freshness_of at none = none
  freshness_of at (some last) = some (if ltb at last then 0 else to_ms runtime.doubles (at - last))

  abbrev status_of : Option ℕ → ProviderStatus
  status_of none = degraded
  status_of (some ms) = if leb ms 15_000 then healthy else degraded

  unfoldable pub health : Instant → Exec ReplayState ProviderHealth
  health at s = (
    ok (record {
      name = "replay-market";
      status = status_of (freshness_of at s.last_message_at);
      last_message_at = s.last_message_at;
      freshness_ms = freshness_of at s.last_message_at;
      detail = some "Deterministic replay provider; no external market coverage.";
    }),
    s,
  )

  abbrev pub replay_market : MarketDataProvider
  replay_market = record {
    P = ReplayState;
    name = "replay-market";
    latest_quote = latest_quote;
    bars = bars;
    stream_quotes = stream_quotes;
    anext = λ s. next_quote s.stream s;
    health = health;
  }
