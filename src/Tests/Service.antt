-- ===== src/Tests/Service.antt =====
-- The market data service over the repository and a script of quotes.
use event_alpha.Prelude.{
  ◌<◌, ◌*◌, false, ℕ, ◌+◌, ◌-◌, ◌*◌, ◌/◌, ◌≤◌, ◌<◌, ◌≡◌, ◌≢◌, ◌⊎◌, refl, String, true, List, [],
  ◌∷◌, none, some, arith, length,
}
use event_alpha.Prelude.Order.{lex_le}
use event_alpha.Contracts.{healthy}
use event_alpha.Db.MarketRepository.State.{StoredMarketProviderState}
use event_alpha.Market.Freshness.{Doubles, IsRounded, longest_span, quote_freshness_ms}
use event_alpha.Market.Freshness.Bounds.{market_time, quote_freshness_bounds}
use event_alpha.Market.Service.Latest.{get-remember_quote}
use event_alpha.Market.Service.Bars.{refresh_bars}
use event_alpha.Market.Service.Attempts.{refresh_bars-sleeps}
use event_alpha.Market.Service.Health.{health, health_of, health_of_fresh}
use event_alpha.Prelude.Int.{pos}
use event_alpha.Market.Service.ReadOnly.{read_only_source}
use event_alpha.Errors.{runtime_error, Result, ok, err, stop_async_iteration, market_provider_error}
use event_alpha.Contracts.Time.{aware}
use event_alpha.Contracts.Market.{MarketQuote}
use event_alpha.Market.Interface.{MarketPersistence, MarketDataProvider}
use event_alpha.Market.Service.{World, Settings, latest, bars, get, remember_quote, rank_of_quote}
use event_alpha.Market.Service.Repository.{sql_market_repository, repository_durability}
use event_alpha.Market.Service.Durable.{Shown, refresh_watchlist-Shown}
use event_alpha.Market.Service.Retries.{Finite, left_of, refresh_watchlist-returns}
use event_alpha.Market.Service.Watchlist.{refresh_watchlist}
use event_alpha.Tests.Samples.{memory, plain, empty_db, quote_at}

next_of : List MarketQuote → Result MarketQuote × List MarketQuote
next_of [] = (err stop_async_iteration, [])
next_of (quote ∷ quotes) = (ok quote, quotes)

-- A provider that streams the quotes of a list, once.
unfoldable script : MarketDataProvider
unfolding next_of
script = record {
  P = List MarketQuote;
  name = "replay-market";
  latest_quote = λ symbol p. (err market_provider_error, p);
  bars = λ symbol timeframe limit p. (ok [], p);
  stream_quotes = λ symbols p. (ok tt, p);
  anext = next_of;
  health = λ now p. (err market_provider_error, p);
}

count_of : List MarketQuote → ℕ
count_of [] = 0
count_of (quote ∷ quotes) = count_of quotes + 1

count_of-next_of : (p : List MarketQuote) → count_of (next_of p).1 ≤ count_of p
unfolding next_of count_of
count_of-next_of [] = omega arith
count_of-next_of (quote ∷ quotes) = omega arith

count_of-quote :
    (p : List MarketQuote) (quote : MarketQuote)
    → (next_of p).0 ≡ ok quote
    → count_of (next_of p).1 < count_of p
unfolding next_of count_of
count_of-quote [] quote h = ground arith
count_of-quote (q ∷ quotes) quote h = omega arith

unfoldable script_finite : Finite script ("ACME" ∷ [])
unfolding script count_of
script_finite = record {
  left = count_of;
  left-quote = count_of-quote;
  left-reopen = λ p e h transient. count_of-next_of p;
  left-retry = λ p e h transient. omega arith;
}

abbrev pub settings : Settings
settings = record {
  persistent = true;
  provider_reads_enabled = true;
  clock = λ tick. aware (tick * 1000) (pos 0);
  upper = λ symbol. symbol;
}

abbrev pub persistence : MarketPersistence
persistence = sql_market_repository memory plain

unfoldable world : World persistence script
unfolding script
world = record {
  store = empty_db;
  source = quote_at 1000 ∷ quote_at 2000 ∷ [];
  ticks = 0;
  latest = [];
  sleeps = [];
}

enough :
    left_of persistence script settings ("ACME" ∷ []) script_finite false world.source * 3 + 3 ≤ 9
unfolding script_finite world count_of
enough = omega arith

ended :
    (r : Result ℕ) × (w' : World persistence script) × (refresh_watchlist persistence script
        settings 9
        ("ACME" ∷ [])
        3
        world
      ≡ some (r, w'))
ended =
    refresh_watchlist-returns persistence script settings ("ACME" ∷ []) script_finite 9 3 world
      enough

world-Shown : Shown persistence script settings (repository_durability memory plain) refl world
unfolding Shown world
world-Shown = tt

refresh_watchlist-Shown_example :
    Shown persistence script settings (repository_durability memory plain) refl ended.1
refresh_watchlist-Shown_example =
    refresh_watchlist-Shown persistence script settings (repository_durability memory plain) refl 9
      ("ACME" ∷ []) 3 world ended.1 ended.0 world-Shown ended.2

get-remember_quote_example :
    (shown : MarketQuote) × (get "ACME"
        (remember_quote (quote_at 1000) (("ACME", quote_at 2000) ∷ []))
      ≡ some shown)
    × ((shown ≡ quote_at 1000) ⊎ (get "ACME" (("ACME", quote_at 2000) ∷ []) ≡ some shown))
    × (lex_le (rank_of_quote (quote_at 1000)) (rank_of_quote shown) ≡ true)
    × ((current : MarketQuote)
        → get "ACME" (("ACME", quote_at 2000) ∷ []) ≡ some current
        → lex_le (rank_of_quote current) (rank_of_quote shown) ≡ true)
    × ((symbol : String)
        → "ACME" ≢ symbol
        → get symbol (remember_quote (quote_at 1000) (("ACME", quote_at 2000) ∷ []))
          ≡ get symbol (("ACME", quote_at 2000) ∷ []))
get-remember_quote_example = get-remember_quote (quote_at 1000) (("ACME", quote_at 2000) ∷ [])

refresh_bars-sleeps_example :
    length (refresh_bars persistence script settings ("ACME" ∷ []) "1m" 60 3 world).1.sleeps
    ≤ length world.sleeps + length {A = String} ("ACME" ∷ []) * (3 - 1)
refresh_bars-sleeps_example =
    refresh_bars-sleeps persistence script settings ("ACME" ∷ []) "1m" 60 3 world

exact_rounds : (n : ℕ) → n ≤ longest_span → IsRounded (n * 1_000_000) (n * 1_000_000)
exact_rounds n h = (omega arith, omega arith)

exact_rounds_thousand : (x : ℕ) → x ≤ longest_span * 1_000_000 → IsRounded (x * 1000) (x * 1000)
exact_rounds_thousand x h = (omega arith, omega arith)

-- Floats with six decimals, on which both operations are exact.
pub exact : Doubles
exact = record {
  unit = 1_000_000;
  unit_positive = omega arith;
  over_million = λ n. n;
  times_thousand = λ x. x * 1000;
  over_million_rounds = exact_rounds;
  times_thousand_rounds = exact_rounds_thousand;
}

quote_freshness_bounds_example :
    (ms : ℕ) × (quote_freshness_ms exact 20_000_000 (some (quote_at 1000)) ≡ some ms)
    × (ms ≤ (20_000_000 - market_time exact 20_000_000 (quote_at 1000)) / 1000)
    × ((20_000_000 - market_time exact 20_000_000 (quote_at 1000)) / 1000 ≤ ms + 1)
    × (15_000 < ms → market_time exact 20_000_000 (quote_at 1000) + 15_000_000 < 20_000_000)
quote_freshness_bounds_example =
    quote_freshness_bounds exact 20_000_000 (quote_at 1000) (omega arith) (omega arith)

abbrev live_state : StoredMarketProviderState
live_state = record {
  provider_id = "replay-market";
  heartbeat_at = 1000;
  last_message_received_at = some 1000;
  last_success_at = some 1000;
  last_failure_at = none;
  consecutive_failures = 0;
  reconnect_count = 0;
  status = healthy;
  detail = none;
}

live_state_near :
    (received_at : ℕ)
    → live_state.last_message_received_at ≡ some received_at
    → (20_000_000 ≤ received_at + longest_span) × (received_at ≤ 20_000_000 + longest_span)
live_state_near received_at h = ground (arith, h)

health_of_fresh_example :
    ((health_of exact "replay-market" 20_000_000 (some live_state)).status ≡ healthy
      → (live_state.status ≡ healthy)
        × (received_at : ℕ) × (live_state.last_message_received_at ≡ some received_at)
        × (20_000_000 < received_at + 15_002_000)
        × (received_at < 20_000_000 + 2000))
    × (live_state.status ≡ healthy
        → (received_at : ℕ) → live_state.last_message_received_at ≡ some received_at
        → 20_000_000 < received_at + 15_001_000
        → received_at < 20_000_000 + 1000
        → (health_of exact "replay-market" 20_000_000 (some live_state)).status ≡ healthy)
health_of_fresh_example =
    health_of_fresh exact "replay-market" 20_000_000 live_state live_state_near

-- The same service without provider reads.
abbrev reader : Settings
reader = record settings { provider_reads_enabled = false }

read_only_source_example :
    ((latest persistence script reader "ACME" none world).1.source ≡ world.source)
    × ((bars persistence script reader "ACME" "1m" 60 none world).1.source ≡ world.source)
    × ((health exact persistence script reader world).1.source ≡ world.source)
    × (refresh_watchlist persistence script reader 9 ("ACME" ∷ []) 3 world
        ≡ some (err runtime_error, world))
    × (refresh_bars persistence script reader ("ACME" ∷ []) "1m" 60 3 world
        ≡ (err runtime_error, world))
read_only_source_example =
    read_only_source exact persistence script reader refl refl "ACME" "1m" ("ACME" ∷ []) 60 3 9 none
      world
