-- ===== src/Tests/Replay.antt =====
-- The replay provider at a concrete time.
use event_alpha.Prelude.{
  ℕ, ◌+◌, false, some, ◌∷◌, ◌-◌, ◌*◌, ◌%◌, ◌≤◌, ◌≡◌, refl, List, [], none, arith, All, length,
}
use event_alpha.Prelude.Int.{pos}
use event_alpha.Errors.{Result, ok, err, key_error}
use event_alpha.Contracts.{char_count}
use event_alpha.Contracts.Time.{Instant, aware}
use event_alpha.Contracts.Market.{MarketBar, m1}
use event_alpha.Market.Replay.{
  ReplayRuntime, ReplayState, minute, is_replayed, bar_count, bars, latest_quote,
}
use event_alpha.Market.Replay.Bars.{Chain, IsReplayedAt, bars_replayed}
use event_alpha.Market.Replay.{replay_market}
use event_alpha.Market.Replay.Streams.{replay_market-Finite, left-replay_market}
use event_alpha.Market.Service.{World}
use event_alpha.Market.Service.Retries.{left_of, refresh_watchlist-returns}
use event_alpha.Market.Service.Watchlist.{refresh_watchlist}
use event_alpha.Tests.Samples.{empty_db}
use event_alpha.Tests.Service.{exact, persistence, settings}

-- A time in 2026.
abbrev at : Instant
at = 63_900_000_090_000_000

unfoldable replayed_runtime : ReplayRuntime
replayed_runtime = record {
  clock = λ n. aware at (pos 0);
  upper = λ s. s;
  isoformat = λ t. "2026-01-01T00:00:00+00:00";
  uuid5 = λ text. 7;
  doubles = exact;
}

isoformat-short : (t : Instant) → char_count (replayed_runtime.isoformat t) ≤ 32
unfolding replayed_runtime
isoformat-short t = omega arith

abbrev start_state : ReplayState
start_state = record { ticks = 0; last_message_at = none; stream = [] }

bars_replayed_example :
    (found : List MarketBar) × (bars replayed_runtime "ACME" m1 60 start_state
      ≡ (ok found, record { ticks = 1; last_message_at = none; stream = [] }))
    × (length found ≡ bar_count 60)
    × All (IsReplayedAt at) found
    × Chain (at - at % minute - bar_count 60 * minute) found (at - at % minute)
unfolding replayed_runtime is_replayed
bars_replayed_example =
    bars_replayed replayed_runtime isoformat-short "ACME" 60 start_state at (pos 0) refl refl
      (omega arith)

unknown_symbol : (latest_quote replayed_runtime "MSFT" start_state).0 ≡ err (key_error "MSFT")
unfolding replayed_runtime latest_quote is_replayed
unknown_symbol = refl

-- A service over the replay provider that watches both symbols.
abbrev replay_world : World persistence (replay_market replayed_runtime)
replay_world = record {
  store = empty_db;
  source = start_state;
  ticks = 0;
  latest = [];
  sleeps = [];
}

enough :
    left_of persistence
          (replay_market replayed_runtime)
          settings
          ("ACME" ∷ "SPY" ∷ [])
          (replay_market-Finite replayed_runtime ("ACME" ∷ "SPY" ∷ []))
          false
          replay_world.source
        * 3
      + 3
    ≤ 9
enough = omega (
  arith,
  left-replay_market replayed_runtime ("ACME" ∷ "SPY" ∷ [])
      (record start_state { stream = "ACME" ∷ "SPY" ∷ [] }),
)

refresh_watchlist-returns_example :
    (r : Result ℕ) × (w : World persistence (replay_market replayed_runtime)) × (refresh_watchlist
        persistence
        (replay_market replayed_runtime)
        settings
        9
        ("ACME" ∷ "SPY" ∷ [])
        3
        replay_world
      ≡ some (r, w))
refresh_watchlist-returns_example =
    refresh_watchlist-returns persistence (replay_market replayed_runtime) settings
      ("ACME" ∷ "SPY" ∷ []) (replay_market-Finite replayed_runtime ("ACME" ∷ "SPY" ∷ [])) 9 3
      replay_world enough
