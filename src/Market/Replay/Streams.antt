-- ===== src/Market/Replay/Streams.antt =====
-- The streams of the replay provider are finite.
use event_alpha.Prelude.{
  ◌+◌, ◌<◌, ◌≡◌, refl, ap, String, Bool, true, false, not, ◌&&◌, is_none, List, [], ◌∷◌, length,
  arith, if-at,
}
use event_alpha.Errors.{
  Exc, Result, ok, err, value_error, key_error, require, is_transient, ◌>>◌ as ◌and◌,
}
use event_alpha.Exec.{Exec, after, ◌>>◌}
use event_alpha.Contracts.Time.{DateTime, naive, aware}
use event_alpha.Contracts.Market.{
  MarketQuote, quote_fields, is_crossed, validate_quote, validate_spread,
}
use event_alpha.Market.Replay.{
  ReplayRuntime, ReplayState, latest_quote, now, replayed_quote, is_replayed, replay_market,
  reading, returned, seen, next_quote,
}
use event_alpha.Market.Service.Calm.{IsCalm}
use event_alpha.Market.Service.Retries.{Finite}

require-IsCalm :
    {A : Type 0} (b : Bool) (m : Result A) → IsCalm m → IsCalm (require b value_error and m)
unfolding is_transient
require-IsCalm true m h = h
require-IsCalm false m h = refl

validate_quote-IsCalm : (quote : MarketQuote) → IsCalm (validate_quote quote)
unfolding validate_quote validate_spread
validate_quote-IsCalm quote =
    let crossed = is_crossed quote.bid quote.ask in
    let empty = is_none quote.bid && is_none quote.ask && is_none quote.last in
    require-IsCalm (quote_fields quote) (validate_spread quote) (
      require-IsCalm (not crossed) (require (not empty) value_error and ok quote)
        (require-IsCalm (not empty) (ok quote) tt))

-- The stream stays as it is, and an error is not transient.
abbrev Streamed : List String → Result MarketQuote × ReplayState → Type 0
Streamed symbols (r, s) = (s.stream ≡ symbols) × IsCalm r

module _ (runtime : ReplayRuntime) where
  read-Streamed :
      (normalized : String) (at : DateTime) (s : ReplayState)
      → Streamed s.stream (
          after
            (reading runtime at)
            (λ at'.
              seen runtime at'
              >> returned runtime (validate_quote (replayed_quote runtime normalized at')))
            s)
  unfolding is_transient
  read-Streamed normalized (naive wall) s = (refl, refl)
  read-Streamed normalized (aware at offset) s =
      (refl, validate_quote-IsCalm (replayed_quote runtime normalized at))

  key_error-IsCalm : (symbol : String) → is_transient (key_error symbol) ≡ false
  unfolding is_transient
  key_error-IsCalm symbol = refl

  latest_quote-Streamed :
      (symbol : String) (s : ReplayState) → Streamed s.stream (latest_quote runtime symbol s)
  unfolding latest_quote now
  latest_quote-Streamed symbol s =
      let normalized = runtime.upper symbol in
      if-at (λ (m : Exec ReplayState MarketQuote). Streamed s.stream (m s)) (is_replayed normalized)
        _ _ (read-Streamed normalized (runtime.clock s.ticks) (record s { ticks = s.ticks + 1 }))
        (refl, key_error-IsCalm normalized)

  quoted_left :
      (symbols : List String) (s : ReplayState) (quote : MarketQuote)
      → (next_quote runtime symbols s).0 ≡ ok quote
      → length (next_quote runtime symbols s).1.stream < length symbols
  quoted_left [] s quote h = absurd (cc h)
  quoted_left (symbol ∷ symbols) s quote h = omega (
    arith,
    ap (λ (l : List String). length l)
        (latest_quote-Streamed symbol (record s { stream = symbols })).0,
  )

  next_quote-IsCalm :
      (symbols : List String) (s : ReplayState) → IsCalm (next_quote runtime symbols s).0
  unfolding is_transient
  next_quote-IsCalm [] s = refl
  next_quote-IsCalm (symbol ∷ symbols) s =
      (latest_quote-Streamed symbol (record s { stream = symbols })).1

  not_transient :
      {A : Type 0} (r : Result A) (e : Exc) → IsCalm r → r ≡ err e → is_transient e ≡ false
  not_transient (ok a) e h k = absurd (cc k)
  not_transient (err f) e h k = let same : f ≡ e = cc k in rw (← same) h

  -- The replay provider never fails transiently, so a stream is opened once, and gives a quote at
  -- most for each symbol.
  pub replay_market-Finite : (symbols : List String) → Finite (replay_market runtime) symbols
  replay_market-Finite symbols = record {
    left = λ s. length s.stream;
    left-quote = λ s quote h. quoted_left s.stream s quote h;
    left-reopen = λ s e h transient.
        absurd (cc (not_transient _ e (next_quote-IsCalm s.stream s) h, transient));
    left-retry = λ s e h transient. absurd (cc h);
  }

  pub left-replay_market :
      (symbols : List String) (s : ReplayState)
      → (replay_market-Finite symbols).left s ≡ length s.stream
  unfolding replay_market-Finite
  left-replay_market symbols s = refl
