-- ===== src/Market/Freshness.antt =====
-- Ages in doubles, as services/api/app/market/service.py computes them.
pub mod Bounds
use event_alpha.Prelude.{
  ℕ, ◌+◌, ◌-◌, ◌*◌, ◌/◌, ◌≤◌, ◌<◌, ◌≡◌, Bool, List, [], ◌∷◌, Option, none, some, or_else, leb, ltb,
  if◌then◌else◌,
}
use event_alpha.Prelude.Int.{ℤ, pos, negsuc, sub_ℕ, ltb_ℤ, pos_part}
use event_alpha.Contracts.Time.{Instant}
use event_alpha.Contracts.Market.{MarketBar, MarketQuote}

-- 31 years, in microseconds.
abbrev pub longest_span : ℕ
longest_span = 1_000_000_000_000_000

-- An operation on floats is rounded with a relative error of at most 2 ^ -53.
abbrev pub precision : ℕ
precision = 9_007_199_254_740_992

abbrev pub IsRounded : ℕ → ℕ → Type 0
IsRounded value rounded =
    (rounded * precision ≤ value * precision + value)
    × (value * precision ≤ rounded * precision + value)

-- Python's floats, of which those that are not negative are whole numbers of a least unit (2 ^ -1074
-- for IEEE 754 doubles): `unit` of them are 1.0. The quotient of an integer by 10**6 and the product
-- with 1000 are correctly rounded.
pub record Doubles : Type 0 where
  pub unit : ℕ
  pub unit_positive : 1 ≤ unit
  pub over_million : ℕ → ℕ
  pub times_thousand : ℕ → ℕ
  pub over_million_rounds :
      (n : ℕ) → n ≤ longest_span → IsRounded (n * unit) (over_million n * 1_000_000)
  pub times_thousand_rounds :
      (x : ℕ) → x ≤ longest_span * unit → IsRounded (x * 1000) (times_thousand x)

module _ (doubles : Doubles) where
  open doubles use {unit, over_million, times_thousand}

  -- int(span.total_seconds() * 1000) of a span that is not negative, in microseconds:
  -- total_seconds() divides their number by 10**6, and int() cuts off the fraction.
  unfoldable pub to_ms : ℕ → ℕ
  to_ms span = times_thousand (over_million span) / unit

  -- int((reference - timestamp).total_seconds() * 1000): cut off towards zero on either side, where
  -- the floats of a negative span are those of its opposite, negated.
  abbrev negated : ℕ → ℤ
  negated n = sub_ℕ 0 n

  unfoldable pub age_ms : Instant → Instant → ℤ
  unfolding to_ms
  age_ms reference timestamp =
      if leb timestamp reference
      then pos (to_ms (reference - timestamp))
      else negated (to_ms (timestamp - reference))

  -- None if age_ms < 0 else age_ms
  unfoldable pub nonnegative_age : Instant → Instant → Option ℕ
  unfolding age_ms
  nonnegative_age reference timestamp =
      let age = age_ms reference timestamp in
      if ltb_ℤ age (pos 0) then none else some (pos_part age)

  -- `quote_freshness_ms`, once the quote and the reference are known.
  unfoldable pub quote_freshness_ms : Instant → Option MarketQuote → Option ℕ
  quote_freshness_ms reference none = none
  quote_freshness_ms reference (some quote) =
      nonnegative_age reference (or_else quote.provider_timestamp quote.received_at)

  abbrev pub latest_end : Instant → List MarketBar → Instant
  latest_end t [] = t
  latest_end t (bar ∷ bars) = latest_end (if ltb t bar.bar_end_at then bar.bar_end_at else t) bars

  -- `bar_freshness_ms`, once the reference is known.
  unfoldable pub bar_freshness_ms : Instant → List MarketBar → Option ℕ
  bar_freshness_ms reference [] = none
  bar_freshness_ms reference (bar ∷ bars) =
      nonnegative_age reference (latest_end bar.bar_end_at bars)
