-- ===== src/Market/Freshness/Bounds.antt =====
-- The ages that are reported, against the true ones.
use native.Mathlib.Nat.{mul-le-mul_right, div-mul-le_self, lt-div-mul-add}
use event_alpha.Prelude.{
  ◌*◌, ◌⊎◌, inl, inr, ℕ, ◌+◌, ◌-◌, ◌/◌, ◌≤◌, ◌<◌, ◌≡◌, none, some, or_else, ltb, arith,
  if◌then◌else◌,
}
use event_alpha.Contracts.Time.{Instant}
use event_alpha.Contracts.Market.{MarketQuote}
use event_alpha.Market.Freshness.{
  Doubles, IsRounded, to_ms, longest_span, nonnegative_age, quote_freshness_ms,
}

lt-cases : (a b : ℕ) → (a + 1 ≤ b) ⊎ (b ≤ a)
lt-cases a b = ground arith

multiples_le : (a b unit : ℕ) → a ≤ b → a * unit ≤ b * unit
multiples_le a b unit h = mul-le-mul_right unit h

-- The arithmetic of the two roundings, with products in place of `span`, the milliseconds k and the
-- result q: each stands for that number of units.
lower_bound :
    (unit span_units k_units q_units x y : ℕ)
    → 1 ≤ unit
    → span_units ≤ longest_span * unit
    → span_units ≤ 1000 * k_units + 999 * unit
    → IsRounded span_units (x * 1_000_000)
    → IsRounded (x * 1000) y
    → q_units ≤ y
    → q_units < k_units + unit
lower_bound unit span_units k_units q_units x y h₁ h₂ h₃ (up, down) (up', down') h₄ = omega arith

upper_bound :
    (unit span_units k_units q_units x y : ℕ)
    → 1 ≤ unit
    → span_units ≤ longest_span * unit
    → 1000 * k_units ≤ span_units
    → IsRounded span_units (x * 1_000_000)
    → IsRounded (x * 1000) y
    → y < q_units + unit
    → k_units < q_units + 2 * unit
upper_bound unit span_units k_units q_units x y h₁ h₂ h₃ (up, down) (up', down') h₄ = omega arith

module _ (doubles : Doubles) (reference : Instant) where
  open doubles use {
    unit, unit_positive, over_million, times_thousand, over_million_rounds, times_thousand_rounds,
  }

  span_units_le :
      (span k : ℕ) → span ≤ 1000 * k + 999 → span * unit ≤ 1000 * (k * unit) + 999 * unit
  span_units_le span k h =
      let bound = multiples_le span (1000 * k + 999) unit h in omega (arith, bound)

  span_units_ge : (span k : ℕ) → 1000 * k ≤ span → 1000 * (k * unit) ≤ span * unit
  span_units_ge span k h = let bound = multiples_le (1000 * k) span unit h in omega (arith, bound)

  multiples_lt : (a b c : ℕ) → a * unit < b * unit + c * unit → a + 1 ≤ b + c
  multiples_lt a b c h = elim (lt-cases a (b + c)) [
    | inl below ↦ below
    | inr above ↦ let bound = multiples_le (b + c) a unit above in absurd (omega (arith, bound, h))
  ]

  -- The quotient is in the range of the product.
  in_range : (span : ℕ) → span ≤ longest_span → over_million span ≤ longest_span * unit
  in_range span h =
      let (up, down) = over_million_rounds span h in
      let bound = multiples_le span longest_span unit h in omega arith

  -- The two roundings never gain a millisecond, and lose one at most.
  pub to_ms_lower : (span : ℕ) → span ≤ longest_span → to_ms doubles span ≤ span / 1000
  unfolding to_ms
  to_ms_lower span h =
      let x = over_million span in
      let y = times_thousand x in
      let below : (y / unit) * unit < (span / 1000) * unit + unit =
        lower_bound unit (span * unit) ((span / 1000) * unit) ((y / unit) * unit) x y unit_positive
          (multiples_le span longest_span unit h) (span_units_le span (span / 1000) (omega arith))
          (over_million_rounds span h) (times_thousand_rounds x (in_range span h))
          (div-mul-le_self y unit) in
      let strict = multiples_lt (y / unit) (span / 1000) 1 (omega (arith, below)) in
      omega (arith, strict)

  pub to_ms_upper : (span : ℕ) → span ≤ longest_span → span / 1000 ≤ to_ms doubles span + 1
  unfolding to_ms
  to_ms_upper span h =
      let x = over_million span in
      let y = times_thousand x in
      let below : (span / 1000) * unit < (y / unit) * unit + 2 * unit =
        upper_bound unit (span * unit) ((span / 1000) * unit) ((y / unit) * unit) x y unit_positive
          (multiples_le span longest_span unit h) (span_units_ge span (span / 1000) (omega arith))
          (over_million_rounds span h) (times_thousand_rounds x (in_range span h))
          (lt-div-mul-add unit_positive) in
      let strict = multiples_lt (span / 1000) (y / unit) 2 below in omega (arith, strict)

  nonnegative_age_past :
      (timestamp : Instant)
      → timestamp ≤ reference
      → nonnegative_age doubles reference timestamp ≡ some (to_ms doubles (reference - timestamp))
  unfolding nonnegative_age
  nonnegative_age_past timestamp h = ground arith

  nonnegative_age_future :
      (timestamp : Instant)
      → reference < timestamp
      → nonnegative_age doubles reference timestamp
        ≡ (if ltb 0 (to_ms doubles (timestamp - reference)) then none else some 0)
  unfolding nonnegative_age
  nonnegative_age_future timestamp h = ground arith

  -- The time of a quote: the provider's, or else that of its receipt.
  abbrev pub market_time : MarketQuote → Instant
  market_time quote = or_else quote.provider_timestamp quote.received_at

  -- The age of a quote of the past, of at most `longest_span`, is reported as its age in whole doubles, or one less; and
  -- it is reported as more than 15,000 only if the quote is more than 15 seconds old.
  pub quote_freshness_bounds :
      (quote : MarketQuote)
      → market_time quote ≤ reference
      → reference ≤ market_time quote + longest_span
      → (ms : ℕ) × (quote_freshness_ms doubles reference (some quote) ≡ some ms)
        × (ms ≤ (reference - market_time quote) / 1000)
        × ((reference - market_time quote) / 1000 ≤ ms + 1)
        × (15_000 < ms → market_time quote + 15_000_000 < reference)
  unfolding quote_freshness_ms
  quote_freshness_bounds quote h k =
      let age = reference - market_time quote in
      (
        to_ms doubles age,
        nonnegative_age_past (market_time quote) h,
        to_ms_lower age (omega arith),
        to_ms_upper age (omega arith),
        λ late. omega (arith, to_ms_lower age (omega arith), late),
      )

  -- A quote whose time is at least two milliseconds ahead of the reference, and at most
  -- `longest_span`, has no age.
  quote_freshness_future :
      (quote : MarketQuote)
      → reference + 2000 ≤ market_time quote
      → market_time quote ≤ reference + longest_span
      → quote_freshness_ms doubles reference (some quote) ≡ none
  unfolding quote_freshness_ms
  quote_freshness_future quote h k =
      rw (nonnegative_age_future (market_time quote) (omega arith))
        (ground (arith, to_ms_upper (market_time quote - reference) (omega arith)))
