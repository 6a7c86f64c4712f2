-- ===== src/Market/Replay/Bars.antt =====
-- The bars that the replay provider gives: as many as were asked for, one for each minute up to the
-- present one, each accepted by the contract.
use mathlib.Core.Path.{subst}
use Prim.Native.String.{◌++◌}
use text.Mathlib.TextLemmas.{nil-append, cons-append}
use event_alpha.Prelude.{
  ℕ, zero, suc, ◌+◌, ◌-◌, ◌*◌, ◌%◌, ◌≤◌, ◌≡◌, refl, sym, ap, ◌∙◌, inl, inr, String, true, false,
  List, [], ◌∷◌, arith, ltb, length, All, eq_iff, str_eq, Bool-cases,
}
use event_alpha.Prelude.Int.{ℤ}
use event_alpha.Errors.{ok}
use event_alpha.Contracts.{char_count, optional_length, length_between, symbol_pattern}
use event_alpha.Contracts.Time.{Instant, aware}
use event_alpha.Contracts.Market.{MarketBar, m1, validate_bar, bar_fields}
use event_alpha.Db.Checks.{IsOhlc, validate_bar_iff, bar_fields_iff, bar_fields_iff}
use event_alpha.Market.Replay.{
  ReplayRuntime, ReplayState, minute, cent, is_replayed, bar_count, anchor_price, replayed_bar,
  replayed_bars, bars, now,
}

count-append : (s t : String) → char_count (s ++ t) ≡ char_count s + char_count t
count-append (String.◌∷◌ c s) t =
    ap char_count (cons-append c s t) ∙ ap suc (count-append s t) ∙ omega arith
count-append String.[] t = ap char_count (nil-append t) ∙ omega arith

replayed-pattern : (symbol : String) → is_replayed symbol ≡ true → symbol_pattern symbol ≡ true
unfolding is_replayed symbol_pattern
replayed-pattern symbol h = elim (Bool-cases (str_eq symbol "ACME")) [
  | inl acme ↦ subst (λ s. symbol_pattern s ≡ true) (sym ((eq_iff symbol "ACME").0 acme)) refl
  | inr other ↦
      let spy : str_eq symbol "SPY" ≡ true = ground arith in
      subst (λ s. symbol_pattern s ≡ true) (sym ((eq_iff symbol "SPY").0 spy)) refl
]

replayed-short : (symbol : String) → is_replayed symbol ≡ true → char_count symbol ≤ 4
unfolding is_replayed
replayed-short symbol h = elim (Bool-cases (str_eq symbol "ACME")) [
  | inl acme ↦ subst (λ s. char_count s ≤ 4) (sym ((eq_iff symbol "ACME").0 acme)) (omega arith)
  | inr other ↦
      let spy : str_eq symbol "SPY" ≡ true = ground arith in
      subst (λ s. char_count s ≤ 4) (sym ((eq_iff symbol "SPY").0 spy)) (omega arith)
]

module _ (runtime : ReplayRuntime) (short : (t : Instant) → char_count (runtime.isoformat t) ≤ 32)
    (symbol : String) (replayed : is_replayed symbol ≡ true) where
  native_id-short : (t : Instant) → char_count (symbol ++ ":1m:" ++ runtime.isoformat t) ≤ 500
  native_id-short t =
      let separator : char_count ":1m:" ≡ 4 = refl in
      omega (
        arith,
        count-append symbol (":1m:" ++ runtime.isoformat t),
        count-append ":1m:" (runtime.isoformat t),
        separator,
        short t,
        replayed-short symbol replayed,
      )

  anchor_bounds : 10_000 * cent ≤ anchor_price runtime symbol
  anchor_bounds = elim (Bool-cases (str_eq symbol "ACME")) [
    | inl acme ↦ rw acme (omega arith)
    | inr other ↦ rw other (omega arith)
  ]

  replayed_bar-fields :
      (received_at timestamp : Instant)
      → bar_fields (replayed_bar runtime symbol received_at timestamp) ≡ true
  unfolding bar_fields replayed_bar length_between optional_length
  replayed_bar-fields received_at timestamp =
      let few = native_id-short timestamp in
      let pattern_met = replayed-pattern symbol replayed in ground (arith, few, pattern_met)

  replayed_bar-IsOhlc :
      (received_at timestamp : Instant) → IsOhlc (replayed_bar runtime symbol received_at timestamp)
  unfolding replayed_bar
  replayed_bar-IsOhlc received_at timestamp = record {
    interval = omega arith;
    open_high = omega arith;
    close_high = omega arith;
    low_open = omega arith;
    low_close = omega arith;
  }

  replayed_bar-accepted :
      (received_at timestamp : Instant)
      → validate_bar (replayed_bar runtime symbol received_at timestamp)
        ≡ ok (replayed_bar runtime symbol received_at timestamp)
  replayed_bar-accepted received_at timestamp =
      let bar = replayed_bar runtime symbol received_at timestamp in
      (validate_bar_iff bar).1 (
        (bar_fields_iff bar).0 (replayed_bar-fields received_at timestamp),
        replayed_bar-IsOhlc received_at timestamp,
      )

  -- The loop gives the bars of the minutes before the present one, from the earliest.
  abbrev bars_before : Instant → Instant → ℕ → List MarketBar
  bars_before received_at present zero = []
  bars_before received_at present (suc left) =
      replayed_bar runtime symbol received_at (present - suc left * minute)
      ∷ bars_before received_at present left

  replayed_bars-before :
      (received_at present : Instant) (left : ℕ)
      → left * minute ≤ present
      → replayed_bars runtime symbol received_at present left
        ≡ ok (bars_before received_at present left)
  unfolding replayed_bars
  replayed_bars-before received_at present zero h = refl
  replayed_bars-before received_at present (suc left) h =
      let later : ltb present (suc left * minute) ≡ false = ground arith in
      let rest = replayed_bars-before received_at present left (omega (arith, h)) in
      rw (later, rest, replayed_bar-accepted received_at (present - suc left * minute)) refl

  length-bars_before :
      (received_at present : Instant) (left : ℕ)
      → length (bars_before received_at present left) ≡ left
  length-bars_before received_at present zero = refl
  length-bars_before received_at present (suc left) =
      ap suc (length-bars_before received_at present left)

-- Bars that follow each other without a gap, from one time to another.
abbrev pub Chain : Instant → List MarketBar → Instant → Type 0
Chain start [] end = start ≡ end
Chain start (bar ∷ bars) end = (bar.timestamp ≡ start) × Chain bar.bar_end_at bars end

abbrev pub IsReplayedAt : Instant → MarketBar → Type 0
IsReplayedAt at bar = (validate_bar bar ≡ ok bar) × (bar.received_at ≡ at)

module _ (runtime : ReplayRuntime)
    (short : (t : Instant) → char_count (runtime.isoformat t) ≤ 32) where
  before-Chain :
      (symbol : String) (replayed : is_replayed symbol ≡ true) (received_at present : Instant)
      (left : ℕ)
      → left * minute ≤ present
      → Chain
          (present - left * minute)
          (bars_before runtime short symbol replayed received_at present left)
          present
  unfolding replayed_bar
  before-Chain symbol replayed received_at present zero h = omega arith
  before-Chain symbol replayed received_at present (suc left) h = (
    refl,
    subst
        (λ t. Chain t (bars_before runtime short symbol replayed received_at present left) present)
        (omega (arith, h))
        (before-Chain symbol replayed received_at present left (omega (arith, h))),
  )

  before-accepted :
      (symbol : String) (replayed : is_replayed symbol ≡ true) (received_at present : Instant)
      (left : ℕ)
      → All
          (IsReplayedAt received_at)
          (bars_before runtime short symbol replayed received_at present left)
  unfolding replayed_bar
  before-accepted symbol replayed received_at present zero = tt
  before-accepted symbol replayed received_at present (suc left) = (
    (
      replayed_bar-accepted runtime short symbol replayed received_at (present - suc left * minute),
      refl,
    ),
    before-accepted symbol replayed received_at present left,
  )

  -- For a symbol that is replayed, and from the first 1000 minutes of the year 1 on, `bars` gives
  -- min(max(limit, 1), 1000) bars, each accepted by the contract and received at the reading of the
  -- clock, without a gap between them and up to the minute of that reading.
  pub bars_replayed :
      (symbol : String) (limit : ℕ) (s : ReplayState) (at : Instant) (offset : ℤ)
      → is_replayed (runtime.upper symbol) ≡ true
      → runtime.clock s.ticks ≡ aware at offset
      → 1000 * minute ≤ at - at % minute
      → (found : List MarketBar) × (bars runtime symbol m1 limit s
          ≡ (ok found, record s { ticks = s.ticks + 1 }))
        × (length found ≡ bar_count limit)
        × All (IsReplayedAt at) found
        × Chain (at - at % minute - bar_count limit * minute) found (at - at % minute)
  unfolding bars now
  bars_replayed symbol limit s at offset replayed read late =
      let normalized = runtime.upper symbol in
      let present = at - at % minute in
      let enough : bar_count limit * minute ≤ present = omega (arith, late) in
      (
        bars_before runtime short normalized replayed at present (bar_count limit),
        rw (replayed, read)
            (ap (λ r. (r, record s { ticks = s.ticks + 1 }))
              (replayed_bars-before runtime short normalized replayed at present (bar_count limit)
                enough)),
        length-bars_before runtime short normalized replayed at present (bar_count limit),
        before-accepted normalized replayed at present (bar_count limit),
        before-Chain normalized replayed at present (bar_count limit) enough,
      )
