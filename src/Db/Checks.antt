-- ===== src/Db/Checks.antt =====
-- The CHECK constraints of services/api/app/db/models.py against the validators of
-- services/api/app/contracts.py.
use event_alpha.Prelude.{
  ℕ, ◌<◌, ◌≤◌, true, ◌≡◌, refl, ◌↔◌, ◌⊎◌, String, List, [], ◌∷◌, All, length, Option, none, some,
  arith,
}
use event_alpha.Prelude.Int.{ℤ, pos, ◌≤ℤ◌, ◌<ℤ◌}
use event_alpha.Contracts.{codes, all_symbol_chars, optional_length, length_between, symbol_pattern}
use event_alpha.Errors.{ok}
use event_alpha.Contracts.Event.{Digest}
use event_alpha.Contracts.Market.{
  MarketBar, bar_fields, validate_ohlc_bounds, validate_bar, optional_ge_zero,
}
use event_alpha.Db.Schema.{BarChecks, NullOr}
use event_alpha.Db.MarketRepository.Bars.{bar_row}

-- Bars that end after they start and whose high and low bound the open and the close.
pub record IsOhlc (bar : MarketBar) : Type 0 where
  pub interval : bar.timestamp < bar.bar_end_at
  pub open_high : bar.open_price ≤ℤ bar.high
  pub close_high : bar.close ≤ℤ bar.high
  pub low_open : bar.low ≤ℤ bar.open_price
  pub low_close : bar.low ≤ℤ bar.close

validate_ohlc_bounds_ok : (bar : MarketBar) → IsOhlc bar → validate_ohlc_bounds bar ≡ ok bar
unfolding validate_ohlc_bounds
validate_ohlc_bounds_ok bar h = ground arith

validate_ohlc_bounds-IsOhlc :
    (bar bar' : MarketBar) → validate_ohlc_bounds bar ≡ ok bar' → IsOhlc bar × (bar' ≡ bar)
unfolding validate_ohlc_bounds
validate_ohlc_bounds-IsOhlc bar bar' h = ground arith

validate_bar_parts :
    (bar bar' : MarketBar)
    → validate_bar bar ≡ ok bar'
    → (bar_fields bar ≡ true) × (validate_ohlc_bounds bar ≡ ok bar')
unfolding validate_bar
validate_bar_parts bar bar' h = ground arith

bar_fields-volume : (bar : MarketBar) → bar_fields bar ≡ true → NullOr (λ n. pos 0 ≤ℤ n) bar.volume
unfolding bar_fields
bar_fields-volume bar h = volume_bound bar.volume (ground arith)
  where
    volume_bound : (v : Option ℤ) → optional_ge_zero v ≡ true → NullOr (λ n. pos 0 ≤ℤ n) v
    volume_bound none e = tt
    volume_bound (some n) e = ground arith

-- A code point of a symbol: a capital letter or a full stop.
abbrev pub IsSymbolCode : ℕ → Type 0
IsSymbolCode c = ((b'A' ≤ c) × (c ≤ b'Z')) ⊎ (c ≡ b'.')

-- The constraints on the fields, as the contract declares them.
pub record HasBarFields (bar : MarketBar) : Type 0 where
  pub provider_length : (1 ≤ length (codes bar.provider)) × (length (codes bar.provider) ≤ 100)
  pub native_length : NullOr (λ id. length (codes id) ≤ 500) bar.native_id
  pub symbol_length : (1 ≤ length (codes bar.symbol)) × (length (codes bar.symbol) ≤ 12)
  pub symbol_codes : All IsSymbolCode (codes bar.symbol)
  pub open_positive : pos 0 <ℤ bar.open_price
  pub high_positive : pos 0 <ℤ bar.high
  pub low_positive : pos 0 <ℤ bar.low
  pub close_positive : pos 0 <ℤ bar.close
  pub volume_bound : NullOr (λ n. pos 0 ≤ℤ n) bar.volume

all_symbol_chars_iff : (cs : List ℕ) → (all_symbol_chars cs ≡ true) ↔ All IsSymbolCode cs
unfolding all_symbol_chars
all_symbol_chars_iff [] = (λ h. tt, λ h. refl)
all_symbol_chars_iff (c ∷ cs) =
    let rest = all_symbol_chars_iff cs in
    (λ h. (ground arith, rest.0 (ground arith)), λ h. ground (arith, rest.1 h.1))

native_length_iff :
    (id : Option String) → (optional_length 500 id ≡ true) ↔ NullOr (λ t. length (codes t) ≤ 500) id
unfolding optional_length
native_length_iff none = (λ h. tt, λ h. refl)
native_length_iff (some t) = (λ h. ground arith, λ h. ground arith)

volume_bound_iff : (v : Option ℤ) → (optional_ge_zero v ≡ true) ↔ NullOr (λ n. pos 0 ≤ℤ n) v
volume_bound_iff none = (λ h. tt, λ h. refl)
volume_bound_iff (some n) = (λ h. ground arith, λ h. ground arith)

pub bar_fields_iff : (bar : MarketBar) → (bar_fields bar ≡ true) ↔ HasBarFields bar
unfolding bar_fields length_between symbol_pattern
bar_fields_iff bar =
    let native = native_length_iff bar.native_id in
    let codes_fit = all_symbol_chars_iff (codes bar.symbol) in
    let volume = volume_bound_iff bar.volume in
    (
      λ h. record {
        provider_length = ground arith;
        native_length = native.0 (ground arith);
        symbol_length = ground arith;
        symbol_codes = codes_fit.0 (ground arith);
        open_positive = ground arith;
        high_positive = ground arith;
        low_positive = ground arith;
        close_positive = ground arith;
        volume_bound = volume.0 (ground arith);
      },
      λ h. ground (
        arith,
        h.provider_length,
        h.symbol_length,
        native.1 h.native_length,
        codes_fit.1 h.symbol_codes,
        h.open_positive,
        h.high_positive,
        h.low_positive,
        h.close_positive,
        volume.1 h.volume_bound,
      ),
    )

-- A bar is accepted exactly when its provider and symbol have their lengths and characters, its
-- prices are positive and its volume not negative, it ends after it starts, and its high and low
-- bound the open and the close; it is then returned as it is.
pub validate_bar_iff :
    (bar : MarketBar) → (validate_bar bar ≡ ok bar) ↔ (HasBarFields bar × IsOhlc bar)
unfolding validate_bar
validate_bar_iff bar = (
  λ e.
      let (fields, bounds) = validate_bar_parts bar bar e in
      ((bar_fields_iff bar).0 fields, (validate_ohlc_bounds-IsOhlc bar bar bounds).0),
  λ h. rw ((bar_fields_iff bar).1 h.0, validate_bar) (validate_ohlc_bounds_ok bar h.1),
)

-- The row of an accepted bar violates no CHECK constraint of the table.
pub validate_bar-BarChecks :
    (h : Digest) (bar bar' : MarketBar) → validate_bar bar ≡ ok bar' → BarChecks (bar_row h bar)
unfolding bar_row
validate_bar-BarChecks h bar bar' e =
    let (fields, bounds) = validate_bar_parts bar bar' e in
    let (shape, _) = validate_ohlc_bounds-IsOhlc bar bar' bounds in
    record {
      interval = shape.interval;
      high_bound =
          (shape.open_high, shape.close_high, omega (arith, shape.low_open, shape.open_high));
      low_bound = (shape.low_open, shape.low_close, omega (arith, shape.low_open, shape.open_high));
      volume_bound = bar_fields-volume bar fields;
    }
