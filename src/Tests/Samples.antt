-- ===== src/Tests/Samples.antt =====
-- Concrete values for what the models take as parameters: fixed-point numbers for the floats,
-- tables as lists of writes, and simple text functions.
use event_alpha.Prelude.{
  ℕ, ◌+◌, ◌*◌, ◌/◌, ◌≡◌, refl, String, true, false, List, [], ◌∷◌, none, some, inl, inr, arith,
  Bool-cases, eq_iff, str_eq, leb, if◌then◌else◌,
}
use mathlib.Core.Bool.{false≢true}
use mathlib.Core.Path.{sym, ◌∙◌}
use native.Mathlib.Decide.{ℕ_discrete}
use event_alpha.Prelude.Int.{ℤ, pos, negsuc, pos_part, neg_part, sub_ℕ, ltb_ℤ, leb_ℤ, ◌<ℤ◌, ◌≤ℤ◌}
use event_alpha.Contracts.{codes}
use event_alpha.Contracts.Time.{Instant, naive}
use event_alpha.Contracts.Market.{MarketQuote, MarketBar, m1}
use event_alpha.Domain.Float.{Floats}
use event_alpha.Db.Table.{list_table}
use event_alpha.Db.Schema.{Dialect}
use event_alpha.Db.MarketRepository.Base.{MarketSchema, MarketDb}
use event_alpha.Db.MarketRepository.Fingerprint.{Runtime}

pub string_discrete : Discrete String
string_discrete a b = elim (Bool-cases (str_eq a b)) [
  | inl e ↦ yes ((eq_iff a b).0 e)
  | inr e ↦ no (λ p. false≢true (sym e ∙ (eq_iff a b).1 p))
]

-- A number with two decimal places; products and quotients are cut off there.
abbrev pub clamp_unit : ℤ → ℤ
clamp_unit a = if ltb_ℤ a (negsuc 99) then negsuc 99 else if ltb_ℤ (pos 100) a then pos 100 else a

pub clamp_unit_range :
    (a : ℤ) → (ltb_ℤ (clamp_unit a) (negsuc 99) ≡ false) × (ltb_ℤ (pos 100) (clamp_unit a) ≡ false)
clamp_unit_range a = ground arith

abbrev pub plus : ℤ → ℤ → ℤ
plus a b = sub_ℕ (pos_part a + pos_part b) (neg_part a + neg_part b)

abbrev pub minus : ℤ → ℤ → ℤ
minus a b = sub_ℕ (pos_part a + neg_part b) (neg_part a + pos_part b)

abbrev pub scaled : ℤ → ℕ → ℕ → ℤ
scaled a n d = sub_ℕ (pos_part a * n / d) (neg_part a * n / d)

abbrev pub times : ℤ → ℤ → ℤ
times a b = minus (scaled a (pos_part b) 100) (scaled a (neg_part b) 100)

abbrev pub over : ℤ → ℤ → ℤ
over a b = scaled a 100 (pos_part b)

abbrev pub magnitude : ℤ → ℤ
magnitude a = pos (pos_part a + neg_part a)

pub fixed_trans : (a b c : ℤ) → leb_ℤ a b ≡ true → leb_ℤ b c ≡ true → leb_ℤ a c ≡ true
fixed_trans a b c h k = ground arith

pub fixed_not-lt : (a b : ℤ) → leb_ℤ a b ≡ true → ltb_ℤ b a ≡ false
fixed_not-lt a b h = ground arith

pub fixed_le : (a b : ℤ) → ltb_ℤ a b ≡ true → leb_ℤ a b ≡ true
fixed_le a b h = ground arith

pub fixed_lt_lit : (a b : ℤ) → a <ℤ b → ltb_ℤ a b ≡ true
fixed_lt_lit a b h = ground arith

pub fixed_le_lit : (a b : ℤ) → a ≤ℤ b → leb_ℤ a b ≡ true
fixed_le_lit a b h = ground arith

abbrev pub fixed_point : Floats
fixed_point = record {
  F = ℤ;
  lt = λ a b. ltb_ℤ a b;
  le = λ a b. leb_ℤ a b;
  add = plus;
  sub = minus;
  mul = times;
  div = over;
  abs = magnitude;
  tanh = clamp_unit;
  lit = λ n. n;
  le_of_lt = fixed_le;
  le_trans = fixed_trans;
  not-lt_of_le = fixed_not-lt;
  lit_lt = λ a b _ _ _ _ h. fixed_lt_lit a b h;
  lit_le = λ a b _ _ _ _ h. fixed_le_lit a b h;
  tanh_range = clamp_unit_range;
}

-- The instants of a naive column.
sqlite_lem : (t : Instant) → naive t ≡ naive t
sqlite_lem t = refl

unfoldable pub sqlite : Dialect
unfolding sqlite_lem
sqlite = record { column = naive; column_lem = λ t. inl (sqlite_lem t) }

unfoldable pub memory : MarketSchema
unfolding string_discrete sqlite list_table ℕ_discrete
memory = record {
  dialect = sqlite;
  providers = list_table (λ r. r.provider_id) string_discrete;
  instruments = list_table (λ r. r.symbol) string_discrete;
  quotes = list_table (λ r. r.content_hash) ℕ_discrete;
  bars = list_table (λ r. r.content_hash) ℕ_discrete;
  states = list_table (λ r. r.provider_id) string_discrete;
}

digest : ℕ → List ℕ → ℕ
digest h [] = h
digest h (c ∷ cs) = digest (h * 257 + c) cs

unfoldable pub plain : Runtime
unfolding digest
plain = record {
  sha256 = λ s. digest 0 (codes s);
  iso_text = λ t. if leb t 1000 then "early" else "late";
  plain_text = λ d. "1";
  int_text = λ n. "0";
  upper = λ s. s;
}

unfoldable pub empty_db : MarketDb memory
unfolding memory
empty_db = record { providers = []; instruments = []; quotes = []; bars = []; states = [] }

abbrev pub quote_at : ℕ → MarketQuote
quote_at t = record {
  id = t;
  trace_id = t;
  symbol = "ACME";
  native_id = none;
  bid = some (pos 1012200000000);
  ask = some (pos 1012600000000);
  last = none;
  provider_timestamp = some 900;
  received_at = t;
  processed_at = t;
  provider = "replay-market";
}

abbrev pub bar_at : ℕ → MarketBar
bar_at t = record {
  id = t;
  trace_id = t;
  provider = "replay-market";
  native_id = none;
  symbol = "ACME";
  timeframe = m1;
  timestamp = 500;
  bar_end_at = 560;
  provider_updated_at = none;
  received_at = t;
  processed_at = t;
  is_final = true;
  open_price = pos 1000000000000;
  high = pos 1000500000000;
  low = pos 999000000000;
  close = pos 1000100000000;
  volume = some (pos 10000);
}
