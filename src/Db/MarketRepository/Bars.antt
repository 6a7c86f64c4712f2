-- ===== src/Db/MarketRepository/Bars.antt =====
-- `save_bars` and `bars` of services/api/app/db/market_repository.py.
pub mod Append
pub mod Select
pub mod Revisions
use event_alpha.Prelude.{
  ℕ, ◌+◌, String, Bool, true, false, not, ◌&&◌, ◌||◌, List, [], ◌∷◌, Option, none, some, ◌==◌,
  str_eq, keep, map, if◌then◌else◌,
}
use mathlib.Core.List.{reverse}
use event_alpha.Prelude.Order.{lex_le, sort}
use event_alpha.Contracts.Time.{Instant}
use event_alpha.Contracts.Event.{Digest}
use event_alpha.Errors.{Result, ok, ◌>>=◌}
use event_alpha.Contracts.Market.{validate_bar, MarketBar, MarketTimeframe, m1, m5, m15, h1, d1}
use event_alpha.Db.Schema.{MarketBarRow, Dialect, utc}
use event_alpha.Db.MarketRepository.Base.{
  MarketSchema, MarketDb, ensure_provider, ensure_instrument,
}
use event_alpha.Db.MarketRepository.Fingerprint.{Runtime, bar_fingerprint, timeframe_text}
use event_alpha.Db.MarketRepository.Quotes.{read_optional, visible}

-- The row that `save_bars` adds.
unfoldable pub bar_row : Digest → MarketBar → MarketBarRow
bar_row content_hash bar = record {
  content_hash = content_hash;
  observation_id = bar.id;
  trace_id = bar.trace_id;
  provider = bar.provider;
  native_id = bar.native_id;
  symbol = bar.symbol;
  timeframe = bar.timeframe;
  bar_start_at = bar.timestamp;
  bar_end_at = bar.bar_end_at;
  provider_updated_at = bar.provider_updated_at;
  received_at = bar.received_at;
  processed_at = bar.processed_at;
  is_final = bar.is_final;
  open_price = bar.open_price;
  high = bar.high;
  low = bar.low;
  close = bar.close;
  volume = bar.volume;
}

-- The bar that `bars` builds of a row, before its validation.
unfoldable pub bar_of_row : Dialect → MarketBarRow → MarketBar
bar_of_row dialect row = record {
  id = row.observation_id;
  trace_id = row.trace_id;
  provider = row.provider;
  native_id = row.native_id;
  symbol = row.symbol;
  timeframe = row.timeframe;
  timestamp = utc (dialect.column row.bar_start_at);
  bar_end_at = utc (dialect.column row.bar_end_at);
  provider_updated_at = read_optional dialect row.provider_updated_at;
  received_at = utc (dialect.column row.received_at);
  processed_at = utc (dialect.column row.processed_at);
  is_final = row.is_final;
  open_price = row.open_price;
  high = row.high;
  low = row.low;
  close = row.close;
  volume = row.volume;
}

-- The WHERE clause of `bars`.
unfoldable pub bar_matches :
    String → String → MarketTimeframe → Option Instant → Bool → MarketBarRow → Bool
bar_matches provider symbol timeframe as_of final_only row =
    str_eq row.provider provider
    && str_eq row.symbol symbol
    && str_eq (timeframe_text row.timeframe) (timeframe_text timeframe)
    && visible as_of row.received_at
    && (not final_only || row.is_final)

-- The columns of its ORDER BY, all descending.
unfoldable pub bar_rank : MarketBarRow → List ℕ
bar_rank row = row.bar_start_at ∷ row.received_at ∷ row.processed_at ∷ row.content_hash ∷ []

unfoldable pub bar_before : MarketBarRow → MarketBarRow → Bool
bar_before a b = lex_le (bar_rank b) (bar_rank a)

-- bar_start in seen_starts
abbrev pub contains : List Instant → Instant → Bool
contains [] t = false
contains (s ∷ seen) t = s == t || contains seen t

-- The loop over the rows, with the starts that were seen and the number of rows selected: the
-- first row of each start, until `limit` of them are selected. A limit of 0 is never reached.
unfoldable pub select_rows : Dialect → ℕ → List Instant → ℕ → List MarketBarRow → List MarketBarRow
select_rows dialect limit seen selected [] = []
select_rows dialect limit seen selected (row ∷ rows) =
    let bar_start = utc (dialect.column row.bar_start_at) in
    let skip = select_rows dialect limit seen selected rows in
    let more = select_rows dialect limit (bar_start ∷ seen) (selected + 1) rows in
    if contains seen bar_start then skip else if selected + 1 == limit then row ∷ [] else row ∷ more

-- Each bar with its validation.
unfoldable pub validate_each : List MarketBar → Result (List MarketBar)
validate_each [] = ok []
validate_each (built ∷ rest) =
    let later = validate_each rest in (do bar ← validate_bar built; bars ← later; ok (bar ∷ bars))

module _ (schema : MarketSchema) (runtime : Runtime) where
  unfoldable pub add_bar :
      Option MarketBarRow → MarketBarRow → MarketDb schema → ℕ × MarketDb schema
  add_bar (some _) row db = (0, db)
  add_bar none row db = (1, record db { bars = schema.bars.put row db.bars })

  -- One round of the loop of `save_bars`: the rows that it adds, and the tables after it.
  unfoldable pub save_bar : MarketBar → MarketDb schema → ℕ × MarketDb schema
  unfolding add_bar
  save_bar bar db =
      let content_hash = bar_fingerprint runtime bar in
      let ensured =
        ensure_instrument schema bar.symbol bar.processed_at
          (ensure_provider schema bar.provider bar.processed_at db) in
      add_bar (schema.bars.get ensured.bars content_hash) (bar_row content_hash bar) ensured

  unfoldable pub save_bars : List MarketBar → MarketDb schema → ℕ × MarketDb schema
  save_bars [] db = (0, db)
  save_bars (bar ∷ bars) db =
      let (inserted, db') = save_bar bar db in
      let (later, db'') = save_bars bars db' in (inserted + later, db'')

  -- The rows of the query, in its order.
  unfoldable pub bar_rows :
      String
      → String
      → MarketTimeframe
      → Option Instant
      → Bool
      → MarketDb schema
      → List MarketBarRow
  bar_rows provider symbol timeframe as_of final_only db = sort bar_before (
      keep (bar_matches provider (runtime.upper symbol) timeframe as_of final_only)
        (schema.bars.rows db.bars))

  -- The list `selected` when the loop ends, the newest start first.
  unfoldable pub selected_rows :
      String
      → String
      → MarketTimeframe
      → ℕ
      → Option Instant
      → Bool
      → MarketDb schema
      → List MarketBarRow
  selected_rows provider symbol timeframe limit as_of final_only db =
      select_rows schema.dialect limit [] 0 (bar_rows provider symbol timeframe as_of final_only db)

  unfoldable pub bars :
      String
      → String
      → MarketTimeframe
      → ℕ
      → Option Instant
      → Bool
      → MarketDb schema
      → List MarketBar
  unfolding selected_rows
  bars provider symbol timeframe limit as_of final_only db =
      map (bar_of_row schema.dialect)
        (reverse (selected_rows provider symbol timeframe limit as_of final_only db))

  -- The whole of `bars`: the constructor of MarketBar validates each bar.
  unfoldable pub validated_bars :
      String
      → String
      → MarketTimeframe
      → ℕ
      → Option Instant
      → Bool
      → MarketDb schema
      → Result (List MarketBar)
  unfolding bars validate_each
  validated_bars provider symbol timeframe limit as_of final_only db =
      validate_each (bars provider symbol timeframe limit as_of final_only db)
