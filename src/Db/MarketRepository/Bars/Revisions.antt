-- ===== src/Db/MarketRepository/Bars/Revisions.antt =====
-- What `bars` returns of the revisions that are stored.
use mathlib.Core.List.{reverse, reverse-cons, map-append}
use event_alpha.Prelude.{
  ℕ, ◌≤◌, ◌<◌, String, Bool, true, ◌≡◌, refl, ap, ◌∙◌, ◌⊎◌, inl, inr, Option, none, some, List, [],
  ◌∷◌, map, arith, In, length, keep-In, In-keep, In-reverse, reverse-In, In-map, map-In,
  length-reverse, length-map, Ascending, Ascending-append, eq_iff, str_eq, if◌then◌else◌,
}
use event_alpha.Prelude.Order.{
  lex_le, lex_le_total, lex_le_trans, Sorted, sort-Sorted, sort-In, In-sort,
}
use event_alpha.Contracts.Time.{Instant}
use event_alpha.Contracts.Event.{Digest}
use event_alpha.Contracts.Market.{MarketBar, MarketTimeframe, m1, m5, m15, h1, d1}
use event_alpha.Db.Schema.{MarketBarRow, Dialect, utc-column}
use event_alpha.Db.MarketRepository.Base.{MarketSchema, MarketDb}
use event_alpha.Db.MarketRepository.Fingerprint.{Runtime, timeframe_text}
use event_alpha.Db.MarketRepository.Quotes.PointInTime.{
  ReceivedBy, visible-ReceivedBy, ReceivedBy-visible, read_optional_lem,
}
use event_alpha.Db.MarketRepository.Bars.{
  bar_row, bar_of_row, bar_matches, bar_rank, bar_before, select_rows, bar_rows, selected_rows,
  bars,
}
use event_alpha.Db.MarketRepository.Bars.Select.{
  select_rows-In, select_rows-le-limit, select_rows-newest, select_rows-covers,
  select_rows-Descending, Descending,
}

-- A row is one of a provider, a symbol and a timeframe, was received by the time `as_of`, if there
-- is one, and is final where only final bars are wanted.
pub record Matches (provider symbol : String) (timeframe : MarketTimeframe) (as_of : Option Instant)
    (final_only : Bool) (row : MarketBarRow) : Type 0 where
  pub of_provider : row.provider ≡ provider
  pub of_symbol : row.symbol ≡ symbol
  pub of_timeframe : row.timeframe ≡ timeframe
  pub received : ReceivedBy as_of row.received_at
  pub final : final_only ≡ true → row.is_final ≡ true

-- The timeframe that a text stands for.
timeframe_of : String → Option MarketTimeframe
timeframe_of text =
    if str_eq text "1m"
    then some m1
    else if str_eq text "5m"
    then some m5
    else if str_eq text "15m"
    then some m15
    else if str_eq text "1h"
    then some h1
    else if str_eq text "1d"
    then some d1
    else none

timeframe_of-text : (t : MarketTimeframe) → timeframe_of (timeframe_text t) ≡ some t
unfolding timeframe_of
timeframe_of-text m1 = refl
timeframe_of-text m5 = refl
timeframe_of-text m15 = refl
timeframe_of-text h1 = refl
timeframe_of-text d1 = refl

timeframe_text-injective : (a b : MarketTimeframe) → timeframe_text a ≡ timeframe_text b → a ≡ b
timeframe_text-injective a b h = cc (timeframe_of-text a, timeframe_of-text b, ap timeframe_of h)

bar_before_total : (a b : MarketBarRow) → (bar_before a b ≡ true) ⊎ (bar_before b a ≡ true)
unfolding bar_before
bar_before_total a b = lex_le_total (bar_rank b) (bar_rank a)

bar_before_trans :
    (a b c : MarketBarRow) → bar_before a b ≡ true → bar_before b c ≡ true → bar_before a c ≡ true
unfolding bar_before
bar_before_trans a b c h k = lex_le_trans (bar_rank c) (bar_rank b) (bar_rank a) k h

-- What was saved is read back as it was, in either dialect.
pub bar_of_row-bar_row :
    (dialect : Dialect) (h : Digest) (bar : MarketBar) → bar_of_row dialect (bar_row h bar) ≡ bar
unfolding bar_of_row bar_row
bar_of_row-bar_row dialect h bar = simp (utc-column, read_optional_lem)

module _ (provider symbol : String) (timeframe : MarketTimeframe) (as_of : Option Instant)
    (final_only : Bool) (row : MarketBarRow) where
  bar_matches-Matches :
      bar_matches provider symbol timeframe as_of final_only row ≡ true
      → Matches provider symbol timeframe as_of final_only row
  unfolding bar_matches
  bar_matches-Matches h = record {
    of_provider = ground (arith, eq_iff row.provider provider);
    of_symbol = ground (arith, eq_iff row.symbol symbol);
    of_timeframe =
        timeframe_text-injective row.timeframe timeframe
          (ground (arith, eq_iff (timeframe_text row.timeframe) (timeframe_text timeframe)));
    received = visible-ReceivedBy as_of row.received_at (ground arith);
    final = λ e. ground arith;
  }

  Matches-bar_matches :
      Matches provider symbol timeframe as_of final_only row
      → bar_matches provider symbol timeframe as_of final_only row ≡ true
  unfolding bar_matches
  Matches-bar_matches h = ground (
    arith,
    eq_iff row.provider provider,
    eq_iff row.symbol symbol,
    eq_iff (timeframe_text row.timeframe) (timeframe_text timeframe),
    ReceivedBy-visible as_of row.received_at h.received,
    ap timeframe_text h.of_timeframe,
    h.final,
  )

rank_of_before :
    (row other : MarketBarRow)
    → (other ≡ row) ⊎ (bar_before row other ≡ true)
    → lex_le (bar_rank other) (bar_rank row) ≡ true
unfolding bar_before
rank_of_before row other (inl e) =
    rw e (elim (lex_le_total (bar_rank row) (bar_rank row)) [ inl p ↦ p | inr p ↦ p ])
rank_of_before row other (inr h) = h

-- The first row was received before the other, or at the same time and processed before it, or
-- both at the same times, with a fingerprint that is not greater.
abbrev pub NoLater : MarketBarRow → MarketBarRow → Type 0
NoLater other row =
    (other.received_at < row.received_at)
    ⊎ ((other.received_at ≡ row.received_at)
        × ((other.processed_at < row.processed_at)
            ⊎ ((other.processed_at ≡ row.processed_at) × (other.content_hash ≤ row.content_hash))))

rank-NoLater :
    (other row : MarketBarRow)
    → other.bar_start_at ≡ row.bar_start_at
    → lex_le (bar_rank other) (bar_rank row) ≡ true
    → NoLater other row
unfolding bar_rank lex_le
rank-NoLater other row same h = ground arith

timestamp_of_row :
    (dialect : Dialect) (row : MarketBarRow) → (bar_of_row dialect row).timestamp ≡ row.bar_start_at
unfolding bar_of_row
timestamp_of_row dialect row = utc-column dialect row.bar_start_at

-- Of rows in descending order of their starts, the bars in reverse order ascend.
Descending-Ascending :
    (dialect : Dialect) (rows : List MarketBarRow)
    → Descending rows
    → Ascending (map (λ b. b.timestamp) (map (bar_of_row dialect) (reverse rows)))
Descending-Ascending dialect [] h = tt
Descending-Ascending dialect (row ∷ rows) (first, rest) =
    rw (reverse-cons, map-append, map-append)
      (Ascending-append _ _ (Descending-Ascending dialect rows rest) (λ t m.
        let (b, found, e) = In-map (λ (b : MarketBar). b.timestamp) t _ m in
        let (r, found', e') = In-map (bar_of_row dialect) b (reverse rows) found in
        omega (
          arith,
          e,
          ap (λ (b : MarketBar). b.timestamp) e',
          timestamp_of_row dialect r,
          timestamp_of_row dialect row,
          first r (In-reverse r rows found'),
        )))

module _ (schema : MarketSchema) (runtime : Runtime) (provider symbol : String)
    (timeframe : MarketTimeframe) (limit : ℕ) (as_of : Option Instant) (final_only : Bool)
    (db : MarketDb schema) where
  -- A row is stored and matches the query.
  pub record Available (row : MarketBarRow) : Type 0 where
    pub stored : schema.bars.get db.bars row.content_hash ≡ some row
    pub matched : Matches provider (runtime.upper symbol) timeframe as_of final_only row

  rows-Sorted :
      Sorted bar_before (bar_rows schema runtime provider symbol timeframe as_of final_only db)
  unfolding bar_rows
  rows-Sorted = sort-Sorted bar_before bar_before_total bar_before_trans _

  rows-Available :
      (row : MarketBarRow)
      → In row (bar_rows schema runtime provider symbol timeframe as_of final_only db)
      → Available row
  unfolding bar_rows
  rows-Available row m =
      let (stored, fits) = keep-In _ row (schema.bars.rows db.bars) (sort-In bar_before row _ m) in
      record {
        stored = schema.bars.rows-get db.bars row stored;
        matched =
            bar_matches-Matches provider (runtime.upper symbol) timeframe as_of final_only row fits;
      }

  Available-rows :
      (row : MarketBarRow)
      → Available row
      → In row (bar_rows schema runtime provider symbol timeframe as_of final_only db)
  unfolding bar_rows
  Available-rows row a = In-sort bar_before row _ (
      In-keep _ row (schema.bars.rows db.bars)
        (schema.bars.get-rows db.bars row.content_hash row a.stored)
        (Matches-bar_matches provider (runtime.upper symbol) timeframe as_of final_only row
          a.matched))

  -- For a positive `limit`, at most `limit` bars are returned, and their start times strictly
  -- ascend: there is one revision for each start.
  pub bars_bounded :
      0 < limit
      → (length (bars schema runtime provider symbol timeframe limit as_of final_only db) ≤ limit)
        × Ascending (
            map
              (λ b. b.timestamp)
              (bars schema runtime provider symbol timeframe limit as_of final_only db))
  unfolding bars selected_rows
  bars_bounded positive =
      let rows =
        select_rows schema.dialect limit [] 0
          (bar_rows schema runtime provider symbol timeframe as_of final_only db) in
      (
        omega (
          arith,
          length-map {0, 0} (bar_of_row schema.dialect) (reverse rows),
          length-reverse {0} rows,
          select_rows-le-limit schema.dialect limit [] 0
              (bar_rows schema runtime provider symbol timeframe as_of final_only db) positive,
        ),
        Descending-Ascending schema.dialect rows
            (select_rows-Descending schema.dialect limit [] 0 _ rows-Sorted),
      )

  -- Every bar that is returned is the newest revision of its start: it is a stored row that
  -- matches the query, and no matching row of the same start was received later, or at the same
  -- time and processed later; of rows with both times the same it has the greatest fingerprint.
  pub bars-newest :
      (bar : MarketBar)
      → In bar (bars schema runtime provider symbol timeframe limit as_of final_only db)
      → (row : MarketBarRow) × (bar ≡ bar_of_row schema.dialect row)
        × Available row
        × ((other : MarketBarRow)
            → Available other
            → other.bar_start_at ≡ row.bar_start_at
            → NoLater other row)
  unfolding bars selected_rows
  bars-newest bar m =
      let (row, found, e) = In-map (bar_of_row schema.dialect) bar _ m in
      let selected = In-reverse row _ found in
      let (listed, _) = select_rows-In schema.dialect limit [] 0 _ row selected in
      (
        row,
        e,
        rows-Available row listed,
        λ other a same. rank-NoLater other row same (
            rank_of_before row other (
              select_rows-newest schema.dialect limit [] 0 _ rows-Sorted row other selected
                (Available-rows other a) same)),
      )

  -- No start is left out but for the limit: for every matching row a bar of its start is returned,
  -- or exactly `limit` bars are, all of later starts.
  pub bars_complete :
      (other : MarketBarRow)
      → Available other
      → ((bar : MarketBar) × In bar
            (bars schema runtime provider symbol timeframe limit as_of final_only db)
          × (bar.timestamp ≡ other.bar_start_at))
        ⊎ (length (bars schema runtime provider symbol timeframe limit as_of final_only db) ≡ limit)
          × ((bar : MarketBar)
              → In bar (bars schema runtime provider symbol timeframe limit as_of final_only db)
              → other.bar_start_at < bar.timestamp)
  unfolding bars selected_rows
  bars_complete other a =
      let rows =
        select_rows schema.dialect limit [] 0
          (bar_rows schema runtime provider symbol timeframe as_of final_only db) in
      elim (select_rows-covers schema.dialect limit [] 0 _ rows-Sorted other
        (Available-rows other a) refl) [
          | inl (r, m, e) ↦ inl (
            bar_of_row schema.dialect r,
            map-In (bar_of_row schema.dialect) r (reverse rows) (reverse-In r rows m),
            timestamp_of_row schema.dialect r ∙ e,
          )
          | inr (full, later) ↦ inr (
            omega (
              arith,
              length-map {0, 0} (bar_of_row schema.dialect) (reverse rows),
              length-reverse {0} rows,
            ),
            λ bar m.
                let (r, found, e) = In-map (bar_of_row schema.dialect) bar (reverse rows) m in
                omega (
                  arith,
                  ap (λ (b : MarketBar). b.timestamp) e,
                  timestamp_of_row schema.dialect r,
                  later r (In-reverse r rows found),
                ),
          )
        ]
