-- ===== src/Db/MarketRepository/Quotes.antt =====
-- `save_quote` and `latest_quote` of services/api/app/db/market_repository.py.
pub mod PointInTime
pub mod Append
use event_alpha.Prelude.{
  ℕ, String, Bool, true, false, ◌&&◌, List, [], ◌∷◌, Option, none, some, leb, or_else, is_none,
  str_eq, keep, if◌then◌else◌,
}
use event_alpha.Prelude.Order.{lex_le, top}
use event_alpha.Contracts.Time.{Instant}
use event_alpha.Contracts.Event.{Digest}
use event_alpha.Errors.{Result, ok, ◌>>=◌}
use event_alpha.Contracts.Market.{MarketQuote, validate_quote}
use event_alpha.Db.Schema.{MarketQuoteRow, Dialect, utc}
use event_alpha.Db.MarketRepository.Base.{
  MarketSchema, MarketDb, ensure_provider, ensure_instrument,
}
use event_alpha.Db.MarketRepository.Fingerprint.{Runtime, quote_fingerprint}

-- The row that `save_quote` adds. A column NUMERIC(28, 10) keeps a price of at most ten decimals, as
-- those of the model are, as it is.
unfoldable pub quote_row : Digest → MarketQuote → MarketQuoteRow
quote_row content_hash quote = record {
  content_hash = content_hash;
  observation_id = quote.id;
  trace_id = quote.trace_id;
  provider = quote.provider;
  native_id = quote.native_id;
  symbol = quote.symbol;
  bid = quote.bid;
  ask = quote.ask;
  last = quote.last;
  provider_timestamp = quote.provider_timestamp;
  received_at = quote.received_at;
  processed_at = quote.processed_at;
}

-- `_utc` of a column that may be NULL.
abbrev pub read_optional : Dialect → Option Instant → Option Instant
read_optional dialect none = none
read_optional dialect (some t) = some (utc (dialect.column t))

-- The quote that `latest_quote` builds of a row, before its validation.
unfoldable pub quote_of_row : Dialect → MarketQuoteRow → MarketQuote
quote_of_row dialect row = record {
  id = row.observation_id;
  trace_id = row.trace_id;
  symbol = row.symbol;
  native_id = row.native_id;
  bid = row.bid;
  ask = row.ask;
  last = row.last;
  provider_timestamp = read_optional dialect row.provider_timestamp;
  received_at = utc (dialect.column row.received_at);
  processed_at = utc (dialect.column row.processed_at);
  provider = row.provider;
}

-- MarketQuoteRow.received_at <= as_of, if there is an `as_of`
abbrev pub visible : Option Instant → Instant → Bool
visible none received_at = true
visible (some as_of) received_at = leb received_at as_of

-- The WHERE clause of `latest_quote`.
unfoldable pub quote_matches : String → String → Option Instant → MarketQuoteRow → Bool
quote_matches provider symbol as_of row =
    str_eq row.provider provider && str_eq row.symbol symbol && visible as_of row.received_at

-- The columns of its ORDER BY, all descending.
unfoldable pub quote_rank : MarketQuoteRow → List ℕ
quote_rank row =
    or_else row.provider_timestamp row.received_at
    ∷ row.received_at
    ∷ row.processed_at
    ∷ row.content_hash
    ∷ []

unfoldable pub quote_before : MarketQuoteRow → MarketQuoteRow → Bool
quote_before a b = lex_le (quote_rank b) (quote_rank a)

module _ (schema : MarketSchema) (runtime : Runtime) where
  -- The row is added unless its fingerprint is there already.
  unfoldable pub add_quote :
      Option MarketQuoteRow → MarketQuoteRow → MarketDb schema → Bool × MarketDb schema
  add_quote (some _) row db = (false, db)
  add_quote none row db = (true, record db { quotes = schema.quotes.put row db.quotes })

  unfoldable pub save_quote : MarketQuote → MarketDb schema → Bool × MarketDb schema
  unfolding add_quote
  save_quote quote db =
      let content_hash = quote_fingerprint runtime quote in
      let ensured =
        ensure_instrument schema quote.symbol quote.processed_at
          (ensure_provider schema quote.provider quote.processed_at db) in
      add_quote (schema.quotes.get ensured.quotes content_hash) (quote_row content_hash quote)
        ensured

  -- session.scalar(query.limit(1))
  unfoldable pub latest_row :
      String → String → Option Instant → MarketDb schema → Option MarketQuoteRow
  latest_row provider symbol as_of db =
      top quote_before
        (keep (quote_matches provider (runtime.upper symbol) as_of) (schema.quotes.rows db.quotes))

  abbrev quote_of : Option MarketQuoteRow → Option MarketQuote
  quote_of none = none
  quote_of (some row) = some (quote_of_row schema.dialect row)

  unfoldable pub latest_quote :
      String → String → Option Instant → MarketDb schema → Option MarketQuote
  latest_quote provider symbol as_of db = quote_of (latest_row provider symbol as_of db)

  abbrev validated : Option MarketQuote → Result (Option MarketQuote)
  validated none = ok none
  validated (some built) = do quote ← validate_quote built; ok (some quote)

  -- The whole of `latest_quote`: the constructor of MarketQuote validates the quote of the row.
  unfoldable pub validated_latest_quote :
      String → String → Option Instant → MarketDb schema → Result (Option MarketQuote)
  unfolding latest_quote
  validated_latest_quote provider symbol as_of db =
      validated (latest_quote provider symbol as_of db)
