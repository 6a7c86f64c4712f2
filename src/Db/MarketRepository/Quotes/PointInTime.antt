-- ===== src/Db/MarketRepository/Quotes/PointInTime.antt =====
-- Reading the latest quote as of a time.
use event_alpha.Prelude.{
  ◌≤◌, ◌<◌, String, true, ◌≡◌, refl, ap, ◌⊎◌, inl, inr, Option, none, some, arith, keep, keep-In,
  In-keep, eq_iff,
}
use native.Mathlib.Decide.{ℕ_discrete}
use event_alpha.Prelude.Order.{
  lex_le, lex_le_total, lex_le_trans, lex_le_antisymm, top-some, top-none, top_unique,
}
use event_alpha.Contracts.Time.{Instant}
use event_alpha.Contracts.Event.{Digest}
use event_alpha.Contracts.Market.{MarketQuote}
use event_alpha.Db.Schema.{MarketQuoteRow, Dialect, utc-column}
use event_alpha.Db.MarketRepository.Base.{MarketSchema, MarketDb}
use event_alpha.Db.MarketRepository.Fingerprint.{Runtime, quote_fingerprint}
use event_alpha.Db.MarketRepository.Quotes.{
  quote_row, quote_of_row, read_optional, quote_matches, quote_rank, quote_before, visible,
  save_quote, latest_row, latest_quote,
}
use event_alpha.Db.MarketRepository.Quotes.Append.{save_quote_cases, save_quote-append}

-- Received by the time `as_of`, if there is one.
abbrev pub ReceivedBy : Option Instant → Instant → Type 0
ReceivedBy none received_at = Unit
ReceivedBy (some as_of) received_at = received_at ≤ as_of

pub visible-ReceivedBy :
    (as_of : Option Instant) (t : Instant) → visible as_of t ≡ true → ReceivedBy as_of t
visible-ReceivedBy none t h = tt
visible-ReceivedBy (some at) t h = ground arith

pub ReceivedBy-visible :
    (as_of : Option Instant) (t : Instant) → ReceivedBy as_of t → visible as_of t ≡ true
ReceivedBy-visible none t h = refl
ReceivedBy-visible (some at) t h = ground arith

-- A row is one of a provider and a symbol, and was received by the time `as_of`, if there is one.
pub record Matches (provider symbol : String) (as_of : Option Instant) (row : MarketQuoteRow)
    : Type 0 where
  pub of_provider : row.provider ≡ provider
  pub of_symbol : row.symbol ≡ symbol
  pub received : ReceivedBy as_of row.received_at

quote_matches-Matches :
    (provider symbol : String) (as_of : Option Instant) (row : MarketQuoteRow)
    → quote_matches provider symbol as_of row ≡ true
    → Matches provider symbol as_of row
unfolding quote_matches
quote_matches-Matches provider symbol none row h =
    ground (arith, eq_iff row.provider provider, eq_iff row.symbol symbol)
quote_matches-Matches provider symbol (some at) row h =
    ground (arith, eq_iff row.provider provider, eq_iff row.symbol symbol)

Matches-quote_matches :
    (provider symbol : String) (as_of : Option Instant) (row : MarketQuoteRow)
    → Matches provider symbol as_of row
    → quote_matches provider symbol as_of row ≡ true
unfolding quote_matches
Matches-quote_matches provider symbol none row h =
    ground (arith, eq_iff row.provider provider, eq_iff row.symbol symbol)
Matches-quote_matches provider symbol (some at) row h =
    ground (arith, eq_iff row.provider provider, eq_iff row.symbol symbol)

before_total : (a b : MarketQuoteRow) → (quote_before a b ≡ true) ⊎ (quote_before b a ≡ true)
unfolding quote_before
before_total a b = lex_le_total (quote_rank b) (quote_rank a)

before_trans :
    (a b c : MarketQuoteRow)
    → quote_before a b ≡ true
    → quote_before b c ≡ true
    → quote_before a c ≡ true
unfolding quote_before
before_trans a b c h k = lex_le_trans (quote_rank c) (quote_rank b) (quote_rank a) k h

-- The order of a query ends in the fingerprint, so rows that tie have the same one.
before_tie :
    (a b : MarketQuoteRow)
    → quote_before a b ≡ true
    → quote_before b a ≡ true
    → a.content_hash ≡ b.content_hash
unfolding quote_before
before_tie a b h k =
    let e = lex_le_antisymm (quote_rank b) (quote_rank a) h k in unfold quote_rank in cc e

pub read_optional_lem : (dialect : Dialect) (o : Option Instant) → read_optional dialect o ≡ o
read_optional_lem dialect none = refl
read_optional_lem dialect (some t) = ap some (utc-column dialect t)

-- What was saved is read back as it was, in either dialect.
pub quote_of_row-quote_row :
    (dialect : Dialect) (h : Digest) (quote : MarketQuote)
    → quote_of_row dialect (quote_row h quote) ≡ quote
unfolding quote_of_row quote_row
quote_of_row-quote_row dialect h quote = simp (utc-column, read_optional_lem)

module _ (schema : MarketSchema) (runtime : Runtime) where
  open schema use {quotes, dialect}
  open runtime use {upper}

  -- The row that is read is stored, matches the query, and no matching row ranks above it: the
  -- rank is the effective time, then the times of receipt and of processing, then the fingerprint.
  pub latest_row-some :
      (provider symbol : String) (as_of : Option Instant) (db : MarketDb schema)
      (row : MarketQuoteRow)
      → latest_row schema runtime provider symbol as_of db ≡ some row
      → (quotes.get db.quotes row.content_hash ≡ some row)
        × Matches provider (upper symbol) as_of row
        × ((k : Digest) (other : MarketQuoteRow)
            → quotes.get db.quotes k ≡ some other
            → Matches provider (upper symbol) as_of other
            → lex_le (quote_rank other) (quote_rank row) ≡ true)
  unfolding latest_row quote_before
  latest_row-some provider symbol as_of db row h =
      let (found, first) = top-some quote_before before_total before_trans _ row h in
      let (stored, matched) = keep-In _ row (quotes.rows db.quotes) found in
      (
        quotes.rows-get db.quotes row stored,
        quote_matches-Matches provider (upper symbol) as_of row matched,
        λ k other at_k fits. first other (
            In-keep _ other (quotes.rows db.quotes) (quotes.get-rows db.quotes k other at_k)
              (Matches-quote_matches provider (upper symbol) as_of other fits)),
      )

  -- Nothing is read exactly when no stored row matches.
  pub latest_row-none :
      (provider symbol : String) (as_of : Option Instant) (db : MarketDb schema)
      → latest_row schema runtime provider symbol as_of db ≡ none
      → (k : Digest) (row : MarketQuoteRow) → quotes.get db.quotes k ≡ some row
      → ¬ Matches provider (upper symbol) as_of row
  unfolding latest_row
  latest_row-none provider symbol as_of db h k row at_k fits = top-none quote_before _ h row (
      In-keep _ row (quotes.rows db.quotes) (quotes.get-rows db.quotes k row at_k)
        (Matches-quote_matches provider (upper symbol) as_of row fits))

  stored_unique :
      (t : quotes.T) (a b : MarketQuoteRow)
      → quotes.get t a.content_hash ≡ some a
      → quotes.get t b.content_hash ≡ some b
      → a.content_hash ≡ b.content_hash
      → a ≡ b
  stored_unique t a b h k e = cc (h, k, ap (quotes.get t) e)

  -- A query depends only on the stored rows that match it.
  latest_row_ext :
      (provider symbol : String) (as_of : Option Instant) (db db' : MarketDb schema)
      → ((k : Digest) (row : MarketQuoteRow)
          → Matches provider (upper symbol) as_of row
          → quotes.get db.quotes k ≡ some row
          → quotes.get db'.quotes k ≡ some row)
      → ((k : Digest) (row : MarketQuoteRow)
          → Matches provider (upper symbol) as_of row
          → quotes.get db'.quotes k ≡ some row
          → quotes.get db.quotes k ≡ some row)
      → latest_row schema runtime provider symbol as_of db
        ≡ latest_row schema runtime provider symbol as_of db'
  unfolding latest_row
  latest_row_ext provider symbol as_of db db' to back =
      let p = quote_matches provider (upper symbol) as_of in
      top_unique quote_before before_total before_trans (keep p (quotes.rows db.quotes))
        (keep p (quotes.rows db'.quotes))
        (λ a b m n h k.
          stored_unique db.quotes a b
            (quotes.rows-get db.quotes a (keep-In p a (quotes.rows db.quotes) m).0)
            (quotes.rows-get db.quotes b (keep-In p b (quotes.rows db.quotes) n).0)
            (before_tie a b h k))
        (λ a m.
          let (stored, fits) = keep-In p a (quotes.rows db.quotes) m in
          In-keep p a (quotes.rows db'.quotes)
            (quotes.get-rows db'.quotes a.content_hash a (
              to a.content_hash a (quote_matches-Matches provider (upper symbol) as_of a fits)
                (quotes.rows-get db.quotes a stored)))
            fits)
        (λ a m.
          let (stored, fits) = keep-In p a (quotes.rows db'.quotes) m in
          In-keep p a (quotes.rows db.quotes)
            (quotes.get-rows db.quotes a.content_hash a (
              back a.content_hash a (quote_matches-Matches provider (upper symbol) as_of a fits)
                (quotes.rows-get db'.quotes a stored)))
            fits)

  -- Only the row of the saved quote can be new.
  save_quote-new :
      (quote : MarketQuote) (db : MarketDb schema) (k : Digest) (row : MarketQuoteRow)
      → quotes.get (save_quote schema runtime quote db).1.quotes k ≡ some row
      → (quotes.get db.quotes k ≡ some row)
        ⊎ (row ≡ quote_row (quote_fingerprint runtime quote) quote)
  save_quote-new quote db k row h = elim (save_quote_cases schema runtime quote db) [
    | inl (_, _, _, same) ↦ inl (rw same at h)
    | inr (_, _, added) ↦
        let saved = quote_row (quote_fingerprint runtime quote) quote in
        elim (ℕ_discrete saved.content_hash k) [
          | yes e ↦ inr (
              cc (
                h,
                ap (λ (t : quotes.T). quotes.get t k) added,
                ap (quotes.get (quotes.put saved db.quotes)) e,
                quotes.get-put_self saved db.quotes,
              ))
          | no ne ↦ inl (
              cc (
                h,
                ap (λ (t : quotes.T). quotes.get t k) added,
                quotes.get-put_ne saved db.quotes k ne,
              ))
        ]
  ]

  -- Reads are safe in time: a quote that is received after `as_of` never changes what is read as
  -- of that time, whatever times the provider claims for it.
  pub save_quote-latest_quote :
      (provider symbol : String) (as_of : Instant) (quote : MarketQuote) (db : MarketDb schema)
      → as_of < quote.received_at
      → latest_quote schema runtime provider symbol
          (some as_of)
          (save_quote schema runtime quote db).1
        ≡ latest_quote schema runtime provider symbol (some as_of) db
  unfolding latest_quote
  save_quote-latest_quote provider symbol as_of quote db later = rw (
      latest_row_ext provider symbol (some as_of) (save_quote schema runtime quote db).1 db
        (λ k row fits stored. elim (save_quote-new quote db k row stored) [
          | inl old ↦ old
          | inr new ↦ absurd (
              unfold quote_row in
              omega (arith, fits.received, ap (λ (r : MarketQuoteRow). r.received_at) new))
        ])
        (λ k row _ stored. save_quote-append schema runtime quote db k row stored))
