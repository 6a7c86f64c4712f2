-- ===== src/Db/MarketRepository/Quotes/Append.antt =====
-- Writing a quote: what is stored is never changed, and a replay of the same content is ignored.
use event_alpha.Prelude.{
  true, false, ◌≡◌, refl, ◌∙◌, ◌⊎◌, inl, inr, none, some, Option-cases, or_else,
}
use event_alpha.Contracts.Event.{Digest}
use event_alpha.Contracts.Market.{MarketQuote}
use event_alpha.Db.Schema.{MarketQuoteRow}
use event_alpha.Db.MarketRepository.Base.{
  MarketSchema, MarketDb, ensure_provider, ensure_instrument,
}
use event_alpha.Db.MarketRepository.Fingerprint.{Runtime, quote_fingerprint}
use event_alpha.Db.MarketRepository.Quotes.{quote_row, add_quote, save_quote}

quote_row-hash : (h : Digest) (quote : MarketQuote) → (quote_row h quote).content_hash ≡ h
unfolding quote_row
quote_row-hash h quote = refl

-- Two quotes observe the same: they may differ in identifiers, in the times of processing and,
-- where the provider gives a time, in the time of receipt.
pub record SameContent (a b : MarketQuote) : Type 0 where
  pub provider : a.provider ≡ b.provider
  pub symbol : a.symbol ≡ b.symbol
  pub native_id : a.native_id ≡ b.native_id
  pub effective_time :
      or_else a.provider_timestamp a.received_at ≡ or_else b.provider_timestamp b.received_at
  pub bid : a.bid ≡ b.bid
  pub ask : a.ask ≡ b.ask
  pub last : a.last ≡ b.last

SameContent-fingerprint :
    (runtime : Runtime) (a b : MarketQuote)
    → SameContent a b
    → quote_fingerprint runtime a ≡ quote_fingerprint runtime b
unfolding quote_fingerprint
SameContent-fingerprint runtime a b same =
    cc (
      same.provider, same.symbol, same.native_id, same.effective_time, same.bid, same.ask,
      same.last,
    )

module _ (schema : MarketSchema) (runtime : Runtime) where
  open schema use {quotes}

  -- A write either finds the fingerprint of the quote and leaves the observations as they are, or
  -- it does not find it and adds the row of the quote.
  pub save_quote_cases :
      (quote : MarketQuote) (db : MarketDb schema)
      → ((row : MarketQuoteRow) × (quotes.get db.quotes (quote_fingerprint runtime quote)
            ≡ some row)
          × ((save_quote schema runtime quote db).0 ≡ false)
          × ((save_quote schema runtime quote db).1.quotes ≡ db.quotes))
        ⊎ (quotes.get db.quotes (quote_fingerprint runtime quote) ≡ none)
          × ((save_quote schema runtime quote db).0 ≡ true)
          × ((save_quote schema runtime quote db).1.quotes
              ≡ quotes.put (quote_row (quote_fingerprint runtime quote) quote) db.quotes)
  unfolding save_quote ensure_provider ensure_instrument
  save_quote_cases quote db =
      elim (Option-cases (quotes.get db.quotes (quote_fingerprint runtime quote))) [
        | inl new ↦ inr (new, rw (new, save_quote, add_quote), rw (new, save_quote, add_quote))
        | inr (row, old) ↦
            inl (row, old, rw (old, save_quote, add_quote), rw (old, save_quote, add_quote))
      ]

  -- Append-only: an observation that is stored stays stored, unchanged, whatever quote is saved.
  pub save_quote-append :
      (quote : MarketQuote) (db : MarketDb schema) (k : Digest) (row : MarketQuoteRow)
      → quotes.get db.quotes k ≡ some row
      → quotes.get (save_quote schema runtime quote db).1.quotes k ≡ some row
  save_quote-append quote db k row h = elim (save_quote_cases quote db) [
    | inl (_, _, _, same) ↦ rw same h
    | inr (new, _, added) ↦ rw added (
        quotes.get-put_ne (quote_row (quote_fingerprint runtime quote) quote) db.quotes k
          (λ e. cc (quote_row-hash (quote_fingerprint runtime quote) quote, e, new, h))
        ∙ h)
  ]

  -- After a write the fingerprint of the quote is stored.
  pub save_quote-stored :
      (quote : MarketQuote) (db : MarketDb schema)
      → (row : MarketQuoteRow) × (quotes.get
            (save_quote schema runtime quote db).1.quotes
            (quote_fingerprint runtime quote)
          ≡ some row)
  save_quote-stored quote db = elim (save_quote_cases quote db) [
    | inl (row, old, _, same) ↦ (row, rw same old)
    | inr (new, _, added) ↦ (
      quote_row (quote_fingerprint runtime quote) quote,
      rw added (
          unfold quote_row in
          quotes.get-put_self (quote_row (quote_fingerprint runtime quote) quote) db.quotes),
    )
  ]

  -- Idempotent ingestion: once a quote is saved, a second one with the same provider, symbol,
  -- native identifier, effective time and prices is reported as not inserted, whatever its
  -- identifiers and its times of receipt and processing, and no observation is added.
  pub save_quote-replay :
      (quote replayed : MarketQuote) (db : MarketDb schema)
      → SameContent replayed quote
      → ((save_quote schema runtime replayed (save_quote schema runtime quote db).1).0 ≡ false)
        × ((save_quote schema runtime replayed (save_quote schema runtime quote db).1).1.quotes
            ≡ (save_quote schema runtime quote db).1.quotes)
  save_quote-replay quote replayed db same =
      let (row, stored) = save_quote-stored quote db in
      elim (save_quote_cases replayed (save_quote schema runtime quote db).1) [
        | inl (_, _, refused, unchanged) ↦ (refused, unchanged)
        | inr (new, _, _) ↦
            absurd (cc (new, stored, SameContent-fingerprint runtime replayed quote same))
      ]
