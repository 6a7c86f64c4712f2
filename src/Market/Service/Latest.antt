-- ===== src/Market/Service/Latest.antt =====
-- `_remember_quote` of services/api/app/market/service.py: what is shown never goes back.
use event_alpha.Prelude.{
  ℕ, String, true, ◌≡◌, ◌≢◌, refl, ◌⊎◌, inl, inr, List, ◌∷◌, some, Bool-cases, Option-cases, eq_iff,
  str_eq,
}
use event_alpha.Prelude.Order.{lex_le, lex_le_total}
use event_alpha.Contracts.Market.{MarketQuote}
use event_alpha.Market.Service.{Quotes, get, rank_of_quote, remember_quote}

get-put_self :
    (quote : MarketQuote) (latest : Quotes)
    → get quote.symbol ((quote.symbol, quote) ∷ latest) ≡ some quote
unfolding get
get-put_self quote latest = rw ((eq_iff quote.symbol quote.symbol).1 refl)

get-put_ne :
    (symbol : String) (quote : MarketQuote) (latest : Quotes)
    → quote.symbol ≢ symbol
    → get symbol ((quote.symbol, quote) ∷ latest) ≡ get symbol latest
unfolding get
get-put_ne symbol quote latest h = elim (Bool-cases (str_eq quote.symbol symbol)) [
  | inl e ↦ absurd (h ((eq_iff quote.symbol symbol).0 e))
  | inr e ↦ rw e
]

lex_le_refl : (as' : List ℕ) → lex_le as' as' ≡ true
lex_le_refl as' = elim (lex_le_total as' as') [ inl h ↦ h | inr h ↦ h ]

-- A quote is taken if nothing above it is shown, and is dropped if the one that is shown ranks at
-- least as high.
remember_quote_cases :
    (quote : MarketQuote) (latest : Quotes)
    → ((remember_quote quote latest ≡ (quote.symbol, quote) ∷ latest)
        × ((current : MarketQuote)
            → get quote.symbol latest ≡ some current
            → lex_le (rank_of_quote current) (rank_of_quote quote) ≡ true))
      ⊎ ((current : MarketQuote) × (get quote.symbol latest ≡ some current)
          × (remember_quote quote latest ≡ latest)
          × (lex_le (rank_of_quote quote) (rank_of_quote current) ≡ true))
unfolding remember_quote
remember_quote_cases quote latest = elim (Option-cases (get quote.symbol latest)) [
  | inl new ↦ inl (rw new refl, λ current h. absurd (cc (new, h)))
  | inr (current, old) ↦ elim (Bool-cases (lex_le (rank_of_quote quote) (rank_of_quote current))) [
    | inl below ↦ inr (current, old, rw (old, below) refl, below)
    | inr above ↦ inl (
      rw (old, above) refl,
      λ other h. elim (lex_le_total (rank_of_quote quote) (rank_of_quote current)) [
        | inl below ↦ absurd (cc (below, above))
        | inr le ↦ let same : other ≡ current = cc (h, old) in rw same le
      ],
    )
  ]
]

-- After a quote is remembered, the quote that is shown for its symbol is that quote or the one that
-- was shown before; it ranks at least as high as either; and the quotes shown for the other symbols
-- are as they were.
pub get-remember_quote :
    (quote : MarketQuote) (latest : Quotes)
    → (shown : MarketQuote) × (get quote.symbol (remember_quote quote latest) ≡ some shown)
      × ((shown ≡ quote) ⊎ (get quote.symbol latest ≡ some shown))
      × (lex_le (rank_of_quote quote) (rank_of_quote shown) ≡ true)
      × ((current : MarketQuote)
          → get quote.symbol latest ≡ some current
          → lex_le (rank_of_quote current) (rank_of_quote shown) ≡ true)
      × ((symbol : String)
          → quote.symbol ≢ symbol
          → get symbol (remember_quote quote latest) ≡ get symbol latest)
get-remember_quote quote latest = elim (remember_quote_cases quote latest) [
  | inl (taken, above) ↦ (
    quote,
    rw taken (get-put_self quote latest),
    inl refl,
    lex_le_refl (rank_of_quote quote),
    above,
    λ symbol h. rw taken (get-put_ne symbol quote latest h),
  )
  | inr (current, old, dropped, below) ↦ (
    current,
    rw dropped old,
    inr old,
    below,
    λ other h.
        let same : other ≡ current = cc (h, old) in rw same (lex_le_refl (rank_of_quote current)),
    λ symbol h. rw dropped refl,
  )
]
