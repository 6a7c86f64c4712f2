-- ===== src/Db/MarketRepository/Bars/Append.antt =====
-- Writing bars: what is stored is never changed, and a batch that is ingested again adds nothing.
use event_alpha.Prelude.{
  ◌≤◌, ◌≡◌, refl, ap, ◌∙◌, ◌⊎◌, inl, inr, none, some, List, [], ◌∷◌, arith, Option-cases, length,
  All,
}
use event_alpha.Contracts.Event.{Digest}
use event_alpha.Contracts.Market.{MarketBar}
use event_alpha.Db.Schema.{MarketBarRow}
use event_alpha.Db.MarketRepository.Base.{
  MarketSchema, MarketDb, ensure_provider, ensure_instrument,
}
use event_alpha.Db.MarketRepository.Fingerprint.{Runtime, bar_fingerprint}
use event_alpha.Db.MarketRepository.Bars.{bar_row, add_bar, save_bar, save_bars}

bar_row-hash : (h : Digest) (bar : MarketBar) → (bar_row h bar).content_hash ≡ h
unfolding bar_row
bar_row-hash h bar = refl

module _ (schema : MarketSchema) (runtime : Runtime) where
  open schema use {bars}

  save_bar_cases :
      (bar : MarketBar) (db : MarketDb schema)
      → ((row : MarketBarRow) × (bars.get db.bars (bar_fingerprint runtime bar) ≡ some row)
          × ((save_bar schema runtime bar db).0 ≡ 0)
          × ((save_bar schema runtime bar db).1.bars ≡ db.bars))
        ⊎ (bars.get db.bars (bar_fingerprint runtime bar) ≡ none)
          × ((save_bar schema runtime bar db).0 ≡ 1)
          × ((save_bar schema runtime bar db).1.bars
              ≡ bars.put (bar_row (bar_fingerprint runtime bar) bar) db.bars)
  unfolding save_bar ensure_provider ensure_instrument
  save_bar_cases bar db = elim (Option-cases (bars.get db.bars (bar_fingerprint runtime bar))) [
    | inl new ↦ inr (new, rw (new, save_bar, add_bar), rw (new, save_bar, add_bar))
    | inr (row, old) ↦ inl (row, old, rw (old, save_bar, add_bar), rw (old, save_bar, add_bar))
  ]

  save_bar-append :
      (bar : MarketBar) (db : MarketDb schema) (k : Digest) (row : MarketBarRow)
      → bars.get db.bars k ≡ some row
      → bars.get (save_bar schema runtime bar db).1.bars k ≡ some row
  save_bar-append bar db k row h = elim (save_bar_cases bar db) [
    | inl (_, _, _, same) ↦ rw same h
    | inr (new, _, added) ↦ rw added (
        bars.get-put_ne (bar_row (bar_fingerprint runtime bar) bar) db.bars k
          (λ e. cc (bar_row-hash (bar_fingerprint runtime bar) bar, e, new, h))
        ∙ h)
  ]

  save_bar-stored :
      (bar : MarketBar) (db : MarketDb schema)
      → (row : MarketBarRow) × (bars.get
            (save_bar schema runtime bar db).1.bars
            (bar_fingerprint runtime bar)
          ≡ some row)
  save_bar-stored bar db = elim (save_bar_cases bar db) [
    | inl (row, old, _, same) ↦ (row, rw same old)
    | inr (new, _, added) ↦ (
      bar_row (bar_fingerprint runtime bar) bar,
      rw added
          (unfold bar_row in bars.get-put_self (bar_row (bar_fingerprint runtime bar) bar) db.bars),
    )
  ]

  -- Append-only: a bar that is stored stays stored, unchanged, whatever batch is saved, so that
  -- corrections never overwrite what was known before.
  pub save_bars-append :
      (batch : List MarketBar) (db : MarketDb schema) (k : Digest) (row : MarketBarRow)
      → bars.get db.bars k ≡ some row
      → bars.get (save_bars schema runtime batch db).1.bars k ≡ some row
  unfolding save_bars
  save_bars-append [] db k row h = h
  save_bars-append (bar ∷ batch) db k row h =
      save_bars-append batch (save_bar schema runtime bar db).1 k row
        (save_bar-append bar db k row h)

  -- The fingerprint of a bar is stored.
  abbrev pub IsStored : MarketDb schema → MarketBar → Type 0
  IsStored db bar =
      (row : MarketBarRow) × (bars.get db.bars (bar_fingerprint runtime bar) ≡ some row)

  -- After a batch is saved, every bar of it is stored.
  pub save_bars-IsStored :
      (batch : List MarketBar) (db : MarketDb schema)
      → All (IsStored (save_bars schema runtime batch db).1) batch
  unfolding save_bars
  save_bars-IsStored [] db = tt
  save_bars-IsStored (bar ∷ batch) db =
      let (row, stored) = save_bar-stored bar db in
      (
        (
          row,
          save_bars-append batch (save_bar schema runtime bar db).1 (bar_fingerprint runtime bar)
              row stored,
        ),
        save_bars-IsStored batch (save_bar schema runtime bar db).1,
      )

  IsStored-after :
      (batch : List MarketBar) (db db' : MarketDb schema)
      → db'.bars ≡ db.bars
      → All (IsStored db) batch
      → All (IsStored db') batch
  IsStored-after [] db db' e h = tt
  IsStored-after (b ∷ rest) db db' e ((r, at_b), h) = (
    (r, cc (at_b, ap (λ (t : bars.T). bars.get t (bar_fingerprint runtime b)) e)),
    IsStored-after rest db db' e h,
  )

  -- Where every bar of a batch is stored, saving it inserts nothing.
  save_bars_known :
      (batch : List MarketBar) (db : MarketDb schema)
      → All (IsStored db) batch
      → ((save_bars schema runtime batch db).0 ≡ 0)
        × ((save_bars schema runtime batch db).1.bars ≡ db.bars)
  unfolding save_bars
  save_bars_known [] db h = (refl, refl)
  save_bars_known (bar ∷ batch) db ((row, stored), rest) = elim (save_bar_cases bar db) [
    | inl (_, _, none_added, same) ↦
        let (later, kept) =
          save_bars_known batch (save_bar schema runtime bar db).1
            (IsStored-after batch db (save_bar schema runtime bar db).1 same rest) in
        (omega arith, kept ∙ same)
    | inr (new, _, _) ↦ absurd (cc (new, stored))
  ]

  -- Idempotent ingestion: a batch that is saved a second time inserts 0 bars and leaves the
  -- observations as they are.
  pub save_bars_twice :
      (batch : List MarketBar) (db : MarketDb schema)
      → ((save_bars schema runtime batch (save_bars schema runtime batch db).1).0 ≡ 0)
        × ((save_bars schema runtime batch (save_bars schema runtime batch db).1).1.bars
            ≡ (save_bars schema runtime batch db).1.bars)
  save_bars_twice batch db =
      save_bars_known batch (save_bars schema runtime batch db).1 (save_bars-IsStored batch db)

  -- At most one row is inserted for each bar.
  pub save_bars-le-length :
      (batch : List MarketBar) (db : MarketDb schema)
      → (save_bars schema runtime batch db).0 ≤ length batch
  unfolding save_bars
  save_bars-le-length [] db = omega arith
  save_bars-le-length (bar ∷ batch) db =
      let later = save_bars-le-length batch (save_bar schema runtime bar db).1 in
      elim (save_bar_cases bar db) [ inl (_, _, e, _) ↦ omega arith | inr (_, e, _) ↦ omega arith ]
