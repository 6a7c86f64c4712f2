-- ===== src/Market/Service/Repository.antt =====
-- SqlMarketRepository (services/api/app/db/market_repository.py) as the MarketPersistence of the
-- service. The errors of the database itself are not part of it.
use event_alpha.Prelude.{List, [], ◌∷◌, none, ◌∙◌, ◌≡◌, refl, Option, some}
use event_alpha.Errors.{ok}
use event_alpha.Contracts.Market.{MarketQuote, MarketBar}
use event_alpha.Db.Schema.{MarketQuoteRow, MarketBarRow}
use event_alpha.Db.MarketRepository.Base.{
  MarketSchema, MarketDb, ensure_provider, ensure_instrument,
}
use event_alpha.Db.MarketRepository.Fingerprint.{Runtime, quote_fingerprint}
use event_alpha.Db.MarketRepository.Quotes
use event_alpha.Db.MarketRepository.Bars
use event_alpha.Db.MarketRepository.State
use event_alpha.Db.MarketRepository.Quotes.Append.{save_quote-append, save_quote-stored}
use event_alpha.Market.Interface.{MarketPersistence}
use event_alpha.Market.Service.Durability.{Durability}

module _ (schema : MarketSchema) (runtime : Runtime) where
  abbrev pub sql_market_repository : MarketPersistence
  sql_market_repository = record {
    S = MarketDb schema;
    save_quote =
        λ quote db. let (added, db') = Quotes.save_quote schema runtime quote db in (ok added, db');
    save_bars = λ bars db.
        let (inserted, db') = Bars.save_bars schema runtime bars db in (ok inserted, db');
    latest_quote = λ provider symbol as_of db.
        (Quotes.validated_latest_quote schema runtime provider symbol as_of db, db);
    bars = λ provider symbol timeframe limit as_of final_only db. (
      Bars.validated_bars schema runtime provider symbol timeframe limit as_of final_only db,
      db,
    );
    record_success = λ provider observed_at last_message reconnected db.
        (ok tt, State.record_success schema provider observed_at last_message reconnected db);
    record_failure = λ provider observed_at detail exhausted last_message db.
        (ok tt, State.record_failure schema provider observed_at detail exhausted last_message db);
    provider_state = λ provider db. (ok (State.provider_state schema provider db), db);
  }

  -- The fingerprint of the quote is among the observations.
  unfoldable pub Recorded : MarketQuote → MarketDb schema → Type 0
  Recorded quote db =
      (row : MarketQuoteRow) × (schema.quotes.get db.quotes (quote_fingerprint runtime quote)
        ≡ some row)

  add_bar-quotes :
      (found : Option MarketBarRow) (row : MarketBarRow) (db : MarketDb schema)
      → (Bars.add_bar schema runtime found row db).1.quotes ≡ db.quotes
  unfolding Bars.add_bar
  add_bar-quotes none row db = refl
  add_bar-quotes (some _) row db = refl

  save_bar-quotes :
      (bar : MarketBar) (db : MarketDb schema)
      → (Bars.save_bar schema runtime bar db).1.quotes ≡ db.quotes
  unfolding Bars.save_bar ensure_provider ensure_instrument
  save_bar-quotes bar db = add_bar-quotes _ _ _

  -- Saving bars leaves the quotes as they are.
  pub save_bars-quotes :
      (bars : List MarketBar) (db : MarketDb schema)
      → (Bars.save_bars schema runtime bars db).1.quotes ≡ db.quotes
  unfolding Bars.save_bars
  save_bars-quotes [] db = refl
  save_bars-quotes (bar ∷ bars) db =
      save_bars-quotes bars (Bars.save_bar schema runtime bar db).1 ∙ save_bar-quotes bar db

  -- The repository keeps every quote that it has saved.
  unfoldable pub repository_durability : Durability sql_market_repository
  unfolding Recorded State.record_success State.record_failure ensure_provider
  repository_durability = record {
    Saved = Recorded;
    saves = λ q db r h. save_quote-stored schema runtime q db;
    keeps_save = λ p q db saved. (
      saved.0,
      save_quote-append schema runtime q db (quote_fingerprint runtime p) saved.0 saved.1,
    );
    keeps_bars = λ p bars db saved. (saved.0, rw (save_bars-quotes bars db) saved.1);
    keeps_success = λ p name at message reconnected db saved. saved;
    keeps_failure = λ p name at detail exhausted message db saved. saved;
  }
