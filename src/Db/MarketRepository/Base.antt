-- ===== src/Db/MarketRepository/Base.antt =====
-- The tables of SqlMarketRepository and the rows that every write ensures
-- (services/api/app/db/market_repository.py).
use event_alpha.Prelude.{String, true, Option, none, some}
use event_alpha.Contracts.Time.{Instant}
use event_alpha.Contracts.Event.{Digest}
use event_alpha.Db.Table.{Table}
use event_alpha.Db.Schema.{
  Dialect, ProviderRow, InstrumentRow, MarketBarRow, MarketQuoteRow, ProviderStateRow,
}

pub record MarketSchema : Type 1 where
  pub dialect : Dialect
  pub providers : Table String ProviderRow (λ r. r.provider_id)
  pub instruments : Table String InstrumentRow (λ r. r.symbol)
  pub quotes : Table Digest MarketQuoteRow (λ r. r.content_hash)
  pub bars : Table Digest MarketBarRow (λ r. r.content_hash)
  pub states : Table String ProviderStateRow (λ r. r.provider_id)

pub record MarketDb (schema : MarketSchema) : Type 0 where
  pub providers : schema.providers.T
  pub instruments : schema.instruments.T
  pub quotes : schema.quotes.T
  pub bars : schema.bars.T
  pub states : schema.states.T

module _ (schema : MarketSchema) where
  -- session.add if session.get finds nothing
  abbrev pub add_provider :
      Option ProviderRow → ProviderRow → schema.providers.T → schema.providers.T
  add_provider none row t = schema.providers.put row t
  add_provider (some _) row t = t

  abbrev pub add_instrument :
      Option InstrumentRow → InstrumentRow → schema.instruments.T → schema.instruments.T
  add_instrument none row t = schema.instruments.put row t
  add_instrument (some _) row t = t

  -- `_ensure_provider`
  unfoldable pub ensure_provider : String → Instant → MarketDb schema → MarketDb schema
  ensure_provider provider created_at db = record db {
    providers =
        add_provider (schema.providers.get db.providers provider)
          (record {
            provider_id = provider;
            provider_type = "market_data";
            created_at = created_at;
          })
          db.providers;
  }

  -- `_ensure_instrument`
  unfoldable pub ensure_instrument : String → Instant → MarketDb schema → MarketDb schema
  ensure_instrument symbol created_at db = record db {
    instruments =
        add_instrument (schema.instruments.get db.instruments symbol)
          (record {
            symbol = symbol;
            asset_class = "unknown";
            active = true;
            created_at = created_at;
          })
          db.instruments;
  }
