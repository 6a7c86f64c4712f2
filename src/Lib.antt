-- ===== src/Lib.antt =====
-- EventAlpha: the market data path, the event service, the signal fusion and the risk gate of
-- services/api.
--
-- The program ingests quotes and bars of a market data provider, keeps them as append-only
-- observations in a SQL database, reads them back as of a point in time, and fuses events with
-- market features into signals that a risk gate approves or reduces. The parts and the files that
-- model them:
--
--   * services/api/app/contracts.py: Contracts (Base, Time, Market, Event, Signal). The pydantic
--     models are records with the fields of the source; a validator is a function that returns the
--     value or `value_error`. `_as_utc` is Time.as_utc.
--   * services/api/app/config.py: Config, the class Settings with `from_environment` and the functions
--     that parse a variable. Ready has what the settings promise.
--   * services/api/app/providers/news/factory.py: News, `build_news_providers` with what the
--     constructors of providers/news/http_sources.py refuse, with its proofs in Sources; Retry has
--     `_get_with_retry` of the latter file over the answers of an HTTP client.
--   * services/api/app/domain/risk.py: Domain.Risk, `evaluate` with its seven checks.
--   * services/api/app/domain/signal.py: Domain.Signal, `_action` and `create_candidate`.
--   * services/api/app/db/models.py: Db.Schema, the rows of the tables and the CHECK constraints of
--     the market tables.
--   * services/api/app/db/market_repository.py: Db.MarketRepository. Base has `_ensure_provider` and
--     `_ensure_instrument`, Fingerprint the content hashes, Quotes `save_quote` and `latest_quote`,
--     Bars `save_bars` and `bars`, State `record_success`, `record_failure` and `provider_state`.
--     `latest_quote` and `bars` are what is read before the contract validates it once more;
--     `validated_latest_quote` and `validated_bars` are the whole methods.
--   * services/api/app/providers/market.py and the protocol MarketPersistence of
--     services/api/app/market/service.py: Market.Interface.
--   * services/api/app/market/service.py: Market.Freshness (the ages) and Market.Service (the reads,
--     the saves and their errors), with Watchlist (`refresh_watchlist`), Bars (`refresh_bars`) and
--     Health (`health`). The proofs stand in Frame, Unmoved, Durability, Durable, Latest, ReadOnly,
--     Retries, Calm (which errors the saves raise) and Attempts.
--   * services/api/app/events/service.py: Events. Interface has the data and EventPersistence, Title
--     `title_fingerprint` and `jaccard`, Similarity `_similar_event`, Service the class EventService.
--     Its proofs: Groups (the independence groups), Version (one version of an event), Valid (the
--     indexes), Ingest (how `ingest` ends), Publication, Many, Listing and Refreshed.
--   * services/api/app/db/event_repository.py: Db.EventRepository, `save`, `load_state` and
--     `load_event_version`. Synced says when the tables have what the indexes say; Versions,
--     Mentions, Items and Save are about `save`, Ingest about `ingest` over it, History about
--     `load_event_version`, Latest and Restart about `load_state` and `refresh`.
--   * services/api/app/providers/replay_market.py: Market.Replay, the class ReplayMarketDataProvider as
--     an implementation of the provider protocol; Bars has the proofs on `bars`,
--     Streams those on its streams.
--   * scripts/apply_migrations.py: Migrations, `_migration_statements`, the checksums and
--     `apply_migrations`. Ledger is about the rows that the loop over the files leaves, Executed
--     about the statements that it executes, Files about the names of the files, Accepted about a
--     run and Again about the next one.
--
-- How the services and the repositories interact: the event service calls its persistence before it
-- changes its indexes, and Db.EventRepository.sql_event_repository is one. In the same way
-- the market data service calls its persistence through the
-- protocol; Market.Service.Repository gives the repository as that protocol, with the facts of
-- Market.Service.Durability that the service relies on.
--
-- Values. An instant is the number of microseconds since 0001-01-01 UTC; a datetime is `naive` with
-- its wall time or `aware` with the instant and its offset. A Uuid and a SHA-256 digest are the
-- numbers that their texts write, so that they are ordered as the texts are. A Decimal is an
-- integer number of units of 10 ^ -10: the prices of the model have at most ten decimals and below
-- 18 digits before them, which the columns Numeric(28, 10) keep as they are; the rounding and the
-- refusal of other prices by the columns are not modelled. The scores of the risk gate are in
-- hundredths where the source rounds them there.
--
-- Parameters, for code that is not in the repository: the floating-point numbers (Domain.Float,
-- with the order facts and the values of the literals; the settings only keep a bit pattern), the
-- environment, `float` and the texts of Python for the settings (Config.ConfigRuntime) and for the
-- retries (News.Retry.RetryRuntime), the tables of the database (Db.Table: a key that is put is
-- found, the others stay; a list of writes is one), what a column gives back for an instant
-- (Db.Schema.Dialect: naive as in SQLite, or aware as in PostgreSQL), SHA-256 and the texts of
-- times and numbers (Db.MarketRepository.Fingerprint.Runtime), the classes of characters of `str`
-- and the texts of digests (Events.Service.EventRuntime), and the two operations on doubles that
-- give the milliseconds of a `timedelta` (Market.Freshness.Doubles: each is correctly rounded, with
-- a relative error of at most 2 ^ -53, for spans within 31 years). The identifier that `uuid4`
-- draws for an event is an argument of `ingest`. A similarity of titles is a quotient of two counts
-- below 2 ^ 26, where the quotients of floats are ordered as the exact ones. A transaction runs
-- alone: the unique constraints are not raced for. One that fails takes back what it has written,
-- the statements of a migration included, as PostgreSQL does; these statements leave the table
-- schema_migrations alone.
--
-- State and errors. A method of the service is a function from the world (the persistence, the
-- provider, the readings taken of the clock, the quotes shown, the sleeps) to a result and the world
-- after it: what was done before a raise stays done. An exception is a value of Errors.Exc.
-- The cancellation of a task is not modelled.
--
-- Fuel. `refresh_watchlist` runs while its provider streams, so the loop takes a number of rounds: a
-- round opens a stream if none is open and waits for one quote. For a provider whose first
-- stream gives at most `left` quotes, and whose streams after failures give no more than what was
-- left of it, left * attempts + attempts rounds are enough.
-- All other loops recur on a list or on the attempts that are left.
--
-- Not modelled: the replayed news and the demonstration signal, the feeds and payloads of the news
-- providers, the API, the workers, the locks and the web client. The limits on the lengths of the
-- texts of envelopes and analyses are not part of Contracts. PostgreSQL cuts off spaces that are
-- past the length of a text column, where the model has the text refused.
pub mod Prelude
pub mod Errors
pub mod Exec
pub mod Contracts
pub mod Config
pub mod Domain
pub mod Db
pub mod Market
pub mod Events
pub mod News
pub mod Migrations
mod Tests
