-- ===== src/Db/EventRepository.antt =====
-- services/api/app/db/event_repository.py: the transactional persistence of one source item and
-- its event version, and what is read back.
pub mod Rows
pub mod Synced
pub mod Versions
pub mod Mentions
pub mod Items
pub mod Save
pub mod Ingest
pub mod History
pub mod Latest
pub mod Restart
use event_alpha.Prelude.{
  ℕ, ◌≡◌, String, Bool, true, false, not, ◌&&◌, ◌||◌, List, [], ◌∷◌, ◌++◌, map, Option, none, some,
  leb, ltb, ◌==◌, str_eq, keep, if◌then◌else◌,
}
use event_alpha.Prelude.Order.{sort}
use event_alpha.Errors.{Exc, Result, ok, err, other}
use event_alpha.Exec.{Exec}
use event_alpha.Contracts.{Uuid, char_count, optional_length}
use event_alpha.Contracts.Event.{RawEnvelope, EventMention, CanonicalEvent}
use event_alpha.Db.Table.{Table}
use event_alpha.Db.Schema.{Dialect, SourceRow, RawItemRow, EventRow, EventMentionRow, utc}
use event_alpha.Db.MarketRepository.Quotes.{read_optional}
use event_alpha.Events.Interface.{StoredItemIndex, PersistedEventState, EventPersistence}
use event_alpha.Events.Service.{received_before}

-- `limits_texts` says that the database refuses a text that is longer than its column, as PostgreSQL
-- does and SQLite does not.
pub record EventSchema : Type 1 where
  pub dialect : Dialect
  pub limits_texts : Bool
  pub sources : Table String SourceRow (λ r. r.source_id)
  pub raw_items : Table Uuid RawItemRow (λ r. r.id)
  pub events : Table (Uuid × ℕ) EventRow (λ r. (r.event_id, r.event_version))
  pub mentions : Table Uuid EventMentionRow (λ r. r.raw_item_id)

pub record EventDb (schema : EventSchema) : Type 0 where
  pub sources : schema.sources.T
  pub raw_items : schema.raw_items.T
  pub events : schema.events.T
  pub mentions : schema.mentions.T

-- The rows that `save` writes.
unfoldable pub source_row : RawEnvelope → SourceRow
source_row envelope = record {
  source_id = envelope.source_id;
  provider = envelope.provider;
  source_type = envelope.source_type;
  credibility_prior = envelope.source_credibility_prior;
  storage_policy = envelope.storage_policy;
}

unfoldable pub raw_item_row : RawEnvelope → RawItemRow
raw_item_row envelope = record {
  id = envelope.id;
  trace_id = envelope.trace_id;
  provider = envelope.provider;
  source_id = envelope.source_id;
  native_id = envelope.native_id;
  event_time = envelope.event_time;
  published_at = envelope.published_at;
  received_at = envelope.received_at;
  processed_at = envelope.processed_at;
  title = envelope.title;
  url = envelope.url;
  language = envelope.language;
  category = envelope.category;
  content_hash = envelope.content_hash;
  storage_policy = envelope.storage_policy;
  independence_group = envelope.independence_group;
  derived_attributes = envelope.derived_attributes;
}

unfoldable pub event_row : CanonicalEvent → EventRow
event_row event = record {
  event_id = event.event_id;
  event_version = event.event_version;
  version_created_at = event.version_created_at;
  clustering_version = event.clustering_version;
  canonical_title = event.canonical_title;
  event_type = event.event_type;
  event_time = event.event_time;
  first_received_at = event.first_received_at;
  last_updated_at = event.last_updated_at;
  language = event.language;
  novelty = event.novelty;
  source_independence = event.source_independence;
}

unfoldable pub mention_row : CanonicalEvent → EventMention → EventMentionRow
mention_row event mention = record {
  raw_item_id = mention.raw_item_id;
  event_id = event.event_id;
  event_version = event.event_version;
  source_id = mention.source_id;
  independence_group = mention.independence_group;
  published_at = mention.published_at;
  received_at = mention.received_at;
}

-- next(mention for mention in mentions if mention.raw_item_id == id)
unfoldable pub next_mention : Uuid → List EventMention → Option EventMention
next_mention id [] = none
next_mention id (mention ∷ mentions) =
    if mention.raw_item_id == id then some mention else next_mention id mentions

-- The unique indexes uq_raw_provider_native and uq_raw_provider_content_fallback: two rows with the
-- same entry in one of them.
abbrev pub same_item : Option String → Option String → RawItemRow → RawItemRow → Bool
same_item (some a) (some b) r s = str_eq a b
same_item none none r s = r.content_hash == s.content_hash
same_item _ _ r s = false

unfoldable pub same_entry : RawItemRow → RawItemRow → Bool
same_entry r s =
    str_eq r.provider s.provider
    && str_eq r.source_id s.source_id
    && same_item r.native_id s.native_id r s

-- A row other than the one with this key has the same entry.
unfoldable pub violates : RawItemRow → List RawItemRow → Bool
unfolding same_entry
violates r [] = false
violates r (s ∷ rows) = (not (s.id == r.id) && same_entry r s) || violates r rows

-- The texts fit the String(n) columns of their row.
abbrev pub fits : ℕ → String → Bool
fits limit text = leb (char_count text) limit

unfoldable pub source_fits : SourceRow → Bool
source_fits r = fits 255 r.source_id && fits 100 r.provider && fits 100 r.source_type

unfoldable pub item_fits : RawItemRow → Bool
item_fits r =
    fits 100 r.provider
    && fits 255 r.source_id
    && optional_length 500 r.native_id
    && fits 1000 r.title
    && fits 10 r.language
    && fits 100 r.category
    && optional_length 255 r.independence_group

unfoldable pub event_fits : EventRow → Bool
event_fits r =
    fits 100 r.clustering_version
    && fits 1000 r.canonical_title
    && fits 100 r.event_type
    && fits 10 r.language

unfoldable pub mention_fits : EventMentionRow → Bool
mention_fits r = fits 255 r.source_id && fits 255 r.independence_group

-- `_canonical_event`
unfoldable pub canonical_event : Dialect → EventRow → List EventMention → CanonicalEvent
canonical_event dialect row mentions = record {
  event_id = row.event_id;
  event_version = row.event_version;
  version_created_at = utc (dialect.column row.version_created_at);
  clustering_version = row.clustering_version;
  canonical_title = row.canonical_title;
  event_type = row.event_type;
  event_time = read_optional dialect row.event_time;
  first_received_at = utc (dialect.column row.first_received_at);
  last_updated_at = utc (dialect.column row.last_updated_at);
  language = row.language;
  novelty = row.novelty;
  source_independence = row.source_independence;
  mentions = mentions;
}

unfoldable pub read_mention : Dialect → EventMentionRow → EventMention
read_mention dialect row = record {
  raw_item_id = row.raw_item_id;
  source_id = row.source_id;
  independence_group = row.independence_group;
  published_at = read_optional dialect row.published_at;
  received_at = utc (dialect.column row.received_at);
}

-- The row of the latest version of an event: the subquery with max and its join.
unfoldable pub is_latest : EventRow → List EventRow → Bool
is_latest row [] = true
is_latest row (later ∷ rows) =
    not (later.event_id == row.event_id && ltb row.event_version later.event_version)
    && is_latest row rows

module _ (schema : EventSchema) where
  open schema use {dialect, sources, raw_items, events, mentions}

  -- session.add if session.get finds nothing
  abbrev pub add_source : Option SourceRow → SourceRow → sources.T → sources.T
  add_source none row t = sources.put row t
  add_source (some _) row t = t

  -- Every row that `save` writes fits its columns; a source that is there is not written.
  abbrev pub row_fits : Option SourceRow → SourceRow → Bool
  row_fits none row = source_fits row
  row_fits (some _) row = true

  abbrev pub rows_fit : Option SourceRow → RawEnvelope → EventRow → EventMentionRow → Bool
  rows_fit source envelope event mention =
      row_fits source (source_row envelope)
      && item_fits (raw_item_row envelope)
      && event_fits event
      && mention_fits mention

  -- The end of the transaction: a text that is too long or a violated index raises and takes
  -- everything back. Where both are the case the first statement that fails decides; here it is the
  -- text.
  abbrev commit : Bool → Bool → EventDb schema → EventDb schema → Result (Unit {0}) × EventDb schema
  commit true _ written db = (err (other "DataError"), db)
  commit false true written db = (err (other "IntegrityError"), db)
  commit false false written db = (ok tt, written)

  abbrev pub save_mention :
      RawEnvelope → CanonicalEvent → Option EventMention → Exec (EventDb schema) (Unit {0})
  save_mention envelope event none db = (err (other "StopIteration"), db)
  save_mention envelope event (some current_mention) db =
      commit
        (schema.limits_texts
          && not (
              rows_fit (sources.get db.sources envelope.source_id) envelope (event_row event)
                (mention_row event current_mention)))
        (violates (raw_item_row envelope) (raw_items.rows db.raw_items))
        (record {
          sources =
              add_source (sources.get db.sources envelope.source_id) (source_row envelope)
                db.sources;
          raw_items = raw_items.put (raw_item_row envelope) db.raw_items;
          events = events.put (event_row event) db.events;
          mentions = mentions.put (mention_row event current_mention) db.mentions;
        })
        db

  -- `save`
  unfoldable pub save : RawEnvelope → CanonicalEvent → Exec (EventDb schema) (Unit {0})
  unfolding next_mention source_fits item_fits event_fits mention_fits
  save envelope event db = save_mention envelope event (next_mention envelope.id event.mentions) db

  abbrev pub with_item : EventMentionRow → Option RawItemRow → List (EventMentionRow × RawItemRow)
  with_item mention none = []
  with_item mention (some item) = (mention, item) ∷ []

  -- select(EventMentionRow, RawItemRow).join(RawItemRow, raw_item_id == RawItemRow.id)
  unfoldable pub joined : List EventMentionRow → raw_items.T → List (EventMentionRow × RawItemRow)
  joined [] items = []
  joined (mention ∷ rows) items =
      with_item mention (raw_items.get items mention.raw_item_id) ++ joined rows items

  -- mentions_by_event.get(event_id, [])
  unfoldable pub mentions_by_event : Uuid → List (EventMentionRow × RawItemRow) → List EventMention
  mentions_by_event id pairs =
      map (λ p. read_mention dialect p.0) (keep (λ p. p.0.event_id == id) pairs)

  unfoldable pub stored_item : EventMentionRow × RawItemRow → StoredItemIndex
  stored_item (mention, item) = record {
    provider = item.provider;
    source_id = item.source_id;
    native_id = item.native_id;
    content_hash = item.content_hash;
    event_id = mention.event_id;
  }

  -- `load_state`
  unfoldable pub load_state : Exec (EventDb schema) PersistedEventState
  unfolding is_latest joined mentions_by_event stored_item
  load_state db =
      let rows = events.rows db.events in
      let pairs = joined (mentions.rows db.mentions) db.raw_items in
      (
        ok (record {
          events =
              map
                (λ row.
                  canonical_event dialect row
                    (sort received_before (mentions_by_event row.event_id pairs)))
                (keep (λ row. is_latest row rows) rows);
          items = map stored_item pairs;
        }),
        db,
      )

  abbrev version_of : Uuid → ℕ → EventDb schema → Option EventRow → Option CanonicalEvent
  version_of event_id event_version db none = none
  version_of event_id event_version db (some row) = some (
      canonical_event dialect row (
        sort received_before (
          map (read_mention dialect) (
            keep
              (λ mention.
                mention.event_id == event_id && not (ltb event_version mention.event_version))
              (mentions.rows db.mentions)))))

  -- `load_event_version`
  unfoldable pub load_event_version : Uuid → ℕ → Exec (EventDb schema) (Option CanonicalEvent)
  load_event_version event_id event_version db = (
    ok (version_of event_id event_version db (events.get db.events (event_id, event_version))),
    db,
  )

  -- The repository as the event service uses it.
  abbrev pub sql_event_repository : EventPersistence
  sql_event_repository = record {
    S = EventDb schema;
    save = save;
    load_state = load_state;
    load_event_version = load_event_version;
  }
