-- ===== src/Db/EventRepository/Synced.antt =====
-- The tables have what the indexes of the event service say, and a save keeps them so.
use event_alpha.Prelude.{ℕ, true, ◌≤◌, ◌≡◌, ◌⊎◌, ◌↔◌, none, some, In}
use event_alpha.Prelude.Dict.{ℕ_key, lookup}
use event_alpha.Contracts.{Uuid}
use event_alpha.Contracts.Event.{RawEnvelope, EventMention, CanonicalEvent}
use event_alpha.Db.Schema.{RawItemRow, EventRow, EventMentionRow}
use event_alpha.Db.EventRepository.{
  EventSchema, EventDb, source_fits, item_fits, event_fits, fits, source_row, event_row,
  raw_item_row, mention_row, read_mention,
}
use event_alpha.Events.Service.{
  EventRuntime, Identity, Indexes, identity_key, version_key, identity_of, envelope_identity,
  mention_of, remember_event,
}
use event_alpha.Events.Service.Version.{IsEvent}
use event_alpha.Events.Service.Valid.{IsValid, IsNext}

module _ (runtime : EventRuntime) (schema : EventSchema) where
  open schema use {dialect, raw_items, events, mentions}

  abbrev pub item_identity : RawItemRow → Identity
  item_identity item =
      identity_of runtime item.provider item.source_id item.native_id item.content_hash

  -- The mention stands in the table, under the event and a version up to this one.
  abbrev pub HasMention : EventDb schema → Uuid → ℕ → EventMention → Type 0
  HasMention db id version mention =
      (row : EventMentionRow) × (mentions.get db.mentions mention.raw_item_id ≡ some row)
      × (row.event_id ≡ id)
      × (row.event_version ≤ version)
      × (read_mention dialect row ≡ mention)

  -- A row of an item and its mention, of an event that has the identity of the item.
  pub record IsItem (x : Indexes) (row : EventMentionRow) (item : RawItemRow) : Type 0 where
    pub attributed : lookup identity_key (item_identity item) x.by_identity ≡ some row.event_id
    pub current : CanonicalEvent
    pub found : lookup ℕ_key row.event_id x.events ≡ some current
    pub in_version : row.event_version ≤ current.event_version

  -- Every version has its row and its mentions; the rows of versions are exactly those from 1 to the
  -- version of each current event, whose texts fit the columns; the rows of the items and of their
  -- mentions correspond, and are those of the identities.
  pub record Synced (x : Indexes) (db : EventDb schema) : Type 0 where
    pub stored :
        (id : Uuid) (version : ℕ) (event : CanonicalEvent)
        → lookup version_key (id, version) x.versions ≡ some event
        → events.get db.events (id, version) ≡ some (event_row event)
    pub listed :
        (id : Uuid) (version : ℕ) (event : CanonicalEvent) (mention : EventMention)
        → lookup version_key (id, version) x.versions ≡ some event
        → In mention event.mentions ↔ HasMention db id version mention
    pub known :
        (id : Uuid) (version : ℕ) (row : EventRow)
        → events.get db.events (id, version) ≡ some row
        → (current : CanonicalEvent) × (lookup ℕ_key id x.events ≡ some current)
          × (1 ≤ version)
          × (version ≤ current.event_version)
    pub complete :
        (id : Uuid) (current : CanonicalEvent) (version : ℕ)
        → lookup ℕ_key id x.events ≡ some current
        → 1 ≤ version
        → version ≤ current.event_version
        → (row : EventRow) × (events.get db.events (id, version) ≡ some row)
    pub fitting :
        (id : Uuid) (current : CanonicalEvent)
        → lookup ℕ_key id x.events ≡ some current
        → event_fits (event_row current) ≡ true
    pub itemed :
        (id : Uuid) (row : EventMentionRow)
        → mentions.get db.mentions id ≡ some row
        → (item : RawItemRow) × (raw_items.get db.raw_items id ≡ some item) × IsItem x row item
    pub mentioned :
        (id : Uuid) (item : RawItemRow)
        → raw_items.get db.raw_items id ≡ some item
        → (row : EventMentionRow) × (mentions.get db.mentions id ≡ some row)
    pub identified :
        (key : Identity) (event_id : Uuid)
        → lookup identity_key key x.by_identity ≡ some event_id
        → (id : Uuid) × (row : EventMentionRow) × (item : RawItemRow) × (mentions.get db.mentions id
            ≡ some row)
          × (raw_items.get db.raw_items id ≡ some item)
          × (row.event_id ≡ event_id)
          × (item_identity item ≡ key)

  -- The event that is saved has the mentions of the version before it, if there is one, and that
  -- of the item.
  abbrev pub Grows : Indexes → RawEnvelope → CanonicalEvent → Type 0
  Grows x envelope event =
      (mention : EventMention)
      → In mention event.mentions ↔ (
          (mention ≡ mention_of envelope)
          ⊎ ((old : CanonicalEvent) × (lookup ℕ_key event.event_id x.events ≡ some old)
              × In mention old.mentions))

  -- The indexes after the event is published, and the tables after it is saved.
  abbrev pub published_indexes : RawEnvelope → CanonicalEvent → Indexes → Indexes
  published_indexes envelope event x =
      remember_event (envelope_identity runtime envelope) envelope event x

  abbrev pub saved_row : RawEnvelope → CanonicalEvent → EventMentionRow
  saved_row envelope event = mention_row event (mention_of envelope)

  abbrev pub saved_db :
      RawEnvelope → CanonicalEvent → schema.sources.T → EventDb schema → EventDb schema
  saved_db envelope event sources db = record {
    sources = sources;
    raw_items = raw_items.put (raw_item_row envelope) db.raw_items;
    events = events.put (event_row event) db.events;
    mentions = mentions.put (saved_row envelope event) db.mentions;
  }

  -- The texts of the rows of an item fit their columns.
  pub record HasTexts (envelope : RawEnvelope) : Type 0 where
    pub source : source_fits (source_row envelope) ≡ true
    pub item : item_fits (raw_item_row envelope) ≡ true
    pub group : fits 255 (mention_of envelope).independence_group ≡ true

  -- The situation in which an event is saved: the next version of an event, for an item that is
  -- neither known by its identity nor stored.
  pub record Saving (x : Indexes) (db : EventDb schema) (envelope : RawEnvelope)
      (event : CanonicalEvent) : Type 0 where
    pub valid : IsValid x
    pub synced : Synced x db
    pub next : IsNext x event
    pub well_formed : IsEvent event
    pub grows : Grows x envelope event
    pub fitting : HasTexts envelope
    pub event_fitting : event_fits (event_row event) ≡ true
    pub absent : mentions.get db.mentions envelope.id ≡ none
    pub unknown : lookup identity_key (envelope_identity runtime envelope) x.by_identity ≡ none
