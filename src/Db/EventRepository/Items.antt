-- ===== src/Db/EventRepository/Items.antt =====
-- The rows of the items and of their mentions after a save.
use mathlib.Core.Path.{subst}
use event_alpha.Prelude.{◌≡◌, sym, ap, ◌∙◌, inl, inr, none, some, arith, Option-cases}
use event_alpha.Prelude.Dict.{ℕ_key, lookup, insert-found, lookup-insert_self, lookup-insert_ne}
use event_alpha.Contracts.{Uuid}
use event_alpha.Contracts.Event.{RawEnvelope, CanonicalEvent}
use event_alpha.Db.Schema.{RawItemRow, EventMentionRow}
use event_alpha.Db.EventRepository.{EventSchema, EventDb, raw_item_row, mention_row}
use event_alpha.Db.EventRepository.Rows.{put-found, put-kept}
use event_alpha.Db.EventRepository.Synced.{
  IsItem, Saving, item_identity, published_indexes, saved_row, saved_db,
}
use event_alpha.Events.Service.{
  EventRuntime, Identity, Indexes, identity_key, envelope_identity, mention_of, remember_event,
}
use event_alpha.Events.Service.Valid.{superseded-after}

module _ (runtime : EventRuntime) (schema : EventSchema) (x : Indexes) (db : EventDb schema)
    (envelope : RawEnvelope) (event : CanonicalEvent) (sources : schema.sources.T)
    (saving : Saving runtime schema x db envelope event) where
  open schema use {dialect, raw_items, events, mentions}
  open saving use {valid, synced, next, well_formed, grows, absent, unknown}

  abbrev x' : Indexes
  x' = published_indexes runtime schema envelope event x

  abbrev db' : EventDb schema
  db' = saved_db runtime schema envelope event sources db

  abbrev new_row : EventMentionRow
  new_row = saved_row runtime schema envelope event

  abbrev new_item : RawItemRow
  new_item = raw_item_row envelope

  IsItem-new : IsItem runtime schema x' new_row new_item
  unfolding remember_event raw_item_row mention_row
  IsItem-new = record {
    attributed =
        lookup-insert_self identity_key (envelope_identity runtime envelope) event.event_id
          x.by_identity;
    current = event;
    found = lookup-insert_self ℕ_key event.event_id event x.events;
    in_version = omega arith;
  }

  identity-kept :
      (key : Identity) (id : Uuid)
      → lookup identity_key key x.by_identity ≡ some id
      → lookup identity_key key x'.by_identity ≡ some id
  unfolding remember_event
  identity-kept key id h =
      lookup-insert_ne identity_key key (envelope_identity runtime envelope) event.event_id
        x.by_identity (λ e. cc (unknown, h, ap (λ k. lookup identity_key k x.by_identity) e))
      ∙ h

  IsItem-kept :
      (row : EventMentionRow) (item : RawItemRow)
      → IsItem runtime schema x row item
      → IsItem runtime schema x' row item
  IsItem-kept row item entry =
      let (current, is_current, le) =
        superseded-after x valid event next (envelope_identity runtime envelope) envelope
          well_formed row.event_id row.event_version entry.current entry.found entry.in_version in
      record {
        attributed =
            identity-kept (item_identity runtime schema item) row.event_id entry.attributed;
        current = current;
        found = is_current;
        in_version = le;
      }

  -- The item was not stored before, as each item that is has its mention.
  item_absent : raw_items.get db.raw_items envelope.id ≡ none
  item_absent = elim (Option-cases (raw_items.get db.raw_items envelope.id)) [
    | inl nothing ↦ nothing
    | inr (item, found) ↦
        let (row, is_row) = synced.mentioned envelope.id item found in absurd (cc (absent, is_row))
  ]

  new_item-get : raw_items.get db'.raw_items envelope.id ≡ some new_item
  unfolding raw_item_row
  new_item-get = raw_items.get-put_self new_item db.raw_items

  new_row-get : mentions.get db'.mentions envelope.id ≡ some new_row
  unfolding mention_row mention_of
  new_row-get = mentions.get-put_self new_row db.mentions

  item-kept :
      (id : Uuid) (item : RawItemRow)
      → raw_items.get db.raw_items id ≡ some item
      → raw_items.get db'.raw_items id ≡ some item
  unfolding raw_item_row
  item-kept id item = put-kept ℕ_key raw_items new_item item db.raw_items id item_absent

  row-kept :
      (id : Uuid) (row : EventMentionRow)
      → mentions.get db.mentions id ≡ some row
      → mentions.get db'.mentions id ≡ some row
  unfolding mention_row mention_of
  row-kept id row = put-kept ℕ_key mentions new_row row db.mentions id absent

  pub itemed-after :
      (id : Uuid) (row : EventMentionRow)
      → mentions.get db'.mentions id ≡ some row
      → (item : RawItemRow) × (raw_items.get db'.raw_items id ≡ some item)
        × IsItem runtime schema x' row item
  unfolding mention_row mention_of
  itemed-after id row h = elim (put-found ℕ_key mentions new_row row db.mentions id h) [
    | inl (is_id, is_row) ↦ (
      new_item,
      ap (raw_items.get db'.raw_items) (sym is_id) ∙ new_item-get,
      subst (λ r. IsItem runtime schema x' r new_item) is_row IsItem-new,
    )
    | inr before ↦
        let (item, is_item, entry) = synced.itemed id row before in
        (item, item-kept id item is_item, IsItem-kept row item entry)
  ]

  pub mentioned-after :
      (id : Uuid) (item : RawItemRow)
      → raw_items.get db'.raw_items id ≡ some item
      → (row : EventMentionRow) × (mentions.get db'.mentions id ≡ some row)
  unfolding raw_item_row
  mentioned-after id item h = elim (put-found ℕ_key raw_items new_item item db.raw_items id h) [
    | inl (is_id, _) ↦ (new_row, ap (mentions.get db'.mentions) (sym is_id) ∙ new_row-get)
    | inr before ↦
        let (row, is_row) = synced.mentioned id item before in (row, row-kept id row is_row)
  ]

  pub identified-after :
      (key : Identity) (event_id : Uuid)
      → lookup identity_key key x'.by_identity ≡ some event_id
      → (id : Uuid) × (row : EventMentionRow) × (item : RawItemRow) × (mentions.get db'.mentions id
          ≡ some row)
        × (raw_items.get db'.raw_items id ≡ some item)
        × (row.event_id ≡ event_id)
        × (item_identity runtime schema item ≡ key)
  unfolding remember_event raw_item_row mention_row
  identified-after key event_id h =
      elim (insert-found identity_key key (envelope_identity runtime envelope) event_id
        event.event_id x.by_identity h) [
          | inl (is_key, is_id) ↦
              (envelope.id, new_row, new_item, new_row-get, new_item-get, is_id, is_key)
          | inr before ↦
              let (id, row, item, is_row, is_item, is_id, is_key) =
                synced.identified key event_id before in
              (id, row, item, row-kept id row is_row, item-kept id item is_item, is_id, is_key)
        ]
