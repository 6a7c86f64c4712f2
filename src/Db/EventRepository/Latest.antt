-- ===== src/Db/EventRepository/Latest.antt =====
-- What `load_state` of services/api/app/db/event_repository.py reads of an event: its latest
-- version, and its mentions.
use mathlib.Core.Path.{subst}
use event_alpha.Prelude.{
  ◌≤◌, ◌≡◌, refl, sym, ap, ◌∙◌, inl, inr, ◌↔◌, Bool, true, List, [], ◌∷◌, map, some, arith, ◌==◌,
  ==_iff, In, In-map, map-In, In-keep, keep-In, keep,
}
use event_alpha.Prelude.Dict.{ℕ_key, lookup}
use event_alpha.Prelude.Order.{sort}
use event_alpha.Errors.{ok}
use event_alpha.Contracts.{Uuid}
use event_alpha.Contracts.Event.{EventMention, CanonicalEvent}
use event_alpha.Db.Schema.{EventRow, EventMentionRow, RawItemRow}
use event_alpha.Db.EventRepository.{
  EventSchema, EventDb, event_row, canonical_event, read_mention, is_latest, joined,
  mentions_by_event, stored_item, load_state,
}
use event_alpha.Db.EventRepository.Rows.{joined-In, In-joined}
use event_alpha.Db.EventRepository.Synced.{Synced, HasMention}
use event_alpha.Events.Interface.{PersistedEventState}
use event_alpha.Events.Service.{EventRuntime, Indexes, received_before}
use event_alpha.Events.Service.Valid.{IsValid, named}

is_latest-all :
    (row : EventRow) (rows : List EventRow)
    → is_latest row rows ≡ true
    → (other : EventRow) → In other rows
    → other.event_id ≡ row.event_id
    → other.event_version ≤ row.event_version
unfolding is_latest
is_latest-all row [] h other m e = absurd m
is_latest-all row (first ∷ rows) h other (inl same) e =
    let is_id : first.event_id ≡ row.event_id = sym (ap (λ r. r.event_id) same) ∙ e in
    let below : first.event_version ≤ row.event_version =
      ground (arith, (==_iff first.event_id row.event_id).1 is_id, h) in
    subst (λ r. r.event_version ≤ row.event_version) (sym same) below
is_latest-all row (first ∷ rows) h other (inr m) e =
    is_latest-all row rows (ground (arith, h)) other m e

all-is_latest :
    (row : EventRow) (rows : List EventRow)
    → ((other : EventRow)
        → In other rows
        → other.event_id ≡ row.event_id
        → other.event_version ≤ row.event_version)
    → is_latest row rows ≡ true
unfolding is_latest
all-is_latest row [] h = refl
all-is_latest row (first ∷ rows) h =
    let later = all-is_latest row rows (λ other m. h other (inr m)) in
    ground (arith, ==_iff first.event_id row.event_id, h first (inl refl), later)

module _ (schema : EventSchema) (db : EventDb schema) where
  open schema use {dialect, events, mentions}

  abbrev pub rows : List EventRow
  rows = events.rows db.events

  abbrev pub pairs : List (EventMentionRow × RawItemRow)
  pairs = joined schema (mentions.rows db.mentions) db.raw_items

  abbrev pub loaded_event : EventRow → CanonicalEvent
  loaded_event row =
      canonical_event dialect row
        (sort received_before (mentions_by_event schema row.event_id pairs))

  abbrev pub newest_row : EventRow → Bool
  newest_row row = is_latest row rows

  abbrev pub state : PersistedEventState
  state = record {
    events = map loaded_event (keep newest_row rows);
    items = map (stored_item schema) pairs;
  }

  pub load_state-state : load_state schema db ≡ (ok state, db)
  unfolding load_state
  load_state-state = refl

module _ (runtime : EventRuntime) (schema : EventSchema) (x : Indexes) (db : EventDb schema)
    (valid : IsValid x) (synced : Synced runtime schema x db) where
  open schema use {dialect, raw_items, events, mentions}

  -- The row of the latest version of an event, among those of the event.
  pub row-stored :
      (id : Uuid) (event : CanonicalEvent)
      → lookup ℕ_key id x.events ≡ some event
      → In (event_row event) (keep (newest_row schema db) (rows schema db))
  unfolding event_row
  row-stored id event found =
      let is_version = valid.current id event found in
      let m =
        events.get-rows db.events (id, event.event_version) (event_row event)
          (synced.stored id event.event_version event is_version) in
      In-keep (newest_row schema db) (event_row event) (rows schema db) m (
        all-is_latest (event_row event) (rows schema db) (λ other n same.
          let (current, is_current, _, le) =
            synced.known other.event_id other.event_version other
              (events.rows-get db.events other n) in
          let same_event : some current ≡ some event =
            sym is_current
            ∙ ap (λ i. lookup ℕ_key i x.events) (same ∙ named x id event valid found)
            ∙ found in
          ground (arith, same_event, le)))

  -- The only latest row of an event is that of the current version.
  pub row_unique :
      (id : Uuid) (event : CanonicalEvent) (row : EventRow)
      → lookup ℕ_key id x.events ≡ some event
      → In row (keep (newest_row schema db) (rows schema db))
      → row.event_id ≡ id
      → row ≡ event_row event
  unfolding event_row
  row_unique id event row found m is_id =
      let (n, latest) = keep-In (newest_row schema db) row (rows schema db) m in
      let is_row = events.rows-get db.events row n in
      let (current, is_current, _, le) = synced.known row.event_id row.event_version row is_row in
      let same_event : some current ≡ some event =
        sym is_current ∙ ap (λ i. lookup ℕ_key i x.events) is_id ∙ found in
      let (stored, _) =
        keep-In (newest_row schema db) (event_row event) (rows schema db)
          (row-stored id event found) in
      let ge : event.event_version ≤ row.event_version =
        is_latest-all row (rows schema db) latest (event_row event) stored
          (named x id event valid found ∙ sym is_id) in
      let same_version : row.event_version ≡ event.event_version =
        ground (arith, same_event, le, ge) in
      let same_key : (row.event_id, row.event_version) ≡ (id, event.event_version) =
        cc (is_id, same_version) in
      let same_row : some row ≡ some (event_row event) =
        sym is_row
        ∙ ap (events.get db.events) same_key
        ∙ synced.stored id event.event_version event (valid.current id event found) in
      cc same_row

  -- The mentions that are read for an event.
  pub In-mentions_by_event :
      (id : Uuid) (event : CanonicalEvent) (mention : EventMention)
      → lookup ℕ_key id x.events ≡ some event
      → In mention (mentions_by_event schema id (pairs schema db))
        ↔ HasMention runtime schema db id event.event_version mention
  unfolding mentions_by_event read_mention
  In-mentions_by_event id event mention found = (
    λ m.
        let (p, kept, is_mention) =
          In-map (λ (q : EventMentionRow × RawItemRow). read_mention dialect q.0) mention _ m in
        let (n, test) =
          keep-In (λ (q : EventMentionRow × RawItemRow). q.0.event_id == id) p (pairs schema db)
            kept in
        let (stored, _) = joined-In schema p (mentions.rows db.mentions) db.raw_items n in
        let is_row = mentions.rows-get db.mentions p.0 stored in
        let is_id : p.0.event_id ≡ id = (==_iff p.0.event_id id).0 test in
        let (_, _, entry) = synced.itemed p.0.raw_item_id p.0 is_row in
        let same_event : some entry.current ≡ some event =
          sym entry.found ∙ ap (λ i. lookup ℕ_key i x.events) is_id ∙ found in
        (
          p.0,
          ap (λ n. mentions.get db.mentions n.raw_item_id) is_mention ∙ is_row,
          is_id,
          ground (arith, same_event, entry.in_version),
          sym is_mention,
        ),
    λ (row, is_row, is_id, le, read).
        let (item, is_item, _) = synced.itemed mention.raw_item_id row is_row in
        let stored = mentions.get-rows db.mentions mention.raw_item_id row is_row in
        let is_key = mentions.get-key db.mentions mention.raw_item_id row is_row in
        let n =
          In-joined schema row item (mentions.rows db.mentions) db.raw_items stored
            (ap (raw_items.get db.raw_items) is_key ∙ is_item) in
        subst (λ k. In k (mentions_by_event schema id (pairs schema db))) read
          (map-In (λ (q : EventMentionRow × RawItemRow). read_mention dialect q.0) (row, item) _
            (In-keep (λ (q : EventMentionRow × RawItemRow). q.0.event_id == id) (row, item)
              (pairs schema db) n ((==_iff row.event_id id).1 is_id))),
  )
