-- ===== src/Db/EventRepository/Restart.antt =====
-- `refresh` of services/api/app/events/service.py over SqlEventRepository: what a service that
-- starts anew knows.
use mathlib.Core.Path.{subst}
use event_alpha.Prelude.{
  ◌≡◌, refl, sym, ap, ◌∙◌, inl, inr, ◌↔◌, true, [], map, some, In, In-map, map-In, keep, keep-In,
  Option-cases,
}
use event_alpha.Prelude.Dict.{ℕ_key, lookup, insert_all, insert_all-found, insert_all-In}
use event_alpha.Prelude.Order.{sort, sort-Sorted, sort-In, In-sort}
use event_alpha.Errors.{Result, ok}
use event_alpha.Contracts.{Uuid}
use event_alpha.Contracts.Event.{CanonicalEvent}
use event_alpha.Db.Schema.{EventRow}
use event_alpha.Db.EventRepository.{
  EventSchema, EventDb, event_row, canonical_event, mentions_by_event, stored_item, load_state,
  sql_event_repository,
}
use event_alpha.Db.EventRepository.Rows.{canonical-event_row, joined-In, In-joined}
use event_alpha.Db.EventRepository.Synced.{Synced, HasMention, item_identity}
use event_alpha.Db.EventRepository.Latest.{
  rows, pairs, loaded_event, newest_row, state, row-stored, row_unique, In-mentions_by_event,
}
use event_alpha.Db.EventRepository.History.{SameEvent}
use event_alpha.Events.Interface.{PersistedEventState}
use event_alpha.Events.Service.{
  EventRuntime, World, refresh, Identity, Indexes, identity_key, indexes_of, received_before,
}
use event_alpha.Events.Service.Version.{received_before_total, received_before_trans}
use event_alpha.Events.Service.Refreshed.{
  event_entry, item_entry, refreshed-events, refreshed-identities,
}
use event_alpha.Events.Service.Valid.{IsValid, named}

module _ (runtime : EventRuntime) (schema : EventSchema) (x : Indexes) (db : EventDb schema)
    (valid : IsValid x) (synced : Synced runtime schema x db) where
  open schema use {dialect, raw_items, events, mentions}

  abbrev loaded : PersistedEventState
  loaded = state schema db

  -- The indexes after `refresh`.
  abbrev y : Indexes
  y = indexes_of runtime loaded

  loaded_event-SameEvent :
      (id : Uuid) (event : CanonicalEvent)
      → lookup ℕ_key id x.events ≡ some event
      → SameEvent event (loaded_event schema db (event_row event))
  unfolding event_row
  loaded_event-SameEvent id event found =
      let is_id = named x id event valid found in
      let mentions_read = mentions_by_event schema event.event_id (pairs schema db) in
      subst (SameEvent event)
        (sym (canonical-event_row dialect event (sort received_before mentions_read)))
        (record {
          same_fields = refl;
          same_mentions = λ mention.
              let listed =
                synced.listed id event.event_version event mention (valid.current id event found) in
              let read : In mention mentions_read
                  ↔ HasMention runtime schema db id event.event_version mention =
                subst
                  (λ i.
                    In mention (mentions_by_event schema i (pairs schema db))
                    ↔ HasMention runtime schema db id event.event_version mention)
                  (sym is_id)
                  (In-mentions_by_event runtime schema x db valid synced id event mention found) in
              (
                λ m. listed.1 (read.0 (sort-In received_before mention mentions_read m)),
                λ m. In-sort received_before mention mentions_read (read.1 (listed.0 m)),
              );
          in_order = sort-Sorted received_before received_before_total received_before_trans _;
        })

  refreshed-found :
      (id : Uuid) (event : CanonicalEvent)
      → lookup ℕ_key id y.events ≡ some event
      → (row : EventRow) × In row (keep (newest_row schema db) (rows schema db))
        × (event ≡ loaded_event schema db row)
        × (row.event_id ≡ id)
  unfolding canonical_event lookup
  refreshed-found id event h =
      let in_entries =
        insert_all-found ℕ_key id event (map (event_entry runtime) loaded.events) []
          (ap (lookup ℕ_key id) (sym (refreshed-events runtime loaded)) ∙ h) in
      elim in_entries [
        | inl m ↦
            let (found, n, e) = In-map (event_entry runtime) (id, event) loaded.events m in
            let (row, kept, is_row) = In-map (loaded_event schema db) found _ n in
            (
              row,
              kept,
              ap (λ q. q.1) e ∙ is_row,
              sym (ap (λ q. q.0) e ∙ ap (λ c. c.event_id) is_row),
            )
        | inr none_before ↦ absurd (cc none_before)
      ]

  refreshed-event :
      (id : Uuid) (event : CanonicalEvent)
      → lookup ℕ_key id x.events ≡ some event
      → (again : CanonicalEvent) × (lookup ℕ_key id y.events ≡ some again) × SameEvent event again
  unfolding canonical_event event_row
  refreshed-event id event found =
      let first = loaded_event schema db (event_row event) in
      let m = map-In (event_entry runtime) first loaded.events (
        map-In (loaded_event schema db) (event_row event) _
          (row-stored runtime schema x db valid synced id event found)) in
      let (again, is_again) = insert_all-In ℕ_key first.event_id first _ [] m in
      let same_id : first.event_id ≡ id = named x id event valid found in
      let is_found : lookup ℕ_key id y.events ≡ some again =
        ap (lookup ℕ_key id) (refreshed-events runtime loaded)
        ∙ ap (λ i. lookup ℕ_key i (insert_all ℕ_key (map (event_entry runtime) loaded.events) []))
            (sym same_id)
        ∙ is_again in
      let (row, kept, is_row, is_id) = refreshed-found id again is_found in
      let same_row = row_unique runtime schema x db valid synced id event row found kept is_id in
      (
        again,
        is_found,
        subst (SameEvent event) (sym (is_row ∙ ap (loaded_event schema db) same_row))
            (loaded_event-SameEvent id event found),
      )

  -- An identity that is read was known, for the same event.
  refreshed-item :
      (key : Identity) (id : Uuid)
      → lookup identity_key key y.by_identity ≡ some id
      → lookup identity_key key x.by_identity ≡ some id
  unfolding stored_item lookup
  refreshed-item key id h =
      elim (insert_all-found identity_key key id (map (item_entry runtime) loaded.items) []
        (ap (lookup identity_key key) (sym (refreshed-identities runtime loaded)) ∙ h)) [
          | inl m ↦
              let (found, n, e) = In-map (item_entry runtime) (key, id) loaded.items m in
              let (p, l, is_item) = In-map (stored_item schema) found (pairs schema db) n in
              let (stored, is_raw) =
                joined-In schema p (mentions.rows db.mentions) db.raw_items l in
              let (item, is_stored, entry) =
                synced.itemed p.0.raw_item_id p.0 (mentions.rows-get db.mentions p.0 stored) in
              let same : some item ≡ some p.1 = sym is_stored ∙ is_raw in
              let same_item : item ≡ p.1 = cc same in
              let is_entry : (key, id) ≡ (item_identity runtime schema p.1, p.0.event_id) =
                e ∙ ap (item_entry runtime) is_item in
              let is_key : key ≡ item_identity runtime schema item =
                ap (λ q. q.0) is_entry ∙ ap (item_identity runtime schema) (sym same_item) in
              ap (λ k. lookup identity_key k x.by_identity) is_key
              ∙ entry.attributed
              ∙ ap (λ (q : Identity × Uuid). some q.1) (sym is_entry)
          | inr none_before ↦ absurd (cc none_before)
        ]

  -- An identity that is known is read.
  known-item :
      (key : Identity) (id : Uuid)
      → lookup identity_key key x.by_identity ≡ some id
      → (other : Uuid) × (lookup identity_key key y.by_identity ≡ some other)
  unfolding stored_item
  known-item key id h =
      let (raw_id, row, item, is_row, is_item, is_id, is_key) = synced.identified key id h in
      let stored = mentions.get-rows db.mentions raw_id row is_row in
      let row_key = mentions.get-key db.mentions raw_id row is_row in
      let n =
        In-joined schema row item (mentions.rows db.mentions) db.raw_items stored
          (ap (raw_items.get db.raw_items) row_key ∙ is_item) in
      let m =
        map-In (item_entry runtime) (stored_item schema (row, item)) loaded.items
          (map-In (stored_item schema) (row, item) (pairs schema db) n) in
      let (other, found) =
        insert_all-In identity_key (item_identity runtime schema item) row.event_id _ [] m in
      (
        other,
        ap (lookup identity_key key) (refreshed-identities runtime loaded)
            ∙ ap
                (λ k.
                  lookup identity_key k
                    (insert_all identity_key (map (item_entry runtime) loaded.items) []))
                (sym is_key)
            ∙ found,
      )

  refreshed-identity :
      (key : Identity)
      → lookup identity_key key y.by_identity ≡ lookup identity_key key x.by_identity
  refreshed-identity key = elim (Option-cases (lookup identity_key key y.by_identity)) [
    | inr (id, found) ↦ found ∙ sym (refreshed-item key id found)
    | inl absent ↦ elim (Option-cases (lookup identity_key key x.by_identity)) [
      | inl unknown ↦ absent ∙ sym unknown
      | inr (id, is_id) ↦
          let (other, found) = known-item key id is_id in absurd (cc (absent, found))
    ]
  ]

  -- An event that is read was current, and is read as it was.
  current-event :
      (id : Uuid) (again : CanonicalEvent)
      → lookup ℕ_key id y.events ≡ some again
      → (event : CanonicalEvent) × (lookup ℕ_key id x.events ≡ some event) × SameEvent event again
  current-event id again found =
      let (row, kept, is_row, is_id) = refreshed-found id again found in
      let (stored, _) = keep-In _ row (rows schema db) kept in
      let is_stored : events.get db.events (id, row.event_version) ≡ some row =
        ap (λ i. events.get db.events (i, row.event_version)) (sym is_id)
        ∙ events.rows-get db.events row stored in
      let (event, is_current, _, _) = synced.known id row.event_version row is_stored in
      let (other, is_other, same) = refreshed-event id event is_current in
      let equal : other ≡ again = cc (is_other, found) in
      (event, is_current, subst (SameEvent event) equal same)

module _ (runtime : EventRuntime) (schema : EventSchema) (x stale : Indexes)
    (db : EventDb schema) where
  abbrev before_refresh : World runtime (sql_event_repository schema) true
  before_refresh = record { store = db; indexes = stale }

  abbrev pub refreshed : Result (Unit {0}) × World runtime (sql_event_repository schema) true
  refreshed = refresh runtime (sql_event_repository schema) true before_refresh

  -- Two services have the same current events, with the same fields and mentions, and the same
  -- identities for the same events.
  pub record SameService (y : Indexes) : Type 0 where
    pub kept :
        (id : Uuid) (event : CanonicalEvent)
        → lookup ℕ_key id x.events ≡ some event
        → (again : CanonicalEvent) × (lookup ℕ_key id y.events ≡ some again) × SameEvent event again
    pub no_more :
        (id : Uuid) (again : CanonicalEvent)
        → lookup ℕ_key id y.events ≡ some again
        → (event : CanonicalEvent) × (lookup ℕ_key id x.events ≡ some event) × SameEvent event again
    pub identities :
        (key : Identity)
        → lookup identity_key key y.by_identity ≡ lookup identity_key key x.by_identity

  -- Whatever indexes a service has, once it refreshes from tables that have what the valid indexes
  -- of another service say, it has the current events of this other service, no more and no fewer,
  -- with the same fields and mentions, and the same identities. The tables stay as they are.
  pub refresh-Synced :
      IsValid x
      → Synced runtime schema x db
      → (refreshed.0 ≡ ok tt) × (refreshed.1.store ≡ db) × SameService refreshed.1.indexes
  unfolding refresh load_state
  refresh-Synced valid synced = (
    refl,
    refl,
    record {
      kept = refreshed-event runtime schema x db valid synced;
      no_more = current-event runtime schema x db valid synced;
      identities = refreshed-identity runtime schema x db valid synced;
    },
  )
