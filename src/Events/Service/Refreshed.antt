-- ===== src/Events/Service/Refreshed.antt =====
-- The loops of `refresh` (services/api/app/events/service.py) are assignments in order.
use event_alpha.Prelude.{◌≡◌, refl, ap, ◌∙◌, List, [], ◌∷◌, map}
use event_alpha.Prelude.Dict.{ℕ_key, insert_all}
use event_alpha.Contracts.{Uuid}
use event_alpha.Contracts.Event.{CanonicalEvent}
use event_alpha.Events.Interface.{StoredItemIndex, PersistedEventState}
use event_alpha.Events.Service.{
  EventRuntime, Identity, Indexes, identity_key, identity_of, no_indexes, index_events, index_items,
  indexes_of,
}

module _ (runtime : EventRuntime) where
  abbrev pub event_entry : CanonicalEvent → Uuid × CanonicalEvent
  event_entry event = (event.event_id, event)

  abbrev pub item_entry : StoredItemIndex → Identity × Uuid
  item_entry item = (
    identity_of runtime item.provider item.source_id item.native_id item.content_hash,
    item.event_id,
  )

  index_events-events :
      (events : List CanonicalEvent) (x : Indexes)
      → (index_events runtime events x).events ≡ insert_all ℕ_key (map event_entry events) x.events
  unfolding index_events insert_all
  index_events-events [] x = refl
  index_events-events (event ∷ events) x = index_events-events events _

  index_events-identities :
      (events : List CanonicalEvent) (x : Indexes)
      → (index_events runtime events x).by_identity ≡ x.by_identity
  unfolding index_events
  index_events-identities [] x = refl
  index_events-identities (event ∷ events) x = index_events-identities events _

  index_items-events :
      (items : List StoredItemIndex) (x : Indexes) → (index_items runtime items x).events ≡ x.events
  unfolding index_items
  index_items-events [] x = refl
  index_items-events (item ∷ items) x = index_items-events items _

  index_items-identities :
      (items : List StoredItemIndex) (x : Indexes)
      → (index_items runtime items x).by_identity
        ≡ insert_all identity_key (map item_entry items) x.by_identity
  unfolding index_items insert_all
  index_items-identities [] x = refl
  index_items-identities (item ∷ items) x = index_items-identities items _

  pub refreshed-events :
      (state : PersistedEventState)
      → (indexes_of runtime state).events ≡ insert_all ℕ_key (map event_entry state.events) []
  unfolding indexes_of
  refreshed-events state =
      index_items-events state.items _ ∙ index_events-events state.events no_indexes

  pub refreshed-identities :
      (state : PersistedEventState)
      → (indexes_of runtime state).by_identity
        ≡ insert_all identity_key (map item_entry state.items) []
  unfolding indexes_of
  refreshed-identities state =
      index_items-identities state.items _
      ∙ ap (insert_all identity_key (map item_entry state.items))
          (index_events-identities state.events no_indexes)
