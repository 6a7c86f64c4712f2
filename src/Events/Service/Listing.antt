-- ===== src/Events/Service/Listing.antt =====
-- What readers of the event service see.
use event_alpha.Prelude.{◌≡◌, ◌⊎◌, Bool, true, some, leb, In, arith, ◌↔◌, ap, ◌∙◌}
use event_alpha.Prelude.Dict.{ℕ_key, lookup, values, lookup-In, In-lookup}
use event_alpha.Prelude.Order.{Sorted, sort-Sorted, sort-In, In-sort}
use event_alpha.Contracts.Event.{CanonicalEvent}
use event_alpha.Events.Interface.{EventPersistence}
use event_alpha.Events.Service.{EventRuntime, World, list_events, get_event}
use event_alpha.Events.Service.Valid.{IsValid, named}

-- The order of `list_events`: from the event received last.
abbrev pub listed_before : CanonicalEvent → CanonicalEvent → Bool
listed_before a b = leb b.first_received_at a.first_received_at

listed_before_total :
    (a b : CanonicalEvent) → (listed_before a b ≡ true) ⊎ (listed_before b a ≡ true)
listed_before_total a b = ground arith

listed_before_trans :
    (a b c : CanonicalEvent)
    → listed_before a b ≡ true
    → listed_before b c ≡ true
    → listed_before a c ≡ true
listed_before_trans a b c h k = ground arith

module _ (runtime : EventRuntime) (persistence : EventPersistence) (persistent : Bool)
    (w : World runtime persistence persistent) (valid : IsValid w.indexes) where
  -- `list_events` has the events in the order of their first receipt, the latest first, and an
  -- event is in it exactly if `get_event` finds it under its identifier.
  pub list_events-get_event :
      Sorted listed_before (list_events runtime persistence persistent w)
      × ((event : CanonicalEvent)
          → In event (list_events runtime persistence persistent w)
            ↔ (get_event runtime persistence persistent event.event_id w ≡ some event))
  unfolding list_events get_event
  list_events-get_event = (
    sort-Sorted listed_before listed_before_total listed_before_trans (values w.indexes.events),
    λ event. (
      λ m.
          let (id, found) =
            In-lookup ℕ_key event w.indexes.events valid.once
              (sort-In listed_before event (values w.indexes.events) m) in
          ap (λ i. lookup ℕ_key i w.indexes.events) (named w.indexes id event valid found) ∙ found,
      λ found.
          In-sort listed_before event (values w.indexes.events)
            (lookup-In ℕ_key event.event_id event w.indexes.events found),
    ),
  )
