-- ===== src/Events/Service/Ingest.antt =====
-- What `ingest` does on each of its branches, and what it keeps.
use mathlib.Core.Path.{subst}
use event_alpha.Prelude.{
  ◌≡◌, refl, sym, ap, ◌∙◌, inl, inr, Bool, true, false, Option, none, some, In, Option-cases, if-at,
}
use event_alpha.Prelude.Dict.{ℕ_key, lookup, values, In-lookup}
use event_alpha.Errors.{Exc, Result, ok, err}
use event_alpha.Exec.{Exec}
use event_alpha.Contracts.{Uuid}
use event_alpha.Contracts.Event.{RawEnvelope, CanonicalEvent}
use event_alpha.Events.Similarity.Order.{similar_among-some}
use event_alpha.Events.Interface.{IngestResult, EventPersistence}
use event_alpha.Events.Service.{
  EventRuntime, Indexes, World, identity_key, envelope_identity, new_event, joined_event,
  similar_event, next_event, remember_event, persist, ingest,
}
use event_alpha.Events.Service.Version.{IsEvent, new_event-IsEvent, joined_event-IsEvent}
use event_alpha.Events.Service.Valid.{IsValid, IsNext, named}

module _ (runtime : EventRuntime) (event_id : Uuid) (envelope : RawEnvelope) where
  joined-IsNext :
      (x : Indexes) (existing : CanonicalEvent)
      → IsValid x
      → In existing (values x.events)
      → IsNext x (joined_event envelope existing) × IsEvent (joined_event envelope existing)
  unfolding joined_event
  joined-IsNext x existing valid m =
      let (id, found) = In-lookup ℕ_key existing x.events valid.once m in
      let is_id = named x id existing valid found in
      let v =
        valid.versioned id existing.event_version existing (valid.current id existing found) in
      (
        inr (existing, ap (λ i. lookup ℕ_key i x.events) is_id ∙ found, refl),
        joined_event-IsEvent envelope existing v.well_formed,
      )

  pub next_event-IsNext :
      (x : Indexes)
      → IsValid x
      → lookup ℕ_key event_id x.events ≡ none
      → IsNext x (next_event runtime event_id envelope (similar_event runtime envelope x)).0
        × IsEvent (next_event runtime event_id envelope (similar_event runtime envelope x)).0
  unfolding next_event similar_event new_event
  next_event-IsNext x valid fresh = elim (Option-cases (similar_event runtime envelope x)) [
    | inl nothing ↦ rw nothing (inl (fresh, refl), new_event-IsEvent event_id envelope)
    | inr (existing, chosen) ↦ rw chosen (
        joined-IsNext x existing valid
          (similar_among-some runtime.alphabet envelope _ (values x.events) existing chosen).0)
  ]

module _ (runtime : EventRuntime) (persistence : EventPersistence) (persistent : Bool) where
  abbrev WorldOf : Type 0
  WorldOf = World runtime persistence persistent

  abbrev Ingest : Uuid → RawEnvelope → Exec WorldOf IngestResult
  Ingest = ingest runtime persistence persistent

  -- What the persistence answers to an event that is saved.
  abbrev SaveOf : RawEnvelope → CanonicalEvent → Exec WorldOf (Unit {0})
  SaveOf = persist runtime persistence persistent

  persist-indexes :
      (envelope : RawEnvelope) (event : CanonicalEvent) (w : WorldOf)
      → (SaveOf envelope event w).1.indexes ≡ w.indexes
  unfolding persist
  persist-indexes envelope event w =
      if-at (λ (m : Exec WorldOf (Unit {0})). (m w).1.indexes ≡ w.indexes) persistent _ _ refl refl

  module _ (event_id : Uuid) (envelope : RawEnvelope) (w : WorldOf) where
    abbrev identity : Option Uuid
    identity = lookup identity_key (envelope_identity runtime envelope) w.indexes.by_identity

    -- The world that saving the next event leaves, and what is remembered then.
    abbrev next_of : CanonicalEvent × Bool
    next_of = next_event runtime event_id envelope (similar_event runtime envelope w.indexes)

    abbrev saved : Result (Unit {0}) × WorldOf
    saved = SaveOf envelope next_of.0 w

    abbrev remembered : Indexes
    remembered =
        remember_event (envelope_identity runtime envelope) envelope next_of.0 saved.1.indexes

    pub ingest-known :
        (id : Uuid) (event : CanonicalEvent)
        → identity ≡ some id
        → lookup ℕ_key id w.indexes.events ≡ some event
        → Ingest event_id envelope w
          ≡ (ok (record { event = event; created = false; idempotent = true }), w)
    unfolding ingest
    ingest-known id event h k = rw h (rw k refl)

    pub ingest-saved :
        identity ≡ none
        → saved.0 ≡ ok tt
        → Ingest event_id envelope w ≡ (
          ok (record { event = next_of.0; created = next_of.1; idempotent = false }),
          record w { store = saved.1.store; indexes = remembered },
        )
    unfolding ingest
    ingest-saved h k = rw h (rw k refl)

    pub ingest-refused :
        (error : Exc)
        → identity ≡ none
        → saved.0 ≡ err error
        → Ingest event_id envelope w ≡ (err error, saved.1)
    unfolding ingest
    ingest-refused error h k = rw h (rw k refl)

    -- The three ways in which `ingest` ends.
    pub data Ending : Result IngestResult × WorldOf → Type 0 where
      known :
          (id : Uuid) (event : CanonicalEvent)
          → identity ≡ some id
          → lookup ℕ_key id w.indexes.events ≡ some event
          → Ending (ok (record { event = event; created = false; idempotent = true }), w)
      published :
          (store : persistence.S)
          → identity ≡ none
          → saved.0 ≡ ok tt
          → IsNext w.indexes next_of.0
          → IsEvent next_of.0
          → Ending (
            ok (record { event = next_of.0; created = next_of.1; idempotent = false }),
            record w {
              store = store;
              indexes =
                  remember_event (envelope_identity runtime envelope) envelope next_of.0 w.indexes;
            },
          )
      refused :
          (error : Exc) (store : persistence.S)
          → identity ≡ none
          → saved.0 ≡ err error
          → Ending (err error, record w { store = store })

    module _ (valid : IsValid w.indexes) (fresh : lookup ℕ_key event_id w.indexes.events ≡ none)
        (unknown : identity ≡ none) where
      saved-Ending : (r : Result (Unit {0})) → saved.0 ≡ r → Ending (Ingest event_id envelope w)
      saved-Ending (ok tt) h =
          let (next, well_formed) =
            next_event-IsNext runtime event_id envelope w.indexes valid fresh in
          subst Ending
            (ap
                (λ x. (
                  ok (record { event = next_of.0; created = next_of.1; idempotent = false }),
                  record w {
                    store = saved.1.store;
                    indexes =
                        remember_event (envelope_identity runtime envelope) envelope next_of.0 x;
                  },
                ))
                (sym (persist-indexes envelope next_of.0 w))
              ∙ sym (ingest-saved unknown h))
            (published saved.1.store unknown h next well_formed)
      saved-Ending (err error) h =
          subst Ending
            (ap (λ x. (err error, record w { store = saved.1.store; indexes = x }))
                (sym (persist-indexes envelope next_of.0 w))
              ∙ sym (ingest-refused error unknown h))
            (refused error saved.1.store unknown h)

    pub ingest-Ending :
        IsValid w.indexes
        → lookup ℕ_key event_id w.indexes.events ≡ none
        → Ending (Ingest event_id envelope w)
    ingest-Ending valid fresh = elim (Option-cases identity) [
      | inr (id, is_id) ↦
          let (event, found) = valid.identified _ id is_id in
          subst Ending (sym (ingest-known id event is_id found)) (known id event is_id found)
      | inl unknown ↦ saved-Ending valid fresh unknown saved.0 refl
    ]
