-- ===== src/Db/EventRepository/Ingest.antt =====
-- `ingest` of services/api/app/events/service.py over SqlEventRepository.
use mathlib.Core.Path.{subst}
use event_alpha.Prelude.{
  ◌≡◌, arith, ◌≢◌, sym, ap, ◌∙◌, inl, inr, Bool, true, false, none, some, In, Option-cases,
}
use event_alpha.Prelude.Dict.{ℕ_key, lookup, In-lookup}
use event_alpha.Errors.{Result, ok}
use event_alpha.Contracts.{Uuid}
use event_alpha.Contracts.Event.{RawEnvelope, CanonicalEvent}
use event_alpha.Db.EventRepository.{
  event_fits, event_row, item_fits, raw_item_row, EventSchema, sql_event_repository, add_source,
  source_row,
}
use event_alpha.Db.EventRepository.Synced.{HasTexts, Synced, Grows, Saving, published_indexes}
use event_alpha.Db.EventRepository.Save.{saved-Synced, save-ok}
use event_alpha.Events.Interface.{IngestResult}
use event_alpha.Events.Service.{
  EventRuntime, World, identity_key, envelope_identity, mention_of, new_event, joined_event,
  similar_event, next_event, persist, ingest,
}
use event_alpha.Events.Service.Version.{mentions-In, In-mentions}
use event_alpha.Events.Service.Valid.{IsValid, named}
use event_alpha.Events.Service.Ingest.{next_event-IsNext, ingest-known, ingest-saved}
use event_alpha.Events.Service.Publication.{next_event-Clustered}

module _ (runtime : EventRuntime) (schema : EventSchema) (event_id : Uuid) (envelope : RawEnvelope)
    (w : World runtime (sql_event_repository schema) true) where
  abbrev next_of : CanonicalEvent × Bool
  next_of = next_event runtime event_id envelope (similar_event runtime envelope w.indexes)

  new-Grows :
      lookup ℕ_key event_id w.indexes.events ≡ none
      → Grows runtime schema w.indexes envelope (new_event event_id envelope)
  unfolding new_event
  new-Grows fresh mention = (
    λ m. elim m [ inl same ↦ inl same | inr no_other ↦ absurd no_other ],
    λ h. elim h [ inl same ↦ inl same | inr (old, is_old, _) ↦ absurd (cc (fresh, is_old)) ],
  )

  joined-Grows :
      (old : CanonicalEvent)
      → lookup ℕ_key old.event_id w.indexes.events ≡ some old
      → Grows runtime schema w.indexes envelope (joined_event envelope old)
  unfolding joined_event
  joined-Grows old found mention = (
    λ m. elim (mentions-In old.mentions (mention_of envelope) mention m) [
      | inl before ↦ inr (old, found, before)
      | inr same ↦ inl same
    ],
    λ h. In-mentions old.mentions (mention_of envelope) mention (elim h [
      | inl same ↦ inr same
      | inr (other, is_other, m) ↦
          let same : some other ≡ some old = sym is_other ∙ found in
          let same' : other ≡ old = cc same in inl (subst (λ c. In mention c.mentions) same' m)
    ]),
  )

  next-Grows :
      IsValid w.indexes
      → lookup ℕ_key event_id w.indexes.events ≡ none
      → Grows runtime schema w.indexes envelope next_of.0
  next-Grows valid fresh =
      elim (next_event-Clustered runtime (sql_event_repository schema) true event_id envelope w) [
        | inl (_, is_new, _) ↦
            subst (Grows runtime schema w.indexes envelope) (sym is_new) (new-Grows fresh)
        | inr (_, old, is_joined, m, _) ↦
            let (id, found) = In-lookup ℕ_key old w.indexes.events valid.once m in
            subst (Grows runtime schema w.indexes envelope) (sym is_joined) (
              joined-Grows old (
                ap (λ i. lookup ℕ_key i w.indexes.events) (named w.indexes id old valid found)
                ∙ found))
      ]

  new-fitting :
      HasTexts runtime schema envelope → event_fits (event_row (new_event event_id envelope)) ≡ true
  unfolding event_fits event_row new_event item_fits raw_item_row
  new-fitting texts = ground (arith, texts.item)

  joined-fitting :
      (old : CanonicalEvent)
      → event_fits (event_row old) ≡ true
      → event_fits (event_row (joined_event envelope old)) ≡ true
  unfolding event_fits event_row joined_event
  joined-fitting old h = ground (arith, h)

  next-fitting :
      IsValid w.indexes
      → Synced runtime schema w.indexes w.store
      → HasTexts runtime schema envelope
      → event_fits (event_row next_of.0) ≡ true
  next-fitting valid synced texts =
      elim (next_event-Clustered runtime (sql_event_repository schema) true event_id envelope w) [
        | inl (_, is_new, _) ↦
            subst (λ e. event_fits (event_row e) ≡ true) (sym is_new) (new-fitting texts)
        | inr (_, old, is_joined, m, _) ↦
            let (id, found) = In-lookup ℕ_key old w.indexes.events valid.once m in
            subst (λ e. event_fits (event_row e) ≡ true) (sym is_joined)
              (joined-fitting old (synced.fitting id old found))
      ]

  abbrev run : Result IngestResult × World runtime (sql_event_repository schema) true
  run = ingest runtime (sql_event_repository schema) true event_id envelope w

  ingest-stored :
      IsValid w.indexes
      → Synced runtime schema w.indexes w.store
      → lookup ℕ_key event_id w.indexes.events ≡ none
      → schema.mentions.get w.store.mentions envelope.id ≡ none
      → envelope.native_id ≢ some ""
      → HasTexts runtime schema envelope
      → lookup identity_key (envelope_identity runtime envelope) w.indexes.by_identity ≡ none
      → ((result : IngestResult) × (run.0 ≡ ok result))
        × Synced runtime schema run.1.indexes run.1.store
  unfolding persist
  ingest-stored valid synced fresh absent named_by texts unknown =
      let (next, well_formed) = next_event-IsNext runtime event_id envelope w.indexes valid fresh in
      let saving : Saving runtime schema w.indexes w.store envelope next_of.0 = record {
        valid = valid;
        synced = synced;
        next = next;
        well_formed = well_formed;
        grows = next-Grows valid fresh;
        absent = absent;
        fitting = texts;
        event_fitting = next-fitting valid synced texts;
        unknown = unknown;
      } in
      let sources =
        add_source schema (schema.sources.get w.store.sources envelope.source_id)
          (source_row envelope) w.store.sources in
      let saved =
        save-ok runtime schema w.indexes w.store envelope next_of.0 sources saving named_by in
      let ended =
        ingest-saved runtime (sql_event_repository schema) true event_id envelope w unknown
          (ap (λ o. o.0) saved) in
      (
        (
          record { event = next_of.0; created = next_of.1; idempotent = false },
          ap (λ o. o.0) ended,
        ),
        subst
            (λ (out : Result IngestResult × World runtime (sql_event_repository schema) true).
              Synced runtime schema out.1.indexes out.1.store)
            (sym ended)
            (subst
              (Synced runtime schema
                (published_indexes runtime schema envelope next_of.0 w.indexes))
              (sym (ap (λ o. o.1) saved))
              (saved-Synced runtime schema w.indexes w.store envelope next_of.0 sources saving)),
      )

  ingest-repeated :
      (id : Uuid) (event : CanonicalEvent)
      → Synced runtime schema w.indexes w.store
      → lookup identity_key (envelope_identity runtime envelope) w.indexes.by_identity ≡ some id
      → lookup ℕ_key id w.indexes.events ≡ some event
      → ((result : IngestResult) × (run.0 ≡ ok result))
        × Synced runtime schema run.1.indexes run.1.store
  ingest-repeated id event synced is_id found =
      let ended =
        ingest-known runtime (sql_event_repository schema) true event_id envelope w id event is_id
          found in
      (
        (record { event = event; created = false; idempotent = true }, ap (λ o. o.0) ended),
        subst
            (λ (out : Result IngestResult × World runtime (sql_event_repository schema) true).
              Synced runtime schema out.1.indexes out.1.store)
            (sym ended) synced,
      )

  -- Over the database `ingest` succeeds and leaves the tables as the indexes say, where the
  -- identifier that is drawn is a new one, no mention is stored under the identifier of the item,
  -- the native identifier of the item is not an empty text, and its texts fit their columns. The
  -- rows of versions are then exactly those from 1 to the version of each current event, with the
  -- fields and the mentions of the versions that the indexes have, and the rows of items and mentions
  -- are those of the identities.
  pub ingest-Synced :
      IsValid w.indexes
      → Synced runtime schema w.indexes w.store
      → lookup ℕ_key event_id w.indexes.events ≡ none
      → schema.mentions.get w.store.mentions envelope.id ≡ none
      → envelope.native_id ≢ some ""
      → HasTexts runtime schema envelope
      → ((result : IngestResult) × (run.0 ≡ ok result))
        × Synced runtime schema run.1.indexes run.1.store
  ingest-Synced valid synced fresh absent named_by texts =
      elim (Option-cases
        (lookup identity_key (envelope_identity runtime envelope) w.indexes.by_identity)) [
          | inl unknown ↦ ingest-stored valid synced fresh absent named_by texts unknown
          | inr (id, is_id) ↦
              let (event, found) = valid.identified (envelope_identity runtime envelope) id is_id in
              ingest-repeated id event synced is_id found
        ]
