-- ===== src/Events/Service/Many.antt =====
-- `ingest_many` from the empty indexes and from any others that agree.
use event_alpha.Prelude.{◌≡◌, ◌≢◌, sym, ap, ◌∙◌, ◌⊎◌, inl, inr, Bool, none, List, [], ◌∷◌, All}
use event_alpha.Prelude.Dict.{ℕ_key, lookup, lookup-insert_ne, In-lookup}
use event_alpha.Errors.{Result, ok, err}
use event_alpha.Exec.{after, after_both, ◌>>=◌, pure}
use event_alpha.Contracts.{Uuid}
use event_alpha.Contracts.Event.{RawEnvelope, CanonicalEvent}
use event_alpha.Events.Interface.{IngestResult, EventPersistence}
use event_alpha.Events.Service.{
  EventRuntime, Indexes, World, no_indexes, new_event, joined_event, similar_event, next_event,
  remember_event, ingest, ingest_many,
}
use event_alpha.Events.Service.Valid.{IsValid, Known, named}
use event_alpha.Events.Service.Ingest.{Ending, known, published, refused, ingest-Ending}
use event_alpha.Events.Service.Publication.{ingest-IsValid, next_event-Clustered}

pub no_indexes-IsValid : IsValid no_indexes
unfolding lookup
no_indexes-IsValid = record {
  once = tt;
  current = λ id event h. absurd (cc h);
  versioned = λ id version event h. absurd (cc h);
  identified = λ key id h. absurd (cc h);
  hashed = λ hash id h. absurd (cc h);
}

-- The identifiers that are drawn are new ones, each drawn once.
abbrev pub AreFresh : List (Uuid × RawEnvelope) → Indexes → Type 0
AreFresh [] x = Unit
AreFresh ((event_id, item) ∷ items) x =
    (lookup ℕ_key event_id x.events ≡ none)
    × All (λ other. event_id ≢ other.0) items
    × AreFresh items x

module _ (runtime : EventRuntime) (persistence : EventPersistence) (persistent : Bool) where
  abbrev WorldOf : Type 0
  WorldOf = World runtime persistence persistent

  module _ (event_id : Uuid) (envelope : RawEnvelope) (w : WorldOf) (valid : IsValid w.indexes)
      (fresh : lookup ℕ_key event_id w.indexes.events ≡ none) where
    abbrev next_of : CanonicalEvent
    next_of = (next_event runtime event_id envelope (similar_event runtime envelope w.indexes)).0

    next_event-id : (next_of.event_id ≡ event_id) ⊎ Known w.indexes next_of.event_id
    unfolding new_event joined_event
    next_event-id = elim (next_event-Clustered runtime persistence persistent event_id envelope w) [
      | inl (_, is_new, _) ↦ inl (ap (λ e. e.event_id) is_new)
      | inr (_, old, is_joined, m, _) ↦
          let (id, found) = In-lookup ℕ_key old w.indexes.events valid.once m in
          inr (
            old,
            ap (λ i. lookup ℕ_key i w.indexes.events)
                  (ap (λ e. e.event_id) is_joined ∙ named w.indexes id old valid found)
                ∙ found,
          )
    ]

    Ending-absent :
        (out : Result IngestResult × WorldOf) (id : Uuid)
        → Ending runtime persistence persistent event_id envelope w out
        → event_id ≢ id
        → lookup ℕ_key id w.indexes.events ≡ none
        → lookup ℕ_key id out.1.indexes.events ≡ none
    unfolding remember_event
    Ending-absent _ id (known i event h k) ne absent = absent
    Ending-absent _ id (published store h k next well_formed) ne absent =
        lookup-insert_ne ℕ_key id next_of.event_id next_of w.indexes.events (λ same.
          elim next_event-id [
            | inl drawn ↦ ne (sym drawn ∙ same)
            | inr (old, found) ↦ cc (absent, found, ap (λ i. lookup ℕ_key i w.indexes.events) same)
          ])
        ∙ absent
    Ending-absent _ id (refused raised store h k) ne absent = absent

    abbrev after_item : WorldOf
    after_item = (ingest runtime persistence persistent event_id envelope w).1

    ingest-AreFresh :
        (items : List (Uuid × RawEnvelope))
        → All (λ other. event_id ≢ other.0) items
        → AreFresh items w.indexes
        → AreFresh items after_item.indexes
    ingest-AreFresh [] distinct_ids h = tt
    ingest-AreFresh ((id, item) ∷ items) (ne, others) (absent, later, rest) = (
      Ending-absent (ingest runtime persistence persistent event_id envelope w) id
          (ingest-Ending runtime persistence persistent event_id envelope w valid fresh) ne absent,
      later,
      ingest-AreFresh items others rest,
    )

  abbrev KeepsValid : List (Uuid × RawEnvelope) → Type 0
  KeepsValid items =
      (w : WorldOf)
      → IsValid w.indexes
      → AreFresh items w.indexes
      → IsValid (ingest_many runtime persistence persistent items w).1.indexes

  rest-IsValid :
      (items : List (Uuid × RawEnvelope)) (r : Result IngestResult) (w : WorldOf)
      → KeepsValid items
      → IsValid w.indexes
      → AreFresh items w.indexes
      → IsValid
          (after r
            (λ result. do
              results ← ingest_many runtime persistence persistent items
              pure (result ∷ results))
            w).1.indexes
  rest-IsValid items (err error) w keeps valid fresh = valid
  rest-IsValid items (ok result) w keeps valid fresh =
      let out = ingest_many runtime persistence persistent items w in
      after_both (λ _ (v : WorldOf). IsValid v.indexes) out.0 (λ results. pure (result ∷ results)) w
        out.1 (keeps w valid fresh) (λ results. keeps w valid fresh)

  -- However many items are ingested, and wherever it stops, the indexes stay in agreement.
  pub ingest_many-IsValid :
      (items : List (Uuid × RawEnvelope)) (w : WorldOf)
      → IsValid w.indexes
      → AreFresh items w.indexes
      → IsValid (ingest_many runtime persistence persistent items w).1.indexes
  unfolding ingest_many
  ingest_many-IsValid [] w valid fresh = valid
  ingest_many-IsValid ((event_id, item) ∷ items) w valid (fresh, others, rest) =
      let out = ingest runtime persistence persistent event_id item w in
      rest-IsValid items out.0 out.1 (ingest_many-IsValid items)
        (ingest-IsValid runtime persistence persistent event_id item w valid fresh)
        (ingest-AreFresh event_id item w valid fresh items others rest)
