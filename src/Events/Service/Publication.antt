-- ===== src/Events/Service/Publication.antt =====
-- What `ingest` publishes: its invariant, its versions, its repetition and its failure.
use mathlib.Core.Path.{subst}
use event_alpha.Prelude.{
  ℕ, ◌≡◌, refl, sym, ap, ◌∙◌, ◌⊎◌, inl, inr, Bool, true, false, none, some, or_else, In, List, [],
  Option-cases,
}
use event_alpha.Prelude.Dict.{ℕ_key, lookup, lookup-insert_self, values}
use event_alpha.Errors.{Exc, Result, ok, err}
use event_alpha.Contracts.{Uuid}
use event_alpha.Contracts.Event.{RawEnvelope, CanonicalEvent}
use event_alpha.Events.Similarity.Order.{MayJoin, similar_among-some, similar_among-none}
use event_alpha.Events.Interface.{IngestResult, EventPersistence}
use event_alpha.Events.Service.{
  EventRuntime, World, identity_key, version_key, envelope_identity, new_event, joined_event,
  similar_event, next_event, remember_event, persist, ingest,
}
use event_alpha.Events.Service.Valid.{IsValid, remember_event-IsValid, versions-kept}
use event_alpha.Events.Service.Ingest.{
  Ending, known, published, refused, ingest-Ending, ingest-known,
}

module _ (runtime : EventRuntime) (persistence : EventPersistence) (persistent : Bool) where
  abbrev WorldOf : Type 0
  WorldOf = World runtime persistence persistent

  module _ (event_id : Uuid) (envelope : RawEnvelope) (w : WorldOf) where
    abbrev EndingOf : Result IngestResult × WorldOf → Type 0
    EndingOf = Ending runtime persistence persistent event_id envelope w

    -- What `ingest` comes to.
    abbrev run : Result IngestResult × WorldOf
    run = ingest runtime persistence persistent event_id envelope w

    Ending-IsValid :
        (out : Result IngestResult × WorldOf)
        → IsValid w.indexes
        → EndingOf out
        → IsValid out.1.indexes
    Ending-IsValid _ valid (known id event h k) = valid
    Ending-IsValid _ valid (published store h k next well_formed) =
        remember_event-IsValid w.indexes valid _ next _ envelope well_formed
    Ending-IsValid _ valid (refused error store h k) = valid

    -- Where the identifier that is drawn is a new one, `ingest` keeps the indexes in agreement,
    -- whether it succeeds or fails.
    pub ingest-IsValid :
        IsValid w.indexes → lookup ℕ_key event_id w.indexes.events ≡ none → IsValid run.1.indexes
    ingest-IsValid valid fresh =
        Ending-IsValid run valid
          (ingest-Ending runtime persistence persistent event_id envelope w valid fresh)

    Ending-versions :
        (out : Result IngestResult × WorldOf) (id : Uuid) (version : ℕ) (event : CanonicalEvent)
        → IsValid w.indexes
        → lookup version_key (id, version) w.indexes.versions ≡ some event
        → EndingOf out
        → lookup version_key (id, version) out.1.indexes.versions ≡ some event
    Ending-versions _ id version event valid e (known i other h k) = e
    Ending-versions _ id version event valid e (published store h k next well_formed) =
        versions-kept w.indexes valid _ next _ envelope well_formed id version event e
    Ending-versions _ id version event valid e (refused error store h k) = e

    -- A version of an event that `ingest` finds is the same version afterwards: the history of an
    -- event only grows.
    pub ingest-versions :
        (id : Uuid) (version : ℕ) (event : CanonicalEvent)
        → IsValid w.indexes
        → lookup ℕ_key event_id w.indexes.events ≡ none
        → lookup version_key (id, version) w.indexes.versions ≡ some event
        → lookup version_key (id, version) run.1.indexes.versions ≡ some event
    ingest-versions id version event valid fresh e =
        Ending-versions run id version event valid e
          (ingest-Ending runtime persistence persistent event_id envelope w valid fresh)

    -- After the item, its identity stands for an event that is current.
    Ending-identity :
        (out : Result IngestResult × WorldOf) (result : IngestResult)
        → EndingOf out
        → out.0 ≡ ok result
        → (id : Uuid) × (lookup identity_key
              (envelope_identity runtime envelope)
              out.1.indexes.by_identity
            ≡ some id)
          × (lookup ℕ_key id out.1.indexes.events ≡ some result.event)
    unfolding remember_event
    Ending-identity _ result (known id event h k) e = (id, h, cc)
    Ending-identity _ result (published store h k next well_formed) e =
        let event =
          (next_event runtime event_id envelope (similar_event runtime envelope w.indexes)).0 in
        let same : event ≡ result.event = cc (e) in
        (
          event.event_id,
          lookup-insert_self identity_key (envelope_identity runtime envelope) event.event_id
              w.indexes.by_identity,
          lookup-insert_self ℕ_key event.event_id event w.indexes.events ∙ ap some same,
        )
    Ending-identity _ result (refused error store h k) e = absurd (cc)

    -- An item that comes again, under whatever content and to whichever state the first one left,
    -- changes nothing and gets the event of the first one.
    pub ingest-again :
        (other_id : Uuid) (other : RawEnvelope) (result : IngestResult) (after_first : WorldOf)
        → IsValid w.indexes
        → lookup ℕ_key event_id w.indexes.events ≡ none
        → run ≡ (ok result, after_first)
        → envelope_identity runtime other ≡ envelope_identity runtime envelope
        → ingest runtime persistence persistent other_id other after_first
          ≡ (ok (record { event = result.event; created = false; idempotent = true }), after_first)
    ingest-again other_id other result after_first valid fresh h same =
        let ending = ingest-Ending runtime persistence persistent event_id envelope w valid fresh in
        let (id, is_id, found) = Ending-identity run result ending (ap (λ o. o.0) h) in
        let left = ap (λ o. o.1.indexes) h in
        ingest-known runtime persistence persistent other_id other after_first id result.event
          (ap (λ k. lookup identity_key k after_first.indexes.by_identity) same
            ∙ sym (
                ap (λ x. lookup identity_key (envelope_identity runtime envelope) x.by_identity)
                  left)
            ∙ is_id)
          (sym (ap (λ x. lookup ℕ_key id x.events) left) ∙ found)

    Ending-err :
        (out : Result IngestResult × WorldOf) (error : Exc)
        → EndingOf out
        → out.0 ≡ err error
        → (out.1.indexes ≡ w.indexes)
          × (event : CanonicalEvent) × ((persist runtime persistence persistent envelope event w).0
              ≡ err error)
    Ending-err _ error (known id event h k) e = absurd (cc e)
    Ending-err _ error (published store h k next well_formed) e = absurd (cc e)
    Ending-err _ error (refused raised store h k) e = (
      refl,
      (next_event runtime event_id envelope (similar_event runtime envelope w.indexes)).0,
      cc (k, e),
    )

    -- `ingest` raises only what saving an event raises, and then the indexes are as they were.
    pub ingest-err :
        (error : Exc) (after_failure : WorldOf)
        → IsValid w.indexes
        → lookup ℕ_key event_id w.indexes.events ≡ none
        → run ≡ (err error, after_failure)
        → (after_failure.indexes ≡ w.indexes)
          × (event : CanonicalEvent) × ((persist runtime persistence persistent envelope event w).0
              ≡ err error)
    ingest-err error after_failure valid fresh h =
        let (kept, event, raised) =
          Ending-err run error
            (ingest-Ending runtime persistence persistent event_id envelope w valid fresh)
            (ap (λ o. o.0) h) in
        (sym (ap (λ o. o.1.indexes) h) ∙ kept, event, raised)

    -- The events that have an item of this content.
    abbrev alike_ids : List Uuid
    alike_ids = or_else (lookup ℕ_key envelope.content_hash w.indexes.by_content_hash) []

    -- What an item that is not a repetition comes to: the first version of an event if it may join
    -- none, or else the next version of one that it may join.
    abbrev pub Clustered : CanonicalEvent × Bool → Type 0
    Clustered (event, created) =
        ((created ≡ true)
          × (event ≡ new_event event_id envelope)
          × ((other : CanonicalEvent)
              → In other (values w.indexes.events)
              → ¬ MayJoin runtime.alphabet envelope alike_ids other))
        ⊎ ((created ≡ false)
            × (old : CanonicalEvent) × (event ≡ joined_event envelope old)
            × In old (values w.indexes.events)
            × MayJoin runtime.alphabet envelope alike_ids old)

    pub next_event-Clustered :
        Clustered (next_event runtime event_id envelope (similar_event runtime envelope w.indexes))
    unfolding next_event similar_event
    next_event-Clustered = elim (Option-cases (similar_event runtime envelope w.indexes)) [
      | inl nothing ↦ rw nothing (
          inl (
            refl,
            refl,
            similar_among-none runtime.alphabet envelope alike_ids (values w.indexes.events)
                nothing,
          ))
      | inr (old, chosen) ↦
          let found =
            similar_among-some runtime.alphabet envelope alike_ids (values w.indexes.events) old
              chosen in
          rw chosen (inr (refl, old, refl, found.0, found.1))
    ]

    Ending-Clustered :
        (out : Result IngestResult × WorldOf) (result : IngestResult)
        → EndingOf out
        → out.0 ≡ ok result
        → result.idempotent ≡ false
        → Clustered (result.event, result.created)
    Ending-Clustered _ result (known id event h k) e i = absurd (cc (e, i))
    Ending-Clustered _ result (published store h k next well_formed) e i =
        let found =
          next_event runtime event_id envelope (similar_event runtime envelope w.indexes) in
        let same_event : found.0 ≡ result.event = cc e in
        let same_created : found.1 ≡ result.created = cc e in
        subst (λ c. Clustered (result.event, c)) same_created
          (subst (λ x. Clustered (x, found.1)) same_event next_event-Clustered)
    Ending-Clustered _ result (refused raised store h k) e i = absurd (cc e)

    -- An item that is not a repetition makes a new event if it may join none of those that are
    -- current, and otherwise the next version of one that it may join.
    pub ingest-Clustered :
        (result : IngestResult) (after_item : WorldOf)
        → IsValid w.indexes
        → lookup ℕ_key event_id w.indexes.events ≡ none
        → run ≡ (ok result, after_item)
        → result.idempotent ≡ false
        → Clustered (result.event, result.created)
    ingest-Clustered result after_item valid fresh h =
        Ending-Clustered run result
          (ingest-Ending runtime persistence persistent event_id envelope w valid fresh)
          (ap (λ o. o.0) h)
