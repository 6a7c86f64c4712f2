-- ===== src/Db/EventRepository/Versions.antt =====
-- The rows of the versions after a save.
use mathlib.Core.Path.{subst}
use event_alpha.Prelude.{
  true, ◌<◌, ◌⊎◌, ℕ, ◌≤◌, ◌≡◌, sym, ap, ◌∙◌, inl, inr, none, some, arith, Option-cases,
}
use event_alpha.Prelude.Dict.{ℕ_key, lookup, insert-found, lookup-insert_self}
use event_alpha.Contracts.{Uuid}
use event_alpha.Contracts.Event.{RawEnvelope, CanonicalEvent}
use event_alpha.Db.Schema.{EventRow}
use event_alpha.Db.EventRepository.{EventSchema, EventDb, event_row, event_fits}
use event_alpha.Db.EventRepository.Rows.{put-found, put-kept}
use event_alpha.Db.EventRepository.Synced.{Saving, published_indexes, saved_db}
use event_alpha.Events.Service.{
  EventRuntime, Indexes, version_key, envelope_identity, remember_event,
}
use event_alpha.Events.Service.Valid.{superseded-after}

le-cases : (a b : ℕ) → a ≤ b → (a ≡ b) ⊎ (a < b)
le-cases a b h = ground arith

module _ (runtime : EventRuntime) (schema : EventSchema) (x : Indexes) (db : EventDb schema)
    (envelope : RawEnvelope) (event : CanonicalEvent) (sources : schema.sources.T)
    (saving : Saving runtime schema x db envelope event) where
  open schema use {dialect, raw_items, events, mentions}
  open saving use {valid, synced, next, well_formed, grows, absent, unknown}

  abbrev x' : Indexes
  x' = published_indexes runtime schema envelope event x

  abbrev db' : EventDb schema
  db' = saved_db runtime schema envelope event sources db

  pub event_absent : events.get db.events (event.event_id, event.event_version) ≡ none
  event_absent = elim (Option-cases (events.get db.events (event.event_id, event.event_version))) [
    | inl nothing ↦ nothing
    | inr (row, found) ↦
        let (current, is_current, _, le) =
          synced.known event.event_id event.event_version row found in
        elim next [
          | inl (fresh, _) ↦ absurd (cc (fresh, is_current))
          | inr (old, is_old, later) ↦
              let same : some old ≡ some current = sym is_old ∙ is_current in
              absurd (ground (arith, same, later, le))
        ]
  ]

  positive_version : 1 ≤ event.event_version
  positive_version = elim next [
    | inl (_, first) ↦ omega (arith, first)
    | inr (_, _, later) ↦ omega (arith, later)
  ]

  pub stored-after :
      (id : Uuid) (version : ℕ) (found : CanonicalEvent)
      → lookup version_key (id, version) x'.versions ≡ some found
      → events.get db'.events (id, version) ≡ some (event_row found)
  unfolding remember_event event_row
  stored-after id version found h =
      elim (insert-found version_key (id, version) (event.event_id, event.event_version) found event
        x.versions h) [
          | inl (is_key, is_event) ↦
              subst (λ e. events.get db'.events (id, version) ≡ some (event_row e)) is_event
                (subst (λ k. events.get db'.events k ≡ some (event_row event)) is_key
                  (events.get-put_self (event_row event) db.events))
          | inr before ↦
              put-kept version_key events (event_row event) (event_row found) db.events
                (id, version) event_absent (synced.stored id version found before)
        ]

  pub known-after :
      (id : Uuid) (version : ℕ) (row : EventRow)
      → events.get db'.events (id, version) ≡ some row
      → (current : CanonicalEvent) × (lookup ℕ_key id x'.events ≡ some current)
        × (1 ≤ version)
        × (version ≤ current.event_version)
  unfolding remember_event event_row
  known-after id version row h =
      elim (put-found version_key events (event_row event) row db.events (id, version) h) [
        | inl (is_key, _) ↦
            let is_id : event.event_id ≡ id = ap (λ k. k.0) is_key in
            let is_version : event.event_version ≡ version = ap (λ k. k.1) is_key in
            (
              event,
              ap (λ i. lookup ℕ_key i x'.events) (sym is_id)
                  ∙ lookup-insert_self ℕ_key event.event_id event x.events,
              omega (arith, is_version, positive_version),
              omega (arith, is_version),
            )
        | inr before ↦
            let (current, is_current, positive, le) = synced.known id version row before in
            let (later, is_later, later_le) =
              superseded-after x valid event next (envelope_identity runtime envelope) envelope
                well_formed id version current is_current le in
            (later, is_later, positive, later_le)
      ]

  -- A row that was there is there after the save.
  row_kept :
      (id : Uuid) (version : ℕ)
      → ((row : EventRow) × (events.get db.events (id, version) ≡ some row))
      → (row : EventRow) × (events.get db'.events (id, version) ≡ some row)
  unfolding event_row
  row_kept id version (row, found) = (
    row,
    put-kept version_key events (event_row event) row db.events (id, version) event_absent found,
  )

  -- The versions before the one that is saved have their rows.
  earlier_row :
      (version : ℕ)
      → 1 ≤ version
      → version < event.event_version
      → (row : EventRow) × (events.get db.events (event.event_id, version) ≡ some row)
  earlier_row version positive below = elim next [
    | inl (_, first) ↦ absurd (omega (arith, first))
    | inr (old, is_old, later) ↦
        synced.complete event.event_id old version is_old positive (omega (arith, later))
  ]

  self_row :
      (version : ℕ)
      → 1 ≤ version
      → version ≤ event.event_version
      → (row : EventRow) × (events.get db'.events (event.event_id, version) ≡ some row)
  unfolding event_row
  self_row version positive le = elim (le-cases version event.event_version le) [
    | inl same ↦ (
      event_row event,
      ap (λ v. events.get db'.events (event.event_id, v)) same
          ∙ events.get-put_self (event_row event) db.events,
    )
    | inr below ↦ row_kept event.event_id version (earlier_row version positive below)
  ]

  pub complete-after :
      (id : Uuid) (current : CanonicalEvent) (version : ℕ)
      → lookup ℕ_key id x'.events ≡ some current
      → 1 ≤ version
      → version ≤ current.event_version
      → (row : EventRow) × (events.get db'.events (id, version) ≡ some row)
  unfolding remember_event
  complete-after id current version h positive le =
      elim (insert-found ℕ_key id event.event_id current event x.events h) [
        | inl (is_id, is_event) ↦
            subst (λ i. (row : EventRow) × (events.get db'.events (i, version) ≡ some row)) is_id
              (self_row version positive (omega (arith, ap (λ e. e.event_version) is_event, le)))
        | inr before ↦ row_kept id version (synced.complete id current version before positive le)
      ]

  pub fitting-after :
      (id : Uuid) (current : CanonicalEvent)
      → lookup ℕ_key id x'.events ≡ some current
      → event_fits (event_row current) ≡ true
  unfolding remember_event
  fitting-after id current h =
      elim (insert-found ℕ_key id event.event_id current event x.events h) [
        | inl (is_id, is_event) ↦
            subst (λ e. event_fits (event_row e) ≡ true) is_event saving.event_fitting
        | inr before ↦ synced.fitting id current before
      ]
