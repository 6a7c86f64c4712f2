-- ===== src/Events/Service/Valid.antt =====
-- The indexes of the event service agree with each other, and an event that is published keeps
-- them so.
use mathlib.Core.Path.{subst}
use event_alpha.Prelude.{
  ℕ, ◌+◌, ◌≤◌, ◌≡◌, refl, sym, ap, ◌∙◌, ◌⊎◌, inl, inr, true, List, [], none, some, or_else, arith,
  Option-cases, Bool-cases, ◌==◌, ==_iff, if◌then◌else◌,
}
use event_alpha.Prelude.Dict.{
  NodupKeys, ℕ_key, lookup, lookup-insert, lookup-insert_self, lookup-insert_ne, insert-NodupKeys,
  insert-found,
}
use event_alpha.Contracts.{Uuid}
use event_alpha.Contracts.Event.{RawEnvelope, CanonicalEvent, Digest}
use event_alpha.Events.Similarity.{contains}
use event_alpha.Events.Service.{
  Identity, Indexes, identity_key, version_key, add_id, remember_event,
}
use event_alpha.Events.Service.Version.{IsEvent}

abbrev pub Known : Indexes → Uuid → Type 0
Known x id = (event : CanonicalEvent) × (lookup ℕ_key id x.events ≡ some event)

-- An entry under a version: its event is that version of that event, well formed, and no later
-- than the event that is current.
pub record IsVersion (x : Indexes) (id : Uuid) (version : ℕ) (event : CanonicalEvent) : Type 0 where
  pub same_id : event.event_id ≡ id
  pub same_version : event.event_version ≡ version
  pub well_formed : IsEvent event
  pub superseded :
      (current : CanonicalEvent) × (lookup ℕ_key id x.events ≡ some current)
      × (version ≤ current.event_version)

-- `_events` names each event by its identifier, and its version stands in `_versions`, where every
-- entry is a version of a known event; `_by_identity` and `_by_content_hash` name known events.
pub record IsValid (x : Indexes) : Type 0 where
  pub once : NodupKeys ℕ_key x.events
  pub current :
      (id : Uuid) (event : CanonicalEvent)
      → lookup ℕ_key id x.events ≡ some event
      → lookup version_key (id, event.event_version) x.versions ≡ some event
  pub versioned :
      (id : Uuid) (version : ℕ) (event : CanonicalEvent)
      → lookup version_key (id, version) x.versions ≡ some event
      → IsVersion x id version event
  pub identified :
      (key : Identity) (id : Uuid) → lookup identity_key key x.by_identity ≡ some id → Known x id
  pub hashed :
      (hash : Digest) (id : Uuid)
      → contains (or_else (lookup ℕ_key hash x.by_content_hash) []) id ≡ true
      → Known x id

pub named :
    (x : Indexes) (id : Uuid) (event : CanonicalEvent)
    → IsValid x
    → lookup ℕ_key id x.events ≡ some event
    → event.event_id ≡ id
named x id event valid found =
    (valid.versioned id event.event_version event (valid.current id event found)).same_id

-- The event is the first version of an event that is not known, or the version after the one
-- that is current.
abbrev pub IsNext : Indexes → CanonicalEvent → Type 0
IsNext x event =
    ((lookup ℕ_key event.event_id x.events ≡ none) × (event.event_version ≡ 1))
    ⊎ ((old : CanonicalEvent) × (lookup ℕ_key event.event_id x.events ≡ some old)
        × (event.event_version ≡ old.event_version + 1))

module _ (x : Indexes) (valid : IsValid x) (event : CanonicalEvent) (next : IsNext x event) where
  -- The version is a new one.
  pub next_absent : lookup version_key (event.event_id, event.event_version) x.versions ≡ none
  next_absent =
      elim (Option-cases (lookup version_key (event.event_id, event.event_version) x.versions)) [
        | inl absent ↦ absent
        | inr (other, found) ↦
            let (current, known, le) =
              (valid.versioned event.event_id event.event_version other found).superseded in
            elim next [
              | inl (fresh, _) ↦ absurd (cc (fresh, known))
              | inr (old, is_old, later) ↦
                  let same : some old ≡ some current = sym is_old ∙ known in
                  absurd (ground (arith, same, later, le))
            ]
      ]

  module _ (key : Identity) (envelope : RawEnvelope) (well_formed : IsEvent event) where
    abbrev after_event : Indexes
    after_event = remember_event key envelope event x

    events-after :
        (id : Uuid)
        → lookup ℕ_key id after_event.events
          ≡ (if event.event_id == id then some event else lookup ℕ_key id x.events)
    unfolding remember_event
    events-after id = lookup-insert ℕ_key id event.event_id event x.events

    Known-after : (id : Uuid) → Known x id → Known after_event id
    Known-after id (old, known) = elim (Bool-cases (event.event_id == id)) [
      | inl same ↦ (event, events-after id ∙ rw same refl)
      | inr other ↦ (old, events-after id ∙ rw other known)
    ]

    pub Known-self : Known after_event event.event_id
    unfolding remember_event
    Known-self = (event, lookup-insert_self ℕ_key event.event_id event x.events)

    -- A version that is there stays what it is.
    pub versions-kept :
        (id : Uuid) (version : ℕ) (old : CanonicalEvent)
        → lookup version_key (id, version) x.versions ≡ some old
        → lookup version_key (id, version) after_event.versions ≡ some old
    unfolding remember_event
    versions-kept id version old found =
        lookup-insert_ne version_key (id, version) (event.event_id, event.event_version) event
          x.versions (λ e. cc (next_absent, found, ap (λ k. lookup version_key k x.versions) e))
        ∙ found

    pub superseded-after :
        (id : Uuid) (version : ℕ) (current : CanonicalEvent)
        → lookup ℕ_key id x.events ≡ some current
        → version ≤ current.event_version
        → (later : CanonicalEvent) × (lookup ℕ_key id after_event.events ≡ some later)
          × (version ≤ later.event_version)
    superseded-after id version current known le = elim (Bool-cases (event.event_id == id)) [
      | inl same ↦ (
        event,
        events-after id ∙ rw same refl,
        elim next [
          | inl (fresh, _) ↦ absurd (ground (arith, fresh, known, same))
          | inr (old, is_old, later) ↦ ground (arith, is_old, known, same, later, le)
        ],
      )
      | inr other ↦ (current, events-after id ∙ rw other known, le)
    ]

    current-after :
        (id : Uuid) (found : CanonicalEvent)
        → lookup ℕ_key id after_event.events ≡ some found
        → lookup version_key (id, found.event_version) after_event.versions ≡ some found
    unfolding remember_event
    current-after id found e = elim (insert-found ℕ_key id event.event_id found event x.events e) [
      | inl (is_id, is_event) ↦
          subst (λ i. lookup version_key (i, found.event_version) after_event.versions ≡ some found)
            is_id
            (subst
              (λ f.
                lookup version_key (event.event_id, f.event_version) after_event.versions ≡ some f)
              is_event
              (lookup-insert_self version_key (event.event_id, event.event_version) event
                x.versions))
      | inr before ↦ versions-kept id found.event_version found (valid.current id found before)
    ]

    old-IsVersion :
        (id : Uuid) (version : ℕ) (old : CanonicalEvent)
        → IsVersion x id version old
        → IsVersion after_event id version old
    old-IsVersion id version old v =
        let (current, known, le) = v.superseded in
        record {
          same_id = v.same_id;
          same_version = v.same_version;
          well_formed = v.well_formed;
          superseded = superseded-after id version current known le;
        }

    new-IsVersion : IsVersion after_event event.event_id event.event_version event
    unfolding remember_event
    new-IsVersion = record {
      same_id = refl;
      same_version = refl;
      well_formed = well_formed;
      superseded = (event, lookup-insert_self ℕ_key event.event_id event x.events, omega arith);
    }

    versioned-after :
        (id : Uuid) (version : ℕ) (found : CanonicalEvent)
        → lookup version_key (id, version) after_event.versions ≡ some found
        → IsVersion after_event id version found
    unfolding remember_event
    versioned-after id version found e =
        elim (insert-found version_key (id, version) (event.event_id, event.event_version) found
          event x.versions e) [
            | inl (is_key, is_event) ↦
                subst (λ f. IsVersion after_event id version f) is_event
                  (subst (λ k. IsVersion after_event k.0 k.1 event) is_key new-IsVersion)
            | inr before ↦ old-IsVersion id version found (valid.versioned id version found before)
          ]

    contains_add :
        (i id : Uuid) (ids : List Uuid)
        → contains (add_id i ids) id ≡ true
        → (i ≡ id) ⊎ (contains ids id ≡ true)
    contains_add i id ids h = ground arith

    -- What an item's content is known for after the item, under a digest.
    pub content-found :
        (hash : Digest) (id : Uuid)
        → contains (or_else (lookup ℕ_key hash after_event.by_content_hash) []) id ≡ true
        → (event.event_id ≡ id)
          ⊎ (contains (or_else (lookup ℕ_key hash x.by_content_hash) []) id ≡ true)
    unfolding remember_event
    content-found hash id h =
        let ids = or_else (lookup ℕ_key envelope.content_hash x.by_content_hash) [] in
        let entry =
          lookup-insert ℕ_key hash envelope.content_hash (add_id event.event_id ids)
            x.by_content_hash in
        elim (Bool-cases (envelope.content_hash == hash)) [
          | inl same ↦
              let is_new : lookup ℕ_key hash after_event.by_content_hash
                  ≡ some (add_id event.event_id ids) =
                entry ∙ rw same refl in
              elim (contains_add event.event_id id ids
                (sym (ap (λ o. contains (or_else o []) id) is_new) ∙ h)) [
                  | inl is_id ↦ inl is_id
                  | inr before ↦ inr (
                      subst
                        (λ k. contains (or_else (lookup ℕ_key k x.by_content_hash) []) id ≡ true)
                        ((==_iff envelope.content_hash hash).0 same) before)
                ]
          | inr other ↦
              let is_old : lookup ℕ_key hash after_event.by_content_hash
                  ≡ lookup ℕ_key hash x.by_content_hash =
                entry ∙ rw other refl in
              inr (sym (ap (λ o. contains (or_else o []) id) is_old) ∙ h)
        ]

    hashed-after :
        (hash : Digest) (id : Uuid)
        → contains (or_else (lookup ℕ_key hash after_event.by_content_hash) []) id ≡ true
        → Known after_event id
    hashed-after hash id h = elim (content-found hash id h) [
      | inl is_id ↦ subst (λ i. Known after_event i) is_id Known-self
      | inr before ↦ Known-after id (valid.hashed hash id before)
    ]

    identified-after :
        (k : Identity) (id : Uuid)
        → lookup identity_key k after_event.by_identity ≡ some id
        → Known after_event id
    unfolding remember_event
    identified-after k id e =
        elim (insert-found identity_key k key id event.event_id x.by_identity e) [
          | inl (_, is_id) ↦ subst (λ i. Known after_event i) is_id Known-self
          | inr before ↦ Known-after id (valid.identified k id before)
        ]

    pub remember_event-IsValid : IsValid after_event
    unfolding remember_event
    remember_event-IsValid = record {
      once = insert-NodupKeys ℕ_key event.event_id event x.events valid.once;
      current = current-after;
      versioned = versioned-after;
      identified = identified-after;
      hashed = hashed-after;
    }
