-- ===== src/Db/EventRepository/Mentions.antt =====
-- The mentions of the versions after a save.
use mathlib.Core.Path.{subst}
use event_alpha.Prelude.{ℕ, ◌+◌, ◌≤◌, ◌≡◌, refl, sym, ap, ◌∙◌, ◌⊎◌, inl, inr, ◌↔◌, some, arith, In}
use event_alpha.Prelude.Dict.{ℕ_key, lookup, insert-found}
use event_alpha.Contracts.{Uuid}
use event_alpha.Contracts.Event.{RawEnvelope, EventMention, CanonicalEvent}
use event_alpha.Db.Schema.{EventMentionRow}
use event_alpha.Db.EventRepository.{EventSchema, EventDb, mention_row, read_mention}
use event_alpha.Db.EventRepository.Rows.{read-mention_row, put-found, put-kept}
use event_alpha.Db.EventRepository.Synced.{
  HasMention, Saving, published_indexes, saved_row, saved_db,
}
use event_alpha.Events.Service.{EventRuntime, Indexes, version_key, mention_of, remember_event}

module _ (runtime : EventRuntime) (schema : EventSchema) (x : Indexes) (db : EventDb schema)
    (envelope : RawEnvelope) (event : CanonicalEvent) (sources : schema.sources.T)
    (saving : Saving runtime schema x db envelope event) where
  open schema use {dialect, raw_items, events, mentions}
  open saving use {valid, synced, next, well_formed, grows, absent, unknown}

  abbrev x' : Indexes
  x' = published_indexes runtime schema envelope event x

  abbrev db' : EventDb schema
  db' = saved_db runtime schema envelope event sources db

  abbrev new_row : EventMentionRow
  new_row = saved_row runtime schema envelope event

  -- A mention that was there is still there.
  HasMention-kept :
      (id : Uuid) (version : ℕ) (mention : EventMention)
      → HasMention runtime schema db id version mention
      → HasMention runtime schema db' id version mention
  unfolding mention_row mention_of
  HasMention-kept id version mention (row, found, is_id, le, read) = (
    row,
    put-kept ℕ_key mentions new_row row db.mentions mention.raw_item_id absent found,
    is_id,
    le,
    read,
  )

  HasMention-new :
      HasMention runtime schema db' event.event_id event.event_version (mention_of envelope)
  unfolding mention_row
  HasMention-new = (
    new_row,
    mentions.get-put_self new_row db.mentions,
    refl,
    omega arith,
    read-mention_row dialect event (mention_of envelope),
  )

  -- What is there after the save is the new mention, or was there.
  HasMention-found :
      (id : Uuid) (version : ℕ) (mention : EventMention)
      → HasMention runtime schema db' id version mention
      → ((mention ≡ mention_of envelope) × (event.event_id ≡ id) × (event.event_version ≤ version))
        ⊎ HasMention runtime schema db id version mention
  unfolding mention_row
  HasMention-found id version mention (row, found, is_id, le, read) =
      elim (put-found ℕ_key mentions new_row row db.mentions mention.raw_item_id found) [
        | inl (_, is_row) ↦ inl (
          sym read
              ∙ ap (read_mention dialect) (sym is_row)
              ∙ read-mention_row dialect event (mention_of envelope),
          ap (λ r. r.event_id) is_row ∙ is_id,
          ground (arith, ap (λ r. r.event_version) is_row, le),
        )
        | inr before ↦ inr (row, before, is_id, le, read)
      ]

  -- An older version is not reached by the new mention.
  older :
      (version : ℕ) (old : CanonicalEvent)
      → lookup version_key (event.event_id, version) x.versions ≡ some old
      → event.event_version ≤ version
      → ⊥
  older version old found le =
      let (current, is_current, below) =
        (valid.versioned event.event_id version old found).superseded in
      elim next [
        | inl (fresh, _) ↦ cc (fresh, is_current)
        | inr (before, is_before, later) ↦
            let same : some before ≡ some current = sym is_before ∙ is_current in
            ground (arith, same, later, le, below)
      ]

  after_old :
      (old : CanonicalEvent)
      → lookup ℕ_key event.event_id x.events ≡ some old
      → event.event_version ≡ old.event_version + 1
  after_old old is_old = elim next [
    | inl (fresh, _) ↦ absurd (cc (fresh, is_old))
    | inr (other, is_other, later) ↦
        let same : some other ≡ some old = sym is_other ∙ is_old in ground (arith, same, later)
  ]

  -- The mentions of the event before are in its row's version.
  old-HasMention :
      (old : CanonicalEvent) (mention : EventMention)
      → lookup ℕ_key event.event_id x.events ≡ some old
      → In mention old.mentions
        ↔ HasMention runtime schema db event.event_id old.event_version mention
  old-HasMention old mention is_old =
      synced.listed event.event_id old.event_version old mention
        (valid.current event.event_id old is_old)

  new-HasMention :
      (mention : EventMention)
      → In mention event.mentions
      → HasMention runtime schema db' event.event_id event.event_version mention
  new-HasMention mention m = elim ((grows mention).0 m) [
    | inl same ↦
        subst (λ n. HasMention runtime schema db' event.event_id event.event_version n) (sym same)
          HasMention-new
    | inr (old, is_old, before) ↦
        let (row, found, is_id, le, read) = (old-HasMention old mention is_old).0 before in
        HasMention-kept event.event_id event.event_version mention
          (row, found, is_id, omega (arith, le, after_old old is_old), read)
  ]

  HasMention-In :
      (mention : EventMention)
      → HasMention runtime schema db' event.event_id event.event_version mention
      → In mention event.mentions
  HasMention-In mention h = elim (HasMention-found event.event_id event.event_version mention h) [
    | inl (same, _, _) ↦ (grows mention).1 (inl same)
    | inr (row, found, is_id, le, read) ↦
        let (item, is_item, entry) = synced.itemed mention.raw_item_id row found in
        let is_old : lookup ℕ_key event.event_id x.events ≡ some entry.current =
          ap (λ i. lookup ℕ_key i x.events) (sym is_id) ∙ entry.found in
        (grows mention).1 (
          inr (
            entry.current,
            is_old,
            (old-HasMention entry.current mention is_old).1
                (row, found, is_id, entry.in_version, read),
          ))
  ]

  older-HasMention :
      (id : Uuid) (version : ℕ) (old : CanonicalEvent) (mention : EventMention)
      → lookup version_key (id, version) x.versions ≡ some old
      → In mention old.mentions ↔ HasMention runtime schema db' id version mention
  older-HasMention id version old mention found =
      let both = synced.listed id version old mention found in
      (
        λ m. HasMention-kept id version mention (both.0 m),
        λ h. elim (HasMention-found id version mention h) [
          | inl (_, is_id, le) ↦ absurd (
              older version old (ap (λ i. lookup version_key (i, version) x.versions) is_id ∙ found)
                le)
          | inr before ↦ both.1 before
        ],
      )

  pub listed-after :
      (id : Uuid) (version : ℕ) (found : CanonicalEvent) (mention : EventMention)
      → lookup version_key (id, version) x'.versions ≡ some found
      → In mention found.mentions ↔ HasMention runtime schema db' id version mention
  unfolding remember_event
  listed-after id version found mention h =
      elim (insert-found version_key (id, version) (event.event_id, event.event_version) found event
        x.versions h) [
          | inl (is_key, is_event) ↦
              subst (λ e. In mention e.mentions ↔ HasMention runtime schema db' id version mention)
                is_event
                (subst
                  (λ k. In mention event.mentions ↔ HasMention runtime schema db' k.0 k.1 mention)
                  is_key (new-HasMention mention, HasMention-In mention))
          | inr before ↦ older-HasMention id version found mention before
        ]
