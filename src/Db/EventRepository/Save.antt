-- ===== src/Db/EventRepository/Save.antt =====
-- `save` for an item that is not stored: it succeeds, and the tables have what is published.
use Prim.Native.String.{◌++◌ as ◌+text+◌}
use event_alpha.Prelude.{
  ◌≡◌, ◌≢◌, refl, sym, ap, ◌∙◌, inl, inr, String, true, false, Option, none, some, arith, In,
  Bool-cases, str_eq, eq_iff, ==_iff,
}
use event_alpha.Prelude.Dict.{ℕ_key, lookup}
use event_alpha.Contracts.Event.{RawEnvelope, EventMention, CanonicalEvent}
use event_alpha.Errors.{ok}
use event_alpha.Db.Schema.{SourceRow, RawItemRow}
use event_alpha.Db.EventRepository.{
  row_fits, rows_fit, item_fits, mention_fits, event_row, mention_row, EventSchema, EventDb,
  add_source, source_row, save, raw_item_row, next_mention, same_entry, same_item, violates,
}
use event_alpha.Db.EventRepository.Rows.{next_mention-In, violates-In}
use event_alpha.Db.EventRepository.Synced.{
  Synced, Saving, item_identity, published_indexes, saved_db,
}
use event_alpha.Db.EventRepository.Versions.{
  stored-after, known-after, complete-after, fitting-after,
}
use event_alpha.Db.EventRepository.Mentions.{listed-after}
use event_alpha.Db.EventRepository.Items.{itemed-after, mentioned-after, identified-after}
use event_alpha.Events.Service.{
  EventRuntime, Indexes, identity_key, identity_of, text_or, envelope_identity, mention_of,
}

module _ (runtime : EventRuntime) (schema : EventSchema) (x : Indexes) (db : EventDb schema)
    (envelope : RawEnvelope) (event : CanonicalEvent) (sources : schema.sources.T)
    (saving : Saving runtime schema x db envelope event) where
  open schema use {dialect, raw_items, events, mentions}
  open saving use {valid, synced, next, well_formed, grows, absent, unknown}

  abbrev x' : Indexes
  x' = published_indexes runtime schema envelope event x

  abbrev db' : EventDb schema
  db' = saved_db runtime schema envelope event sources db

  pub saved-Synced : Synced runtime schema x' db'
  saved-Synced = record {
    stored = stored-after runtime schema x db envelope event sources saving;
    listed = listed-after runtime schema x db envelope event sources saving;
    known = known-after runtime schema x db envelope event sources saving;
    complete = complete-after runtime schema x db envelope event sources saving;
    fitting = fitting-after runtime schema x db envelope event sources saving;
    itemed = itemed-after runtime schema x db envelope event sources saving;
    mentioned = mentioned-after runtime schema x db envelope event sources saving;
    identified = identified-after runtime schema x db envelope event sources saving;
  }

  -- No other mention of the event is of this item.
  once :
      (mention : EventMention)
      → In mention event.mentions
      → mention.raw_item_id ≡ (mention_of envelope).raw_item_id
      → mention ≡ mention_of envelope
  unfolding mention_of
  once mention m is_id = elim ((grows mention).0 m) [
    | inl same ↦ same
    | inr (old, is_old, before) ↦
        let (row, found, _, _, _) =
          (synced.listed event.event_id old.event_version old mention
              (valid.current event.event_id old is_old)).0
            before in
        absurd (cc (absent, found, ap (mentions.get db.mentions) is_id))
  ]

  found_mention : next_mention envelope.id event.mentions ≡ some (mention_of envelope)
  unfolding mention_of
  found_mention =
      next_mention-In (mention_of envelope) event.mentions
        ((grows (mention_of envelope)).1 (inl refl)) once

  text_or_given : (t default : String) → str_eq t "" ≡ false → text_or (some t) default ≡ t
  text_or_given t default h = rw h refl

  same_native :
      (a b : Option String) (r s : RawItemRow)
      → a ≢ some ""
      → same_item a b r s ≡ true
      → text_or b ("sha256:" +text+ runtime.hex_text s.content_hash)
        ≡ text_or a ("sha256:" +text+ runtime.hex_text r.content_hash)
  same_native (some a) (some b) r s named_by h =
      let same : a ≡ b = (eq_iff a b).0 h in
      elim (Bool-cases (str_eq a "")) [
        | inl empty ↦ absurd (named_by (ap some ((eq_iff a "").0 empty)))
        | inr given ↦
            text_or_given b _ (ap (λ t. str_eq t "") (sym same) ∙ given)
            ∙ sym same
            ∙ sym (text_or_given a _ given)
      ]
  same_native (some a) none r s named_by h = absurd (cc h)
  same_native none (some b) r s named_by h = absurd (cc h)
  same_native none none r s named_by h =
      ap (λ d. "sha256:" +text+ runtime.hex_text d)
        (sym ((==_iff r.content_hash s.content_hash).0 h))

  -- Rows with the same entry of a unique index have the same identity, unless the native
  -- identifier is an empty text.
  same_identity :
      (item : RawItemRow)
      → envelope.native_id ≢ some ""
      → same_entry (raw_item_row envelope) item ≡ true
      → item_identity runtime schema item ≡ envelope_identity runtime envelope
  unfolding same_entry raw_item_row identity_of
  same_identity item named_by h =
      let same_text =
        same_native envelope.native_id item.native_id (raw_item_row envelope) item named_by
          (ground arith) in
      let same_source : envelope.source_id ≡ item.source_id =
        (eq_iff envelope.source_id item.source_id).0 (ground arith) in
      let same_provider : envelope.provider ≡ item.provider =
        (eq_iff envelope.provider item.provider).0 (ground arith) in
      cc (same_text, same_source, same_provider)

  not_violated :
      envelope.native_id ≢ some ""
      → violates (raw_item_row envelope) (raw_items.rows db.raw_items) ≡ false
  unfolding raw_item_row
  not_violated named_by =
      elim (Bool-cases (violates (raw_item_row envelope) (raw_items.rows db.raw_items))) [
        | inr fine ↦ fine
        | inl bad ↦
            let (item, m, other, entry) =
              violates-In (raw_item_row envelope) (raw_items.rows db.raw_items) bad in
            let stored = raw_items.rows-get db.raw_items item m in
            let (row, is_row) = synced.mentioned item.id item stored in
            let (same_item, is_item, is_of) = synced.itemed item.id row is_row in
            let same : some same_item ≡ some item = sym is_item ∙ stored in
            let same' : same_item ≡ item = cc same in
            absurd (
              cc (
                unknown,
                is_of.attributed,
                same',
                ap (λ k. lookup identity_key k x.by_identity) (same_identity item named_by entry),
              ))
      ]

  source_fitting : (found : Option SourceRow) → row_fits schema found (source_row envelope) ≡ true
  source_fitting none = saving.fitting.source
  source_fitting (some _) = refl

  mention_fitting : mention_fits (mention_row event (mention_of envelope)) ≡ true
  unfolding mention_fits mention_row mention_of item_fits raw_item_row
  mention_fitting = ground (arith, saving.fitting.item, saving.fitting.group)

  all_fit :
      (found : Option SourceRow)
      → rows_fit schema found envelope (event_row event) (mention_row event (mention_of envelope))
        ≡ true
  all_fit found =
      rw (source_fitting found, saving.fitting.item, saving.event_fitting, mention_fitting) refl

  -- The save of an item that is not stored succeeds.
  pub save-ok :
      envelope.native_id ≢ some ""
      → save schema envelope event db ≡ (
        ok tt,
        saved_db runtime schema envelope event
            (add_source schema
              (schema.sources.get db.sources envelope.source_id)
              (source_row envelope)
              db.sources)
            db,
      )
  unfolding save
  save-ok named_by =
      rw (found_mention, all_fit (schema.sources.get db.sources envelope.source_id))
        (elim (Bool-cases schema.limits_texts) [
          | inl limited ↦ rw (limited, not_violated named_by) refl
          | inr free ↦ rw (free, not_violated named_by) refl
        ])
