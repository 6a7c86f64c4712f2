-- ===== src/Events/Similarity.antt =====
-- `_similar_event` of services/api/app/events/service.py.
pub mod Order
use event_alpha.Prelude.{
  ℕ, ◌+◌, ◌-◌, ◌*◌, ◌≤◌, ◌<◌, ◌≡◌, String, Bool, true, false, not, ◌&&◌, ◌||◌, List, [], ◌∷◌,
  Option, none, some, ltb, leb, ◌==◌, str_eq, if◌then◌else◌,
}
use event_alpha.Contracts.{Uuid}
use event_alpha.Contracts.Time.{Instant, microseconds_per_second}
use event_alpha.Contracts.Event.{RawEnvelope, CanonicalEvent}
use event_alpha.Events.Title.{Alphabet, Token, Ratio, ratio_lt, title_fingerprint, jaccard}

-- timedelta(hours=24)
abbrev pub cluster_window : ℕ
cluster_window = 24 * 3600 * microseconds_per_second

-- abs(a - b)
abbrev pub distance_between : Instant → Instant → ℕ
distance_between a b = if ltb a b then b - a else a - b

-- The rank of a candidate: 1 if the content is the same, the similarity, and the distance and the
-- identifier, of which the distance counts negatively.
pub record Rank : Type 0 where
  pub exact : ℕ
  pub similarity : Ratio
  pub distance : ℕ
  pub id : Uuid

-- a < b, as tuples are compared.
unfoldable pub rank_lt : Rank → Rank → Bool
rank_lt a b =
    if ltb a.exact b.exact
    then true
    else if ltb b.exact a.exact
    then false
    else if ratio_lt a.similarity b.similarity
    then true
    else if ratio_lt b.similarity a.similarity
    then false
    else if ltb b.distance a.distance
    then true
    else if ltb a.distance b.distance
    then false
    else ltb a.id b.id

-- event_id in exact_event_ids
abbrev pub contains : List Uuid → Uuid → Bool
contains [] id = false
contains (i ∷ ids) id = i == id || contains ids id

module _ (alphabet : Alphabet) (envelope : RawEnvelope) (exact_event_ids : List Uuid) where
  unfoldable pub rank_of : CanonicalEvent → Rank
  rank_of event = record {
    exact = if contains exact_event_ids event.event_id then 1 else 0;
    similarity =
        jaccard (title_fingerprint alphabet envelope.title)
          (title_fingerprint alphabet event.canonical_title);
    distance = distance_between envelope.received_at event.last_updated_at;
    id = event.event_id;
  }

  -- The two tests that pass over an event: its type and its distance, and its similarity, which
  -- must be 0.85 at least unless the content is the same.
  unfoldable pub is_candidate : CanonicalEvent → Bool
  unfolding rank_of
  is_candidate event =
      let rank = rank_of event in
      str_eq event.event_type envelope.category
      && not (ltb cluster_window rank.distance)
      && (rank.exact == 1 || not (ratio_lt rank.similarity (record { num = 17; den = 20 })))

  -- max(candidates, key=rank): the first one of the highest rank.
  unfoldable pub best : Option CanonicalEvent → List CanonicalEvent → Option CanonicalEvent
  best current [] = current
  best none (event ∷ events) = best (some event) events
  best (some current) (event ∷ events) =
      best (some (if rank_lt (rank_of current) (rank_of event) then event else current)) events

  -- The loop over the events, and the choice.
  unfoldable pub candidates : List CanonicalEvent → List CanonicalEvent
  candidates [] = []
  candidates (event ∷ events) =
      let later = candidates events in if is_candidate event then event ∷ later else later

  unfoldable pub similar_among : List CanonicalEvent → Option CanonicalEvent
  unfolding best candidates
  similar_among events = best none (candidates events)
