-- ===== src/Events/Similarity/Order.antt =====
-- The ranks of the candidates are a strict order, and the event that is chosen has the highest.
use mathlib.Core.Path.{subst}
use native.Mathlib.Nat.{
  mul-le-mul_right, le_of_mul-le-mul_right, lt_of_mul-lt-mul_left, mul-lt-mul_of_pos_right,
}
use event_alpha.Prelude.{
  ℕ, ◌*◌, ◌≤◌, ◌<◌, ◌≡◌, refl, ◌⊎◌, inl, inr, true, false, List, [], ◌∷◌, none, some, arith, In,
  Bool-cases, eq_iff,
}
use event_alpha.Contracts.{Uuid}
use event_alpha.Contracts.Event.{RawEnvelope, CanonicalEvent}
use event_alpha.Events.Title.{Alphabet, jaccard-den}
use event_alpha.Events.Similarity.{
  Rank, rank_lt, rank_of, is_candidate, best, candidates, similar_among, distance_between,
  cluster_window, contains,
}

-- a/b <= c/d and c/d <= e/f give a/b <= e/f, written without quotients.
ratio_trans : (a b c d e f : ℕ) → 0 < d → a * d ≤ c * b → c * f ≤ e * d → a * f ≤ e * b
ratio_trans a b c d e f h k l =
    let first = mul-le-mul_right f k in
    let second = mul-le-mul_right b l in le_of_mul-le-mul_right {k = d} (grind arith) h

ratio_lt-le : (a b c d e f : ℕ) → 0 < d → 0 < f → a * d < c * b → c * f ≤ e * d → a * f < e * b
ratio_lt-le a b c d e f h g k l =
    let first = mul-lt-mul_of_pos_right k g in
    let second = mul-le-mul_right b l in lt_of_mul-lt-mul_left d (grind arith)

ratio_le-lt : (a b c d e f : ℕ) → 0 < d → 0 < b → a * d ≤ c * b → c * f < e * d → a * f < e * b
ratio_le-lt a b c d e f h g k l =
    let first = mul-le-mul_right f k in
    let second = mul-lt-mul_of_pos_right l g in lt_of_mul-lt-mul_left d (grind arith)

-- A rank of a similarity has a positive denominator.
abbrev IsRank : Rank → Type 0
IsRank r = 0 < r.similarity.den

rank_lt_trans :
    (a b c : Rank)
    → IsRank a
    → IsRank b
    → IsRank c
    → rank_lt a b ≡ true
    → rank_lt b c ≡ true
    → rank_lt a c ≡ true
unfolding rank_lt
rank_lt_trans a b c p q r h k = ground (
  arith,
  ratio_trans a.similarity.num a.similarity.den b.similarity.num b.similarity.den c.similarity.num
      c.similarity.den,
  ratio_trans c.similarity.num c.similarity.den b.similarity.num b.similarity.den a.similarity.num
      a.similarity.den,
  ratio_lt-le a.similarity.num a.similarity.den b.similarity.num b.similarity.den c.similarity.num
      c.similarity.den,
  ratio_le-lt a.similarity.num a.similarity.den b.similarity.num b.similarity.den c.similarity.num
      c.similarity.den,
)

-- Where two ranks are ordered, any other one is above the first or below the second.
rank_lt_split :
    (a b c : Rank)
    → IsRank a
    → IsRank b
    → IsRank c
    → rank_lt a c ≡ true
    → rank_lt a b ≡ false
    → rank_lt b c ≡ true
unfolding rank_lt
rank_lt_split a b c p q r h k = ground (
  arith,
  ratio_trans a.similarity.num a.similarity.den b.similarity.num b.similarity.den c.similarity.num
      c.similarity.den,
  ratio_trans c.similarity.num c.similarity.den b.similarity.num b.similarity.den a.similarity.num
      a.similarity.den,
  ratio_lt-le c.similarity.num c.similarity.den b.similarity.num b.similarity.den a.similarity.num
      a.similarity.den,
  ratio_le-lt c.similarity.num c.similarity.den b.similarity.num b.similarity.den a.similarity.num
      a.similarity.den,
)

module _ (alphabet : Alphabet) (envelope : RawEnvelope) (exact_event_ids : List Uuid) where
  abbrev Rankof : CanonicalEvent → Rank
  Rankof = rank_of alphabet envelope exact_event_ids

  rank_of-IsRank :
      (event : CanonicalEvent) → IsRank (rank_of alphabet envelope exact_event_ids event)
  unfolding rank_of
  rank_of-IsRank event = jaccard-den _ _

  rank_lt_trans_at :
      (a b c : CanonicalEvent)
      → rank_lt (Rankof a) (Rankof b) ≡ true
      → rank_lt (Rankof b) (Rankof c) ≡ true
      → rank_lt (Rankof a) (Rankof c) ≡ true
  rank_lt_trans_at a b c =
      rank_lt_trans (Rankof a) (Rankof b) (Rankof c) (rank_of-IsRank a) (rank_of-IsRank b)
        (rank_of-IsRank c)

  rank_lt_irrefl : (r : Rank) → rank_lt r r ≡ false
  unfolding rank_lt
  rank_lt_irrefl r = ground arith

  -- No event of the list ranks above this one.
  abbrev pub Highest : CanonicalEvent → List CanonicalEvent → Type 0
  Highest chosen events =
      (event : CanonicalEvent) → In event events → rank_lt (Rankof chosen) (Rankof event) ≡ false

  below_false :
      (chosen current event : CanonicalEvent)
      → rank_lt (Rankof current) (Rankof event) ≡ true
      → rank_lt (Rankof chosen) (Rankof event) ≡ false
      → rank_lt (Rankof chosen) (Rankof current) ≡ false
  below_false chosen current event h k =
      elim (Bool-cases (rank_lt (Rankof chosen) (Rankof current))) [
        | inl lt ↦ absurd (cc (rank_lt_trans_at chosen current event lt h, k))
        | inr no_lt ↦ no_lt
      ]

  above_false :
      (chosen current event : CanonicalEvent)
      → rank_lt (Rankof current) (Rankof event) ≡ false
      → rank_lt (Rankof chosen) (Rankof current) ≡ false
      → rank_lt (Rankof chosen) (Rankof event) ≡ false
  above_false chosen current event h k =
      elim (Bool-cases (rank_lt (Rankof chosen) (Rankof event))) [
        | inl lt ↦ absurd (
            cc (
              rank_lt_split (Rankof chosen) (Rankof current) (Rankof event) (rank_of-IsRank chosen)
                  (rank_of-IsRank current) (rank_of-IsRank event) lt k,
              h,
            ))
        | inr no_lt ↦ no_lt
      ]

  best_from :
      (current : CanonicalEvent) (events : List CanonicalEvent)
      → (chosen : CanonicalEvent) × (best alphabet envelope exact_event_ids (some current) events
          ≡ some chosen)
        × In chosen (current ∷ events)
        × Highest chosen (current ∷ events)
  unfolding best
  best_from current [] = (
    current,
    refl,
    inl refl,
    λ event m. elim m [ inl same ↦ rw same (rank_lt_irrefl (Rankof current)) | inr m' ↦ absurd m' ],
  )
  best_from current (event ∷ events) = elim (Bool-cases (rank_lt (Rankof current) (Rankof event))) [
    | inl above ↦
        let (chosen, found, m, highest) = best_from event events in
        (
          chosen,
          rw above found,
          inr m,
          λ other n. elim n [
            | inl same ↦ rw same (below_false chosen current event above (highest event (inl refl)))
            | inr n' ↦ highest other n'
          ],
        )
    | inr kept ↦
        let (chosen, found, m, highest) = best_from current events in
        (
          chosen,
          rw kept found,
          elim m [ inl e ↦ inl e | inr m' ↦ inr (inr m') ],
          λ other n. elim n [
            | inl same ↦ highest other (inl same)
            | inr (inl same) ↦
                rw same (above_false chosen current event kept (highest current (inl refl)))
            | inr (inr n') ↦ highest other (inr n')
          ],
        )
  ]

  best-some :
      (events : List CanonicalEvent) (chosen : CanonicalEvent)
      → best alphabet envelope exact_event_ids none events ≡ some chosen
      → In chosen events × Highest chosen events
  unfolding best
  best-some [] chosen h = absurd (cc h)
  best-some (event ∷ events) chosen h =
      let (found, e, m, highest) = best_from event events in
      let same : found ≡ chosen = cc (e, h) in
      subst (λ c. In c (event ∷ events) × Highest c (event ∷ events)) same (m, highest)

  best-none :
      (events : List CanonicalEvent)
      → best alphabet envelope exact_event_ids none events ≡ none
      → events ≡ []
  unfolding best
  best-none [] h = refl
  best-none (event ∷ events) h =
      let (chosen, found, _, _) = best_from event events in absurd (cc (found, h))

  candidates-In :
      (event : CanonicalEvent) (events : List CanonicalEvent)
      → In event (candidates alphabet envelope exact_event_ids events)
      → In event events × (is_candidate alphabet envelope exact_event_ids event ≡ true)
  unfolding candidates
  candidates-In event [] m = absurd m
  candidates-In event (other ∷ events) m = ground (arith, candidates-In event events)

  In-candidates :
      (event : CanonicalEvent) (events : List CanonicalEvent)
      → In event events
      → is_candidate alphabet envelope exact_event_ids event ≡ true
      → In event (candidates alphabet envelope exact_event_ids events)
  unfolding candidates
  In-candidates event [] m h = absurd m
  In-candidates event (other ∷ events) (inl e) h = ground arith
  In-candidates event (other ∷ events) (inr m) h = ground (arith, In-candidates event events m h)

  -- The conditions under which an item may join an event: the event has the type of the item and
  -- was last updated within 24 hours of its receipt, and either it has an item of the same content
  -- or the titles are similar to a degree of 0.85 at least.
  pub record MayJoin (event : CanonicalEvent) : Type 0 where
    pub same_type : event.event_type ≡ envelope.category
    pub near : distance_between envelope.received_at event.last_updated_at ≤ cluster_window
    pub alike :
        (contains exact_event_ids event.event_id ≡ true)
        ⊎ (17 * (Rankof event).similarity.den ≤ 20 * (Rankof event).similarity.num)

  is_candidate-MayJoin :
      (event : CanonicalEvent)
      → is_candidate alphabet envelope exact_event_ids event ≡ true
      → MayJoin event
  unfolding is_candidate rank_of
  is_candidate-MayJoin event h = ground (arith, eq_iff event.event_type envelope.category)

  MayJoin-is_candidate :
      (event : CanonicalEvent)
      → MayJoin event
      → is_candidate alphabet envelope exact_event_ids event ≡ true
  unfolding is_candidate rank_of
  MayJoin-is_candidate event h = ground (arith, eq_iff event.event_type envelope.category)

  -- An item joins one of the events that it may join, and none of them ranks above that one: by
  -- the same content, the similarity of the titles, the nearness in time and the identifier.
  pub similar_among-some :
      (events : List CanonicalEvent) (chosen : CanonicalEvent)
      → similar_among alphabet envelope exact_event_ids events ≡ some chosen
      → In chosen events
        × MayJoin chosen
        × ((event : CanonicalEvent)
            → In event events
            → MayJoin event
            → rank_lt (Rankof chosen) (Rankof event) ≡ false)
  unfolding similar_among
  similar_among-some events chosen h =
      let (m, highest) = best-some (candidates alphabet envelope exact_event_ids events) chosen h in
      let (listed, test) = candidates-In chosen events m in
      (
        listed,
        is_candidate-MayJoin chosen test,
        λ event n may.
            highest event (In-candidates event events n (MayJoin-is_candidate event may)),
      )

  -- An item joins no event only if it may join none.
  pub similar_among-none :
      (events : List CanonicalEvent)
      → similar_among alphabet envelope exact_event_ids events ≡ none
      → (event : CanonicalEvent) → In event events
      → ¬ MayJoin event
  unfolding similar_among
  similar_among-none events h event m may =
      let listed = In-candidates event events m (MayJoin-is_candidate event may) in
      ground (arith, best-none (candidates alphabet envelope exact_event_ids events) h, listed)
