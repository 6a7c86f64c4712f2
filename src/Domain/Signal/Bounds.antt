-- ===== src/Domain/Signal/Bounds.antt =====
-- The scores, probabilities and actions of signal candidates
-- (services/api/app/domain/signal.py).
use event_alpha.Prelude.{
  ℕ, String, true, false, ◌<◌, leb, leb→le, ◌≤◌, ◌+◌, ◌≡◌, ◌≢◌, refl, sym, ap, ◌⊎◌, inl, inr, List,
  [], ◌∷◌, Option, none, some, arith, Bool-cases, Option-cases, In, eq_iff,
}
use event_alpha.Prelude.Int.{pos, negsuc}
use event_alpha.Errors.{ok, err, value_error, other}
use event_alpha.Contracts.{Uuid, Action, strong_buy, buy, hold, sell, strong_sell, avoid}
use event_alpha.Contracts.Time.{Instant, max_instant, plus_timedelta}
use event_alpha.Contracts.Signal.{AiEventAnalysis, EventEntity, FeatureSnapshot, SignalCandidate}
use event_alpha.Domain.Float.{Floats, max_float, min_float}
use event_alpha.Domain.Signal.{
  action, has_ticker, entity_for, score_of, probability_of, validate_candidate, candidate_for,
  candidate_until, create_candidate, four_hours,
}

-- From strongly bearish to strongly bullish.
abbrev pub stance : Action → ℕ
stance strong_sell = 0
stance sell = 1
stance hold = 2
stance avoid = 2
stance buy = 3
stance strong_buy = 4

module _ (floats : Floats) where
  open floats use {F, lt, le, lit, le_of_lt, le_trans, not-lt_of_le, lit_lt, lit_le, tanh_range}

  -- At one probability a higher score never leads to a more bearish action.
  action_mono :
      (score score' probability : F)
      → le score score' ≡ true
      → stance (action floats score probability) ≤ stance (action floats score' probability)
  unfolding action
  action_mono score score' probability h = ground (
    arith,
    le_trans (lit (pos 72)) score score',
    le_trans (lit (pos 35)) score score',
    le_trans score score' (lit (negsuc 71)),
    le_trans score score' (lit (negsuc 34)),
    le_trans (lit (pos 35)) score (lit (negsuc 71)),
    le_trans (lit (pos 35)) score (lit (negsuc 34)),
    not-lt_of_le (lit (pos 35)) (lit (negsuc 34)),
    not-lt_of_le (lit (pos 35)) (lit (negsuc 71)),
    lit_lt (negsuc 34) (pos 35),
    lit_lt (negsuc 71) (pos 35),
  )

  clamp_bounds :
      (x : F)
      → (le (lit (pos 5)) (min_float floats (lit (pos 95)) (max_float floats (lit (pos 5)) x))
          ≡ true)
        × (le (min_float floats (lit (pos 95)) (max_float floats (lit (pos 5)) x)) (lit (pos 95))
            ≡ true)
  clamp_bounds x = ground (
    arith,
    le_of_lt (lit (pos 5)) x,
    le_of_lt x (lit (pos 95)),
    le_of_lt (lit (pos 5)) (lit (pos 95)),
    lit_lt (pos 5) (pos 95),
    lit_le (pos 5) (pos 5),
    lit_le (pos 95) (pos 95),
  )

  -- The probability lies between 0.05 and 0.95, even if a feature is a NaN.
  pub probability_bounds :
      (score uncertainty : F)
      → (le (lit (pos 5)) (probability_of floats score uncertainty) ≡ true)
        × (le (probability_of floats score uncertainty) (lit (pos 95)) ≡ true)
  unfolding probability_of
  probability_bounds score uncertainty = clamp_bounds _

  -- Below a probability of 0.55, and only with such a score, no position is proposed.
  action_guard :
      (score probability : F)
      → (action floats score probability ≢ avoid)
        × (lt probability (lit (pos 55)) ≡ true → action floats score probability ≡ hold)
  unfolding action
  action_guard score probability = ground arith

  has_ticker_lem :
      (symbol : String) (t : Option String) → has_ticker floats symbol t ≡ true → t ≡ some symbol
  has_ticker_lem symbol none h = cc
  has_ticker_lem symbol (some t) h = ap some ((eq_iff t symbol).0 h)

  ticker_has :
      (symbol : String) (t : Option String) → t ≡ some symbol → has_ticker floats symbol t ≡ true
  ticker_has symbol none h = cc
  ticker_has symbol (some t) h = ground (arith, eq_iff t symbol)

  -- The entity that is found is one of the analysis, and its ticker is the symbol.
  entity_for-In :
      (symbol : String) (entities : List (EventEntity F)) (entity : EventEntity F)
      → entity_for floats symbol entities ≡ some entity
      → In entity entities × (entity.ticker ≡ some symbol)
  unfolding entity_for
  entity_for-In symbol [] entity h = cc
  entity_for-In symbol (item ∷ rest) entity h =
      elim (Bool-cases (has_ticker floats symbol item.ticker)) [
        | inl here ↦
            let e : item ≡ entity = ground arith in
            (inl (sym e), rw (← e) (has_ticker_lem symbol item.ticker here))
        | inr later ↦
            let (found, named) = entity_for-In symbol rest entity (rw later at h) in
            (inr found, named)
      ]

  entity_for-none :
      (symbol : String) (entities : List (EventEntity F)) (entity : EventEntity F)
      → entity_for floats symbol entities ≡ none
      → In entity entities
      → entity.ticker ≢ some symbol
  unfolding entity_for
  entity_for-none symbol [] entity h m = absurd m
  entity_for-none symbol (item ∷ rest) entity h (inl e) =
      λ named. ground (arith, ticker_has symbol item.ticker)
  entity_for-none symbol (item ∷ rest) entity h (inr m) =
      entity_for-none symbol rest entity (ground arith) m

  score_range :
      (analysis : AiEventAnalysis F) (entity : EventEntity F) (features : FeatureSnapshot F)
      → (lt (score_of floats analysis entity features) (lit (negsuc 99)) ≡ false)
        × (lt (lit (pos 100)) (score_of floats analysis entity features) ≡ false)
  unfolding score_of
  score_range analysis entity features = tanh_range _

  -- 0 ≤ p ≤ 1 for every number between 0.05 and 0.95.
  probability_range :
      (p : F)
      → le (lit (pos 5)) p ≡ true
      → le p (lit (pos 95)) ≡ true
      → (lt p (lit (pos 0)) ≡ false) × (lt (lit (pos 100)) p ≡ false)
  probability_range p h k = (
    not-lt_of_le (lit (pos 0)) p (
        le_trans (lit (pos 0)) (lit (pos 5)) p
          (lit_le (pos 0) (pos 5) (omega arith) (omega arith) (omega arith) (omega arith)
            (omega arith))
          h),
    not-lt_of_le p (lit (pos 100)) (
        le_trans p (lit (pos 95)) (lit (pos 100)) k (
          lit_le (pos 95) (pos 100) (omega arith) (omega arith) (omega arith) (omega arith)
            (omega arith))),
  )

  validate_total :
      (c : SignalCandidate F)
      → lt c.score (lit (negsuc 99)) ≡ false
      → lt (lit (pos 100)) c.score ≡ false
      → lt c.calibrated_probability (lit (pos 0)) ≡ false
      → lt (lit (pos 100)) c.calibrated_probability ≡ false
      → validate_candidate floats c ≡ ok c
  unfolding validate_candidate
  validate_total c h₁ h₂ h₃ h₄ = ground arith

  candidate-valid :
      (signal_id : Uuid) (analysis : AiEventAnalysis F) (features : FeatureSnapshot F)
      (entity : EventEntity F) (expires_at : Instant)
      → validate_candidate floats
          (candidate_until floats expires_at signal_id analysis features entity)
        ≡ ok (candidate_until floats expires_at signal_id analysis features entity)
  unfolding candidate_until
  candidate-valid signal_id analysis features entity expires_at =
      let score = score_of floats analysis entity features in
      let probability = probability_of floats score analysis.uncertainty in
      let scored = score_range analysis entity features in
      let bounds = probability_bounds score analysis.uncertainty in
      let range = probability_range probability bounds.0 bounds.1 in
      validate_total _ scored.0 scored.1 range.0 range.1

  candidate_for_cases :
      (signal_id : Uuid) (analysis : AiEventAnalysis F) (features : FeatureSnapshot F)
      (entity : EventEntity F)
      → ((max_instant < features.as_of + four_hours)
          × (candidate_for floats signal_id analysis features entity ≡ err (other "OverflowError")))
        ⊎ ((features.as_of + four_hours ≤ max_instant)
            × (candidate_for floats signal_id analysis features entity
                ≡ ok (
                    candidate_until floats
                      (features.as_of + four_hours)
                      signal_id
                      analysis
                      features
                      entity)))
  unfolding candidate_for plus_timedelta
  candidate_for_cases signal_id analysis features entity =
      elim (Bool-cases (leb (features.as_of + four_hours) max_instant)) [
        | inl fits ↦ inr (
          leb→le (features.as_of + four_hours) max_instant fits,
          rw fits
              (candidate-valid signal_id analysis features entity (features.as_of + four_hours)),
        )
        | inr past ↦ inl (ground (arith, past), rw past refl)
      ]

  -- `create_candidate` raises ValueError exactly when no entity of the analysis has the symbol for
  -- its ticker. Otherwise it raises OverflowError exactly when four hours after `as_of` are past the
  -- last datetime, and else it returns the fusion for such an entity: validation never refuses it.
  pub create_candidate_cases :
      (signal_id : Uuid) (analysis : AiEventAnalysis F) (features : FeatureSnapshot F)
      → ((entity : EventEntity F)
            → In entity analysis.entities
            → entity.ticker ≢ some features.symbol)
          × (create_candidate floats signal_id analysis features ≡ err value_error)
        ⊎ ((entity : EventEntity F) × In entity analysis.entities
            × (entity.ticker ≡ some features.symbol)
            × (((max_instant < features.as_of + four_hours)
                  × (create_candidate floats signal_id analysis features
                      ≡ err (other "OverflowError")))
                ⊎ ((features.as_of + four_hours ≤ max_instant)
                    × (create_candidate floats signal_id analysis features
                        ≡ ok (
                            candidate_until floats
                              (features.as_of + four_hours)
                              signal_id
                              analysis
                              features
                              entity)))))
  unfolding create_candidate
  create_candidate_cases signal_id analysis features =
      elim (Option-cases (entity_for floats features.symbol analysis.entities)) [
        | inl missing ↦ inl (
          (λ entity m. entity_for-none features.symbol analysis.entities entity missing m),
          rw (missing, create_candidate),
        )
        | inr (entity, found) ↦
            let (m, named) = entity_for-In features.symbol analysis.entities entity found in
            inr (
              entity,
              m,
              named,
              rw (found, create_candidate) (candidate_for_cases signal_id analysis features entity),
            )
      ]

  -- A candidate that is returned carries the evidence and the identifiers of its inputs, is valid
  -- for four hours, has a probability between 0.05 and 0.95, and proposes a position only at a
  -- probability of at least 0.55.
  pub create_candidate_bounds :
      (signal_id : Uuid) (analysis : AiEventAnalysis F) (features : FeatureSnapshot F)
      (c : SignalCandidate F)
      → create_candidate floats signal_id analysis features ≡ ok c
      → (c.evidence_ids ≡ analysis.evidence_source_ids)
        × (c.event_id ≡ analysis.event_id)
        × (c.symbol ≡ features.symbol)
        × (c.expires_at ≡ c.as_of + four_hours)
        × (le (lit (pos 5)) c.calibrated_probability ≡ true)
        × (le c.calibrated_probability (lit (pos 95)) ≡ true)
        × (lt c.calibrated_probability (lit (pos 55)) ≡ true → c.proposed_action ≡ hold)
        × (c.proposed_action ≢ avoid)
  unfolding candidate_until
  create_candidate_bounds signal_id analysis features c h =
      elim (create_candidate_cases signal_id analysis features) [
        | inl (_, refused) ↦ cc
        | inr (entity, _, _, inl (_, raised)) ↦ cc
        | inr (entity, _, _, inr (_, built)) ↦
            let score = score_of floats analysis entity features in
            let probability = probability_of floats score analysis.uncertainty in
            let bounds = probability_bounds score analysis.uncertainty in
            let guard = action_guard score probability in
            let e : candidate_until floats (features.as_of + four_hours) signal_id analysis features
                  entity
                ≡ c =
              cc in
            rw (← e) (refl, refl, refl, refl, bounds.0, bounds.1, guard.1, guard.0)
      ]
