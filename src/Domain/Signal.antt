-- ===== src/Domain/Signal.antt =====
-- services/api/app/domain/signal.py: the fusion of an analysis and market features into a signal
-- candidate.
pub mod Bounds
use event_alpha.Prelude.{
  ℕ, String, Bool, true, false, not, ◌&&◌, ◌+◌, ◌*◌, List, [], ◌∷◌, Option, none, some, str_eq,
  if◌then◌else◌,
}
use event_alpha.Prelude.Int.{pos, negsuc}
use event_alpha.Errors.{Result, ok, err, value_error, require, ◌>>=◌, ◌>>◌}
use event_alpha.Contracts.{Uuid, Action, strong_buy, buy, hold, sell, strong_sell}
use event_alpha.Contracts.Time.{Instant, microseconds_per_second, plus_timedelta}
use event_alpha.Contracts.Signal.{
  AiEventAnalysis, EventEntity, FeatureSnapshot, SignalCandidate, Horizon,
}
use event_alpha.Domain.Float.{Floats, max_float, min_float}

-- timedelta(hours=4)
abbrev pub four_hours : ℕ
four_hours = 4 * 3600 * microseconds_per_second

module _ (floats : Floats) where
  open floats use {F, lt, le, add, sub, mul, div, abs, tanh, lit}

  -- `_action`
  unfoldable pub action : F → F → Action
  action score probability =
      if lt probability (lit (pos 55))
      then hold
      else if le (lit (pos 72)) score
      then strong_buy
      else if le (lit (pos 35)) score
      then buy
      else if le score (lit (negsuc 71))
      then strong_sell
      else if le score (lit (negsuc 34))
      then sell
      else hold

  -- item.ticker == symbol, where `ticker` may be None
  abbrev pub has_ticker : String → Option String → Bool
  has_ticker symbol none = false
  has_ticker symbol (some ticker) = str_eq ticker symbol

  -- next((item for item in entities if item.ticker == symbol), None)
  unfoldable pub entity_for : String → List (EventEntity F) → Option (EventEntity F)
  entity_for symbol [] = none
  entity_for symbol (item ∷ rest) =
      if has_ticker symbol item.ticker then some item else entity_for symbol rest

  -- tanh(raw_edge)
  unfoldable pub score_of : AiEventAnalysis F → EventEntity F → FeatureSnapshot F → F
  score_of analysis entity features =
      let event_component = mul (mul entity.impact entity.confidence) analysis.novelty in
      let quant_component =
        add (mul features.ret_15m (lit (pos 800)))
          (mul features.sector_relative_ret_15m (lit (pos 400))) in
      let confirmation =
        mul (min_float floats (div features.volume_z_30m (lit (pos 400))) (lit (pos 100)))
          (if le (lit (pos 0)) features.ret_15m then lit (pos 100) else lit (negsuc 99)) in
      let raw_edge =
        add (add (mul (lit (pos 55)) event_component) (mul (lit (pos 30)) quant_component))
          (mul (lit (pos 15)) confirmation) in
      tanh raw_edge

  -- min(0.95, max(0.05, 0.50 + abs(score) * (1 - uncertainty) / 2))
  unfoldable pub probability_of : F → F → F
  probability_of score uncertainty = min_float floats (lit (pos 95)) (
      max_float floats (lit (pos 5)) (
        add (lit (pos 50))
          (div (mul (abs score) (sub (lit (pos 100)) uncertainty)) (lit (pos 200)))))

  -- The constraints Field(ge=-1, le=1) and Field(ge=0, le=1) of `SignalCandidate`.
  unfoldable pub validate_candidate : SignalCandidate F → Result (SignalCandidate F)
  validate_candidate c = do
    require (not (lt c.score (lit (negsuc 99))) && not (lt (lit (pos 100)) c.score)) value_error
    require
        (not (lt c.calibrated_probability (lit (pos 0)))
          && not (lt (lit (pos 100)) c.calibrated_probability))
        value_error
    ok c

  -- The candidate that is built once the entity is found, given the time at which it expires.
  unfoldable pub candidate_until :
      Instant → Uuid → AiEventAnalysis F → FeatureSnapshot F → EventEntity F → SignalCandidate F
  candidate_until expires_at signal_id analysis features entity =
      let score = score_of analysis entity features in
      let probability = probability_of score analysis.uncertainty in
      record {
        signal_id = signal_id;
        symbol = features.symbol;
        event_id = analysis.event_id;
        analysis_id = analysis.analysis_id;
        feature_snapshot_id = features.snapshot_id;
        strategy_version = "event-fusion-v0.1.0";
        as_of = features.as_of;
        horizon = Horizon.h4;
        score = score;
        calibrated_probability = probability;
        proposed_action = action score probability;
        expires_at = expires_at;
        evidence_ids = analysis.evidence_source_ids;
        explanation =
            "Interpretable event, price, sector-relative, and volume-confirmation fusion.";
      }

  unfoldable pub candidate_for :
      Uuid → AiEventAnalysis F → FeatureSnapshot F → EventEntity F → Result (SignalCandidate F)
  unfolding candidate_until
  candidate_for signal_id analysis features entity = do
    expires_at ← plus_timedelta features.as_of four_hours
    validate_candidate (candidate_until expires_at signal_id analysis features entity)

  -- `signal_id` is the value of `uuid4()`.
  unfoldable pub create_candidate :
      Uuid → AiEventAnalysis F → FeatureSnapshot F → Result (SignalCandidate F)
  unfolding candidate_for
  create_candidate signal_id analysis features =
      elim (entity_for features.symbol analysis.entities) [
        | none ↦ err value_error
        | some entity ↦ candidate_for signal_id analysis features entity
      ]
