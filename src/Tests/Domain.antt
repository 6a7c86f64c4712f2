-- ===== src/Tests/Domain.antt =====
-- The risk gate and the signal fusion at concrete inputs.
use event_alpha.Prelude.{
  ◌+◌, ◌<◌, ◌≤◌, ◌≡◌, ◌≢◌, refl, ◌⊎◌, ◌↔◌, true, false, [], ◌∷◌, none, some, In,
}
use event_alpha.Prelude.Int.{ℤ, pos, ltb_ℤ, leb_ℤ}
use event_alpha.Errors.{ok, err, value_error, other}
use event_alpha.Contracts.{Direction, buy, hold, avoid}
use event_alpha.Contracts.Signal.{
  AiEventAnalysis, EventEntity, FeatureSnapshot, SignalCandidate, Horizon,
}
use event_alpha.Config.{Settings}
use event_alpha.Domain.Risk.{evaluate, is_directional, decimal}
use event_alpha.Domain.Risk.Gate.{IsCleared, evaluate-approved_iff, evaluate_reduces}
use event_alpha.Contracts.Time.{max_instant, plus_timedelta}
use event_alpha.Domain.Signal.{
  create_candidate, candidate_for, candidate_until, four_hours, entity_for, score_of,
  probability_of, validate_candidate,
}
use event_alpha.Domain.Signal.Bounds.{create_candidate_cases, create_candidate_bounds}
use event_alpha.Tests.Samples.{fixed_point}

abbrev sample_settings : Settings
sample_settings = record {
  environment = "test";
  demo_mode = true;
  live_trading_enabled = false;
  kill_switch = true;
  sec_user_agent = none;
  fred_api_key = none;
  database_url = none;
  event_source_mode = "replay";
  official_rss_feeds = [];
  sec_ciks = [];
  fred_series_ids = [];
  replay_at = none;
  market_poll_seconds = 5000;
}

abbrev sample_features : FeatureSnapshot ℤ
sample_features = record {
  snapshot_id = 1;
  symbol = "ACME";
  as_of = 7;
  feature_set_version = "v1";
  ret_15m = pos 2;
  realized_vol_30m = pos 3;
  volume_z_30m = pos 210;
  sector_relative_ret_15m = pos 1;
  market_data_age_ms = 42;
}

abbrev sample_analysis : AiEventAnalysis ℤ
sample_analysis = record {
  analysis_id = 2;
  event_id = 3;
  model = "fixture";
  prompt_version = "v1";
  schema_version = 1;
  event_type = "earnings";
  summary = "Guidance raised.";
  importance = pos 72;
  novelty = pos 66;
  uncertainty = pos 22;
  entities =
      record {
        entity_id = "acme";
        ticker = some "ACME";
        direction = Direction.bullish;
        impact = pos 68;
        confidence = pos 79;
        horizons = Horizon.h1 ∷ [];
        causal_channels = [];
      }
      ∷ [];
  contradictions = [];
  invalidation_conditions = [];
  evidence_source_ids = "source-1" ∷ [];
  explanation = "Fixture.";
}

abbrev sample_candidate : SignalCandidate ℤ
sample_candidate = record {
  signal_id = 4;
  symbol = "ACME";
  event_id = 3;
  analysis_id = 2;
  feature_snapshot_id = 1;
  strategy_version = "event-fusion-v0.1.0";
  as_of = 7;
  horizon = Horizon.h4;
  score = pos 40;
  calibrated_probability = pos 60;
  proposed_action = buy;
  expires_at = 14_400_000_007;
  evidence_ids = "source-1" ∷ [];
  explanation = "Fixture.";
}

abbrev armed_settings : Settings
armed_settings = record sample_settings { kill_switch = false }

approves :
    (evaluate fixed_point 9 8 sample_candidate sample_features armed_settings).approved ≡ true
unfolding evaluate
approves = refl

abbrev acme : EventEntity ℤ
acme = record {
  entity_id = "acme";
  ticker = some "ACME";
  direction = Direction.bullish;
  impact = pos 68;
  confidence = pos 79;
  horizons = Horizon.h1 ∷ [];
  causal_channels = [];
}

abbrev fused : SignalCandidate ℤ
fused =
    candidate_until fixed_point (sample_features.as_of + four_hours) 4 sample_analysis
      sample_features acme

fuses : create_candidate fixed_point 4 sample_analysis sample_features ≡ ok fused
unfolding create_candidate entity_for score_of probability_of validate_candidate candidate_for
    candidate_until plus_timedelta
fuses = refl

-- In the last four hours of the calendar the candidate would expire past the last datetime.
expires_too_late :
    create_candidate fixed_point 4 sample_analysis (record sample_features { as_of = max_instant })
    ≡ err (other "OverflowError")
unfolding create_candidate entity_for candidate_for plus_timedelta
expires_too_late = refl

evaluate-approved_iff_example :
    ((evaluate fixed_point 9 8 sample_candidate sample_features armed_settings).approved ≡ true) ↔ (
      IsCleared fixed_point sample_candidate sample_features armed_settings
      × (is_directional buy ≡ true))
evaluate-approved_iff_example =
    evaluate-approved_iff fixed_point 9 8 sample_candidate sample_features armed_settings

evaluate_reduces_example :
    ((evaluate fixed_point 9 8 sample_candidate sample_features sample_settings).approved ≡ true)
      × ((evaluate fixed_point 9 8 sample_candidate sample_features sample_settings).final_action
          ≡ buy)
      × ((evaluate fixed_point 9 8 sample_candidate sample_features
            sample_settings).size_cap_notional
          ≡ decimal 1000)
      × ((evaluate fixed_point 9 8 sample_candidate sample_features sample_settings).reason_codes
          ≡ [])
    ⊎ ((evaluate fixed_point 9 8 sample_candidate sample_features sample_settings).approved ≡ false)
      × (((evaluate fixed_point 9 8 sample_candidate sample_features sample_settings).final_action
            ≡ hold)
          ⊎ ((evaluate fixed_point 9 8 sample_candidate sample_features
                sample_settings).final_action
              ≡ avoid))
      × ((evaluate fixed_point 9 8 sample_candidate sample_features
            sample_settings).size_cap_notional
          ≡ decimal 0)
      × ((evaluate fixed_point 9 8 sample_candidate sample_features sample_settings).reason_codes
          ≢ [])
evaluate_reduces_example =
    evaluate_reduces fixed_point 9 8 sample_candidate sample_features sample_settings

create_candidate_cases_example :
    ((entity : EventEntity ℤ) → In entity sample_analysis.entities → entity.ticker ≢ some "ACME")
      × (create_candidate fixed_point 4 sample_analysis sample_features ≡ err value_error)
    ⊎ ((entity : EventEntity ℤ) × In entity sample_analysis.entities
        × (entity.ticker ≡ some "ACME")
        × (((max_instant < sample_features.as_of + four_hours)
              × (create_candidate fixed_point 4 sample_analysis sample_features
                  ≡ err (other "OverflowError")))
            ⊎ ((sample_features.as_of + four_hours ≤ max_instant)
                × (create_candidate fixed_point 4 sample_analysis sample_features
                    ≡ ok (
                        candidate_until fixed_point
                          (sample_features.as_of + four_hours)
                          4
                          sample_analysis
                          sample_features
                          entity)))))
create_candidate_cases_example =
    create_candidate_cases fixed_point 4 sample_analysis sample_features

create_candidate_bounds_example :
    (fused.evidence_ids ≡ "source-1" ∷ [])
    × (fused.event_id ≡ 3)
    × (fused.symbol ≡ "ACME")
    × (fused.expires_at ≡ fused.as_of + four_hours)
    × (leb_ℤ (pos 5) fused.calibrated_probability ≡ true)
    × (leb_ℤ fused.calibrated_probability (pos 95) ≡ true)
    × (ltb_ℤ fused.calibrated_probability (pos 55) ≡ true → fused.proposed_action ≡ hold)
    × (fused.proposed_action ≢ avoid)
create_candidate_bounds_example =
    create_candidate_bounds fixed_point 4 sample_analysis sample_features fused fuses
