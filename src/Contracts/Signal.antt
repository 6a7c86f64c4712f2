-- ===== src/Contracts/Signal.antt =====
-- The analysis, feature, signal and risk contracts of services/api/app/contracts.py, over the
-- type `F` of floating-point numbers.
use event_alpha.Prelude.{ℕ, String, Bool, Option, List}
use event_alpha.Contracts.Base.{Uuid, Action, Direction}
use event_alpha.Contracts.Time.{Instant}
use event_alpha.Contracts.Market.{Decimal}

-- Literal["15m", "1h", "4h", "1d"]
pub data Horizon : Type 0 where
  m15 h1 h4 d1 : Horizon

pub record EventEntity (F : Type 0) : Type 0 where
  pub entity_id : String
  pub ticker : Option String
  pub direction : Direction
  pub impact : F
  pub confidence : F
  pub horizons : List Horizon
  pub causal_channels : List String

pub record AiEventAnalysis (F : Type 0) : Type 0 where
  pub analysis_id : Uuid
  pub event_id : Uuid
  pub model : String
  pub prompt_version : String
  pub schema_version : ℕ
  pub event_type : String
  pub summary : String
  pub importance : F
  pub novelty : F
  pub uncertainty : F
  pub entities : List (EventEntity F)
  pub contradictions : List String
  pub invalidation_conditions : List String
  pub evidence_source_ids : List String
  pub explanation : String

pub record FeatureSnapshot (F : Type 0) : Type 0 where
  pub snapshot_id : Uuid
  pub symbol : String
  pub as_of : Instant
  pub feature_set_version : String
  pub ret_15m : F
  pub realized_vol_30m : F
  pub volume_z_30m : F
  pub sector_relative_ret_15m : F
  pub market_data_age_ms : ℕ

pub record SignalCandidate (F : Type 0) : Type 0 where
  pub signal_id : Uuid
  pub symbol : String
  pub event_id : Uuid
  pub analysis_id : Uuid
  pub feature_snapshot_id : Uuid
  pub strategy_version : String
  pub as_of : Instant
  pub horizon : Horizon
  pub score : F
  pub calibrated_probability : F
  pub proposed_action : Action
  pub expires_at : Instant
  pub evidence_ids : List String
  pub explanation : String

pub record RiskDecision : Type 0 where
  pub risk_decision_id : Uuid
  pub signal_id : Uuid
  pub policy_version : String
  pub evaluated_at : Instant
  pub approved : Bool
  pub final_action : Action
  pub size_cap_notional : Decimal
  pub reason_codes : List String
  pub checks : List (String × Bool)

pub record PublishedSignal (F : Type 0) : Type 0 where
  pub signal_id : Uuid
  pub symbol : String
  pub action : Action
  pub score : F
  pub confidence : F
  pub horizon : Horizon
  pub as_of : Instant
  pub expires_at : Instant
  pub risk : RiskDecision
  pub summary : String
