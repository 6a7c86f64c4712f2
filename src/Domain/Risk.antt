-- ===== src/Domain/Risk.antt =====
-- services/api/app/domain/risk.py: the deterministic gate over a signal candidate.
pub mod Gate
use event_alpha.Prelude.{
  ℕ, String, Bool, true, false, not, ◌&&◌, ◌≡◌, refl, ◌⊎◌, inl, inr, List, [], ◌∷◌, map, leb, ◌*◌,
  ◌^◌, arith, if◌then◌else◌,
}
use event_alpha.Prelude.Int.{pos}
use event_alpha.Contracts.{Uuid, Action, strong_buy, buy, hold, sell, strong_sell, avoid}
use event_alpha.Contracts.Time.{Instant}
use event_alpha.Contracts.Market.{Decimal}
use event_alpha.Contracts.Signal.{SignalCandidate, FeatureSnapshot, RiskDecision}
use event_alpha.Config.{Settings}
use event_alpha.Domain.Float.{Floats}

abbrev pub max_market_data_age_ms : ℕ
max_market_data_age_ms = 15_000

-- The keys of the `checks` dict, in the order in which they are written.
pub data Check : Type 0 where
  market_data_fresh volatility_ok evidence_present kill_switch_off demo_mode : Check

abbrev pub check_name : Check → String
check_name market_data_fresh = "market_data_fresh"
check_name volatility_ok = "volatility_ok"
check_name evidence_present = "evidence_present"
check_name kill_switch_off = "kill_switch_off"
check_name demo_mode = "demo_mode"

-- name.upper()
abbrev pub reason_code : Check → String
reason_code market_data_fresh = "MARKET_DATA_FRESH"
reason_code volatility_ok = "VOLATILITY_OK"
reason_code evidence_present = "EVIDENCE_PRESENT"
reason_code kill_switch_off = "KILL_SWITCH_OFF"
reason_code demo_mode = "DEMO_MODE"

-- bool(values) of a tuple, and `not failures`
abbrev is_empty {ℓ} : {A : Type ℓ} → List A → Bool
is_empty [] = true
is_empty (x ∷ xs) = false

-- tuple(name.upper() for name, ok in checks.items() if not ok)
unfoldable pub failures_of : List (Check × Bool) → List String
failures_of [] = []
failures_of ((check, passed) ∷ rest) =
    let later = failures_of rest in if passed then later else reason_code check ∷ later

-- action not in {Action.HOLD, Action.AVOID}
abbrev pub is_directional : Action → Bool
is_directional hold = false
is_directional avoid = false
is_directional _ = true

-- Decimal(n)
abbrev pub decimal : ℕ → Decimal
decimal n = pos (n * 10 ^ 10)

-- failures or (("INSUFFICIENT_EDGE",) if not approved else ())
abbrev reason_codes_of : List String → Bool → List String
reason_codes_of (code ∷ codes) approved = code ∷ codes
reason_codes_of [] true = []
reason_codes_of [] false = "INSUFFICIENT_EDGE" ∷ []

module _ (floats : Floats) where
  open floats use {F, le, lit}

  unfoldable pub risk_checks :
      SignalCandidate F → FeatureSnapshot F → Settings → List (Check × Bool)
  risk_checks candidate features settings =
      (market_data_fresh, leb features.market_data_age_ms max_market_data_age_ms)
      ∷ (volatility_ok, le features.realized_vol_30m (lit (pos 10)))
      ∷ (evidence_present, not (is_empty candidate.evidence_ids))
      ∷ (kill_switch_off, not settings.kill_switch)
      ∷ (demo_mode, settings.demo_mode)
      ∷ []

  -- `decision_id` and `now` are the values of `uuid4()` and of the clock.
  unfoldable pub evaluate :
      Uuid → Instant → SignalCandidate F → FeatureSnapshot F → Settings → RiskDecision
  unfolding risk_checks failures_of
  evaluate decision_id now candidate features settings =
      let checks = risk_checks candidate features settings in
      let failures = failures_of checks in
      let approved = is_empty failures && is_directional candidate.proposed_action in
      record {
        risk_decision_id = decision_id;
        signal_id = candidate.signal_id;
        policy_version = "paper-risk-v0.1.0";
        evaluated_at = now;
        approved = approved;
        final_action =
            if approved
            then candidate.proposed_action
            else if is_empty failures
            then hold
            else avoid;
        size_cap_notional = if approved then decimal 1000 else decimal 0;
        reason_codes = reason_codes_of failures approved;
        checks = map (λ c. (check_name c.0, c.1)) checks;
      }
