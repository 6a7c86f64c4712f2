-- ===== src/Domain/Risk/Gate.antt =====
-- What the risk gate of services/api/app/domain/risk.py lets through.
use event_alpha.Prelude.{true, false, ◌≤◌, ◌≡◌, ◌≢◌, ◌⊎◌, ◌↔◌, [], arith, In}
use event_alpha.Prelude.Int.{pos}
use event_alpha.Contracts.{Uuid, hold, avoid}
use event_alpha.Contracts.Time.{Instant}
use event_alpha.Contracts.Signal.{SignalCandidate, FeatureSnapshot}
use event_alpha.Config.{Settings}
use event_alpha.Domain.Float.{Floats}
use event_alpha.Domain.Risk.{decimal, is_directional, evaluate}

module _ (floats : Floats) where
  open floats use {F, le, lit}

  -- Every condition of the policy holds: the data are at most 15 s old, the volatility is at most
  -- 0.10, there is evidence, the kill switch is off and the demo mode is on.
  pub record IsCleared (candidate : SignalCandidate F) (features : FeatureSnapshot F)
      (settings : Settings) : Type 0 where
    pub fresh : features.market_data_age_ms ≤ 15_000
    pub calm : le features.realized_vol_30m (lit (pos 10)) ≡ true
    pub evidence : candidate.evidence_ids ≢ []
    pub armed : settings.kill_switch ≡ false
    pub demo : settings.demo_mode ≡ true

  module _ (decision_id : Uuid) (now : Instant) (candidate : SignalCandidate F)
      (features : FeatureSnapshot F) (settings : Settings) where
    IsCleared-of_approved :
        (evaluate floats decision_id now candidate features settings).approved ≡ true
        → IsCleared candidate features settings × (is_directional candidate.proposed_action ≡ true)
    unfolding evaluate
    IsCleared-of_approved h = ground arith

    approved_of_cleared :
        IsCleared candidate features settings
        → is_directional candidate.proposed_action ≡ true
        → (evaluate floats decision_id now candidate features settings).approved ≡ true
    unfolding evaluate
    approved_of_cleared c d = ground arith

    -- A candidate is approved exactly when every condition of the policy holds and its proposed
    -- action is neither HOLD nor AVOID.
    pub evaluate-approved_iff :
        ((evaluate floats decision_id now candidate features settings).approved ≡ true) ↔ (
          IsCleared candidate features settings × (is_directional candidate.proposed_action ≡ true))
    evaluate-approved_iff = (IsCleared-of_approved, λ h. approved_of_cleared h.0 h.1)

    -- The gate only reduces or denies: either it approves, the action is the proposed one and the
    -- cap is 1000 and no reason is given, or the action is HOLD or AVOID, the cap is 0 and there is
    -- a reason.
    pub evaluate_reduces :
        ((evaluate floats decision_id now candidate features settings).approved ≡ true)
          × ((evaluate floats decision_id now candidate features settings).final_action
              ≡ candidate.proposed_action)
          × ((evaluate floats decision_id now candidate features settings).size_cap_notional
              ≡ decimal 1000)
          × ((evaluate floats decision_id now candidate features settings).reason_codes ≡ [])
        ⊎ ((evaluate floats decision_id now candidate features settings).approved ≡ false)
          × (((evaluate floats decision_id now candidate features settings).final_action ≡ hold)
              ⊎ ((evaluate floats decision_id now candidate features settings).final_action
                  ≡ avoid))
          × ((evaluate floats decision_id now candidate features settings).size_cap_notional
              ≡ decimal 0)
          × ((evaluate floats decision_id now candidate features settings).reason_codes ≢ [])
    unfolding evaluate
    evaluate_reduces = ground arith

    -- With the kill switch on, whatever the candidate and the market, the action is AVOID, the cap
    -- is 0 and the kill switch is among the reasons.
    evaluate_killed :
        settings.kill_switch ≡ true
        → ((evaluate floats decision_id now candidate features settings).final_action ≡ avoid)
          × ((evaluate floats decision_id now candidate features settings).size_cap_notional
              ≡ decimal 0)
          × In "KILL_SWITCH_OFF"
              (evaluate floats decision_id now candidate features settings).reason_codes
    unfolding evaluate
    evaluate_killed h = ground arith
