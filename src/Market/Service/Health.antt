-- ===== src/Market/Service/Health.antt =====
-- `health` of services/api/app/market/service.py.
use event_alpha.Prelude.{
  ℕ, String, ◌≢◌, ◌+◌, ◌-◌, ◌≤◌, ◌<◌, leb→le, ◌≡◌, refl, sym, inl, inr, ◌↔◌, Bool, true, false,
  ◌&&◌, Option, none, some, ltb, leb, arith, if◌then◌else◌, Bool-cases,
}
use event_alpha.Prelude.Int.{ℤ, pos, negsuc, ltb_ℤ, pos_part}
use event_alpha.Exec.{Exec, ◌>>=◌, pure}
use event_alpha.Contracts.{ProviderStatus, healthy, degraded, unavailable}
use event_alpha.Contracts.Time.{Instant}
use event_alpha.Contracts.Market.{ProviderHealth}
use event_alpha.Db.MarketRepository.State.{StoredMarketProviderState}
use event_alpha.Market.Freshness.{Doubles, to_ms, age_ms, longest_span}
use event_alpha.Market.Freshness.Bounds.{to_ms_lower, to_ms_upper}
use event_alpha.Market.Interface.{MarketPersistence, MarketDataProvider}
use event_alpha.Market.Service.{World, Settings, stored, provided, now, reads_stored}

abbrev is_healthy : ProviderStatus → Bool
is_healthy healthy = true
is_healthy _ = false

-- UNAVAILABLE if status == UNAVAILABLE else DEGRADED
abbrev pub lowered : ProviderStatus → ProviderStatus
lowered unavailable = unavailable
lowered _ = degraded

-- freshness is None or freshness > 15_000
abbrev pub is_stale : Option ℕ → Bool
is_stale none = true
is_stale (some ms) = ltb 15_000 ms

-- What a live provider reports, lowered if it is late.
abbrev live_health_at : ProviderHealth → Option ℕ → ProviderHealth
live_health_at health none = health
live_health_at health (some ms) =
    if ltb 15_000 ms && is_healthy health.status
    then record health { status = degraded }
    else health

unfoldable pub live_health : ProviderHealth → ProviderHealth
live_health health = live_health_at health health.freshness_ms

module _ (doubles : Doubles) where
  -- The health with a given age, once the receipt is not ahead of the clock.
  unfoldable pub aged_health : StoredMarketProviderState → Option ℕ → ProviderHealth
  aged_health state freshness = record {
    name = state.provider_id;
    status = if is_stale freshness then lowered state.status else state.status;
    last_message_at = state.last_message_received_at;
    freshness_ms = freshness;
    detail = state.detail;
  }

  unfoldable pub ahead_health : StoredMarketProviderState → ProviderHealth
  ahead_health state = record {
    name = state.provider_id;
    status = degraded;
    last_message_at = state.last_message_received_at;
    freshness_ms = some 0;
    detail = some "Provider receipt timestamp is ahead of the service clock.";
  }

  -- The health from the stored state, given the time of the last receipt.
  unfoldable pub stored_health :
      Instant → StoredMarketProviderState → Option Instant → ProviderHealth
  unfolding aged_health ahead_health age_ms
  stored_health reference state none = aged_health state none
  stored_health reference state (some received_at) =
      let age = age_ms doubles reference received_at in
      if ltb_ℤ age (pos 0) then ahead_health state else aged_health state (some (pos_part age))

  unfoldable pub health_of : String → Instant → Option StoredMarketProviderState → ProviderHealth
  unfolding stored_health
  health_of name reference none = record {
    name = name;
    status = unavailable;
    last_message_at = none;
    freshness_ms = none;
    detail = some "No durable provider heartbeat is available.";
  }
  health_of name reference (some state) =
      stored_health reference state state.last_message_received_at

  module _ (persistence : MarketPersistence) (provider : MarketDataProvider)
      (settings : Settings) where
    abbrev pub observed : Instant → Exec (World persistence provider) ProviderHealth
    observed at =
        if reads_stored persistence provider settings
        then (do
          state ← stored persistence provider (persistence.provider_state provider.name)
          pure (health_of provider.name at state))
        else (do live ← provided persistence provider (provider.health at); pure (live_health live))

    -- `health`
    unfoldable pub health : Exec (World persistence provider) ProviderHealth
    health = do at ← now persistence provider settings; observed at

  lowered_lem : (status : ProviderStatus) → lowered status ≢ healthy
  lowered_lem healthy = λ h. ground arith
  lowered_lem degraded = λ h. ground arith
  lowered_lem unavailable = λ h. ground arith

  aged_status :
      (state : StoredMarketProviderState) (n : ℕ)
      → (if ltb_ℤ (pos n) (pos 0) then ahead_health state else aged_health state (some n)).status
        ≡ (if ltb 15_000 n then lowered state.status else state.status)
  unfolding aged_health ahead_health
  aged_status state n =
      let nonnegative : ltb_ℤ (pos n) (pos 0) ≡ false = ground arith in rw nonnegative refl

  aged_health-healthy_iff :
      (state : StoredMarketProviderState) (age : ℤ)
      → ((if ltb_ℤ age (pos 0)
            then ahead_health state
            else aged_health state (some (pos_part age))).status
          ≡ healthy)
        ↔ ((state.status ≡ healthy) × (ms : ℕ) × (age ≡ pos ms) × (ms ≤ 15_000))
  unfolding aged_health ahead_health
  aged_health-healthy_iff state (negsuc n) = (λ h. ground arith, λ (_, ms, e, _). ground arith)
  aged_health-healthy_iff state (pos n) = elim (Bool-cases (ltb 15_000 n)) [
    | inl late ↦
        let status = aged_status state n in
        (
          λ h. absurd (lowered_lem state.status (rw (status, late) at h)),
          λ (_, ms, e, le). ground arith,
        )
    | inr fresh ↦
        let status = aged_status state n in
        (
          λ h. (rw (status, fresh) at h, n, refl, ground arith),
          λ (same, ms, e, le). rw (status, fresh) same,
        )
  ]

  stored_health-healthy_iff :
      (reference : Instant) (state : StoredMarketProviderState) (message : Option Instant)
      → ((stored_health reference state message).status ≡ healthy) ↔ (
          (state.status ≡ healthy)
          × (received_at : Instant) × (message ≡ some received_at)
          × (ms : ℕ) × (age_ms doubles reference received_at ≡ pos ms)
          × (ms ≤ 15_000))
  unfolding stored_health aged_health
  stored_health-healthy_iff reference state none =
      (λ h. absurd (lowered_lem state.status h), λ (_, _, e, _, _, _). ground arith)
  stored_health-healthy_iff reference state (some received_at) =
      let iff = aged_health-healthy_iff state (age_ms doubles reference received_at) in
      (
        λ h. let (same, ms, age, le) = iff.0 h in (same, received_at, refl, ms, age, le),
        λ (same, other, e, ms, age, le).
            let equal : other ≡ received_at = cc e in iff.1 (same, ms, rw (sym equal) age, le),
      )

  health_of-healthy_iff :
      (name : String) (reference : Instant) (state : StoredMarketProviderState)
      → ((health_of name reference (some state)).status ≡ healthy) ↔ (
          (state.status ≡ healthy)
          × (received_at : Instant) × (state.last_message_received_at ≡ some received_at)
          × (ms : ℕ) × (age_ms doubles reference received_at ≡ pos ms)
          × (ms ≤ 15_000))
  unfolding health_of stored_health aged_health ahead_health
  health_of-healthy_iff name reference state =
      stored_health-healthy_iff reference state state.last_message_received_at

  -- Which times of receipt an age of 0 to 15,000 milliseconds stands for, within `longest_span`.
  age_ms_fresh :
      (reference received_at : Instant) (ms : ℕ)
      → reference ≤ received_at + longest_span
      → received_at ≤ reference + longest_span
      → age_ms doubles reference received_at ≡ pos ms
      → ms ≤ 15_000
      → (reference < received_at + 15_002_000) × (received_at < reference + 2000)
  unfolding age_ms
  age_ms_fresh reference received_at ms h k age le = elim (Bool-cases (leb received_at reference)) [
    | inl past ↦
        let is_past = leb→le received_at reference past in
        let upper = to_ms_upper doubles reference (reference - received_at) (omega arith) in
        ground (arith, age, past, is_past, upper, le)
    | inr ahead ↦
        let upper = to_ms_upper doubles reference (received_at - reference) (omega arith) in
        ground (arith, age, ahead, upper, le)
  ]

  fresh_age_ms :
      (reference received_at : Instant)
      → reference < received_at + 15_001_000
      → received_at < reference + 1000
      → (ms : ℕ) × (age_ms doubles reference received_at ≡ pos ms) × (ms ≤ 15_000)
  unfolding age_ms
  fresh_age_ms reference received_at h k = elim (Bool-cases (leb received_at reference)) [
    | inl past ↦
        let lower = to_ms_lower doubles reference (reference - received_at) (omega arith) in
        (to_ms doubles (reference - received_at), rw past refl, omega (arith, lower))
    | inr ahead ↦
        let lower = to_ms_lower doubles reference (received_at - reference) (omega arith) in
        let none_yet : to_ms doubles (received_at - reference) ≡ 0 =
          omega (arith, lower, leb→le received_at reference) in
        (0, rw (ahead, none_yet) refl, omega arith)
  ]

  -- Of a service without provider reads, and a last receipt within 31 years of the clock: it reports
  -- HEALTHY only if the stored state is HEALTHY, and its last receipt is less than 15.002 seconds old
  -- and less than 2 milliseconds ahead; and it does so if the stored state is HEALTHY and the receipt
  -- is less than 15.001 seconds old and less than 1 millisecond ahead.
  pub health_of_fresh :
      (name : String) (reference : Instant) (state : StoredMarketProviderState)
      → ((received_at : Instant)
          → state.last_message_received_at ≡ some received_at
          → (reference ≤ received_at + longest_span) × (received_at ≤ reference + longest_span))
      → ((health_of name reference (some state)).status ≡ healthy
          → (state.status ≡ healthy)
            × (received_at : Instant) × (state.last_message_received_at ≡ some received_at)
            × (reference < received_at + 15_002_000)
            × (received_at < reference + 2000))
        × (state.status ≡ healthy
            → (received_at : Instant) → state.last_message_received_at ≡ some received_at
            → reference < received_at + 15_001_000
            → received_at < reference + 1000
            → (health_of name reference (some state)).status ≡ healthy)
  health_of_fresh name reference state near = (
    λ healthy_now.
        let (same, received_at, found, ms, age, le) =
          (health_of-healthy_iff name reference state).0 healthy_now in
        let (h, k) = near received_at found in
        let (young, not_ahead) = age_ms_fresh reference received_at ms h k age le in
        (same, received_at, found, young, not_ahead),
    λ same received_at found h k.
        let (ms, age, le) = fresh_age_ms reference received_at h k in
        (health_of-healthy_iff name reference state).1 (same, received_at, found, ms, age, le),
  )
