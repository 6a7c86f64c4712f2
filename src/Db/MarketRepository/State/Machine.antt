-- ===== src/Db/MarketRepository/State/Machine.antt =====
-- The provider state as a machine over the calls of `record_success` and `record_failure`.
use event_alpha.Prelude.{
  ℕ, ◌+◌, String, Bool, true, false, ◌≡◌, refl, ap, ◌∙◌, ◌↔◌, Option, none, some, List, [], ◌∷◌,
  arith, if◌then◌else◌, ltb,
}
use event_alpha.Contracts.{ProviderStatus, healthy}
use event_alpha.Contracts.Time.{Instant}
use event_alpha.Db.Schema.{ProviderStateRow, Dialect, utc-column}
use event_alpha.Db.MarketRepository.Base.{MarketSchema, MarketDb, ensure_provider}
use event_alpha.Db.MarketRepository.Quotes.PointInTime.{read_optional_lem}
use event_alpha.Db.MarketRepository.State.{
  StoredMarketProviderState, new_message, failure_status, success_row, failure_row, record_success,
  record_failure, read_state, provider_state,
}

-- A call for one provider, with its arguments.
pub data Call : Type 0 where
  success : (observed_at : Instant) (last_message : Option Instant) (reconnected : Bool) → Call
  failure :
      (observed_at : Instant) (detail : String) (exhausted : Bool) (last_message : Option Instant)
      → Call

-- What a history, the latest call first, comes to.

-- The failures since the last success.
abbrev pub trailing_failures : List Call → ℕ
trailing_failures [] = 0
trailing_failures (success at message reconnected ∷ earlier) = 0
trailing_failures (failure at detail exhausted message ∷ earlier) = trailing_failures earlier + 1

-- The successes that followed a reconnect.
abbrev pub reconnects : List Call → ℕ
reconnects [] = 0
reconnects (success at message reconnected ∷ earlier) =
    reconnects earlier + (if reconnected then 1 else 0)
reconnects (failure at detail exhausted message ∷ earlier) = reconnects earlier

abbrev pub later : Option Instant → Option Instant → Option Instant
later none b = b
later (some a) none = some a
later (some a) (some b) = if ltb a b then some b else some a

-- The latest time of receipt that any call reported.
abbrev pub latest_message : List Call → Option Instant
latest_message [] = none
latest_message (success at message reconnected ∷ earlier) = later (latest_message earlier) message
latest_message (failure at detail exhausted message ∷ earlier) =
    later (latest_message earlier) message

abbrev pub last_status : Call → ProviderStatus
last_status (success at message reconnected) = healthy
last_status (failure at detail exhausted message) = failure_status exhausted

abbrev pub last_time : Call → Instant
last_time (success at message reconnected) = at
last_time (failure at detail exhausted message) = at

abbrev pub last_detail : Call → Option String
last_detail (success at message reconnected) = none
last_detail (failure at detail exhausted message) = some detail

-- The stored row is what the history says.
pub record Reflects (call : Call) (earlier : List Call) (row : ProviderStateRow) : Type 0 where
  pub failures : row.consecutive_failures ≡ trailing_failures (call ∷ earlier)
  pub reconnected : row.reconnect_count ≡ reconnects (call ∷ earlier)
  pub message : row.last_message_received_at ≡ latest_message (call ∷ earlier)
  pub status : row.status ≡ last_status call
  pub heartbeat : row.heartbeat_at ≡ last_time call
  pub detail : row.detail ≡ last_detail call

new_message_lem :
    (dialect : Dialect) (current given : Option Instant)
    → new_message dialect current given ≡ later current given
unfolding new_message
new_message_lem dialect none none = refl
new_message_lem dialect none (some t) = refl
new_message_lem dialect (some s) none = refl
new_message_lem dialect (some s) (some t) = rw utc-column

-- The status is HEALTHY exactly when no failure has come since the last success.
last_status-healthy_iff :
    (call : Call) (earlier : List Call)
    → (last_status call ≡ healthy) ↔ (trailing_failures (call ∷ earlier) ≡ 0)
last_status-healthy_iff (success at message reconnected) earlier = (λ _. refl, λ _. refl)
last_status-healthy_iff (failure at detail exhausted message) earlier = ground arith

module _ (schema : MarketSchema) (provider : String) where
  open schema use {states, dialect}

  unfoldable pub apply_call : Call → MarketDb schema → MarketDb schema
  apply_call (success at message reconnected) db =
      record_success schema provider at message reconnected db
  apply_call (failure at detail exhausted message) db =
      record_failure schema provider at detail exhausted message db

  unfoldable pub replay_calls : List Call → MarketDb schema → MarketDb schema
  replay_calls [] db = db
  replay_calls (call ∷ earlier) db = apply_call call (replay_calls earlier db)

  -- One call from a row that reflects the calls before it, or from no row.
  next_row : Call → Option ProviderStateRow → ProviderStateRow
  next_row (success at message reconnected) row =
      success_row dialect provider at message reconnected row
  next_row (failure at detail exhausted message) row =
      failure_row dialect provider at detail exhausted message row

  next_row-first : (call : Call) → Reflects call [] (next_row call none)
  unfolding next_row success_row failure_row
  next_row-first (success at message true) = ground arith
  next_row-first (success at message false) = ground arith
  next_row-first (failure at detail exhausted message) = ground arith

  next_row-Reflects :
      (call before : Call) (earlier : List Call) (row : ProviderStateRow)
      → Reflects before earlier row
      → Reflects call (before ∷ earlier) (next_row call (some row))
  unfolding next_row success_row failure_row
  next_row-Reflects (success at message reconnected) before earlier row h = record {
    failures = refl;
    reconnected = ap (λ (n : ℕ). n + (if reconnected then 1 else 0)) h.reconnected;
    message =
        new_message_lem dialect row.last_message_received_at message
        ∙ ap (λ (m : Option Instant). later m message) h.message;
    status = refl;
    heartbeat = refl;
    detail = refl;
  }
  next_row-Reflects (failure at detail exhausted message) before earlier row h = record {
    failures = ap (λ (n : ℕ). n + 1) h.failures;
    reconnected = h.reconnected;
    message =
        new_message_lem dialect row.last_message_received_at message
        ∙ ap (λ (m : Option Instant). later m message) h.message;
    status = refl;
    heartbeat = refl;
    detail = refl;
  }

  next_row-provider :
      (call : Call) (row : Option ProviderStateRow)
      → ((state : ProviderStateRow) → row ≡ some state → state.provider_id ≡ provider)
      → (next_row call row).provider_id ≡ provider
  unfolding next_row success_row failure_row
  next_row-provider (success at message reconnected) none h = refl
  next_row-provider (success at message reconnected) (some state) h = h state refl
  next_row-provider (failure at detail exhausted message) none h = refl
  next_row-provider (failure at detail exhausted message) (some state) h = h state refl

  apply_call-states :
      (call : Call) (db : MarketDb schema)
      → (apply_call call db).states
        ≡ states.put (next_row call (states.get db.states provider)) db.states
  unfolding apply_call next_row record_success record_failure ensure_provider
  apply_call-states (success at message reconnected) db = refl
  apply_call-states (failure at detail exhausted message) db = refl

  apply_call-get :
      (call : Call) (db : MarketDb schema)
      → states.get (apply_call call db).states provider
        ≡ some (next_row call (states.get db.states provider))
  apply_call-get call db =
      let row = next_row call (states.get db.states provider) in
      let named =
        next_row-provider call (states.get db.states provider)
          (states.get-key db.states provider) in
      cc (
        ap (λ (t : states.T). states.get t provider) (apply_call-states call db),
        ap (states.get (states.put row db.states)) named,
        states.get-put_self row db.states,
      )

  replay_calls-row :
      (call : Call) (earlier : List Call) (db : MarketDb schema)
      → states.get db.states provider ≡ none
      → (row : ProviderStateRow) × (states.get (replay_calls (call ∷ earlier) db).states provider
          ≡ some row)
        × Reflects call earlier row
  unfolding replay_calls
  replay_calls-row call [] db new = (
    next_row call none,
    apply_call-get call db ∙ ap (λ o. some (next_row call o)) new,
    next_row-first call,
  )
  replay_calls-row call (before ∷ earlier) db new =
      let (row, stored, reflects) = replay_calls-row before earlier db new in
      (
        next_row call (some row),
        apply_call-get call (replay_calls (before ∷ earlier) db)
            ∙ ap (λ o. some (next_row call o)) stored,
        next_row-Reflects call before earlier row reflects,
      )

  -- For a provider with no state yet, whatever calls are made, the state that is read counts the
  -- failures since the last success and the successes after a reconnect, has the latest time of
  -- receipt that any call reported, and has the status, the time and the detail of the last call.
  -- Its status is HEALTHY exactly when no failure has come since the last success.
  pub provider_state-replay_calls :
      (call : Call) (earlier : List Call) (db : MarketDb schema)
      → states.get db.states provider ≡ none
      → (state : StoredMarketProviderState) × (provider_state schema provider
            (replay_calls (call ∷ earlier) db)
          ≡ some state)
        × (state.consecutive_failures ≡ trailing_failures (call ∷ earlier))
        × (state.reconnect_count ≡ reconnects (call ∷ earlier))
        × (state.last_message_received_at ≡ latest_message (call ∷ earlier))
        × (state.status ≡ last_status call)
        × (state.heartbeat_at ≡ last_time call)
        × (state.detail ≡ last_detail call)
        × ((state.status ≡ healthy) ↔ (state.consecutive_failures ≡ 0))
  unfolding provider_state
  provider_state-replay_calls call earlier db new =
      let (row, stored, reflects) = replay_calls-row call earlier db new in
      (
        read_state schema row,
        rw (stored, provider_state),
        reflects.failures,
        reflects.reconnected,
        read_optional_lem dialect row.last_message_received_at ∙ reflects.message,
        reflects.status,
        utc-column dialect row.heartbeat_at ∙ reflects.heartbeat,
        reflects.detail,
        rw (reflects.status, reflects.failures) (last_status-healthy_iff call earlier),
      )
