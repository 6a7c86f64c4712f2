-- ===== src/Market/Service/Retries.antt =====
-- How often the refreshes of services/api/app/market/service.py try again, and that they end.
use event_alpha.Prelude.{
  ℕ, zero, suc, ◌+◌, ◌-◌, ◌*◌, ◌≤◌, ◌<◌, ◌≡◌, refl, String, Bool, true, false, not, List, Option,
  some, ltb, leb, arith, if-at, inl, inr, Bool-cases,
}
use native.Mathlib.Nat.{mul-le-mul_right}
use event_alpha.Errors.{Exc, Result, ok, err, runtime_error, value_error, is_transient}
use event_alpha.Exec.{Exec, after, after_both}
use event_alpha.Contracts.Market.{MarketQuote}
use event_alpha.Market.Interface.{MarketPersistence, MarketDataProvider}
use event_alpha.Market.Service.{World, Settings, provided, remember, save_quote, record_success}
use event_alpha.Market.Service.Frame.{save_quote-Keeps, record_success-Keeps, note_failure-Keeps}
use event_alpha.Market.Service.Unmoved.{Unmoved, Unmoved-by, Unmoved-trans, unmoved}
use event_alpha.Market.Service.Calm.{IsCalm, save_quote-IsCalm, record_success-IsCalm}
use event_alpha.Market.Service.Watchlist.{
  Progress, Next, more, done, start, later_of, is_stop, pull, publish, note_failure, sleep,
  on_noted, on_transient, on_result, round, loop, refresh_watchlist,
}

-- What the service relies on in its provider: a stream ends, and transient failures do not add to
-- the quotes that are still given. `left` bounds the quotes that the open stream, and those opened
-- after its failures, still give.
pub record Finite (provider : MarketDataProvider) (symbols : List String) : Type 0 where
  pub left : provider.P → ℕ
  -- A quote takes one of them.
  pub left-quote :
      (p : provider.P) (quote : MarketQuote)
      → (provider.anext p).0 ≡ ok quote
      → left (provider.anext p).1 < left p
  -- The stream that is opened after a transient failure of a stream gives no more than that one
  -- would have.
  pub left-reopen :
      (p : provider.P) (e : Exc)
      → (provider.anext p).0 ≡ err e
      → is_transient e ≡ true
      → left (provider.stream_quotes symbols (provider.anext p).1).1 ≤ left p
  -- Nor does the stream that is opened after a transient failure of an opening.
  pub left-retry :
      (p : provider.P) (e : Exc)
      → (provider.stream_quotes symbols p).0 ≡ err e
      → is_transient e ≡ true
      → left (provider.stream_quotes symbols (provider.stream_quotes symbols p).1).1
        ≤ left (provider.stream_quotes symbols p).1

failed_bound :
    (left n attempts failures : ℕ)
    → left ≤ n
    → failures < attempts
    → leb attempts (failures + 1) ≡ false
    → (failures + 1 < attempts)
      × (left * attempts + (attempts - (failures + 1)) < n * attempts + (attempts - failures))
failed_bound left n attempts failures h k e =
    let more_left = mul-le-mul_right attempts h in
    let below : failures + 1 < attempts = ground arith in (below, omega arith)

published_bound :
    (left n attempts failures reset : ℕ)
    → left < n
    → reset ≡ 0
    → failures < attempts
    → (reset < attempts)
      × (left * attempts + (attempts - reset) < n * attempts + (attempts - failures))
published_bound left n attempts failures reset h e k =
    let more_left : (left + 1) * attempts ≤ n * attempts =
      mul-le-mul_right attempts (omega arith) in
    (omega arith, omega arith)

module _ (persistence : MarketPersistence) (provider : MarketDataProvider)
    (settings : Settings) where
  abbrev WorldOf : Type 0
  WorldOf = World persistence provider

  publish-Unmoved :
      (progress : Progress) (quote : MarketQuote) (w : WorldOf)
      → Unmoved persistence provider settings w
          (publish persistence provider settings progress quote w).1
  unfolding publish remember unmoved
  publish-Unmoved progress quote w =
      let saved = save_quote persistence provider settings quote w in
      let message = later_of progress.last_message quote.received_at in
      let reconnected = progress.reconnect_pending in
      let first =
        save_quote-Keeps persistence provider settings (unmoved persistence provider settings) quote
          w in
      let recorded =
        record_success persistence provider settings (some message) reconnected saved.1 in
      let second = Unmoved-trans persistence provider settings w saved.1 recorded.1 first (
        record_success-Keeps persistence provider settings (unmoved persistence provider settings)
          (some message) reconnected saved.1) in
      after_both (Unmoved persistence provider settings) saved.0 _ w saved.1 first (λ _.
        after_both (Unmoved persistence provider settings) recorded.0 _ w recorded.1 second
          (λ _. Unmoved-by persistence provider settings w _ second.source second.sleeps))

  -- A quote that is published resets the failures, and an error on the way is not transient.
  Reset : Result Progress → Type 0
  Reset (ok next) = (next.consecutive_failures ≡ 0) × (next.streaming ≡ true)
  Reset (err e) = is_transient e ≡ false

  after-Reset :
      {A : Type 0} (r : Result A) (f : A → Exec WorldOf Progress) (w : WorldOf)
      → IsCalm r
      → ((a : A) → Reset (f a w).0)
      → Reset (after r f w).0
  unfolding Reset
  after-Reset (ok a) f w h k = k a
  after-Reset (err e) f w h k = h

  publish-Reset :
      (progress : Progress) (quote : MarketQuote) (w : WorldOf)
      → Reset (publish persistence provider settings progress quote w).0
  unfolding publish remember Reset
  publish-Reset progress quote w =
      let saved = save_quote persistence provider settings quote w in
      let message = later_of progress.last_message quote.received_at in
      let recorded =
        record_success persistence provider settings (some message) progress.reconnect_pending
          saved.1 in
      after-Reset saved.0 _ saved.1 (save_quote-IsCalm persistence provider settings quote w) (λ _.
        after-Reset recorded.0 _ recorded.1
          (record_success-IsCalm persistence provider settings (some message)
            progress.reconnect_pending saved.1)
          (λ _. (refl, refl)))

  module _ (symbols : List String) (finite : Finite provider symbols) where
    open finite use {left, left-quote, left-reopen, left-retry}

    -- The quotes that are left, of the stream that is open or of the next one to be opened.
    abbrev pub left_of : Bool → provider.P → ℕ
    left_of true p = left p
    left_of false p = left (provider.stream_quotes symbols p).1

    -- What a call of the provider leaves of its quotes: fewer when one was given, and no more when
    -- the stream is to be opened again.
    Less : ℕ → Result MarketQuote → provider.P → Type 0
    Less n (ok quote) p = left p < n
    Less n (err e) p = is_transient e ≡ true → left_of false p ≤ n

    Less_lem :
        (n : ℕ) (p : provider.P) (r : Result MarketQuote)
        → ((quote : MarketQuote) → r ≡ ok quote → left p < n)
        → ((e : Exc) → r ≡ err e → is_transient e ≡ true → left_of false p ≤ n)
        → Less n r p
    unfolding Less
    Less_lem n p (ok quote) h k = h quote refl
    Less_lem n p (err e) h k = k e refl

    anext-Less : (p : provider.P) → Less (left p) (provider.anext p).0 (provider.anext p).1
    anext-Less p =
        Less_lem (left p) (provider.anext p).1 (provider.anext p).0 (left-quote p) (left-reopen p)

    opened-Less :
        (r : Result (Unit {0})) (w : WorldOf)
        → ((e : Exc) → r ≡ err e → is_transient e ≡ true → left_of false w.source ≤ left w.source)
        → Less
            (left w.source)
            (after r (λ _. provided persistence provider provider.anext) w).0
            (after r (λ _. provided persistence provider provider.anext) w).1.source
    unfolding Less
    opened-Less (ok u) w h = anext-Less w.source
    opened-Less (err e) w h = h e refl

    pull-Less :
        (streaming : Bool) (w : WorldOf)
        → Less
            (left_of streaming w.source)
            (pull persistence provider settings symbols streaming w).0
            (pull persistence provider settings symbols streaming w).1.source
    unfolding pull
    pull-Less true w = anext-Less w.source
    pull-Less false w =
        let opened = provided persistence provider (provider.stream_quotes symbols) w in
        opened-Less opened.0 opened.1 (left-retry w.source)

    -- The pull and the publication together.
    LessRound : ℕ → Result Progress → provider.P → Type 0
    LessRound n (ok next) p =
        (next.consecutive_failures ≡ 0) × (next.streaming ≡ true) × (left p < n)
    LessRound n (err e) p = is_transient e ≡ true → left_of false p ≤ n

    LessRound_lem :
        (n : ℕ) (p : provider.P) (r : Result Progress) → Reset r → left p < n → LessRound n r p
    unfolding LessRound Reset
    LessRound_lem n p (ok next) (reset, streaming) h = (reset, streaming, h)
    LessRound_lem n p (err e) calm h = λ transient. absurd (cc (calm, transient))

    after-LessRound :
        (progress : Progress) (r : Result MarketQuote) (n : ℕ) (w : WorldOf)
        → Less n r w.source
        → LessRound n
            (after r (publish persistence provider settings progress) w).0
            (after r (publish persistence provider settings progress) w).1.source
    unfolding Less LessRound
    after-LessRound progress (err e) n w h = h
    after-LessRound progress (ok quote) n w h =
        LessRound_lem n _ _ (publish-Reset progress quote w)
          (rw (publish-Unmoved progress quote w).source h)

    -- The rounds that are still to come are bounded: each quote can be followed by
    -- `attempts` failures.
    potential : ℕ → Progress → WorldOf → ℕ
    potential attempts progress w =
        left_of progress.streaming w.source * attempts + (attempts - progress.consecutive_failures)

    Closer : ℕ → ℕ → Next × WorldOf → Type 0
    Closer attempts bound (done r, w) = Unit {0}
    Closer attempts bound (more progress, w) =
        (progress.consecutive_failures < attempts) × (potential attempts progress w < bound)

    on_noted-Closer :
        (attempts bound : ℕ) (error : Exc) (exhausted : Bool) (progress : Progress)
        (r : Result (Unit {0})) (w : WorldOf)
        → (exhausted ≡ false → Closer attempts bound (more progress, w))
        → Closer attempts bound
            (on_noted persistence provider settings error exhausted progress r w)
    unfolding on_noted sleep Closer potential
    on_noted-Closer attempts bound error exhausted progress (err e) w h = tt
    on_noted-Closer attempts bound error true progress (ok u) w h = tt
    on_noted-Closer attempts bound error false progress (ok u) w h = h refl

    on_transient-Closer :
        (attempts n : ℕ) (error : Exc) (progress : Progress) (w : WorldOf)
        → progress.consecutive_failures < attempts
        → left_of false w.source ≤ n
        → Closer attempts
            (n * attempts + (attempts - progress.consecutive_failures))
            (on_transient persistence provider settings attempts error progress w)
    unfolding on_transient Closer potential unmoved
    on_transient-Closer attempts n error progress w h k =
        let exhausted = leb attempts (progress.consecutive_failures + 1) in
        let noted =
          note_failure persistence provider settings error exhausted progress.last_message w in
        let same =
          (note_failure-Keeps persistence provider settings (unmoved persistence provider settings)
            error exhausted progress.last_message w).source in
        on_noted-Closer attempts _ error exhausted _ noted.0 noted.1 (λ e.
          failed_bound (left_of false noted.1.source) n attempts progress.consecutive_failures
            (rw same k) h e)

    on_result-Closer :
        (attempts n : ℕ) (progress : Progress) (r : Result Progress) (w : WorldOf)
        → progress.consecutive_failures < attempts
        → LessRound n r w.source
        → Closer attempts
            (n * attempts + (attempts - progress.consecutive_failures))
            (on_result persistence provider settings attempts progress r w)
    unfolding on_result LessRound Closer potential
    on_result-Closer attempts n progress (ok next) w h (reset, streaming, k) =
        let bound =
          published_bound (left w.source) n attempts progress.consecutive_failures
            next.consecutive_failures k reset h in
        (bound.0, rw streaming bound.1)
    on_result-Closer attempts n progress (err error) w h k =
        let Goal = Closer attempts (n * attempts + (attempts - progress.consecutive_failures)) in
        if-at Goal (is_stop persistence provider settings error) _ _ tt
          (elim (Bool-cases (is_transient error)) [
            | inl transient ↦
                rw transient (on_transient-Closer attempts n error progress w h (k transient))
            | inr calm ↦ rw calm tt
          ])

    Closer-le :
        (attempts a b : ℕ) (next : Next × WorldOf)
        → a ≤ b
        → Closer attempts a next
        → Closer attempts b next
    unfolding Closer
    Closer-le attempts a b (done r, w) h k = tt
    Closer-le attempts a b (more progress, w) h (k, l) = (k, omega arith)

    round-Closer :
        (attempts : ℕ) (progress : Progress) (w : WorldOf)
        → progress.consecutive_failures < attempts
        → Closer attempts
            (potential attempts progress w)
            (round persistence provider settings symbols attempts progress w)
    unfolding round potential
    round-Closer attempts progress w h =
        let pulled = pull persistence provider settings symbols progress.streaming w in
        on_result-Closer attempts (left_of progress.streaming w.source) progress _ _ h (
          after-LessRound progress pulled.0 (left_of progress.streaming w.source) pulled.1
            (pull-Less progress.streaming w))

    loop-returns :
        (fuel : ℕ) (attempts : ℕ) (next : Next) (w : WorldOf)
        → Closer attempts (suc fuel) (next, w)
        → (r : Result ℕ) × (w' : WorldOf) × (loop persistence provider settings fuel symbols
              attempts next w
            ≡ some (r, w'))
    unfolding loop Closer potential
    loop-returns fuel attempts (done r) w h = (r, w, refl)
    loop-returns zero attempts (more progress) w (h, k) =
        let none_left : 1 ≤ 0 = omega arith in absurd (omega (arith, none_left))
    loop-returns (suc fuel) attempts (more progress) w (h, k) =
        let turned = round persistence provider settings symbols attempts progress w in
        loop-returns fuel attempts turned.0 turned.1 (
          Closer-le attempts _ (suc fuel) turned (omega arith) (round-Closer attempts progress w h))

    abbrev Returns : Option (Result ℕ × WorldOf) → Type 0
    Returns o = (r : Result ℕ) × (w' : WorldOf) × (o ≡ some (r, w'))

    -- With a provider whose streams are finite, and whose transient failures do not add to their
    -- quotes, a refresh of the watchlist ends: it returns or raises within a round for each quote of
    -- the first stream and each of the attempts that may follow it.
    pub refresh_watchlist-returns :
        (fuel : ℕ) (attempts : ℕ) (w : WorldOf)
        → left_of false w.source * attempts + attempts ≤ fuel
        → (r : Result ℕ) × (w' : WorldOf) × (refresh_watchlist persistence provider settings fuel
              symbols attempts w
            ≡ some (r, w'))
    unfolding refresh_watchlist Closer potential
    refresh_watchlist-returns fuel zero w h =
        if-at Returns (not settings.provider_reads_enabled) _ _ (err runtime_error, w, refl)
          (err value_error, w, refl)
    refresh_watchlist-returns fuel (suc rest) w h =
        if-at Returns (not settings.provider_reads_enabled) _ _ (err runtime_error, w, refl)
          (if-at Returns (ltb (suc rest) 1) _ _ (err value_error, w, refl)
            (loop-returns fuel (suc rest) (more start) w (omega arith, omega arith)))
