-- ===== src/News/Retry.antt =====
-- services/api/app/providers/news/http_sources.py: the requests of a provider with their retries.
use mathlib.Core.Path.{subst}
use event_alpha.Prelude.{
  ℕ, zero, suc, ◌+◌, ◌≤◌, ◌<◌, ◌≡◌, refl, ◌⊎◌, inl, inr, String, Bool, true, false, not, ◌||◌, List,
  [], ◌∷◌, Option, none, some, arith, length, ◌==◌, if◌then◌else◌, Bool-cases,
}
use event_alpha.Errors.{Exc, runtime_error, value_error}
use event_alpha.Config.{Float64}

-- `MAX_HTTP_ATTEMPTS`
abbrev pub max_http_attempts : ℕ
max_http_attempts = 3

-- What client.get() and raise_for_status() come to: a response, a status with its Retry-After
-- header (empty when it is missing), a timeout or a network error, or any other exception.
pub data Answer (R : Type 0) : Type 0 where
  response : R → Answer R
  status_error : ℕ → String → Answer R
  network_error : Answer R
  other_error : Exc → Answer R

-- The answer is the response that is returned or the exception that is raised again.
pub data Ended (R : Type 0) : Type 0 where
  with_answer : Answer R → Ended R
  with_error : Exc → Ended R

-- What Python gives: str.isdigit(), float(), which may refuse, min(x, 2.0) and 0.05 * 2**attempt.
pub record RetryRuntime : Type 0 where
  pub isdigit : String → Bool
  pub float : String → Option Float64
  pub min_two : Float64 → Float64
  pub backoff : ℕ → Float64

-- `RETRYABLE_STATUS_CODES`
abbrev pub is_retryable : ℕ → Bool
is_retryable code = code == 429 || code == 500 || code == 502 || code == 503 || code == 504

abbrev pub is_retried : {R : Type 0} → Answer R → Bool
is_retried (response r) = false
is_retried (status_error code retry_after) = is_retryable code
is_retried network_error = true
is_retried (other_error e) = false

abbrev pub slept : {R : Type 0} → Option Float64 → Ended R × List Float64 → Ended R × List Float64
slept none rest = (with_error value_error, [])
slept (some seconds) (ended, sleeps) = (ended, seconds ∷ sleeps)

le-cases : (a b : ℕ) → a ≤ b → (a ≡ b) ⊎ (a + 1 ≤ b)
le-cases a b h = ground arith

module _ {R : Type 0} (runtime : RetryRuntime) (client : ℕ → Answer R) where
  abbrev pub capped : Option Float64 → Option Float64
  capped none = none
  capped (some seconds) = some (runtime.min_two seconds)

  -- The delay before the next attempt: none when float() refuses the header.
  abbrev pub delay_after : ℕ → Answer R → Option Float64
  delay_after attempt (status_error code retry_after) =
      if runtime.isdigit retry_after
      then capped (runtime.float retry_after)
      else some (runtime.backoff attempt)
  delay_after attempt _ = some (runtime.backoff attempt)

  -- The attempts that are left, with the sleeps in their order. The client's answer to an attempt is
  -- `client attempt`.
  unfoldable pub attempts_from : ℕ → ℕ → Ended R × List Float64
  attempts_from zero attempt = (with_error runtime_error, [])
  attempts_from (suc left) attempt =
      let rest = attempts_from left (attempt + 1) in
      let answer = client attempt in
      if not (is_retried answer) || (attempt + 1) == max_http_attempts
      then (with_answer answer, [])
      else slept (delay_after attempt answer) rest

  -- `_get_with_retry`
  unfoldable pub get_with_retry : Ended R × List Float64
  unfolding attempts_from
  get_with_retry = attempts_from max_http_attempts 0

  -- The attempts from `first` end with the answer to attempt `last`, the only one of them that may be
  -- final, or at a header that float() refuses; there is a sleep between two attempts.
  pub record IsRun (first last : ℕ) (run : Ended R × List Float64) : Type 0 where
    pub in_range : (first ≤ last) × (last < max_http_attempts)
    pub earlier : (i : ℕ) → first ≤ i → i < last → is_retried (client i) ≡ true
    pub sleeps : first + length run.1 ≡ last
    pub end :
        ((run.0 ≡ with_answer (client last))
          × ((is_retried (client last) ≡ false) ⊎ (last + 1 ≡ max_http_attempts)))
        ⊎ ((run.0 ≡ with_error value_error) × (delay_after last (client last) ≡ none))

  final-IsRun :
      (attempt : ℕ)
      → attempt < max_http_attempts
      → (is_retried (client attempt) ≡ false) ⊎ (attempt + 1 ≡ max_http_attempts)
      → IsRun attempt attempt (with_answer (client attempt), [])
  final-IsRun attempt h final = record {
    in_range = (omega arith, h);
    earlier = λ i low high. absurd (omega (arith, low, high));
    sleeps = omega arith;
    end = inl (refl, final);
  }

  earlier_or_first :
      (first last : ℕ)
      → is_retried (client first) ≡ true
      → ((i : ℕ) → first + 1 ≤ i → i < last → is_retried (client i) ≡ true)
      → (i : ℕ) → first ≤ i
      → i < last
      → is_retried (client i) ≡ true
  earlier_or_first first last retried later i low high = elim (le-cases first i low) [
    | inl same ↦ subst (λ n. is_retried (client n) ≡ true) same retried
    | inr above ↦ later i above high
  ]

  slept-IsRun :
      (attempt : ℕ) (delay : Option Float64) (rest : Ended R × List Float64)
      → attempt < max_http_attempts
      → delay_after attempt (client attempt) ≡ delay
      → is_retried (client attempt) ≡ true
      → ((last : ℕ) × IsRun (attempt + 1) last rest)
      → (last : ℕ) × IsRun attempt last (slept delay rest)
  slept-IsRun attempt none rest h is_delay retried later = (
    attempt,
    record {
      in_range = (omega arith, h);
      earlier = λ i low high. absurd (omega (arith, low, high));
      sleeps = omega arith;
      end = inr (refl, is_delay);
    },
  )
  slept-IsRun attempt (some seconds) (ended, sleeps) h is_delay retried (last, run) = (
    last,
    record {
      in_range = (omega (arith, run.in_range), run.in_range.1);
      earlier = earlier_or_first attempt last retried run.earlier;
      sleeps = omega (arith, run.sleeps);
      end = run.end;
    },
  )

  attempts_from-IsRun :
      (left attempt : ℕ)
      → attempt + suc left ≡ max_http_attempts
      → (last : ℕ) × IsRun attempt last (attempts_from (suc left) attempt)
  unfolding attempts_from
  attempts_from-IsRun zero attempt h =
      let last_one : ((attempt + 1) == max_http_attempts) ≡ true = ground (arith, h) in
      (
        attempt,
        elim (Bool-cases (is_retried (client attempt))) [
          | inl retried ↦
              rw (retried, last_one) (final-IsRun attempt (omega arith) (inr (omega arith)))
          | inr final ↦ rw final (final-IsRun attempt (omega arith) (inl final))
        ],
      )
  attempts_from-IsRun (suc left) attempt h =
      let more : ((attempt + 1) == max_http_attempts) ≡ false = ground (arith, h) in
      elim (Bool-cases (is_retried (client attempt))) [
        | inl retried ↦
            rw (retried, more)
              (slept-IsRun attempt (delay_after attempt (client attempt))
                (attempts_from (suc left) (attempt + 1)) (omega arith) refl retried
                (attempts_from-IsRun left (attempt + 1) (omega arith)))
        | inr final ↦ (attempt, rw final (final-IsRun attempt (omega arith) (inl final)))
      ]

  -- Whatever the client answers, a request ends within three attempts: with the response or the
  -- exception of the last one, which is the third or not to be retried, or with ValueError when its
  -- header is no number. Every earlier answer is to be retried, and after each of them it sleeps once.
  pub get_with_retry-IsRun : (last : ℕ) × IsRun 0 last get_with_retry
  unfolding get_with_retry
  get_with_retry-IsRun = attempts_from-IsRun 2 0 refl
