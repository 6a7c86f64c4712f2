-- ===== src/Tests/News.antt =====
-- The settings and the news providers of a concrete environment.
use event_alpha.Prelude.{
  leb, ℕ, ◌≡◌, refl, inl, inr, String, false, List, [], ◌∷◌, Option, none, some, ◌==◌, str_eq,
  if◌then◌else◌, keep,
}
use event_alpha.Errors.{ok}
use event_alpha.Config.{
  ConfigRuntime, Settings, from_environment, settings_of, split, split_most, strip_left,
  strip_right, lower, feeds_of, official_feeds, optional_utc_datetime, positive_float, csv, bool,
}
use event_alpha.News.{NewsSource, build_news_providers}
use event_alpha.News.Sources.{IsSources, build_news_providers_ready}
use event_alpha.News.Retry.{
  RetryRuntime, Answer, response, status_error, network_error, with_answer, get_with_retry,
  attempts_from, IsRun, get_with_retry-IsRun,
}

-- Two companies, in the configured mode.
abbrev environ : String → Option String
environ name =
    if str_eq name "EVENTALPHA_EVENT_SOURCE_MODE"
    then some " configured"
    else if str_eq name "EVENTALPHA_SEC_CIKS"
    then some "320193, 789019"
    else if str_eq name "SEC_USER_AGENT"
    then some "ops@example.invalid"
    else none

-- The letters that the samples meet, in lower case.
abbrev letters : List (ℕ × String)
letters =
    (b'F', "f")
    ∷ (b'T', "t")
    ∷ (b'a', "a")
    ∷ (b'c', "c")
    ∷ (b'd', "d")
    ∷ (b'e', "e")
    ∷ (b'f', "f")
    ∷ (b'g', "g")
    ∷ (b'i', "i")
    ∷ (b'l', "l")
    ∷ (b'n', "n")
    ∷ (b'o', "o")
    ∷ (b'r', "r")
    ∷ (b's', "s")
    ∷ (b'u', "u")
    ∷ []

abbrev lower_in : List (ℕ × String) → ℕ → String
lower_in [] c = "?"
lower_in ((letter, text) ∷ rest) c = if c == letter then text else lower_in rest c

abbrev configured : ConfigRuntime
configured = record {
  environ = environ;
  is_space = λ c. c == b' ';
  lower_char = lower_in letters;
  fromisoformat = λ text. none;
  float = λ text. some 5;
  le_zero = λ bits. bits == 0;
}

abbrev companies : Settings
companies = settings_of configured [] none 5

companies_read : from_environment configured ≡ ok companies
unfolding from_environment bool lower strip_left strip_right csv split split_most feeds_of
    official_feeds optional_utc_datetime positive_float keep
companies_read = refl

build_news_providers_ready_example :
    (companies.live_trading_enabled ≡ false)
    × (sources : List NewsSource) × (build_news_providers configured companies ≡ ok sources)
    × IsSources configured companies sources
unfolding strip_right strip_left
build_news_providers_ready_example =
    build_news_providers_ready configured companies companies_read
      (inr ("ops@example.invalid", refl, refl)) (inl refl)

-- A busy server that asks for a wait, then a timeout, then a page.
abbrev retries : RetryRuntime
retries = record {
  isdigit = λ text. str_eq text "7";
  float = λ text. if str_eq text "7" then some 7 else none;
  min_two = λ seconds. if leb seconds 2 then seconds else 2;
  backoff = λ attempt. 1;
}

abbrev answers : ℕ → Answer String
answers attempt =
    if attempt == 0
    then status_error 429 "7"
    else if attempt == 1
    then network_error
    else response "page"

page_read : get_with_retry retries answers ≡ (with_answer (response "page"), 2 ∷ 1 ∷ [])
unfolding get_with_retry attempts_from
page_read = refl

-- A server that is always unavailable.
abbrev unavailable : ℕ → Answer String
unavailable attempt = status_error 503 ""

given_up : get_with_retry retries unavailable ≡ (with_answer (status_error 503 ""), 1 ∷ 1 ∷ [])
unfolding get_with_retry attempts_from
given_up = refl

get_with_retry-IsRun_example :
    (last : ℕ) × IsRun retries answers 0 last (get_with_retry retries answers)
get_with_retry-IsRun_example = get_with_retry-IsRun retries answers
