-- ===== src/Config.antt =====
-- services/api/app/config.py: the settings, and their reading from the environment.
pub mod Ready
use Prim.Native.Char.{code}
use Prim.Native.String.{◌++◌ as ◌+text+◌}
use event_alpha.Prelude.{
  ℕ, zero, suc, String, Bool, true, false, not, ◌&&◌, ◌||◌, Option, none, some, or_else, List, [],
  ◌∷◌, map, keep, str_eq, ◌==◌, if◌then◌else◌,
}
use event_alpha.Errors.{Result, ok, err, runtime_error, value_error, require, ◌>>=◌, ◌>>◌}
use event_alpha.Contracts.Time.{Instant, DateTime, naive, aware}

pub record OfficialRssFeedSettings : Type 0 where
  pub source_id : String
  pub category : String
  pub url : String

-- A float is its 64-bit pattern.
abbrev pub Float64 : Type 0
Float64 = ℕ

pub record Settings : Type 0 where
  pub environment : String
  pub demo_mode : Bool
  pub live_trading_enabled : Bool
  pub kill_switch : Bool
  pub sec_user_agent : Option String
  pub fred_api_key : Option String
  pub database_url : Option String
  pub event_source_mode : String
  pub official_rss_feeds : List OfficialRssFeedSettings
  pub sec_ciks : List String
  pub fred_series_ids : List String
  pub replay_at : Option Instant
  pub market_poll_seconds : Float64

-- What Python gives: the environment, whether str.strip() takes a character away, char.lower(),
-- datetime.fromisoformat and float(), which may refuse, and value <= 0 of a float.
pub record ConfigRuntime : Type 0 where
  pub environ : String → Option String
  pub is_space : ℕ → Bool
  pub lower_char : ℕ → String
  pub fromisoformat : String → Option DateTime
  pub float : String → Option Float64
  pub le_zero : Float64 → Bool

-- not text
abbrev pub is_empty : String → Bool
is_empty text = str_eq text ""

-- text or None
abbrev pub given : Option String → Option String
given none = none
given (some text) = if is_empty text then none else some text

-- A text before the first part.
abbrev pub before_parts : String → List String → List String
before_parts first [] = first ∷ []
before_parts first (part ∷ parts) = (first +text+ part) ∷ parts

-- text.split(separator)
unfoldable pub split : ℕ → String → List String
split separator String.[] = "" ∷ []
split separator (String.◌∷◌ c rest) =
    let parts = split separator rest in
    if code c == separator then "" ∷ parts else before_parts (String.◌∷◌ c "") parts

-- text.split(separator, maxsplit=n)
unfoldable pub split_most : ℕ → ℕ → String → List String
split_most separator n String.[] = "" ∷ []
split_most separator zero (String.◌∷◌ c rest) = (String.◌∷◌ c rest) ∷ []
split_most separator (suc n) (String.◌∷◌ c rest) =
    let next = split_most separator n rest in
    let same = split_most separator (suc n) rest in
    if code c == separator then "" ∷ next else before_parts (String.◌∷◌ c "") same

abbrev pub is_set : {A : Type 0} → List A → Bool
is_set [] = false
is_set (_ ∷ _) = true

abbrev pub is_some : {A : Type 0} → Option A → Bool
is_some none = false
is_some (some _) = true

abbrev pub is_mode : String → Bool
is_mode mode = str_eq mode "replay" || str_eq mode "configured"

-- A source at least, and the keys that the sources need.
abbrev pub has_sources :
    List OfficialRssFeedSettings → List String → List String → Option String → Option String → Bool
has_sources feeds ciks series agent key =
    (is_set feeds || is_set ciks || is_set series)
    && not (is_set ciks && not (is_some agent))
    && not (is_set series && not (is_some key))

module _ (runtime : ConfigRuntime) where
  -- text.lstrip(), text.rstrip() and text.strip()
  unfoldable pub strip_left : String → String
  strip_left String.[] = ""
  strip_left (String.◌∷◌ c rest) =
      if runtime.is_space (code c) then strip_left rest else String.◌∷◌ c rest

  unfoldable pub strip_right : String → String
  strip_right String.[] = ""
  strip_right (String.◌∷◌ c rest) =
      let stripped = strip_right rest in
      if is_empty stripped && runtime.is_space (code c) then "" else String.◌∷◌ c stripped

  abbrev pub strip : String → String
  strip text = strip_right (strip_left text)

  unfoldable pub lower : String → String
  lower String.[] = ""
  lower (String.◌∷◌ c rest) = runtime.lower_char (code c) +text+ lower rest

  abbrev pub getenv : String → String → String
  getenv name default = or_else (runtime.environ name) default

  abbrev is_yes : String → Bool
  is_yes text = str_eq text "1" || str_eq text "true" || str_eq text "yes" || str_eq text "on"

  -- `_bool`
  unfoldable pub bool : String → Bool → Bool
  unfolding lower
  bool name default = is_yes (lower (strip (getenv name (if default then "True" else "False"))))

  -- `_csv`
  unfoldable pub csv : String → List String
  csv name = keep (λ value. not (is_empty value)) (map strip (split b',' (getenv name "")))

  -- `_positive_float`
  abbrev pub positive_or_raise : Option Float64 → Result Float64
  positive_or_raise none = err value_error
  positive_or_raise (some value) = if runtime.le_zero value then err runtime_error else ok value

  unfoldable pub positive_float : String → String → Result Float64
  positive_float name default = positive_or_raise (runtime.float (getenv name default))

  -- The parts of an entry: three, none of them empty.
  abbrev pub feed_of : List String → Result OfficialRssFeedSettings
  feed_of (source_id ∷ category ∷ url ∷ []) =
      if not (is_empty source_id) && not (is_empty category) && not (is_empty url)
      then ok (record { source_id = source_id; category = category; url = url })
      else err runtime_error
  feed_of _ = err runtime_error

  -- `_official_feeds`
  unfoldable pub feeds_of : List String → Result (List OfficialRssFeedSettings)
  feeds_of [] = ok []
  feeds_of (entry ∷ entries) =
      let rest = feeds_of entries in
      let added : Result (List OfficialRssFeedSettings) = do
        feed ← feed_of (map strip (split_most b'|' 2 entry))
        feeds ← rest
        ok (feed ∷ feeds)
      in if is_empty (strip entry) then rest else added

  unfoldable pub official_feeds : Result (List OfficialRssFeedSettings)
  unfolding feeds_of
  official_feeds = feeds_of (split b';' (getenv "EVENTALPHA_OFFICIAL_RSS_FEEDS" ""))

  -- `_optional_utc_datetime`
  abbrev pub utc_or_raise : Option DateTime → Result (Option Instant)
  utc_or_raise none = err value_error
  utc_or_raise (some (naive wall)) = err runtime_error
  utc_or_raise (some (aware at offset)) = ok (some at)

  unfoldable pub optional_utc_datetime : String → Result (Option Instant)
  optional_utc_datetime name =
      let value = strip (getenv name "") in
      if is_empty value then ok none else utc_or_raise (runtime.fromisoformat value)

  abbrev pub source_mode : String
  source_mode = lower (strip (getenv "EVENTALPHA_EVENT_SOURCE_MODE" "replay"))

  abbrev pub user_agent : Option String
  user_agent = given (runtime.environ "SEC_USER_AGENT")

  abbrev pub api_key : Option String
  api_key = given (runtime.environ "FRED_API_KEY")

  abbrev pub settings_of : List OfficialRssFeedSettings → Option Instant → Float64 → Settings
  settings_of feeds replay_at poll = record {
    environment = getenv "EVENTALPHA_ENV" "development";
    demo_mode = bool "EVENTALPHA_DEMO_MODE" true;
    live_trading_enabled = false;
    kill_switch = bool "EVENTALPHA_KILL_SWITCH" false;
    sec_user_agent = user_agent;
    fred_api_key = api_key;
    database_url = given (runtime.environ "EVENTALPHA_DATABASE_URL");
    event_source_mode = source_mode;
    official_rss_feeds = feeds;
    sec_ciks = csv "EVENTALPHA_SEC_CIKS";
    fred_series_ids = csv "EVENTALPHA_FRED_SERIES_IDS";
    replay_at = replay_at;
    market_poll_seconds = poll;
  }

  abbrev pub completed : List OfficialRssFeedSettings → Result Settings
  completed feeds = do
    replay_at ← optional_utc_datetime "EVENTALPHA_REPLAY_AT"
    poll ← positive_float "EVENTALPHA_MARKET_POLL_SECONDS" "5.0"
    ok (settings_of feeds replay_at poll)

  -- The refusals of the configured mode.
  abbrev pub is_complete : List OfficialRssFeedSettings → Bool
  is_complete feeds =
      not (str_eq source_mode "configured")
      || has_sources feeds (csv "EVENTALPHA_SEC_CIKS") (csv "EVENTALPHA_FRED_SERIES_IDS") user_agent
          api_key

  -- `from_environment`
  unfoldable pub from_environment : Result Settings
  unfolding bool official_feeds csv optional_utc_datetime positive_float
  from_environment = do
    require (not (bool "EVENTALPHA_LIVE_TRADING_ENABLED" false)) runtime_error
    require (is_mode source_mode) runtime_error
    feeds ← official_feeds
    require (is_complete feeds) runtime_error
    completed feeds
