-- ===== src/Config/Ready.antt =====
-- What settings that are read from the environment promise.
use event_alpha.Prelude.{
  ◌≡◌, refl, ◌⊎◌, String, Bool, true, false, not, ◌||◌, arith, eq_iff, str_eq, List,
}
use event_alpha.Errors.{
  Result, ok, require, runtime_error, ◌>>=◌, ◌>>◌, Gives, require-Gives, bind-Gives, Gives-ok,
}
use event_alpha.Config.{
  ConfigRuntime, Settings, has_sources, is_mode, from_environment, official_feeds,
  optional_utc_datetime, positive_float, bool, OfficialRssFeedSettings, source_mode, is_complete,
  completed, settings_of,
}

-- Live trading is off, and the mode is the replay, or a configured one with a source at least and
-- with the keys that its sources need.
pub record IsReady (settings : Settings) : Type 0 where
  pub no_live_trading : settings.live_trading_enabled ≡ false
  pub mode :
      (settings.event_source_mode ≡ "replay")
      ⊎ ((settings.event_source_mode ≡ "configured")
          × (has_sources settings.official_rss_feeds settings.sec_ciks settings.fred_series_ids
                settings.sec_user_agent settings.fred_api_key
              ≡ true))

mode-cases :
    (mode : String) (b : Bool)
    → is_mode mode ≡ true
    → (not (str_eq mode "configured") || b) ≡ true
    → (mode ≡ "replay") ⊎ ((mode ≡ "configured") × (b ≡ true))
mode-cases mode b h k = ground (arith, eq_iff mode "replay", eq_iff mode "configured")

module _ (runtime : ConfigRuntime) where
  completed-IsReady :
      (feeds : List OfficialRssFeedSettings)
      → is_mode (source_mode runtime) ≡ true
      → is_complete runtime feeds ≡ true
      → Gives IsReady (completed runtime feeds)
  completed-IsReady feeds known complete =
      bind-Gives IsReady (optional_utc_datetime runtime "EVENTALPHA_REPLAY_AT")
        (λ replay_at. do
          poll ← positive_float runtime "EVENTALPHA_MARKET_POLL_SECONDS" "5.0"
          ok (settings_of runtime feeds replay_at poll))
        (λ replay_at.
          bind-Gives IsReady (positive_float runtime "EVENTALPHA_MARKET_POLL_SECONDS" "5.0")
            (λ poll. ok (settings_of runtime feeds replay_at poll))
            (λ poll. record {
              no_live_trading = refl;
              mode = mode-cases (source_mode runtime) _ known complete;
            }))

  sourced-IsReady :
      is_mode (source_mode runtime) ≡ true
      → Gives IsReady (do
        feeds ← official_feeds runtime
        require (is_complete runtime feeds) runtime_error
        completed runtime feeds)
  sourced-IsReady known =
      bind-Gives IsReady (official_feeds runtime)
        (λ feeds. do require (is_complete runtime feeds) runtime_error; completed runtime feeds)
        (λ feeds.
          require-Gives IsReady (is_complete runtime feeds) runtime_error (completed runtime feeds)
            (completed-IsReady feeds known))

  from_environment-Gives : Gives IsReady (from_environment runtime)
  unfolding from_environment
  from_environment-Gives =
      let sourced : Result Settings = do
        feeds ← official_feeds runtime
        require (is_complete runtime feeds) runtime_error
        completed runtime feeds
      in require-Gives IsReady (not (bool runtime "EVENTALPHA_LIVE_TRADING_ENABLED" false))
        runtime_error (do require (is_mode (source_mode runtime)) runtime_error; sourced)
        (λ _.
          require-Gives IsReady (is_mode (source_mode runtime)) runtime_error sourced
            sourced-IsReady)

  pub from_environment-IsReady :
      (settings : Settings) → from_environment runtime ≡ ok settings → IsReady settings
  from_environment-IsReady settings h =
      Gives-ok IsReady (from_environment runtime) settings from_environment-Gives h
