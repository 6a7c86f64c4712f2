-- ===== src/News/Sources.antt =====
-- The news providers of settings that come from the environment.
use event_alpha.Prelude.{
  ◌+◌, ◌≤◌, ◌≡◌, refl, sym, ap, ◌∙◌, ◌⊎◌, inl, inr, String, true, false, not, ◌&&◌, ◌||◌, List, [],
  ◌∷◌, ◌++◌, map, Option, none, some, or_else, arith, length, length-append, length-map, str_eq,
  eq_iff,
}
use event_alpha.Errors.{Result, ok}
use event_alpha.Config.{
  ConfigRuntime, Settings, OfficialRssFeedSettings, is_empty, is_set, is_some, has_sources, strip,
  from_environment,
}
use event_alpha.Config.Ready.{from_environment-IsReady}
use event_alpha.News.{
  NewsSource, replay_news, official_rss, sec_submissions, fred_observations, zfill, each,
  sec_provider, fred_provider, keyed, build_news_providers,
}

module _ (runtime : ConfigRuntime) where
  -- A key that is given is not blank.
  abbrev pub IsUsable : Option String → Type 0
  IsUsable key =
      (key ≡ none) ⊎ ((text : String) × (key ≡ some text) × (is_empty (strip runtime text) ≡ false))

  -- Every provider of a list can be made.
  each-ok :
      (f : String → Result NewsSource) (g : String → NewsSource) (ids : List String)
      → ((id : String) → f id ≡ ok (g id))
      → each f ids ≡ ok (map g ids)
  unfolding each
  each-ok f g [] h = refl
  each-ok f g (id ∷ ids) h = rw (h id, each-ok f g ids h) refl

  keyed-ok :
      (provider : String → String → Result NewsSource) (made : String → String → NewsSource)
      (key : Option String) (ids : List String)
      → ((text id : String)
          → is_empty (strip runtime text) ≡ false
          → provider text id ≡ ok (made text id))
      → not (is_set ids && not (is_some key)) ≡ true
      → IsUsable key
      → keyed runtime provider key ids ≡ ok (map (made (or_else key "")) ids)
  keyed-ok provider made key [] make h usable = refl
  keyed-ok provider made none (id ∷ ids) make h usable = absurd (cc h)
  keyed-ok provider made (some text) (id ∷ ids) make h (inl absent) = absurd (cc absent)
  keyed-ok provider made (some text) (id ∷ ids) make h (inr (other, same, stripped)) =
      let is_text : other ≡ text = cc same in
      each-ok (provider text) (made text) (id ∷ ids)
        (λ i. make text i (ap (λ t. is_empty (strip runtime t)) (sym is_text) ∙ stripped))

  abbrev pub sec_source : String → String → NewsSource
  sec_source agent cik = sec_submissions (zfill 10 cik) agent

  abbrev pub fred_source : String → String → NewsSource
  fred_source key series_id = fred_observations series_id key

  -- One provider for each feed, each CIK and each series, in this order.
  abbrev pub configured_sources : Settings → List NewsSource
  configured_sources settings =
      map official_rss settings.official_rss_feeds
      ++ (map (sec_source (or_else settings.sec_user_agent "")) settings.sec_ciks
          ++ map (fred_source (or_else settings.fred_api_key "")) settings.fred_series_ids)

  one_set :
      (feeds : List OfficialRssFeedSettings) (ciks series : List String)
      → (is_set feeds || is_set ciks || is_set series) ≡ true
      → 1 ≤ length feeds + (length ciks + length series)
  one_set (feed ∷ feeds) ciks series h = omega arith
  one_set [] (cik ∷ ciks) series h = omega arith
  one_set [] [] (id ∷ series) h = omega arith
  one_set [] [] [] h = absurd (cc h)

  some_source :
      (settings : Settings)
      → (is_set settings.official_rss_feeds
          || is_set settings.sec_ciks
          || is_set settings.fred_series_ids)
        ≡ true
      → 1 ≤ length (configured_sources settings)
  some_source settings h =
      let feeds = map official_rss settings.official_rss_feeds in
      let filings = map (sec_source (or_else settings.sec_user_agent "")) settings.sec_ciks in
      let series = map (fred_source (or_else settings.fred_api_key "")) settings.fred_series_ids in
      let some_id =
        one_set settings.official_rss_feeds settings.sec_ciks settings.fred_series_ids h in
      omega (
        arith,
        length-append feeds (filings ++ series),
        length-append filings series,
        length-map official_rss settings.official_rss_feeds,
        length-map (sec_source (or_else settings.sec_user_agent "")) settings.sec_ciks,
        length-map (fred_source (or_else settings.fred_api_key "")) settings.fred_series_ids,
        some_id,
      )

  -- The providers are those of the mode, and one at least.
  abbrev pub IsSources : Settings → List NewsSource → Type 0
  IsSources settings sources =
      (((settings.event_source_mode ≡ "replay") × (sources ≡ replay_news ∷ []))
        ⊎ ((settings.event_source_mode ≡ "configured") × (sources ≡ configured_sources settings)))
      × (1 ≤ length sources)

  sec_provider-ok :
      (text cik : String)
      → is_empty (strip runtime text) ≡ false
      → sec_provider runtime text cik ≡ ok (sec_source text cik)
  sec_provider-ok text cik h = rw h refl

  fred_provider-ok :
      (text id : String)
      → is_empty (strip runtime text) ≡ false
      → fred_provider runtime text id ≡ ok (fred_source text id)
  fred_provider-ok text id h = rw h refl

  build_news_providers-IsSources :
      (settings : Settings)
      → IsUsable settings.sec_user_agent
      → IsUsable settings.fred_api_key
      → (settings.event_source_mode ≡ "replay")
        ⊎ ((settings.event_source_mode ≡ "configured")
            × (has_sources settings.official_rss_feeds settings.sec_ciks settings.fred_series_ids
                  settings.sec_user_agent settings.fred_api_key
                ≡ true))
      → (sources : List NewsSource) × (build_news_providers runtime settings ≡ ok sources)
        × IsSources settings sources
  unfolding build_news_providers
  build_news_providers-IsSources settings agent key (inl replay) =
      let is_replay = (eq_iff settings.event_source_mode "replay").1 replay in
      (replay_news ∷ [], rw is_replay refl, (inl (replay, refl), omega arith))
  build_news_providers-IsSources settings agent key (inr (configured, complete)) =
      let not_replay : str_eq settings.event_source_mode "replay" ≡ false =
        ap (λ m. str_eq m "replay") configured in
      let filings =
        keyed-ok (sec_provider runtime) sec_source settings.sec_user_agent settings.sec_ciks
          sec_provider-ok (ground (arith, complete)) agent in
      let series =
        keyed-ok (fred_provider runtime) fred_source settings.fred_api_key settings.fred_series_ids
          fred_provider-ok (ground (arith, complete)) key in
      (
        configured_sources settings,
        rw (not_replay, filings, series) refl,
        (inr (configured, refl), some_source settings (ground (arith, complete))),
      )

  -- For settings that come from the environment, and whose keys are not blank, the providers are
  -- made without an error: the replay alone, or one for each feed, each CIK and each series, and one
  -- at least. Live trading is off.
  pub build_news_providers_ready :
      (settings : Settings)
      → from_environment runtime ≡ ok settings
      → IsUsable settings.sec_user_agent
      → IsUsable settings.fred_api_key
      → (settings.live_trading_enabled ≡ false)
        × (sources : List NewsSource) × (build_news_providers runtime settings ≡ ok sources)
        × IsSources settings sources
  build_news_providers_ready settings h agent key =
      let ready = from_environment-IsReady runtime settings h in
      let (sources, built, are) = build_news_providers-IsSources settings agent key ready.mode in
      (ready.no_live_trading, sources, built, are)
