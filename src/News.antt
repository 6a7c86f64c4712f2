-- ===== src/News.antt =====
-- services/api/app/providers/news/factory.py: the news providers that the settings ask for, and
-- what their constructors refuse (services/api/app/providers/news/http_sources.py).
pub mod Sources
pub mod Retry
use Prim.Native.Char.{code}
use event_alpha.Prelude.{
  ℕ, zero, suc, ◌+◌, ◌-◌, ◌≤◌, ◌≡◌, ◌≢◌, refl, sym, ap, ◌∙◌, ◌⊎◌, inl, inr, String, Bool, true,
  false, not, ◌&&◌, ◌||◌, List, [], ◌∷◌, ◌++◌, map, Option, none, some, arith, length,
  length-append, length-map, eq_iff, str_eq, ◌==◌, if◌then◌else◌, Bool-cases,
}
use Prim.Native.String.{◌++◌ as ◌+text+◌}
use event_alpha.Errors.{Result, ok, err, runtime_error, value_error, ◌>>=◌}
use event_alpha.Contracts.{char_count}
use event_alpha.Config.{
  ConfigRuntime, Settings, OfficialRssFeedSettings, is_empty, is_set, is_some, has_sources, strip,
  from_environment,
}
use event_alpha.Config.Ready.{IsReady, from_environment-IsReady}

-- A provider with the arguments that it keeps.
pub data NewsSource : Type 0 where
  replay_news : NewsSource
  official_rss : OfficialRssFeedSettings → NewsSource
  sec_submissions : String → String → NewsSource
  fred_observations : String → String → NewsSource

abbrev zeros : ℕ → String → String
zeros zero text = text
zeros (suc n) text = "0" +text+ zeros n text

-- text.zfill(width): a sign stays in front.
unfoldable pub zfill : ℕ → String → String
zfill width String.[] = zeros width ""
zfill width (String.◌∷◌ c rest) =
    let missing = width - char_count (String.◌∷◌ c rest) in
    if code c == b'+' || code c == b'-'
    then String.◌∷◌ c (zeros missing rest)
    else zeros missing (String.◌∷◌ c rest)

-- A comprehension whose elements may raise.
unfoldable pub each : {A B : Type 0} → (A → Result B) → List A → Result (List B)
each f [] = ok []
each f (x ∷ xs) = let rest = each f xs in (do y ← f x; ys ← rest; ok (y ∷ ys))

module _ (runtime : ConfigRuntime) where
  -- SecSubmissionsProvider(client, cik, user_agent)
  abbrev pub sec_provider : String → String → Result NewsSource
  sec_provider user_agent cik =
      if is_empty (strip runtime user_agent)
      then err value_error
      else ok (sec_submissions (zfill 10 cik) user_agent)

  -- FredObservationProvider(client, series_id, api_key)
  abbrev pub fred_provider : String → String → Result NewsSource
  fred_provider api_key series_id =
      if is_empty (strip runtime api_key)
      then err value_error
      else ok (fred_observations series_id api_key)

  -- The providers of the ids, if there are any: they need the key.
  abbrev pub keyed :
      (String → String → Result NewsSource) → Option String → List String → Result (List NewsSource)
  keyed provider key [] = ok []
  keyed provider none (id ∷ ids) = err runtime_error
  keyed provider (some key) (id ∷ ids) = each (provider key) (id ∷ ids)

  -- `build_news_providers`
  unfoldable pub build_news_providers : Settings → Result (List NewsSource)
  unfolding each zfill
  build_news_providers settings =
      if str_eq settings.event_source_mode "replay" then ok (replay_news ∷ []) else (do
        filings ← keyed sec_provider settings.sec_user_agent settings.sec_ciks
        series ← keyed fred_provider settings.fred_api_key settings.fred_series_ids
        ok (map official_rss settings.official_rss_feeds ++ (filings ++ series)))
