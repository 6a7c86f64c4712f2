-- ===== src/Market/Service/Attempts.antt =====
-- How often `refresh_bars` of services/api/app/market/service.py tries again.
use event_alpha.Prelude.{
  ℕ, zero, suc, ◌+◌, ◌-◌, ◌*◌, ◌≤◌, ◌≡◌, refl, ap, String, Bool, true, false, not, List, [], ◌∷◌,
  Option, none, some, ltb, ◌==◌, length, arith, if-at, if◌then◌else◌,
}
use event_alpha.Errors.{Exc, Result, ok, err, is_transient, type_name}
use event_alpha.Exec.{Exec, ◌>>◌, pure, raise, after_both}
use event_alpha.Contracts.Market.{MarketBar, MarketTimeframe}
use event_alpha.Market.Interface.{MarketPersistence, MarketDataProvider}
use event_alpha.Market.Service.{World, Settings, provided, save_bars, record_success, timeframe_of}
use event_alpha.Market.Service.Frame.{
  noted, noted-Keeps, if-Keeps, save_bars-Keeps, record_success-Keeps,
}
use event_alpha.Market.Service.Unmoved.{Unmoved, Unmoved-by, Unmoved-trans, unmoved}
use event_alpha.Market.Service.Watchlist.{sleep}
use event_alpha.Market.Service.Bars.{
  note_attempt, sleep_then, on_fetched, fetch, fetch_each, refresh_bars, supported,
}

module _ (persistence : MarketPersistence) (provider : MarketDataProvider)
    (settings : Settings) where
  abbrev WorldOf : Type 0
  WorldOf = World persistence provider

  -- At most n sleeps come between.
  Sleeps : ℕ → WorldOf → WorldOf → Type 0
  Sleeps n w w' = length w'.sleeps ≤ length w.sleeps + n

  Sleeps-Unmoved :
      (n : ℕ) (w w' : WorldOf) → Unmoved persistence provider settings w w' → Sleeps n w w'
  unfolding Sleeps
  Sleeps-Unmoved n w w' h = let same = ap (λ (l : List ℕ). length l) h.sleeps in omega arith

  note_attempt-Unmoved :
      (error : Exc) (exhausted : Bool) (w : WorldOf)
      → Unmoved persistence provider settings w
          (note_attempt persistence provider settings error exhausted w).1
  unfolding note_attempt noted unmoved
  note_attempt-Unmoved error exhausted w =
      if-Keeps persistence provider settings (unmoved persistence provider settings)
        settings.persistent _ (pure tt)
        (noted-Keeps persistence provider settings (unmoved persistence provider settings)
          (type_name error) exhausted none)
        (λ w'. Unmoved-by persistence provider settings w' w' refl refl) w

  saved-Unmoved :
      (attempt : ℕ) (bars : List MarketBar) (w : WorldOf)
      → let m : Exec WorldOf ℕ = do
        save_bars persistence provider settings bars
        record_success persistence provider settings none (ltb 0 attempt)
        pure (length bars)
        in Unmoved persistence provider settings w (m w).1
  unfolding unmoved
  saved-Unmoved attempt bars w =
      let R = Unmoved persistence provider settings in
      let saved = save_bars persistence provider settings bars w in
      let first =
        save_bars-Keeps persistence provider settings (unmoved persistence provider settings) bars
          w in
      let recorded = record_success persistence provider settings none (ltb 0 attempt) saved.1 in
      let second = Unmoved-trans persistence provider settings w saved.1 recorded.1 first (
        record_success-Keeps persistence provider settings (unmoved persistence provider settings)
          none (ltb 0 attempt) saved.1) in
      after_both R saved.0 _ w saved.1 first
        (λ _. after_both R recorded.0 _ w recorded.1 second (λ _. second))

  -- After a failed attempt: the error, or a sleep and the other attempts.
  again-Sleeps :
      (exhausted : Bool) (attempt left : ℕ) (error : Exc) (rest : Exec WorldOf ℕ) (w s : WorldOf)
      → Sleeps 0 w s
      → (exhausted ≡ false → 1 ≤ left)
      → ((w' : WorldOf) → Sleeps (left - 1) w' (rest w').1)
      → Sleeps left w
          ((if exhausted
              then raise error
              else sleep_then persistence provider settings attempt rest)
            s).1
  unfolding Sleeps sleep_then sleep
  again-Sleeps true attempt left error rest w s h more k = omega arith
  again-Sleeps false attempt left error rest w s h more k =
      let bound = k (sleep persistence provider settings attempt s) in
      omega (arith, bound, more refl)

  on_fetched-Sleeps :
      (attempts attempt left : ℕ) (rest : Exec WorldOf ℕ) (r : Result (List MarketBar))
      (w : WorldOf)
      → attempt + suc left ≡ attempts
      → ((w' : WorldOf) → Sleeps (left - 1) w' (rest w').1)
      → Sleeps left w (on_fetched persistence provider settings attempts attempt rest r w).1
  unfolding on_fetched Sleeps
  on_fetched-Sleeps attempts attempt left rest (ok bars) w h k =
      Sleeps-Unmoved left w _ (saved-Unmoved attempt bars w)
  on_fetched-Sleeps attempts attempt left rest (err error) w h k =
      let exhausted = attempt == attempts - 1 in
      let noted' = note_attempt persistence provider settings error exhausted w in
      let same = note_attempt-Unmoved error exhausted w in
      if-at (λ (m : Exec WorldOf ℕ). Sleeps left w (m w).1) (is_transient error) _ _
        (after_both (Sleeps left) noted'.0 _ w noted'.1 (Sleeps-Unmoved left w noted'.1 same) (λ _.
          again-Sleeps exhausted attempt left error rest w noted'.1
            (Sleeps-Unmoved 0 w noted'.1 same) (λ e. ground arith) k))
        (omega arith)

  fetch-Sleeps :
      (attempts : ℕ) (timeframe : MarketTimeframe) (limit left attempt : ℕ) (symbol : String)
      (w : WorldOf)
      → attempt + left ≡ attempts
      → Sleeps
          (left - 1)
          w
          (fetch persistence provider settings attempts timeframe limit left attempt symbol w).1
  unfolding fetch Sleeps
  fetch-Sleeps attempts timeframe limit zero attempt symbol w h = omega arith
  fetch-Sleeps attempts timeframe limit (suc left) attempt symbol w h =
      let fetched = provided persistence provider (provider.bars symbol timeframe limit) w in
      let bound =
        on_fetched-Sleeps attempts attempt left
          (fetch persistence provider settings attempts timeframe limit left (attempt + 1) symbol)
          fetched.0 fetched.1 h
          (λ w'.
            fetch-Sleeps attempts timeframe limit left (attempt + 1) symbol w' (omega arith)) in
      let same : suc left - 1 ≡ left = omega arith in rw same bound

  fetch_each-Sleeps :
      (attempts : ℕ) (timeframe : MarketTimeframe) (limit count : ℕ) (symbols : List String)
      (w : WorldOf)
      → Sleeps
          (length symbols * (attempts - 1))
          w
          (fetch_each persistence provider settings attempts timeframe limit count symbols w).1
  unfolding fetch_each Sleeps
  fetch_each-Sleeps attempts timeframe limit count [] w = omega arith
  fetch_each-Sleeps attempts timeframe limit count (symbol ∷ symbols) w =
      let fetched =
        fetch persistence provider settings attempts timeframe limit attempts 0 symbol w in
      let first = fetch-Sleeps attempts timeframe limit attempts 0 symbol w (omega arith) in
      after_both (Sleeps (suc (length symbols) * (attempts - 1))) fetched.0
        (λ n. fetch_each persistence provider settings attempts timeframe limit (count + n) symbols)
        w fetched.1 (omega arith)
        (λ n.
          let later = fetch_each-Sleeps attempts timeframe limit (count + n) symbols fetched.1 in
          omega arith)

  supported-Sleeps :
      (symbols : List String) (limit attempts : ℕ) (timeframe : Option MarketTimeframe)
      (w : WorldOf)
      → Sleeps
          (length symbols * (attempts - 1))
          w
          (supported persistence provider settings symbols limit attempts timeframe w).1
  unfolding Sleeps
  supported-Sleeps symbols limit attempts none w = omega arith
  supported-Sleeps symbols limit attempts (some timeframe) w =
      if-at (λ (m : Exec WorldOf ℕ). Sleeps (length symbols * (attempts - 1)) w (m w).1)
        (ltb attempts 1) _ _ (omega arith) (fetch_each-Sleeps attempts timeframe limit 0 symbols w)

  -- Whatever a refresh of bars comes to, it has slept at most attempts - 1 times for each symbol.
  pub refresh_bars-sleeps :
      (symbols : List String) (timeframe : String) (limit attempts : ℕ) (w : WorldOf)
      → let (r, w') =
          refresh_bars persistence provider settings symbols timeframe limit attempts w in
        length w'.sleeps ≤ length w.sleeps + length symbols * (attempts - 1)
  unfolding refresh_bars Sleeps
  refresh_bars-sleeps symbols timeframe limit attempts w =
      if-at (λ (m : Exec WorldOf ℕ). Sleeps (length symbols * (attempts - 1)) w (m w).1)
        (not settings.provider_reads_enabled) _ _ (omega arith)
        (supported-Sleeps symbols limit attempts (timeframe_of timeframe) w)
