-- ===== src/Market/Service/Durable.antt =====
-- Persist before publish: what the service shows has been saved
-- (services/api/app/market/service.py).
use event_alpha.Prelude.{
  All, [], ◌∷◌, ℕ, zero, suc, ◌+◌, ◌≡◌, refl, sym, String, Bool, true, false, not, List, Option,
  some, ltb, leb, arith, if◌then◌else◌, if-at,
}
use event_alpha.Errors.{
  Exc, Result, ok, err, is_transient, type_name, runtime_error, value_error,
  market_persistence_error,
}
use Prim.Native.String.{◌++◌}
use event_alpha.Exec.{Exec, after, ◌>>◌, pure, raise, handled, catch}
use event_alpha.Contracts.Time.{Instant}
use event_alpha.Contracts.Market.{MarketQuote}
use event_alpha.Market.Interface.{MarketPersistence, MarketDataProvider}
use event_alpha.Market.Service.{
  World, Settings, stored, save_quote, raise_persistence_failure, record_success, remember,
  remember_quote, get, Quotes, is_newer,
}
use event_alpha.Market.Service.Durability.{Durability, Extends, durable, pull-Extends}
use event_alpha.Market.Service.Frame.{
  Frame, noted, save_quote-Keeps, record_success-Keeps, note_failure-Keeps,
}
use event_alpha.Market.Service.Watchlist.{
  Progress, Next, more, done, start, later_of, is_stop, pull, publish, note_failure, sleep,
  on_noted, on_transient, on_result, round, loop, refresh_watchlist,
}

module _ (persistence : MarketPersistence) (provider : MarketDataProvider) (settings : Settings)
    (durability : Durability persistence) (persistent : settings.persistent ≡ true) where
  open durability use {Saved, saves}

  abbrev WorldOf : Type 0
  WorldOf = World persistence provider

  unfoldable kept : Frame persistence provider settings
  kept = durable persistence provider settings durability

  data Raises : Result (Unit {0}) → Type 0 where
    raised : (e : Exc) → Raises (err e)

  after-Raises :
      {A : Type 0} (r : Result A) (f : A → Exec WorldOf (Unit {0})) (w : WorldOf)
      → ((a : A) → Raises (f a w).0)
      → Raises (after r f w).0
  after-Raises (ok a) f w h = h a
  after-Raises (err e) f w h = raised e

  if-Raises :
      (b : Bool) (m n : Exec WorldOf (Unit {0})) (w : WorldOf)
      → Raises (m w).0
      → Raises (n w).0
      → Raises ((if b then m else n) w).0
  if-Raises true m n w h k = h
  if-Raises false m n w h k = k

  raise-Raises :
      (error : Exc) (message : Option Instant) (w : WorldOf)
      → Raises
          (raise_persistence_failure persistence provider settings {A = Unit {0}} error message w).0
  unfolding raise_persistence_failure noted
  raise-Raises error message w =
      let m =
        catch
          (noted persistence provider settings kept ("persistence:" ++ type_name error) true
            message)
          (λ _. pure tt) in
      if-Raises settings.persistent _ _ w
        (after-Raises (m w).0 (λ _. raise (market_persistence_error error)) (m w).1
          (λ _. raised (market_persistence_error error)))
        (raised (market_persistence_error error))

  Raises-ok : {r : Result (Unit {0})} {A : Type 0} (u : Unit {0}) → Raises r → r ≡ ok u → A
  Raises-ok u (raised e) h = ground arith

  -- When an error is only raised again, a return means that the call returned.
  returned :
      (r : Result Bool) (f : Exc → Exec WorldOf (Unit {0})) (w : WorldOf) (u : Unit {0})
      → ((e : Exc) → Raises (f e w).0)
      → let (r', w') = after r (λ _. pure tt) w in
        ((handled r' f w').0 ≡ ok u) → ((a : Bool) × (r ≡ ok a)) × ((handled r' f w').1 ≡ w)
  returned (ok a) f w u h k = ((a, refl), refl)
  returned (err e) f w u h k = Raises-ok u (h e) k

  if-true : {A : Type 0} (b : Bool) (m n : A) → b ≡ true → (if b then m else n) ≡ m
  if-true true m n h = refl
  if-true false m n h = ground arith

  saving : MarketQuote → Exec WorldOf (Unit {0})
  saving quote =
      catch (do stored persistence provider (persistence.save_quote quote); pure tt)
        (λ error.
          raise_persistence_failure persistence provider settings {A = Unit {0}} error
            (some quote.received_at))

  save_quote-saving :
      (quote : MarketQuote) → save_quote persistence provider settings quote ≡ saving quote
  unfolding save_quote saving
  save_quote-saving quote = if-true settings.persistent _ (pure tt) persistent

  saving-Saved :
      (quote : MarketQuote) (w : WorldOf) (u : Unit {0})
      → (saving quote w).0 ≡ ok u
      → Saved quote (saving quote w).1.store
  unfolding saving
  saving-Saved quote w u h =
      let w' = (stored persistence provider (persistence.save_quote quote) w).1 in
      let ((a, answered), same) =
        returned (persistence.save_quote quote w.store).0
          (λ error.
            raise_persistence_failure persistence provider settings {A = Unit {0}} error
              (some quote.received_at))
          w' u (λ e. raise-Raises e (some quote.received_at) w') h in
      rw same (saves quote w.store a answered)

  save_quote-Saved :
      (quote : MarketQuote) (w : WorldOf) (u : Unit {0})
      → (save_quote persistence provider settings quote w).0 ≡ ok u
      → Saved quote (save_quote persistence provider settings quote w).1.store
  save_quote-Saved quote = rw save_quote-saving (saving-Saved quote)

  -- Every quote that is shown is saved, and so is every quote that it took the place of.
  unfoldable pub Shown : WorldOf → Type 0
  Shown w = All (λ (entry : String × MarketQuote). Saved entry.1 w.store) w.latest

  All-keeps :
      (w w' : WorldOf) (latest : Quotes)
      → ((p : MarketQuote) → Saved p w.store → Saved p w'.store)
      → All (λ (entry : String × MarketQuote). Saved entry.1 w.store) latest
      → All (λ (entry : String × MarketQuote). Saved entry.1 w'.store) latest
  All-keeps w w' [] keeps saved = tt
  All-keeps w w' ((symbol, quote) ∷ latest) keeps (first, rest) =
      (keeps quote first, All-keeps w w' latest keeps rest)

  Shown-Extends :
      (w w' : WorldOf) → Extends persistence provider settings durability w w' → Shown w → Shown w'
  unfolding Shown
  Shown-Extends w w' h shown = rw h.same (All-keeps w w' w.latest h.keeps shown)

  remember-Shown :
      (quote : MarketQuote) (w : WorldOf)
      → Saved quote w.store
      → Shown w
      → Shown (remember persistence provider settings quote w).1
  unfolding Shown remember remember_quote
  remember-Shown quote w saved shown =
      if-at (All (λ (entry : String × MarketQuote). Saved entry.1 w.store))
        (is_newer quote (get quote.symbol w.latest)) _ w.latest (saved, shown) shown

  after-Shown :
      {A B : Type 0} (r : Result A) (f : A → Exec WorldOf B) (w : WorldOf)
      → ((a : A) → r ≡ ok a → Shown (f a w).1)
      → Shown w
      → Shown (after r f w).1
  after-Shown (ok a) f w h k = h a refl
  after-Shown (err e) f w h k = k

  publish-Shown :
      (progress : Progress) (quote : MarketQuote) (w : WorldOf)
      → Shown w
      → Shown (publish persistence provider settings progress quote w).1
  unfolding publish remember kept durable
  publish-Shown progress quote w shown =
      let saved = save_quote persistence provider settings quote w in
      let message = later_of progress.last_message quote.received_at in
      let reconnected = progress.reconnect_pending in
      let keep =
        record_success-Keeps persistence provider settings kept (some message) reconnected
          saved.1 in
      let recorded =
        record_success persistence provider settings (some message) reconnected saved.1 in
      let extended =
        Shown-Extends w saved.1 (save_quote-Keeps persistence provider settings kept quote w)
          shown in
      let later = Shown-Extends saved.1 recorded.1 keep extended in
      after-Shown saved.0 _ saved.1
        (λ u answered.
          after-Shown recorded.0 _ recorded.1
            (λ _ _.
              remember-Shown quote recorded.1
                (keep.keeps quote (save_quote-Saved quote w u answered)) later)
            later)
        extended

  on_noted-Shown :
      (error : Exc) (exhausted : Bool) (progress : Progress) (r : Result (Unit {0})) (w : WorldOf)
      → Shown w
      → Shown (on_noted persistence provider settings error exhausted progress r w).1
  unfolding on_noted sleep Shown
  on_noted-Shown error exhausted progress (err e) w shown = shown
  on_noted-Shown error true progress (ok u) w shown = shown
  on_noted-Shown error false progress (ok u) w shown = shown

  on_transient-Shown :
      (attempts : ℕ) (error : Exc) (progress : Progress) (w : WorldOf)
      → Shown w
      → Shown (on_transient persistence provider settings attempts error progress w).1
  unfolding on_transient kept durable
  on_transient-Shown attempts error progress w shown =
      let exhausted = leb attempts (progress.consecutive_failures + 1) in
      let noted' =
        note_failure persistence provider settings error exhausted progress.last_message w in
      on_noted-Shown error exhausted _ noted'.0 noted'.1 (
        Shown-Extends w noted'.1
          (note_failure-Keeps persistence provider settings kept error exhausted
            progress.last_message w)
          shown)

  on_result-Shown :
      (attempts : ℕ) (progress : Progress) (r : Result Progress) (w : WorldOf)
      → Shown w
      → Shown (on_result persistence provider settings attempts progress r w).1
  unfolding on_result
  on_result-Shown attempts progress (ok next) w shown = shown
  on_result-Shown attempts progress (err error) w shown =
      if-at (λ (r : Next × WorldOf). Shown r.1) (is_stop persistence provider settings error) _ _
        shown
        (if-at (λ (r : Next × WorldOf). Shown r.1) (is_transient error) _ _
          (on_transient-Shown attempts error progress w shown) shown)

  round-Shown :
      (symbols : List String) (attempts : ℕ) (progress : Progress) (w : WorldOf)
      → Shown w
      → Shown (round persistence provider settings symbols attempts progress w).1
  unfolding round
  round-Shown symbols attempts progress w shown =
      let pulled = pull persistence provider settings symbols progress.streaming w in
      let before =
        Shown-Extends w pulled.1
          (pull-Extends persistence provider settings durability symbols progress.streaming w)
          shown in
      on_result-Shown attempts progress _ _ (
        after-Shown pulled.0 (publish persistence provider settings progress) pulled.1
          (λ quote _. publish-Shown progress quote pulled.1 before) before)

  ended :
      (result r : Result ℕ) (w w' : WorldOf)
      → Shown w
      → ◌≡◌ {A = Option (Result ℕ × WorldOf)} (some (result, w)) (some (r, w'))
      → Shown w'
  ended result r w w' shown h = let same : w ≡ w' = cc h in rw (sym same) shown

  loop-Shown :
      (fuel : ℕ) (symbols : List String) (attempts : ℕ) (next : Next) (w w' : WorldOf)
      (r : Result ℕ)
      → Shown w
      → loop persistence provider settings fuel symbols attempts next w ≡ some (r, w')
      → Shown w'
  unfolding loop
  loop-Shown fuel symbols attempts (done result) w w' r shown h = ended result r w w' shown h
  loop-Shown zero symbols attempts (more progress) w w' r shown h = ground arith
  loop-Shown (suc fuel) symbols attempts (more progress) w w' r shown h =
      let turned = round persistence provider settings symbols attempts progress w in
      loop-Shown fuel symbols attempts turned.0 turned.1 w' r
        (round-Shown symbols attempts progress w shown) h

  -- When a persistence is given that keeps what it has saved, then at the end of a refresh of the
  -- watchlist, whatever it comes to, every quote that the service shows is saved, if so it was
  -- before.
  pub refresh_watchlist-Shown :
      (fuel : ℕ) (symbols : List String) (attempts : ℕ) (w w' : WorldOf) (r : Result ℕ)
      → Shown w
      → refresh_watchlist persistence provider settings fuel symbols attempts w ≡ some (r, w')
      → Shown w'
  unfolding refresh_watchlist
  refresh_watchlist-Shown fuel symbols attempts w w' r shown =
      if-at (λ o. o ≡ some (r, w') → Shown w') (not settings.provider_reads_enabled) _ _
        (ended (err runtime_error) r w w' shown)
        (if-at (λ o. o ≡ some (r, w') → Shown w') (ltb attempts 1) _ _
          (ended (err value_error) r w w' shown)
          (loop-Shown fuel symbols attempts (more start) w w' r shown))
