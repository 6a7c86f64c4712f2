-- ===== src/Market/Service/Calm.antt =====
-- The saves of services/api/app/market/service.py raise only MarketPersistenceError, which the
-- loops do not take for a transient error of the provider.
use event_alpha.Prelude.{Bool, true, false, ◌≡◌, refl, Option, some, if-at}
use Prim.Native.String.{◌++◌}
use event_alpha.Errors.{Exc, Result, ok, err, is_transient, type_name, market_persistence_error}
use event_alpha.Exec.{Exec, after, handled, catch, ◌>>=◌, ◌>>◌, pure, raise}
use event_alpha.Contracts.Time.{Instant}
use event_alpha.Contracts.Market.{MarketQuote}
use event_alpha.Market.Interface.{MarketPersistence, MarketDataProvider}
use event_alpha.Market.Service.{
  World, Settings, now, stored, raise_persistence_failure, save_quote, record_success,
}

-- A result that is no transient error.
abbrev pub IsCalm : {A : Type 0} → Result A → Type 0
IsCalm (ok a) = Unit {0}
IsCalm (err e) = is_transient e ≡ false

handled-IsCalm :
    {S : Type 0} (r : Result (Unit {0})) (f : Exc → Exec S (Unit {0})) (s : S)
    → ((e : Exc) (t : S) → IsCalm (f e t).0)
    → IsCalm (handled r f s).0
handled-IsCalm (ok a) f s h = tt
handled-IsCalm (err e) f s h = h e s

catch-IsCalm :
    {S : Type 0} (m : Exec S (Unit {0})) (f : Exc → Exec S (Unit {0})) (s : S)
    → ((e : Exc) (t : S) → IsCalm (f e t).0)
    → IsCalm (catch m f s).0
catch-IsCalm m f s h = handled-IsCalm (m s).0 f (m s).1 h

after-IsCalm :
    {S : Type 0} (r : Result (Unit {0})) (f : Unit {0} → Exec S (Unit {0})) (s : S)
    → IsCalm r
    → ((a : Unit {0}) (t : S) → IsCalm (f a t).0)
    → IsCalm (after r f s).0
after-IsCalm (ok a) f s h k = k a s
after-IsCalm (err e) f s h k = h

bind-IsCalm :
    {S : Type 0} (m n : Exec S (Unit {0})) (s : S)
    → IsCalm (m s).0
    → ((t : S) → IsCalm (n t).0)
    → IsCalm ((m >> n) s).0
bind-IsCalm m n s h k = after-IsCalm (m s).0 (λ _. n) (m s).1 h (λ _. k)

module _ (persistence : MarketPersistence) (provider : MarketDataProvider)
    (settings : Settings) where
  abbrev WorldOf : Type 0
  WorldOf = World persistence provider

  abbrev IsCalmAt : WorldOf → Exec WorldOf (Unit {0}) → Type 0
  IsCalmAt w m = IsCalm (m w).0

  raise_persistence_failure-IsCalm :
      (error : Exc) (message : Option Instant) (w : WorldOf)
      → IsCalmAt w (raise_persistence_failure persistence provider settings error message)
  unfolding raise_persistence_failure is_transient
  raise_persistence_failure-IsCalm error message w =
      if-at (IsCalmAt w) settings.persistent _ _
        (bind-IsCalm
          (catch
            (do
              at ← now persistence provider settings
              stored persistence provider (
                  persistence.record_failure provider.name at ("persistence:" ++ type_name error)
                    true message))
            (λ _. pure tt))
          (raise (market_persistence_error error)) w
          (catch-IsCalm
            (do
              at ← now persistence provider settings
              stored persistence provider (
                  persistence.record_failure provider.name at ("persistence:" ++ type_name error)
                    true message))
            (λ _. pure tt) w (λ e t. tt))
          (λ t. refl))
        refl

  pub save_quote-IsCalm :
      (quote : MarketQuote) (w : WorldOf)
      → IsCalmAt w (save_quote persistence provider settings quote)
  unfolding save_quote
  save_quote-IsCalm quote w =
      if-at (IsCalmAt w) settings.persistent _ _
        (catch-IsCalm (do stored persistence provider (persistence.save_quote quote); pure tt)
          (λ error.
            raise_persistence_failure persistence provider settings error (some quote.received_at))
          w (λ e t. raise_persistence_failure-IsCalm e (some quote.received_at) t))
        tt

  pub record_success-IsCalm :
      (message : Option Instant) (reconnected : Bool) (w : WorldOf)
      → IsCalmAt w (record_success persistence provider settings message reconnected)
  unfolding record_success
  record_success-IsCalm message reconnected w =
      if-at (IsCalmAt w) settings.persistent _ _
        (catch-IsCalm
          (do
            at ← now persistence provider settings
            stored persistence provider
                (persistence.record_success provider.name at message reconnected))
          (λ error. raise_persistence_failure persistence provider settings error message) w
          (λ e t. raise_persistence_failure-IsCalm e message t))
        tt
