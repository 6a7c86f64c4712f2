-- ===== src/Market/Service/Frame.antt =====
-- What the calls of the service keep, whether they return or raise
-- (services/api/app/market/service.py).
use event_alpha.Prelude.{String, Bool, true, false, List, Option, none, some, if◌then◌else◌}
use event_alpha.Errors.{Exc, Result, ok, err, type_name, market_persistence_error}
use Prim.Native.String.{◌++◌}
use event_alpha.Exec.{Exec, after, ◌>>=◌, ◌>>◌, pure, raise, handled, catch}
use event_alpha.Contracts.Time.{Instant}
use event_alpha.Contracts.Market.{MarketQuote, MarketBar}
use event_alpha.Market.Interface.{MarketPersistence, MarketDataProvider}
use event_alpha.Market.Service.{
  World, Settings, stored, now, save_quote, raise_persistence_failure, record_success, save_bars,
  last_received,
}
use event_alpha.Market.Service.Watchlist.{note_failure}

-- A relation between the world before and after that every call of the persistence and every
-- reading of the clock keeps: all that the service does besides its calls of the provider, its
-- sleeps and its update of the quotes it shows.
pub record Frame (persistence : MarketPersistence) (provider : MarketDataProvider)
    (settings : Settings) : Type 1 where
  pub R : World persistence provider → World persistence provider → Type 0
  pub R_refl : (w : World persistence provider) → R w w
  pub R_trans : (u v w : World persistence provider) → R u v → R v w → R u w
  pub on_now : (w : World persistence provider) → R w (now persistence provider settings w).1
  pub on_failure :
      (at : Instant) (detail : String) (exhausted : Bool) (message : Option Instant)
      (w : World persistence provider)
      → R w
          (stored persistence provider
            (persistence.record_failure provider.name at detail exhausted message)
            w).1
  pub on_success :
      (at : Instant) (message : Option Instant) (reconnected : Bool)
      (w : World persistence provider)
      → R w
          (stored persistence provider
            (persistence.record_success provider.name at message reconnected)
            w).1
  pub on_save_quote :
      (quote : MarketQuote) (w : World persistence provider)
      → R w (stored persistence provider (persistence.save_quote quote) w).1
  pub on_save_bars :
      (bars : List MarketBar) (w : World persistence provider)
      → R w (stored persistence provider (persistence.save_bars bars) w).1

module _ (persistence : MarketPersistence) (provider : MarketDataProvider) (settings : Settings)
    (frame : Frame persistence provider settings) where
  open frame use {R, R_refl, R_trans, on_now, on_failure, on_success, on_save_quote, on_save_bars}

  abbrev WorldOf : Type 0
  WorldOf = World persistence provider

  -- A method that keeps the relation, whether it returns or raises.
  abbrev pub Keeps : {A : Type 0} → Exec WorldOf A → Type 0
  Keeps m = (w : WorldOf) → R w (m w).1

  after-R :
      {A B : Type 0} (r : Result A) (f : A → Exec WorldOf B) (w : WorldOf)
      → ((a : A) → Keeps (f a))
      → R w (after r f w).1
  after-R (ok a) f w h = h a w
  after-R (err e) f w h = R_refl w

  bind-Keeps :
      {A B : Type 0} (m : Exec WorldOf A) (f : A → Exec WorldOf B)
      → Keeps m
      → ((a : A) → Keeps (f a))
      → Keeps (m >>= f)
  bind-Keeps m f h k w = R_trans w (m w).1 _ (h w) (after-R (m w).0 f (m w).1 k)

  handled-R :
      {A : Type 0} (r : Result A) (f : Exc → Exec WorldOf A) (w : WorldOf)
      → ((e : Exc) → Keeps (f e))
      → R w (handled r f w).1
  handled-R (ok a) f w h = R_refl w
  handled-R (err e) f w h = h e w

  catch-Keeps :
      {A : Type 0} (m : Exec WorldOf A) (f : Exc → Exec WorldOf A)
      → Keeps m
      → ((e : Exc) → Keeps (f e))
      → Keeps (catch m f)
  catch-Keeps m f h k w = R_trans w (m w).1 _ (h w) (handled-R (m w).0 f (m w).1 k)

  pub if-Keeps :
      {A : Type 0} (b : Bool) (m n : Exec WorldOf A)
      → Keeps m
      → Keeps n
      → Keeps (if b then m else n)
  if-Keeps true m n h k = h
  if-Keeps false m n h k = k

  -- The clock is read, and then the failure is recorded.
  unfoldable pub noted : String → Bool → Option Instant → Exec WorldOf (Unit {0})
  noted detail exhausted message = do
    at ← now persistence provider settings
    stored persistence provider
        (persistence.record_failure provider.name at detail exhausted message)

  pub noted-Keeps :
      (detail : String) (exhausted : Bool) (message : Option Instant)
      → Keeps (noted detail exhausted message)
  unfolding noted
  noted-Keeps detail exhausted message =
      bind-Keeps (now persistence provider settings)
        (λ at.
          stored persistence provider
            (persistence.record_failure provider.name at detail exhausted message))
        on_now (λ at. on_failure at detail exhausted message)

  raise-Keeps :
      (A : Type 0) (error : Exc) (message : Option Instant)
      → Keeps (raise_persistence_failure persistence provider settings {A = A} error message)
  unfolding raise_persistence_failure noted
  raise-Keeps A error message =
      if-Keeps settings.persistent _ _
        (bind-Keeps (catch (noted ("persistence:" ++ type_name error) true message) (λ _. pure tt))
          (λ _. raise (market_persistence_error error))
          (catch-Keeps (noted ("persistence:" ++ type_name error) true message) (λ _. pure tt)
            (noted-Keeps ("persistence:" ++ type_name error) true message) (λ _. R_refl))
          (λ _. R_refl))
        R_refl

  pub note_failure-Keeps :
      (error : Exc) (exhausted : Bool) (message : Option Instant)
      → Keeps (note_failure persistence provider settings error exhausted message)
  unfolding note_failure noted
  note_failure-Keeps error exhausted message =
      if-Keeps settings.persistent _ (pure tt)
        (catch-Keeps (noted (type_name error) exhausted message) _
          (noted-Keeps (type_name error) exhausted message) (λ _. R_refl))
        R_refl

  pub record_success-Keeps :
      (message : Option Instant) (reconnected : Bool)
      → Keeps (record_success persistence provider settings message reconnected)
  unfolding record_success
  record_success-Keeps message reconnected =
      if-Keeps settings.persistent _ (pure tt)
        (catch-Keeps
          (do
            at ← now persistence provider settings
            stored persistence provider
                (persistence.record_success provider.name at message reconnected))
          (λ error.
            raise_persistence_failure persistence provider settings {A = Unit {0}} error message)
          (bind-Keeps (now persistence provider settings)
            (λ at.
              stored persistence provider
                (persistence.record_success provider.name at message reconnected))
            on_now (λ at. on_success at message reconnected))
          (λ error. raise-Keeps (Unit {0}) error message))
        R_refl

  pub save_quote-Keeps :
      (quote : MarketQuote) → Keeps (save_quote persistence provider settings quote)
  unfolding save_quote
  save_quote-Keeps quote =
      if-Keeps settings.persistent _ (pure tt)
        (catch-Keeps (do stored persistence provider (persistence.save_quote quote); pure tt)
          (λ error.
            raise_persistence_failure persistence provider settings {A = Unit {0}} error
              (some quote.received_at))
          (bind-Keeps (stored persistence provider (persistence.save_quote quote)) (λ _. pure tt)
            (on_save_quote quote) (λ _. R_refl))
          (λ error. raise-Keeps (Unit {0}) error (some quote.received_at)))
        R_refl

  pub save_bars-Keeps :
      (bars : List MarketBar) → Keeps (save_bars persistence provider settings bars)
  unfolding save_bars
  save_bars-Keeps bars =
      if-Keeps settings.persistent _ (pure tt)
        (catch-Keeps (do stored persistence provider (persistence.save_bars bars); pure tt)
          (λ error.
            raise_persistence_failure persistence provider settings {A = Unit {0}} error
              (last_received persistence provider settings none bars))
          (bind-Keeps (stored persistence provider (persistence.save_bars bars)) (λ _. pure tt)
            (on_save_bars bars) (λ _. R_refl))
          (λ error.
            raise-Keeps (Unit {0}) error (last_received persistence provider settings none bars)))
        R_refl
