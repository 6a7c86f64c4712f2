-- ===== src/Market/Service/Durability.antt =====
-- What the calls of the service keep in a persistence that keeps what it has saved
-- (services/api/app/market/service.py).
use event_alpha.Prelude.{◌≡◌, refl, ◌∙◌, String, Bool, true, false, List, Option}
use event_alpha.Errors.{ok, err, Result}
use event_alpha.Exec.{after}
use event_alpha.Contracts.Time.{Instant}
use event_alpha.Contracts.Market.{MarketQuote, MarketBar}
use event_alpha.Market.Interface.{MarketPersistence, MarketDataProvider}
use event_alpha.Market.Service.{World, Settings, provided, now}
use event_alpha.Market.Service.Frame.{Frame}
use event_alpha.Market.Service.Watchlist.{pull}

-- What the service relies on in its persistence: a notion of a quote being saved, which holds after
-- `save_quote` returns, and which no later call takes away.
pub record Durability (persistence : MarketPersistence) : Type 1 where
  pub Saved : MarketQuote → persistence.S → Type 0
  pub saves :
      (q : MarketQuote) (s : persistence.S) (r : Bool)
      → (persistence.save_quote q s).0 ≡ ok r
      → Saved q (persistence.save_quote q s).1
  pub keeps_save :
      (p q : MarketQuote) (s : persistence.S) → Saved p s → Saved p (persistence.save_quote q s).1
  pub keeps_bars :
      (p : MarketQuote) (bars : List MarketBar) (s : persistence.S)
      → Saved p s
      → Saved p (persistence.save_bars bars s).1
  pub keeps_success :
      (p : MarketQuote) (name : String) (at : Instant) (message : Option Instant)
      (reconnected : Bool) (s : persistence.S)
      → Saved p s
      → Saved p (persistence.record_success name at message reconnected s).1
  pub keeps_failure :
      (p : MarketQuote) (name : String) (at : Instant) (detail : String) (exhausted : Bool)
      (message : Option Instant) (s : persistence.S)
      → Saved p s
      → Saved p (persistence.record_failure name at detail exhausted message s).1

module _ (persistence : MarketPersistence) (provider : MarketDataProvider) (settings : Settings)
    (durability : Durability persistence) where
  open durability use {Saved, keeps_bars, keeps_save, keeps_success, keeps_failure}

  abbrev WorldOf : Type 0
  WorldOf = World persistence provider

  -- Nothing that was saved is lost, and what is shown stays as it is.
  pub record Extends (w w' : WorldOf) : Type 0 where
    pub keeps : (p : MarketQuote) → Saved p w.store → Saved p w'.store
    pub same : w'.latest ≡ w.latest

  pub Extends-trans : {u v w : WorldOf} → Extends u v → Extends v w → Extends u w
  Extends-trans h k = record { keeps = λ p s. k.keeps p (h.keeps p s); same = k.same ∙ h.same }

  pub Extends-refl : (w : WorldOf) → Extends w w
  Extends-refl w = record { keeps = λ p s. s; same = refl }

  -- Whatever is not a call of the provider or an update of what is shown extends the world.
  unfoldable pub durable : Frame persistence provider settings
  unfolding now
  durable = record {
    R = Extends;
    R_refl = Extends-refl;
    R_trans = λ u v w. Extends-trans;
    on_now = λ w. record { keeps = λ p s. s; same = refl };
    on_failure = λ at detail exhausted message w. record {
      keeps = λ p. keeps_failure p provider.name at detail exhausted message w.store;
      same = refl;
    };
    on_success = λ at message reconnected w. record {
      keeps = λ p. keeps_success p provider.name at message reconnected w.store;
      same = refl;
    };
    on_save_quote = λ quote w. record { keeps = λ p. keeps_save p quote w.store; same = refl };
    on_save_bars = λ bars w. record { keeps = λ p. keeps_bars p bars w.store; same = refl };
  }

  opened-Extends :
      (r : Result (Unit {0})) (w : WorldOf)
      → Extends w (after r (λ _. provided persistence provider provider.anext) w).1
  opened-Extends (ok u) w = record { keeps = λ p s. s; same = refl }
  opened-Extends (err e) w = Extends-refl w

  pub pull-Extends :
      (symbols : List String) (streaming : Bool) (w : WorldOf)
      → Extends w (pull persistence provider settings symbols streaming w).1
  unfolding pull
  pull-Extends symbols true w = record { keeps = λ p s. s; same = refl }
  pull-Extends symbols false w =
      let opened = provided persistence provider (provider.stream_quotes symbols) w in
      Extends-trans {v = opened.1} (record { keeps = λ p s. s; same = refl })
        (opened-Extends opened.0 opened.1)
