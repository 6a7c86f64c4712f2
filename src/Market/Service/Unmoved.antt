-- ===== src/Market/Service/Unmoved.antt =====
-- The calls of the persistence leave the provider and the sleeps of the service as they are
-- (services/api/app/market/service.py).
use event_alpha.Prelude.{◌≡◌, refl, ◌∙◌}
use event_alpha.Market.Interface.{MarketPersistence, MarketDataProvider}
use event_alpha.Market.Service.{World, Settings, now}
use event_alpha.Market.Service.Frame.{Frame}

module _ (persistence : MarketPersistence) (provider : MarketDataProvider)
    (settings : Settings) where
  abbrev WorldOf : Type 0
  WorldOf = World persistence provider

  -- The provider, and the sleeps, stay as they are.
  pub record Unmoved (w w' : WorldOf) : Type 0 where
    pub source : w'.source ≡ w.source
    pub sleeps : w'.sleeps ≡ w.sleeps

  pub Unmoved-by : (w w' : WorldOf) → w'.source ≡ w.source → w'.sleeps ≡ w.sleeps → Unmoved w w'
  Unmoved-by w w' p q = record { source = p; sleeps = q }

  unfoldable pub unmoved : Frame persistence provider settings
  unfolding now
  unmoved = record {
    R = Unmoved;
    R_refl = λ w. Unmoved-by w w refl refl;
    R_trans = λ u v w h k. Unmoved-by u w (k.source ∙ h.source) (k.sleeps ∙ h.sleeps);
    on_now = λ w. Unmoved-by w _ refl refl;
    on_failure = λ at detail exhausted message w. Unmoved-by w _ refl refl;
    on_success = λ at message reconnected w. Unmoved-by w _ refl refl;
    on_save_quote = λ quote w. Unmoved-by w _ refl refl;
    on_save_bars = λ bars w. Unmoved-by w _ refl refl;
  }

  pub Unmoved-trans : (u v w : WorldOf) → Unmoved u v → Unmoved v w → Unmoved u w
  Unmoved-trans u v w h k = Unmoved-by u w (k.source ∙ h.source) (k.sleeps ∙ h.sleeps)
