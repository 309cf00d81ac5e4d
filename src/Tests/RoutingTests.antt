-- ===== src/Tests/RoutingTests.antt =====
-- Org 1 with a master and two slaves, one of them paused, and org 2 with a slave.
use forex_automated_copy_tra.Base.{ℕ, ◌≡◌, refl, true, false, List, [], ◌∷◌, map}
use forex_automated_copy_tra.Decimal.{of_int}
use forex_automated_copy_tra.Models.{SlaveConfig}
use forex_automated_copy_tra.Dispatch.{ok, paused}
use forex_automated_copy_tra.Routing.{AccountRow, master, slave, ctrader, mt5, build_routing}
use forex_automated_copy_tra.Routing.Cache.{Use, calls, invalidates, serve, fresh_cache}
use forex_automated_copy_tra.Routing.Fresh.{IsFresh, serve-IsFresh}
use forex_automated_copy_tra.Routing.Fleets.{fleet, own_slaves, fleet-build_routing}

abbrev leader : AccountRow
leader = record {
  account_id = 5;
  org_id = 1;
  role = master;
  enabled = true;
  multiplier = of_int 1;
  status = ok;
  platform = ctrader;
}

abbrev accounts : List AccountRow
accounts =
    leader
    ∷ record leader { account_id = 6; role = slave }
    ∷ record leader { account_id = 7; role = slave; org_id = 2 }
    ∷ record leader { account_id = 8; role = slave; status = paused; platform = mt5 }
    ∷ []

fleet_of_one :
    map (λ (s : SlaveConfig). s.enabled) (fleet 1 (build_routing (λ a. []) (λ a. []) accounts))
    ≡ true ∷ false ∷ []
unfolding build_routing
fleet_of_one = refl

fleet-build_routing_example :
    fleet 1 (build_routing (λ a. []) (λ a. []) accounts) ≡ own_slaves (λ a. []) (λ a. []) 1 accounts
fleet-build_routing_example = fleet-build_routing (λ a. []) (λ a. []) 1 accounts

-- A build at 10, a call from the cache at 11, an invalidation, and a call after the clock went back.
abbrev uses : List (Use (ℕ × ℕ))
uses =
    calls 9 (10, 0) 10
    ∷ calls 11 (12, 0) 12
    ∷ invalidates
    ∷ calls 12 (13, 1) 13
    ∷ calls 5 (6, 1) 6
    ∷ []

served : serve 4 uses fresh_cache ≡ (10, 0) ∷ (10, 0) ∷ (13, 1) ∷ (6, 1) ∷ []
unfolding serve
served = refl

serve-IsFresh_example :
    IsFresh 4 (λ (s : ℕ × ℕ). s.0) (λ (s : ℕ × ℕ). s.1) 0 uses (serve 4 uses fresh_cache)
serve-IsFresh_example =
    serve-IsFresh 4 (λ s. s.0) (λ s. s.1) uses
      (refl, refl, (refl, refl, (refl, refl, (refl, refl, tt))))
