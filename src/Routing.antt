-- ===== src/Routing.antt =====
-- copier/src/copier/engine/routing.py, the snapshot of the accounts: each account's org, each org's
-- master and fleet. `symbol_loader` and `alias_loader` are parameters, as in the code; there are no
-- aliases where alias_loader is None. Of AccountRow the columns that are read are kept.
pub mod Fleets
pub mod Cache
pub mod Fresh
use forex_automated_copy_tra.Base.{
  ℕ, Bool, true, false, not, ◌&&◌, Option, none, some, List, [], ◌∷◌, ◌++◌, if◌then◌else◌, String,
  str_eq, Dict, lookup, insert,
}
use forex_automated_copy_tra.Decimal.{Decimal}
use forex_automated_copy_tra.Models.{SymbolInfo, SlaveConfig}
use forex_automated_copy_tra.Decision.Loops.{get_symbol}
use forex_automated_copy_tra.Dispatch.{AccountStatus, ok, degraded, paused}

pub data Role : Type 0 where
  master slave unassigned : Role

pub data Platform : Type 0 where
  ctrader mt5 : Platform

pub record AccountRow : Type 0 where
  pub account_id : ℕ
  pub org_id : ℕ
  pub role : Role
  pub enabled : Bool
  pub multiplier : Decimal
  pub status : AccountStatus
  pub platform : Platform

pub record OrgRouting : Type 0 where
  pub org_by_account : Dict ℕ
  pub master_by_org : Dict ℕ
  pub slaves_by_org : Dict (List SlaveConfig)
  pub platform_by_account : Dict Platform

-- `out[name] = info`
unfoldable pub set_symbol :
    String → SymbolInfo → List (String × SymbolInfo) → List (String × SymbolInfo)
set_symbol name info [] = (name, info) ∷ []
set_symbol name info ((key, old) ∷ symbols) =
    let rest = set_symbol name info symbols in
    if str_eq key name then (key, info) ∷ symbols else (key, old) ∷ rest

-- The loop over the aliases, from `out`.
unfoldable pub add_aliases :
    List (String × SymbolInfo)
    → List (String × String)
    → List (String × SymbolInfo)
    → List (String × SymbolInfo)
add_aliases symbols [] out = out
add_aliases symbols ((canonical, broker_name) ∷ aliases) out =
    elim (get_symbol broker_name symbols) [
      | none ↦ add_aliases symbols aliases out
      | some info ↦ add_aliases symbols aliases (set_symbol canonical info out)
    ]

unfoldable pub mt5_symbols_by_canonical :
    List (String × SymbolInfo) → List (String × String) → List (String × SymbolInfo)
unfolding add_aliases
mt5_symbols_by_canonical symbols aliases = add_aliases symbols aliases symbols

abbrev pub is_paused : AccountStatus → Bool
is_paused paused = true
is_paused _ = false

abbrev pub or_empty : Option (List SlaveConfig) → List SlaveConfig
or_empty none = []
or_empty (some slaves) = slaves

abbrev pub empty_routing : OrgRouting
empty_routing = record {
  org_by_account = [];
  master_by_org = [];
  slaves_by_org = [];
  platform_by_account = [];
}

module _ (symbol_loader : ℕ → List (String × SymbolInfo))
    (alias_loader : ℕ → List (String × String)) where
  unfoldable pub symbols_of : AccountRow → List (String × SymbolInfo)
  unfolding mt5_symbols_by_canonical
  symbols_of a = elim a.platform [
    | ctrader ↦ symbol_loader a.account_id
    | mt5 ↦ mt5_symbols_by_canonical (symbol_loader a.account_id) (alias_loader a.account_id)
  ]

  unfoldable pub slave_config : AccountRow → SlaveConfig
  unfolding symbols_of
  slave_config a = record {
    account_id = a.account_id;
    enabled = a.enabled && not (is_paused a.status);
    multiplier = a.multiplier;
    symbols = symbols_of a;
  }

  -- The body of the loop.
  unfoldable pub add_account : AccountRow → OrgRouting → OrgRouting
  unfolding slave_config
  add_account a r =
      let known = record r {
        org_by_account = insert a.account_id a.org_id r.org_by_account;
        platform_by_account = insert a.account_id a.platform r.platform_by_account;
      } in
      elim a.role [
        | master ↦ record known { master_by_org = insert a.org_id a.account_id r.master_by_org }
        | slave ↦ record known {
          slaves_by_org =
              insert a.org_id (or_empty (lookup a.org_id r.slaves_by_org) ++ slave_config a ∷ [])
                r.slaves_by_org;
        }
        | unassigned ↦ known
      ]

  unfoldable pub add_accounts : List AccountRow → OrgRouting → OrgRouting
  unfolding add_account
  add_accounts [] r = r
  add_accounts (a ∷ accounts) r = add_accounts accounts (add_account a r)

  unfoldable pub build_routing : List AccountRow → OrgRouting
  unfolding add_accounts
  build_routing accounts = add_accounts accounts empty_routing
