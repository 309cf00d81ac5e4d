-- ===== src/Routing/Fleets.antt =====
-- Which slaves are in an org's fleet.
use forex_automated_copy_tra.Base.{
  ℕ, ◌≡◌, refl, sym, ap, ◌∙◌, Bool, true, false, not, ◌&&◌, List, [], ◌∷◌, ◌++◌, if◌then◌else◌,
  String, lookup, insert, Dict, lookup-insert, arith, ◌==◌, Bool-cases, ◌⊎◌, subst, inl, inr,
}
use forex_automated_copy_tra.Models.{SymbolInfo, SlaveConfig}
use forex_automated_copy_tra.Routing.{
  AccountRow, Role, master, slave, unassigned, OrgRouting, symbols_of, slave_config, add_account,
  add_accounts, build_routing, or_empty, empty_routing, is_paused,
}

-- `routing.slaves_by_org.get(org, [])`
abbrev pub fleet : ℕ → OrgRouting → List SlaveConfig
fleet org r = or_empty (lookup org r.slaves_by_org)

Role-cases : (r : Role) → (r ≡ master) ⊎ ((r ≡ slave) ⊎ (r ≡ unassigned))
Role-cases master = inl refl
Role-cases slave = inr (inl refl)
Role-cases unassigned = inr (inr refl)

lookup-insert_other :
    (k j : ℕ) (v : List SlaveConfig) (d : Dict (List SlaveConfig))
    → (k == j) ≡ false
    → lookup j (insert k v d) ≡ lookup j d
lookup-insert_other k j v d other = ground (arith, lookup-insert k j v d)

abbrev is_slave : Role → Bool
is_slave slave = true
is_slave _ = false

module _ (symbol_loader : ℕ → List (String × SymbolInfo))
    (alias_loader : ℕ → List (String × String)) where
  -- The org's own slave accounts, in the table's order, each enabled if its flag is on and it is not
  -- paused.
  abbrev pub own_slaves : ℕ → List AccountRow → List SlaveConfig
  own_slaves org [] = []
  own_slaves org (a ∷ accounts) =
      let rest = own_slaves org accounts in
      if is_slave a.role && a.org_id == org
      then record {
        account_id = a.account_id;
        enabled = a.enabled && not (is_paused a.status);
        multiplier = a.multiplier;
        symbols = symbols_of symbol_loader alias_loader a;
      }
        ∷ rest
      else rest

  append_assoc : (xs ys zs : List SlaveConfig) → (xs ++ ys) ++ zs ≡ xs ++ (ys ++ zs)
  append_assoc [] ys zs = refl
  append_assoc (x ∷ xs) ys zs = ap (λ t. x ∷ t) (append_assoc xs ys zs)

  append_nil : (xs : List SlaveConfig) → xs ++ [] ≡ xs
  append_nil [] = refl
  append_nil (x ∷ xs) = ap (λ t. x ∷ t) (append_nil xs)

  fleet-add_account_own :
      (a : AccountRow) (r : OrgRouting)
      → a.role ≡ slave
      → fleet a.org_id (add_account symbol_loader alias_loader a r)
        ≡ fleet a.org_id r ++ own_slaves a.org_id (a ∷ [])
  unfolding add_account slave_config
  fleet-add_account_own a r is_copier =
      rw (add_account, is_copier)
        (ground (
          arith,
          lookup-insert a.org_id a.org_id
              (fleet a.org_id r ++ slave_config symbol_loader alias_loader a ∷ []) r.slaves_by_org,
        ))

  fleet-add_account :
      (org : ℕ) (a : AccountRow) (r : OrgRouting)
      → fleet org (add_account symbol_loader alias_loader a r)
        ≡ fleet org r ++ own_slaves org (a ∷ [])
  unfolding add_account
  fleet-add_account org a r = elim (Role-cases a.role) [
    | inl leads ↦ rw (add_account, leads) (sym (append_nil (fleet org r)))
    | inr (inr idle) ↦ rw (add_account, idle) (sym (append_nil (fleet org r)))
    | inr (inl copies) ↦ elim (Bool-cases (a.org_id == org)) [
      | inl same ↦
          subst
            (λ o.
              fleet o (add_account symbol_loader alias_loader a r)
              ≡ fleet o r ++ own_slaves o (a ∷ []))
            (ground (arith, same)) (fleet-add_account_own a r copies)
      | inr other ↦
          rw (add_account, copies, other)
            (ap or_empty (lookup-insert_other a.org_id org _ r.slaves_by_org other)
              ∙ sym (append_nil (fleet org r)))
    ]
  ]

  own_slaves-append :
      (org : ℕ) (a : AccountRow) (accounts : List AccountRow)
      → own_slaves org (a ∷ []) ++ own_slaves org accounts ≡ own_slaves org (a ∷ accounts)
  own_slaves-append org a accounts = ground arith

  fleet-add_accounts :
      (org : ℕ) (accounts : List AccountRow) (r : OrgRouting)
      → fleet org (add_accounts symbol_loader alias_loader accounts r)
        ≡ fleet org r ++ own_slaves org accounts
  unfolding add_accounts
  fleet-add_accounts org [] r = sym (append_nil (fleet org r))
  fleet-add_accounts org (a ∷ accounts) r =
      fleet-add_accounts org accounts (add_account symbol_loader alias_loader a r)
      ∙ ap (λ xs. xs ++ own_slaves org accounts) (fleet-add_account org a r)
      ∙ append_assoc (fleet org r) (own_slaves org (a ∷ [])) (own_slaves org accounts)
      ∙ ap (λ xs. fleet org r ++ xs) (own_slaves-append org a accounts)

  -- The fleet of an org is exactly its own slave accounts, in the table's order, each enabled when its
  -- flag is on and it is not paused: no account of another org, and no master, is ever in it.
  pub fleet-build_routing :
      (org : ℕ) (accounts : List AccountRow)
      → fleet org (build_routing symbol_loader alias_loader accounts) ≡ own_slaves org accounts
  unfolding build_routing
  fleet-build_routing org accounts = fleet-add_accounts org accounts empty_routing
