-- ===== src/Service/Loops.antt =====
-- The reports, one by one and together.
use forex_automated_copy_tra.Base.{
  ℕ, ◌≡◌, inl, inr, refl, Bool, ◌&&◌, Option, none, some, List, [], ◌∷◌, Bool-cases, Option-cases,
  String, Dict, lookup,
}
use forex_automated_copy_tra.Text.{Text, text_eq, codes}
use forex_automated_copy_tra.Models.{SlaveConfig}
use forex_automated_copy_tra.OrderIds.{master_position_of}
use forex_automated_copy_tra.Mappings.{
  close_order_mapping, activate_order_mapping, fail_mapping, activate_pending_fill,
  activate_position_mapping,
}
use forex_automated_copy_tra.Mappings.Writes.{
  write, reduce, activate_position, activate_fill, activate_order, close_order, fail,
}
use forex_automated_copy_tra.Dispatch.{Prices}
use forex_automated_copy_tra.Dispatch.Handlers.{OrgRow}
use forex_automated_copy_tra.Service.{Service, SlaveFill, same_level, protect_new_copy}
use forex_automated_copy_tra.Service.Reports.{
  SlaveEvent, filled, accepted, cancelled, rejected, unclassified, handle_slave_event,
  handle_slave_report, handle_slave_fill, handle_slave_order_cancelled, handle_slave_order_accepted,
  handle_slave_rejection, open_fill, copy_fill, pending_copy_fill, unmatched, with_prefix,
  is_enabled_slave,
}
use forex_automated_copy_tra.Service.Effects.{
  IsReport, unchanged-IsReport, logged-IsReport, written-IsReport, amended-IsReport,
}

module _ {F : Type 0} where
  module _ (prices : Prices F) (targets : ℕ → Option (Dict String)) (org : OrgRow) where
    protect-IsReport :
        (is_close : F → F → Bool) (a : ℕ) (coid : Text) (p : ℕ) (current : Option F × Option F)
        (s s' : Service F)
        → IsReport a s s'
        → s'.store.sends ≡ s.store.sends
        → s'.store.queued ≡ s.store.queued
        → IsReport a s (protect_new_copy prices targets org is_close a coid p current s')
    unfolding protect_new_copy
    protect-IsReport is_close a coid p current s s' h sends queues =
        elim (Option-cases (master_position_of (some coid))) [
          | inl no_copy ↦ rw (protect_new_copy, no_copy) h
          | inr (m, copy) ↦ elim (Option-cases (lookup m s'.protection)) [
            | inl no_levels ↦ rw (protect_new_copy, copy, no_levels) h
            | inr (levels, remembered) ↦
                elim (Bool-cases (
                  same_level is_close levels.0 current.0
                  && same_level is_close levels.1 current.1)) [
                    | inl same ↦ rw (protect_new_copy, copy, remembered, same) h
                    | inr different ↦
                        rw (protect_new_copy, copy, remembered, different)
                          (amended-IsReport prices targets org a p levels.0 levels.1 s s' h sends
                            queues)
                  ]
          ]
        ]

    module _ (is_close : F → F → Bool) where
      copy_fill-IsReport :
          (coid : Text) (fill : SlaveFill F) (s : Service F)
          → IsReport fill.account_id s (copy_fill prices targets org is_close coid fill s)
      unfolding copy_fill
      copy_fill-IsReport coid fill s =
          elim (Option-cases (
            activate_position_mapping fill.account_id coid fill.position_id fill.filled_volume
              fill.fill_price s.store.mappings)) [
                | inl missing ↦ rw (copy_fill, missing) (logged-IsReport fill.account_id _ s)
                | inr (rows, activated) ↦
                    rw (copy_fill, activated)
                      (protect-IsReport is_close fill.account_id coid fill.position_id
                        (fill.stop_loss, fill.take_profit) s _
                        (written-IsReport
                          (activate_position fill.account_id coid fill.position_id
                            fill.filled_volume fill.fill_price)
                          _ s rows (unfold write in rw activated refl))
                        refl refl)
              ]

      unmatched-IsReport :
          (fill : SlaveFill F) (s : Service F) → IsReport fill.account_id s (unmatched fill s)
      unfolding unmatched
      unmatched-IsReport fill s = elim (Bool-cases (text_eq fill.label (codes "manual"))) [
        | inl manual ↦ rw manual (logged-IsReport fill.account_id _ s)
        | inr copied ↦ rw copied (logged-IsReport fill.account_id _ s)
      ]

      order_fill-IsReport :
          (order : ℕ) (fill : SlaveFill F) (s : Service F)
          → fill.order_id ≡ some order
          → IsReport fill.account_id s (pending_copy_fill fill s)
      unfolding pending_copy_fill
      order_fill-IsReport order fill s named =
          elim (Option-cases (
            activate_pending_fill fill.account_id order fill.position_id fill.filled_volume
              fill.fill_price s.store.mappings)) [
                | inl missing ↦ rw (pending_copy_fill, named, missing) (unmatched-IsReport fill s)
                | inr (rows, activated) ↦
                    rw (pending_copy_fill, named, activated)
                      (written-IsReport
                        (activate_fill fill.account_id order fill.position_id fill.filled_volume
                          fill.fill_price)
                        _ s rows (unfold write in rw activated refl))
              ]

      pending_copy_fill-IsReport :
          (fill : SlaveFill F) (s : Service F)
          → IsReport fill.account_id s (pending_copy_fill fill s)
      unfolding pending_copy_fill
      pending_copy_fill-IsReport fill s = elim (Option-cases fill.order_id) [
        | inl unnamed ↦ rw (pending_copy_fill, unnamed) (unmatched-IsReport fill s)
        | inr (order, named) ↦ order_fill-IsReport order fill s named
      ]

      fill-IsReport :
          (fill : SlaveFill F) (s : Service F)
          → IsReport fill.account_id s (handle_slave_fill prices targets org is_close fill s)
      unfolding handle_slave_fill
      fill-IsReport fill s = elim (Option-cases fill.closed_volume) [
        | inr (v, closed) ↦
            rw (handle_slave_fill, closed)
              (written-IsReport
                (reduce fill.account_id fill.position_id v (with_prefix "cm" fill.client_order_id))
                _ s _ (unfold write in refl))
        | inl opened ↦ elim (Option-cases (with_prefix "cm" fill.client_order_id)) [
          | inr (coid, copy) ↦
              rw (handle_slave_fill, opened, open_fill, copy) (copy_fill-IsReport coid fill s)
          | inl other ↦
              rw (handle_slave_fill, opened, open_fill, other) (pending_copy_fill-IsReport fill s)
        ]
      ]

      handled-IsReport :
          (account : ℕ) (event : SlaveEvent F) (s : Service F)
          → IsReport account s (handle_slave_report prices targets org is_close account event s)
      unfolding handle_slave_report
      handled-IsReport account (filled fill) s =
          fill-IsReport (record fill { account_id = account }) s
      handled-IsReport account (accepted coid order) s =
          elim (Option-cases (with_prefix "co" coid)) [
            | inl other ↦ rw (handle_slave_order_accepted, other) (unchanged-IsReport account s)
            | inr (id, pending) ↦
                elim (Option-cases (activate_order_mapping account id order s.store.mappings)) [
                  | inl missing ↦
                      rw (handle_slave_order_accepted, pending, missing)
                        (logged-IsReport account _ s)
                  | inr (rows, activated) ↦
                      rw (handle_slave_order_accepted, pending, activated)
                        (written-IsReport (activate_order account id order) _ s rows
                          (unfold write in rw activated refl))
                ]
          ]
      handled-IsReport account (cancelled order) s =
          elim (Option-cases (close_order_mapping account order s.store.mappings)) [
            | inl missing ↦ rw (handle_slave_order_cancelled, missing) (logged-IsReport account _ s)
            | inr (rows, closed) ↦
                rw (handle_slave_order_cancelled, closed)
                  (written-IsReport (close_order account order) _ s rows
                    (unfold write in rw closed refl))
          ]
      handled-IsReport account (rejected none reason) s = logged-IsReport account _ s
      handled-IsReport account (rejected (some []) reason) s = logged-IsReport account _ s
      handled-IsReport account (rejected (some (c ∷ coid)) reason) s =
          elim (Option-cases (fail_mapping account (c ∷ coid) reason s.store.mappings)) [
            | inl missing ↦ rw (handle_slave_rejection, missing) (logged-IsReport account _ s)
            | inr (rows, failed) ↦
                rw (handle_slave_rejection, failed)
                  (written-IsReport (fail account (c ∷ coid) reason) _ s rows
                    (unfold write in rw failed refl))
          ]
      handled-IsReport account unclassified s = logged-IsReport account _ s

  -- Whatever a slave reports, the service keeps the other accounts' rows of the mappings as they were,
  -- keeps client order ids unique, sends and queues nothing but at most one amendment of a protection
  -- on that account, and keeps what it remembers of the master's protection.
  pub handle_slave_event-IsReport :
      (prices : Prices F) (targets : ℕ → Option (Dict String)) (org : OrgRow)
      (is_close : F → F → Bool) (slaves : List SlaveConfig) (account : ℕ) (event : SlaveEvent F)
      (s : Service F)
      → IsReport account s (handle_slave_event prices targets org is_close slaves account event s)
  unfolding handle_slave_event
  handle_slave_event-IsReport prices targets org is_close slaves account event s =
      elim (Bool-cases (is_enabled_slave account slaves)) [
        | inl known ↦ rw known (handled-IsReport prices targets org is_close account event s)
        | inr unknown ↦ rw unknown (logged-IsReport account _ s)
      ]
