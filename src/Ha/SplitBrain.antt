-- ===== src/Ha/SplitBrain.antt =====
-- Two managers that have lost each other: which of them is active, by the workers that each of
-- them reaches.

use distribute_storage_log_a.Prelude.{
  ℕ, ◌+◌, ◌*◌, ◌/◌, ◌≤◌, ◌<◌, ◌≡◌, ◌↔◌, refl, String, Bool, true, false, not, ◌&&◌, List, [], ◌∷◌,
  if◌then◌else◌, ltb, length, filter, arith, Bool-cases, inl, inr, ◌⊎◌, le→leb,
}
use distribute_storage_log_a.Prelude.Text.{str_eq}
use distribute_storage_log_a.Ha.{Node, HaManager, Role, active, standby, World}
use distribute_storage_log_a.Ha.Quorum.{
  Nodes, workers, check_worker_quorum, check_workers, check_split_brain_safety, target_gateway,
}
use distribute_storage_log_a.Ha.Peer.{look_at_workers, after_failure, mark_peer_failure}
use distribute_storage_log_a.Ha.Failover.{failed, mark_peer_failure-promotes_safe, release_vip-same}
use distribute_storage_log_a.Ha.Safety.{checks}

half : (n m : ℕ) → (ltb (n / 2) m ≡ true) ↔ (n < 2 * m)
half n m = ground arith

-- The workers pass if and only if more than half of them answer, or there is none.
pub check_worker_quorum-majority :
    (w : World) (nodes : Nodes)
    → ((check_worker_quorum w nodes).passed ≡ true) ↔ (
        (length (workers nodes) ≡ 0)
        ⊎ (length (workers nodes) < 2 * length (filter w.healthy (workers nodes))))
unfolding check_worker_quorum
check_worker_quorum-majority w nodes = ground arith

Role-cases : (r : Role) → (r ≡ active) ⊎ (r ≡ standby)
Role-cases active = inl refl
Role-cases standby = inr refl

false_if_active : (b : Bool) → (if b then standby else active) ≡ active → b ≡ false
false_if_active true e = cc
false_if_active false e = refl

abbrev refused : World → Nodes → Bool
refused w nodes = let q = check_worker_quorum w nodes in ltb 0 q.total && not q.passed

majority_unless_refused :
    (w : World) (nodes : Nodes)
    → refused w nodes ≡ false
    → 0 < length (workers nodes)
    → length (workers nodes) < 2 * length (filter w.healthy (workers nodes))
unfolding check_worker_quorum
majority_unless_refused w nodes e some_worker = ground arith

safe-check_workers :
    (w : World) (nodes : Nodes) → (check_workers w true nodes).safe ≡ true → refused w nodes ≡ false
unfolding check_workers
safe-check_workers w nodes e = ground arith

false_not_true : false ≡ true → ⊥
false_not_true e = cc

-- The checks pass only where the workers do, if they are asked.
safe-majority :
    (w : World) (gateway : String) (enable_gateway : Bool) (nodes : Nodes)
    → (check_split_brain_safety w gateway enable_gateway true nodes).safe ≡ true
    → refused w nodes ≡ false
unfolding check_split_brain_safety
safe-majority w gateway enable_gateway nodes e =
    elim (Bool-cases (
      enable_gateway
      && not (str_eq (target_gateway w gateway) "")
      && not (w.ping (target_gateway w gateway)))) [
        | inl p ↦ elim (false_not_true (rw p at e)) [ ]
        | inr p ↦ safe-check_workers w nodes (rw p at e)
      ]

look_at_workers-role :
    (w : World) (nodes : Nodes) (h : HaManager)
    → (look_at_workers w nodes h).role ≡ (if refused w nodes then standby else h.role)
unfolding look_at_workers
look_at_workers-role w nodes h = elim (Bool-cases (refused w nodes)) [
  | inl e ↦ rw (e, (release_vip-same w _).0) refl
  | inr e ↦ rw e refl
]

after_failure-active :
    (w : World) (nodes : Nodes) (limit : ℕ) (h : HaManager)
    → h.role ≡ active
    → h.cfg.enable_worker_quorum ≡ true
    → limit ≤ h.consecutive_failures
    → after_failure w nodes limit h ≡ look_at_workers w nodes h
unfolding after_failure
after_failure-active w nodes limit h e q many =
    rw (e, q, le→leb limit h.consecutive_failures many) refl

-- If the workers are asked and there is one, a manager that has reached the limit of failures is
-- active behind the next only if more than half of the workers have answered it.
pub majority_if_active :
    (w : World) (nodes : Nodes) (limit : ℕ) (h : HaManager)
    → h.cfg.enable_worker_quorum ≡ true
    → limit ≤ h.consecutive_failures + 1
    → 0 < length (workers nodes)
    → (mark_peer_failure w nodes limit h).role ≡ active
    → length (workers nodes) < 2 * length (filter w.healthy (workers nodes))
unfolding mark_peer_failure
majority_if_active w nodes limit h q many some_worker e = elim (Role-cases h.role) [
  | inl was_active ↦
      let step : after_failure w nodes limit (failed h) ≡ look_at_workers w nodes (failed h) =
        after_failure-active w nodes limit (failed h) was_active q many in
      let ends : (if refused w nodes then standby else active) ≡ active =
        (rw (step, look_at_workers-role w nodes (failed h), was_active) at e) in
      majority_unless_refused w nodes (false_if_active (refused w nodes) ends) some_worker
  | inr was_standby ↦
      let safe : (checks w nodes h).safe ≡ true =
        ((mark_peer_failure-promotes_safe w nodes limit h was_standby).0 e).1 in
      majority_unless_refused w nodes
        (safe-majority w h.gateway_ip h.cfg.enable_gateway_check nodes (rw q at safe)) some_worker
]

both_filters :
    (f g : Node → Bool) (xs : List Node)
    → ((n : Node) → (f n && g n) ≡ false)
    → length (filter f xs) + length (filter g xs) ≤ length xs
both_filters f g [] disjoint = omega arith
both_filters f g (x ∷ xs) disjoint =
    ground (arith, both_filters f g xs disjoint, disjoint x, Bool-cases (f x), Bool-cases (g x))

-- If two managers know the same workers, of which there is at least one, both ask them, each has
-- reached its limit of failures, and no worker answers both, then after one more failure of each
-- at most one of the two is active, whatever they were before.
pub never_both_active :
    (w w' : World) (nodes : Nodes) (limit limit' : ℕ) (h h' : HaManager)
    → h.cfg.enable_worker_quorum ≡ true
    → h'.cfg.enable_worker_quorum ≡ true
    → limit ≤ h.consecutive_failures + 1
    → limit' ≤ h'.consecutive_failures + 1
    → 0 < length (workers nodes)
    → ((n : Node) → (w.healthy n && w'.healthy n) ≡ false)
    → ¬ (
        ((mark_peer_failure w nodes limit h).role ≡ active)
        × ((mark_peer_failure w' nodes limit' h').role ≡ active))
never_both_active w w' nodes limit limit' h h' q q' many many' some_worker disjoint (e, e') =
    omega (
      arith,
      majority_if_active w nodes limit h q many some_worker e,
      majority_if_active w' nodes limit' h' q' many' some_worker e',
      both_filters w.healthy w'.healthy (workers nodes) disjoint,
    )
