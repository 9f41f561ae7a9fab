-- ===== src/Examples/Manager.antt =====
-- Managers that fail over and switch over: internal/manager/ha.go.
use distribute_storage_log_a.Prelude.{
  ℕ, ◌≡◌, ◌≤◌, ◌<◌, ◌*◌, ◌+◌, ◌↔◌, refl, true, false, some, [], ◌∷◌, String, ltb, leb, arith,
  length, filter,
}
use distribute_storage_log_a.Prelude.Int.{pos}
use distribute_storage_log_a.Ha.{
  Node, HaConfig, HaManager, no_reason, Role, active, standby, World, new_ha_manager, bind_vip,
  release_vip,
}
use distribute_storage_log_a.Ha.Quorum.{
  Nodes, workers, check_worker_quorum, check_workers, check_split_brain_safety,
}
use distribute_storage_log_a.Ha.Peer.{
  after_failure, try_promote, mark_peer_failure, mark_peer_answer,
}
use distribute_storage_log_a.Ha.Switchover.{
  role_name, switchover, peer_refused, demote_to_standby, promote_to_active,
}
use distribute_storage_log_a.Ha.Config.{update_config}
use distribute_storage_log_a.Ha.Failover.{
  mark_peer_failure-promotes, takes_over_at_limit, after_failures,
}
use distribute_storage_log_a.Ha.Safety.{GatewayPasses, WorkersPass}
use distribute_storage_log_a.Ha.SplitBrain.{majority_if_active, never_both_active}
use distribute_storage_log_a.Ha.Traces.{standby_has_no_vip, done, then_step, promoted, demoted}
use distribute_storage_log_a.Ha.Pair.{
  one_active_after_heartbeats, lost_answer_leaves_no_active, after_answers,
}
use distribute_storage_log_a.Ha.Reconfigured.{removed_vip_stays, new_backup_keeps_vip}

abbrev worker_at : ℕ → Node
worker_at port = record { id = "w"; name = "w"; ip = "10.0.0.1"; port = port; role = "worker" }

abbrev three_workers : Nodes
three_workers = some (worker_at 1 ∷ worker_at 2 ∷ worker_at 3 ∷ [])

-- A world that reaches the workers up to a port.
abbrev low_world : World
low_world = record {
  to_lower = λ s. s;
  trim_space = λ s. s;
  trim_right_slashes = λ s. s;
  before_slash = λ s. "10.0.0.9";
  default_gateway = "10.0.0.254";
  default_interface = "eth0";
  ping = λ s. true;
  healthy = λ n. leb n.port 1;
}

abbrev high_world : World
high_world = record low_world { healthy = λ n. ltb 1 n.port }

abbrev config_of : String → HaConfig
config_of mode = record {
  ha_mode = mode;
  peer_url = "http://10.0.0.2";
  gateway_ip = "";
  enable_gateway_check = true;
  enable_worker_quorum = true;
  vip = "10.0.0.9/24";
  vip_interface = "";
  heartbeat_interval_sec = pos 2;
  failover_timeout_sec = pos 6;
  sync_interval_sec = pos 5;
}

-- A manager in a mode and a role, with failures counted.
abbrev manager_in : String → Role → ℕ → HaManager
manager_in mode role failures = record {
  cfg = config_of mode;
  mode = mode;
  role = role;
  peer_url = "http://10.0.0.2";
  peer_online = true;
  peer_latency = 0;
  last_heartbeat = 0;
  failover_count = 0;
  vip_active = false;
  gateway_ip = "10.0.0.254";
  gateway_online = true;
  worker_quorum_total = 0;
  worker_quorum_online = 0;
  quorum_passed = true;
  split_brain_blocked = false;
  blocked_reason = no_reason;
  consecutive_failures = failures;
  commands = [];
}

never_both_active_example : ¬ (
    ((mark_peer_failure low_world three_workers 3 (manager_in "primary" active 2)).role ≡ active)
    × ((mark_peer_failure high_world three_workers 3 (manager_in "backup" standby 2)).role
        ≡ active))
unfolding workers
never_both_active_example =
    never_both_active low_world high_world three_workers 3 3 (manager_in "primary" active 2)
      (manager_in "backup" standby 2) refl refl (omega arith) (omega arith) (omega arith)
      (λ n. ground arith)

-- The majority takes over.
backup_promoted :
    (mark_peer_failure high_world three_workers 3 (manager_in "backup" standby 2)).role ≡ active
unfolding mark_peer_failure after_failure try_promote check_split_brain_safety check_workers
    check_worker_quorum workers bind_vip
backup_promoted = refl

mark_peer_failure-promotes_example :
    ((mark_peer_failure high_world three_workers 3 (manager_in "backup" standby 2)).role ≡ active)
    ↔ ((3 ≤ 2 + 1)
        × (GatewayPasses high_world (manager_in "backup" standby 2)
            × WorkersPass high_world three_workers (manager_in "backup" standby 2)))
mark_peer_failure-promotes_example =
    mark_peer_failure-promotes high_world three_workers 3 (manager_in "backup" standby 2) refl

takes_over_at_limit_example :
    ((after_failures high_world three_workers 3 2 (manager_in "backup" standby 0)).role ≡ standby)
    × (let last = after_failures high_world three_workers 3 3 (manager_in "backup" standby 0) in
        (last.role ≡ active) × (last.failover_count ≡ 0 + 1) × (last.consecutive_failures ≡ 0))
unfolding check_split_brain_safety check_workers check_worker_quorum workers
takes_over_at_limit_example =
    takes_over_at_limit high_world three_workers 2 2 (manager_in "backup" standby 0) refl refl refl
      (omega arith)

majority_if_active_example :
    length (workers three_workers) < 2 * length (filter high_world.healthy (workers three_workers))
unfolding workers
majority_if_active_example =
    majority_if_active high_world three_workers 3 (manager_in "backup" standby 2) refl (omega arith)
      (omega arith) backup_promoted

-- A backup is promoted by hand and demoted again.
standby_has_no_vip_example :
    (demote_to_standby low_world
      (promote_to_active low_world (new_ha_manager low_world (config_of "backup")))).vip_active
    ≡ false
unfolding new_ha_manager promote_to_active demote_to_standby bind_vip release_vip
standby_has_no_vip_example =
    standby_has_no_vip low_world (config_of "backup")
      (demote_to_standby low_world
        (promote_to_active low_world (new_ha_manager low_world (config_of "backup"))))
      (then_step (then_step done (promoted low_world)) (demoted low_world refl)) refl

one_active_after_heartbeats_example :
    let a = manager_in "primary" active 0 in
    let b = manager_in "backup" active 0 in
    let a_first = mark_peer_answer low_world (role_name b.role) 9 1 a in
    let b_second = mark_peer_answer high_world (role_name a_first.role) 9 1 b in
    let b_first = mark_peer_answer high_world (role_name a.role) 9 1 b in
    let a_second = mark_peer_answer low_world (role_name b_first.role) 9 1 a in
    (a_first.role ≡ standby)
    × (b_second.role ≡ active)
    × (b_first.role ≡ active)
    × (a_second.role ≡ standby)
one_active_after_heartbeats_example =
    one_active_after_heartbeats low_world high_world 9 1 (manager_in "primary" active 0)
      (manager_in "backup" active 0) refl refl refl refl

lost_answer_leaves_no_active_example :
    let (result, a') = switchover low_world (λ _. false) (manager_in "backup" standby 0) in
    let b' = demote_to_standby high_world (manager_in "primary" active 0) in
    (result ≡ peer_refused)
    × ((after_answers low_world (("standby", 9, 1) ∷ []) a').role ≡ standby)
    × ((after_answers high_world (("standby", 9, 1) ∷ []) b').role ≡ standby)
lost_answer_leaves_no_active_example =
    lost_answer_leaves_no_active low_world high_world (manager_in "backup" standby 0)
      (manager_in "primary" active 0) (("standby", 9, 1) ∷ []) (("standby", 9, 1) ∷ []) refl refl
      refl

abbrev bound_manager : String → HaManager
bound_manager mode = record (manager_in mode active 0) { vip_active = true }

removed_vip_stays_example :
    let h' =
      update_config low_world
        (record (config_of "primary") { vip = "" })
        (bound_manager "primary") in
    (h'.vip_active ≡ true) × (h'.commands ≡ []) × (release_vip low_world h' ≡ h')
removed_vip_stays_example =
    removed_vip_stays low_world (record (config_of "primary") { vip = "" })
      (bound_manager "primary") refl refl

new_backup_keeps_vip_example :
    let h' = update_config low_world (config_of "backup") (bound_manager "standalone") in
    (h'.role ≡ standby) × (h'.vip_active ≡ true) × (h'.commands ≡ [])
new_backup_keeps_vip_example =
    new_backup_keeps_vip low_world (config_of "backup") (bound_manager "standalone") refl refl refl
      refl
