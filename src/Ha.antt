-- ===== src/Ha.antt =====
-- The high-availability manager of internal/manager/ha.go: its configuration, its state, and the
-- binding of the virtual address (VIP).
pub mod Quorum
pub mod Peer
pub mod Config
pub mod Switchover
pub mod Vip
pub mod Traces
pub mod SplitBrain
pub mod Failover
pub mod Safety
pub mod Pair
pub mod Sync
pub mod Reconfigured
use distribute_storage_log_a.Prelude.{
  ℕ, ◌+◌, Bool, true, false, not, ◌&&◌, ◌||◌, List, [], ◌∷◌, String, if◌then◌else◌, ltb,
}
use distribute_storage_log_a.Prelude.Int.{ℤ, pos, negsuc}
use distribute_storage_log_a.Prelude.Text.{str_eq}

-- What the code reads as a node of the cluster (`model.Node`).
pub record Node : Type 0 where
  pub id : String
  pub name : String
  pub ip : String
  pub port : ℕ
  pub role : String

-- The part of `config.Config` that the manager reads and writes.
pub record HaConfig : Type 0 where
  pub ha_mode : String
  pub peer_url : String
  pub gateway_ip : String
  pub enable_gateway_check : Bool
  pub enable_worker_quorum : Bool
  pub vip : String
  pub vip_interface : String
  pub heartbeat_interval_sec : ℤ
  pub failover_timeout_sec : ℤ
  pub sync_interval_sec : ℤ

-- `candidate`, which a comment of the code names, is set nowhere.
pub data Role : Type 0 where
  active : Role
  standby : Role

abbrev pub is_active : Role → Bool
is_active active = true
is_active standby = false

-- Why a promotion was blocked, or the manager stepped down; the code formats these as text.
pub data BlockedReason : Type 0 where
  no_reason : BlockedReason
  gateway_unreachable : String → BlockedReason
  no_worker_majority : (online total : ℕ) → BlockedReason
  in_small_partition : (online total : ℕ) → BlockedReason

-- The commands that the manager runs on its machine.
pub data Command : Type 0 where
  addr_add : (vip iface : String) → Command
  arping : (iface ip : String) → Command
  addr_del : (vip iface : String) → Command

-- `commands` has what was run, the latest first.
pub record HaManager : Type 0 where
  pub cfg : HaConfig
  pub mode : String
  pub role : Role
  pub peer_url : String
  pub peer_online : Bool
  pub peer_latency : ℕ
  pub last_heartbeat : ℕ
  pub failover_count : ℕ
  pub vip_active : Bool
  pub gateway_ip : String
  pub gateway_online : Bool
  pub worker_quorum_total : ℕ
  pub worker_quorum_online : ℕ
  pub quorum_passed : Bool
  pub split_brain_blocked : Bool
  pub blocked_reason : BlockedReason
  pub consecutive_failures : ℕ
  pub commands : List Command

-- What an operation finds around it: the answers of the machine and of the network, and the
-- functions on texts of the package strings. `default_gateway` and `default_interface` stand for
-- what `DetectDefaultGateway` and `detectDefaultInterface` read from the system.
pub record World : Type 0 where
  pub to_lower : String → String
  pub trim_space : String → String
  pub trim_right_slashes : String → String
  pub before_slash : String → String
  pub default_gateway : String
  pub default_interface : String
  pub ping : String → Bool
  pub healthy : Node → Bool

abbrev pub is_empty : String → Bool
is_empty s = str_eq s ""

abbrev pub mode_or_standalone : String → String
mode_or_standalone m = if is_empty m then "standalone" else m

-- `NewHAManager`; a mode but "backup" starts active.
unfoldable pub new_ha_manager : World → HaConfig → HaManager
new_ha_manager w cfg =
    let mode = mode_or_standalone (w.to_lower (w.trim_space cfg.ha_mode)) in
    record {
      cfg = cfg;
      mode = mode;
      role = if str_eq mode "backup" then standby else active;
      peer_url = w.trim_right_slashes cfg.peer_url;
      peer_online = false;
      peer_latency = 0;
      last_heartbeat = 0;
      failover_count = 0;
      vip_active = false;
      gateway_ip =
          if is_empty cfg.gateway_ip && cfg.enable_gateway_check
          then w.default_gateway
          else cfg.gateway_ip;
      gateway_online = true;
      worker_quorum_total = 0;
      worker_quorum_online = 0;
      quorum_passed = true;
      split_brain_blocked = false;
      blocked_reason = no_reason;
      consecutive_failures = 0;
      commands = [];
    }

-- The interface of the VIP; empty where there is none.
abbrev pub vip_iface : World → HaManager → String
vip_iface w h = if is_empty h.cfg.vip_interface then w.default_interface else h.cfg.vip_interface

-- `bindVIPLocked`: the results of the commands change nothing.
unfoldable pub bind_vip : World → HaManager → HaManager
bind_vip w h = if is_empty h.cfg.vip || is_empty (vip_iface w h) then h else record h {
  vip_active = true;
  commands =
      arping (vip_iface w h) (w.before_slash h.cfg.vip)
      ∷ addr_add h.cfg.vip (vip_iface w h)
      ∷ h.commands;
}

-- `releaseVIPLocked`.
unfoldable pub release_vip : World → HaManager → HaManager
release_vip w h =
    if is_empty h.cfg.vip || not h.vip_active || is_empty (vip_iface w h)
    then h
    else record h { vip_active = false; commands = addr_del h.cfg.vip (vip_iface w h) ∷ h.commands }
