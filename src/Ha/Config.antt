-- ===== src/Ha/Config.antt =====
-- The change of the configuration at run time: `UpdateConfig` of internal/manager/ha.go.
use distribute_storage_log_a.Prelude.{false, not, ◌&&◌, if◌then◌else◌}
use distribute_storage_log_a.Prelude.Int.{ℤ, pos, ltb_ℤ}
use distribute_storage_log_a.Prelude.Text.{str_eq}
use distribute_storage_log_a.Ha.{
  HaConfig, HaManager, active, standby, is_active, World, is_empty, mode_or_standalone, bind_vip,
  release_vip,
}

abbrev positive_or : ℤ → ℤ → ℤ
positive_or new old = if ltb_ℤ (pos 0) new then new else old

-- 1 and 2: the gateway, the checks and the intervals.
unfoldable pub set_checks : World → HaConfig → HaManager → HaManager
set_checks w new h =
    let given = w.trim_space new.gateway_ip in
    let gateway = if is_empty given && new.enable_gateway_check then w.default_gateway else given in
    record h {
      gateway_ip = gateway;
      cfg = record h.cfg {
        gateway_ip = gateway;
        enable_gateway_check = new.enable_gateway_check;
        enable_worker_quorum = new.enable_worker_quorum;
        heartbeat_interval_sec =
            positive_or new.heartbeat_interval_sec h.cfg.heartbeat_interval_sec;
        failover_timeout_sec = positive_or new.failover_timeout_sec h.cfg.failover_timeout_sec;
        sync_interval_sec = positive_or new.sync_interval_sec h.cfg.sync_interval_sec;
      };
    }

-- 3: a new peer is not online, and its failures are counted from 0.
unfoldable pub set_peer : World → HaConfig → HaManager → HaManager
set_peer w new h =
    let peer = w.trim_right_slashes (w.trim_space new.peer_url) in
    if str_eq peer h.peer_url then h else record h {
      peer_url = peer;
      cfg = record h.cfg { peer_url = peer };
      peer_online = false;
      consecutive_failures = 0;
    }

-- 4: the VIP is written first, then the old one is to be released.
unfoldable pub set_vip : World → HaConfig → HaManager → HaManager
set_vip w new h =
    let written = record h {
      cfg = record h.cfg {
        vip = w.trim_space new.vip;
        vip_interface = w.trim_space new.vip_interface;
      };
    } in
    if not (is_empty h.cfg.vip) && not (str_eq h.cfg.vip (w.trim_space new.vip)) && h.vip_active
    then release_vip w written
    else written

-- 5: the mode, and the role where the mode calls for another.
unfoldable pub set_mode : World → HaConfig → HaManager → HaManager
set_mode w new h =
    let mode = mode_or_standalone (w.to_lower (w.trim_space new.ha_mode)) in
    let written = record h { mode = mode; cfg = record h.cfg { ha_mode = mode } } in
    if str_eq mode "standalone"
    then (let alone = record written { role = active } in
        if h.vip_active then release_vip w alone else alone)
    else if str_eq h.mode "standalone"
    then record written { role = if str_eq mode "backup" then standby else active }
    else written

unfoldable pub bind_if_active : World → HaManager → HaManager
bind_if_active w h =
    if is_active h.role && not (is_empty h.cfg.vip) && not h.vip_active then bind_vip w h else h

-- What is done under the lock; the probes and loops started behind it are steps of their own.
unfoldable pub update_config : World → HaConfig → HaManager → HaManager
update_config w new h =
    bind_if_active w (set_mode w new (set_vip w new (set_peer w new (set_checks w new h))))
