-- ===== src/Ha/Peer.antt =====
-- The probe of the peer: `heartbeatLoop`, `probePeer` and `markPeerFailure` of
-- internal/manager/ha.go.
use distribute_storage_log_a.Prelude.{
  ℕ, zero, suc, ◌+◌, ◌/◌, ◌>>=◌, true, false, not, ◌&&◌, Option, none, some, String, if◌then◌else◌,
  ltb, leb,
}
use distribute_storage_log_a.Prelude.Int.{ℤ, pos, negsuc}
use distribute_storage_log_a.Prelude.Text.{str_eq}
use distribute_storage_log_a.Ha.{
  HaManager, active, standby, is_active, World, no_reason, in_small_partition, is_empty, bind_vip,
  release_vip,
}
use distribute_storage_log_a.Ha.Quorum.{Nodes, check_worker_quorum, check_split_brain_safety}

abbrev negated : ℕ → ℤ
negated zero = pos 0
negated (suc n) = negsuc n

-- The quotient of two `int`s, towards zero; `none` is the panic of a division by zero.
unfoldable pub quotient : ℤ → ℤ → Option ℤ
quotient a (pos zero) = none
quotient (pos a) (pos (suc b)) = some (pos (a / suc b))
quotient (negsuc a) (pos (suc b)) = some (negated (suc a / suc b))
quotient (pos a) (negsuc b) = some (negated (a / suc b))
quotient (negsuc a) (negsuc b) = some (pos (suc a / suc b))

abbrev pub at_least_two : ℤ → ℕ
at_least_two (negsuc n) = 3
at_least_two (pos n) = if ltb n 2 then 3 else n

-- The number of failures that `heartbeatLoop` passes on.
unfoldable pub failover_limit : ℤ → ℤ → Option ℕ
failover_limit timeout interval = do quot ← quotient timeout interval; some (at_least_two quot)

-- A standby that has failed to reach its peer often enough: the checks, then the promotion.
unfoldable pub try_promote : World → Nodes → HaManager → HaManager
try_promote w nodes h =
    let s =
      check_split_brain_safety w h.gateway_ip h.cfg.enable_gateway_check h.cfg.enable_worker_quorum
        nodes in
    let checked = record h {
      gateway_online = s.gateway_online;
      worker_quorum_total = s.total;
      worker_quorum_online = s.online;
      quorum_passed = s.safe;
    } in
    if s.safe
    then bind_vip w (record checked {
      split_brain_blocked = false;
      blocked_reason = no_reason;
      role = active;
      failover_count = h.failover_count + 1;
      consecutive_failures = 0;
    })
    else record checked { split_brain_blocked = true; blocked_reason = s.reason }

-- An active that has lost its peer looks whether it reaches a majority of the workers.
unfoldable pub look_at_workers : World → Nodes → HaManager → HaManager
look_at_workers w nodes h =
    let q = check_worker_quorum w nodes in
    let checked = record h {
      worker_quorum_total = q.total;
      worker_quorum_online = q.online;
      quorum_passed = q.passed;
    } in
    if ltb 0 q.total && not q.passed
    then release_vip w (record checked {
      role = standby;
      split_brain_blocked = true;
      blocked_reason = in_small_partition q.online q.total;
    })
    else checked

-- `markPeerFailure`, with the failure counted already.
unfoldable pub after_failure : World → Nodes → ℕ → HaManager → HaManager
after_failure w nodes limit h =
    if not (is_active h.role) && leb limit h.consecutive_failures
    then try_promote w nodes h
    else if is_active h.role && h.cfg.enable_worker_quorum && leb limit h.consecutive_failures
    then look_at_workers w nodes h
    else h

unfoldable pub mark_peer_failure : World → Nodes → ℕ → HaManager → HaManager
mark_peer_failure w nodes limit h =
    after_failure w nodes limit
      (record h { peer_online = false; consecutive_failures = h.consecutive_failures + 1 })

-- The outcome of the request: every error, status and text but a good answer is a failure.
pub data Heartbeat : Type 0 where
  failure : Heartbeat
  answer : (role : String) (now latency : ℕ) → Heartbeat

-- A good answer: a primary that finds its peer active steps down.
unfoldable pub mark_peer_answer : World → String → ℕ → ℕ → HaManager → HaManager
mark_peer_answer w role now latency h =
    let seen = record h {
      peer_online = true;
      peer_latency = latency;
      last_heartbeat = now;
      consecutive_failures = 0;
    } in
    if is_active h.role && str_eq role "active" && str_eq h.mode "primary"
    then release_vip w (record seen { role = standby })
    else seen

unfoldable pub probe_peer : World → Nodes → ℕ → Heartbeat → HaManager → HaManager
probe_peer w nodes limit failure h =
    if is_empty h.peer_url then h else mark_peer_failure w nodes limit h
probe_peer w nodes limit (answer role now latency) h =
    if is_empty h.peer_url then h else mark_peer_answer w role now latency h

-- `Start`, under its lock: the loops that it starts are steps of their own.
unfoldable pub start : World → HaManager → HaManager
start w h =
    if str_eq h.mode "standalone"
    then h
    else if is_active h.role && not (is_empty h.cfg.vip)
    then bind_vip w h
    else h

-- The end of `heartbeatLoop`.
unfoldable pub stop : World → HaManager → HaManager
stop w h = if h.vip_active then release_vip w h else h
