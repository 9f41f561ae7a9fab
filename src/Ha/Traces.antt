-- ===== src/Ha/Traces.antt =====
-- A manager's life between two changes of its configuration, as a sequence of operations of
-- internal/manager/ha.go.
use distribute_storage_log_a.Prelude.{
  ℕ, ◌≡◌, refl, ap, Bool, true, false, not, ◌&&◌, if◌then◌else◌, arith, Bool-cases, inl, inr,
}
use distribute_storage_log_a.Prelude.Text.{str_eq}
use distribute_storage_log_a.Ha.{
  HaConfig, HaManager, Role, active, standby, is_active, World, is_empty, new_ha_manager,
  release_vip,
}
use distribute_storage_log_a.Ha.Quorum.{Nodes}
use distribute_storage_log_a.Ha.Peer.{
  mark_peer_failure, Heartbeat, failure, answer, probe_peer, start, stop,
}
use distribute_storage_log_a.Ha.Switchover.{
  promote_to_active, demote_to_standby, Request, switchover,
}
use distribute_storage_log_a.Ha.Vip.{
  VipOk, unbound, KnowsInterface, bind_vip-ok, release_vip-ok, same-ok, standby-unbound,
  after_failure-ok, mark_peer_answer-ok, promote-ok, demote-ok,
}

-- The operations at run time, but for a change of the configuration, each in a world of its own.
pub data Step (h : HaManager) : HaManager → Type 0 where
  started : (w : World) → Step h (start w h)
  probed :
      (w : World) (nodes : Nodes) (limit : ℕ) (beat : Heartbeat)
      → KnowsInterface w
      → Step h (probe_peer w nodes limit beat h)
  promoted : (w : World) → Step h (promote_to_active w h)
  demoted : (w : World) → KnowsInterface w → Step h (demote_to_standby w h)
  switched : (w : World) (ask : Request → Bool) → KnowsInterface w → Step h ((switchover w ask h).1)
  stopped : (w : World) → KnowsInterface w → Step h (stop w h)

pub data Steps (h : HaManager) : HaManager → Type 0 where
  done : Steps h h
  then_step : {m n : HaManager} → Steps h m → Step m n → Steps h n

probe_peer-ok :
    (w : World) (nodes : Nodes) (limit : ℕ) (beat : Heartbeat) (h : HaManager)
    → KnowsInterface w
    → VipOk h
    → VipOk (probe_peer w nodes limit beat h)
unfolding probe_peer mark_peer_failure
probe_peer-ok w nodes limit failure h known ok = elim (Bool-cases (is_empty h.peer_url)) [
  | inl p ↦ rw p ok
  | inr p ↦ rw p (after_failure-ok w nodes limit _ known (same-ok h _ refl refl refl ok))
]
probe_peer-ok w nodes limit (answer role now latency) h known ok =
    elim (Bool-cases (is_empty h.peer_url)) [
      | inl p ↦ rw p ok
      | inr p ↦ rw p (mark_peer_answer-ok w role now latency h known ok)
    ]

switchover-ok :
    (w : World) (ask : Request → Bool) (h : HaManager)
    → KnowsInterface w
    → VipOk h
    → VipOk ((switchover w ask h).1)
unfolding switchover
switchover-ok w ask h known ok = ground (arith, promote-ok w h ok, demote-ok w h known ok)

active_if : (r : Role) (b : Bool) → (is_active r && b) ≡ true → r ≡ active
active_if active b e = refl
active_if standby b e = cc

start-ok : (w : World) (h : HaManager) → VipOk h → VipOk (start w h)
unfolding start
start-ok w h ok = elim (Bool-cases (str_eq h.mode "standalone")) [
  | inl p ↦ rw p ok
  | inr p ↦ elim (Bool-cases (is_active h.role && not (is_empty h.cfg.vip))) [
    | inl q ↦ rw (p, q) (bind_vip-ok w h (active_if h.role (not (is_empty h.cfg.vip)) q) ok)
    | inr q ↦ rw (p, q) ok
  ]
]

either-ok : (b : Bool) (x y : HaManager) → VipOk x → VipOk y → VipOk (if b then x else y)
either-ok true x y p q = p
either-ok false x y p q = q

stop-ok : (w : World) (h : HaManager) → KnowsInterface w → VipOk h → VipOk (stop w h)
unfolding stop
stop-ok w h known ok =
    either-ok h.vip_active (release_vip w h) h (release_vip-ok w h h known refl refl ok) ok

Step-ok : {h h' : HaManager} → VipOk h → Step h h' → VipOk h'
Step-ok {h} ok (started w) = start-ok w h ok
Step-ok {h} ok (probed w nodes limit beat known) = probe_peer-ok w nodes limit beat h known ok
Step-ok {h} ok (promoted w) = promote-ok w h ok
Step-ok {h} ok (demoted w known) = demote-ok w h known ok
Step-ok {h} ok (switched w ask known) = switchover-ok w ask h known ok
Step-ok {h} ok (stopped w known) = stop-ok w h known ok

Steps-ok : {h h' : HaManager} → VipOk h → Steps h h' → VipOk h'
Steps-ok ok done = ok
Steps-ok ok (then_step steps step) = Step-ok (Steps-ok ok steps) step

-- From its creation on, however it is started, probed, promoted, demoted, switched over and stopped, while
-- its configuration is not changed and a network interface is known, the manager holds the VIP only
-- as the active one, so that a standby has given it up.
pub standby_has_no_vip :
    (w : World) (cfg : HaConfig) (h : HaManager)
    → Steps (new_ha_manager w cfg) h
    → h.role ≡ standby
    → h.vip_active ≡ false
unfolding new_ha_manager
standby_has_no_vip w cfg h steps e =
    standby-unbound h (Steps-ok (unbound refl) steps) (ap is_active e)
