-- ===== src/Ha/Vip.antt =====
-- Who holds the virtual address: the binding and the release of internal/manager/ha.go.
use distribute_storage_log_a.Prelude.{
  ℕ, ◌≡◌, refl, sym, ap, ◌∙◌, Bool, true, false, not, ◌&&◌, ◌||◌, String, ltb, leb, arith,
  Bool-cases, inl, inr,
}
use distribute_storage_log_a.Prelude.Text.{str_eq}
use distribute_storage_log_a.Ha.{
  HaManager, active, is_active, World, is_empty, vip_iface, bind_vip, release_vip,
}
use distribute_storage_log_a.Ha.Quorum.{Nodes, check_worker_quorum, check_split_brain_safety}
use distribute_storage_log_a.Ha.Peer.{try_promote, look_at_workers, after_failure, mark_peer_answer}
use distribute_storage_log_a.Ha.Switchover.{promote_to_active, demote_to_standby}

-- The VIP is bound only by an active manager, and only where one is configured.
pub data VipOk (h : HaManager) : Type 0 where
  unbound : h.vip_active ≡ false → VipOk h
  bound : h.role ≡ active → is_empty h.cfg.vip ≡ false → VipOk h

-- The interface is always known: `detectDefaultInterface` falls back to "eth0".
abbrev pub KnowsInterface : World → Type 0
KnowsInterface w = is_empty w.default_interface ≡ false

vip_iface-known : (w : World) (h : HaManager) → KnowsInterface w → is_empty (vip_iface w h) ≡ false
vip_iface-known w h known = ground (arith, Bool-cases (is_empty h.cfg.vip_interface))

or_false : (a b : Bool) → (a || b) ≡ false → a ≡ false
or_false true b e = e
or_false false b e = refl

pub bind_vip-ok : (w : World) (h : HaManager) → h.role ≡ active → VipOk h → VipOk (bind_vip w h)
unfolding bind_vip
bind_vip-ok w h e ok = elim (Bool-cases (is_empty h.cfg.vip || is_empty (vip_iface w h))) [
  | inl p ↦ rw p ok
  | inr p ↦ rw p (bound e (or_false (is_empty h.cfg.vip) (is_empty (vip_iface w h)) p))
]

-- A bound address of a configured VIP is always released.
release_vip-off :
    (w : World) (h : HaManager)
    → KnowsInterface w
    → is_empty h.cfg.vip ≡ false
    → (release_vip w h).vip_active ≡ false
unfolding release_vip
release_vip-off w h known some_vip =
    ground (arith, vip_iface-known w h known, Bool-cases h.vip_active)

release_vip-still_off :
    (w : World) (h : HaManager) → h.vip_active ≡ false → (release_vip w h).vip_active ≡ false
unfolding release_vip
release_vip-still_off w h off = ground (arith, Bool-cases (is_empty h.cfg.vip))

-- The manager `s` steps down from `h`, with the address of `h` and its configuration.
pub release_vip-ok :
    (w : World) (h s : HaManager)
    → KnowsInterface w
    → s.vip_active ≡ h.vip_active
    → s.cfg.vip ≡ h.cfg.vip
    → VipOk h
    → VipOk (release_vip w s)
release_vip-ok w h s known same same_vip (unbound off) =
    unbound (release_vip-still_off w s (same ∙ off))
release_vip-ok w h s known same same_vip (bound e some_vip) =
    unbound (release_vip-off w s known (ap is_empty same_vip ∙ some_vip))

true_not_false : true ≡ false → ⊥
true_not_false e = cc

pub same-ok :
    (h s : HaManager)
    → s.role ≡ h.role
    → s.vip_active ≡ h.vip_active
    → s.cfg.vip ≡ h.cfg.vip
    → VipOk h
    → VipOk s
same-ok h s r a v (unbound off) = unbound (a ∙ off)
same-ok h s r a v (bound e some_vip) = bound (r ∙ e) (ap is_empty v ∙ some_vip)

pub standby-unbound : (h : HaManager) → VipOk h → is_active h.role ≡ false → h.vip_active ≡ false
standby-unbound h (unbound off) e = off
standby-unbound h (bound a some_vip) e = elim (true_not_false (sym (ap is_active a) ∙ e)) [ ]

try_promote-ok :
    (w : World) (nodes : Nodes) (h : HaManager)
    → is_active h.role ≡ false
    → VipOk h
    → VipOk (try_promote w nodes h)
unfolding try_promote
try_promote-ok w nodes h e ok =
    let off = standby-unbound h ok e in
    elim (Bool-cases (
      (check_split_brain_safety w h.gateway_ip h.cfg.enable_gateway_check h.cfg.enable_worker_quorum
        nodes).safe)) [
          | inl p ↦ rw p (bind_vip-ok w _ refl (unbound off))
          | inr p ↦ rw p (unbound off)
        ]

look_at_workers-ok :
    (w : World) (nodes : Nodes) (h : HaManager)
    → KnowsInterface w
    → VipOk h
    → VipOk (look_at_workers w nodes h)
unfolding look_at_workers
look_at_workers-ok w nodes h known ok =
    let q = check_worker_quorum w nodes in
    elim (Bool-cases (ltb 0 q.total && not q.passed)) [
      | inl p ↦ rw p (release_vip-ok w h _ known refl refl ok)
      | inr p ↦ rw p (same-ok h _ refl refl refl ok)
    ]

not_left : (a b : Bool) → (not a && b) ≡ true → a ≡ false
not_left true b e = sym e
not_left false b e = refl

pub after_failure-ok :
    (w : World) (nodes : Nodes) (limit : ℕ) (h : HaManager)
    → KnowsInterface w
    → VipOk h
    → VipOk (after_failure w nodes limit h)
unfolding after_failure
after_failure-ok w nodes limit h known ok =
    let many : Bool = leb limit h.consecutive_failures in
    elim (Bool-cases (not (is_active h.role) && many)) [
      | inl p ↦ rw p (try_promote-ok w nodes h (not_left (is_active h.role) many p) ok)
      | inr p ↦ elim (Bool-cases (is_active h.role && h.cfg.enable_worker_quorum && many)) [
        | inl q ↦ rw (p, q) (look_at_workers-ok w nodes h known ok)
        | inr q ↦ rw (p, q) ok
      ]
    ]

pub mark_peer_answer-ok :
    (w : World) (role : String) (now latency : ℕ) (h : HaManager)
    → KnowsInterface w
    → VipOk h
    → VipOk (mark_peer_answer w role now latency h)
unfolding mark_peer_answer
mark_peer_answer-ok w role now latency h known ok =
    elim (Bool-cases (is_active h.role && str_eq role "active" && str_eq h.mode "primary")) [
      | inl p ↦ rw p (release_vip-ok w h _ known refl refl ok)
      | inr p ↦ rw p (same-ok h _ refl refl refl ok)
    ]

pub promote-ok : (w : World) (h : HaManager) → VipOk h → VipOk (promote_to_active w h)
unfolding promote_to_active
promote-ok w h ok = elim (Bool-cases (is_active h.role)) [
  | inl p ↦ rw p ok
  | inr p ↦ rw p (bind_vip-ok w _ refl (unbound (standby-unbound h ok p)))
]

pub demote-ok :
    (w : World) (h : HaManager) → KnowsInterface w → VipOk h → VipOk (demote_to_standby w h)
unfolding demote_to_standby
demote-ok w h known ok = elim (Bool-cases (is_active h.role)) [
  | inl p ↦ rw p (release_vip-ok w h _ known refl refl ok)
  | inr p ↦ rw p ok
]
