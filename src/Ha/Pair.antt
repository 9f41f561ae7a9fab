-- ===== src/Ha/Pair.antt =====
-- Two managers that reach each other: what the heartbeats and a planned switchover make of them.
use distribute_storage_log_a.Prelude.{
  ℕ, ◌≡◌, refl, ap, ◌∙◌, true, false, not, List, [], ◌∷◌, String, arith, Bool-cases,
}
use distribute_storage_log_a.Prelude.Text.{str_eq}
use distribute_storage_log_a.Ha.{HaManager, active, standby, is_active, World}
use distribute_storage_log_a.Ha.Peer.{mark_peer_answer}
use distribute_storage_log_a.Ha.Switchover.{demote_to_standby, role_name, peer_refused, switchover}
use distribute_storage_log_a.Ha.Failover.{release_vip-same}

steps_down :
    (w : World) (now latency : ℕ) (h : HaManager)
    → h.role ≡ active
    → str_eq h.mode "primary" ≡ true
    → (mark_peer_answer w (role_name active) now latency h).role ≡ standby
unfolding mark_peer_answer
steps_down w now latency h e m = rw (e, m) ((release_vip-same w _).0)

keeps_role :
    (w : World) (role : String) (now latency : ℕ) (h : HaManager)
    → str_eq h.mode "primary" ≡ false
    → (mark_peer_answer w role now latency h).role ≡ h.role
unfolding mark_peer_answer
keeps_role w role now latency h m =
    ground (arith, Bool-cases (is_active h.role), Bool-cases (str_eq role "active"))

keeps_role_by_standby :
    (w : World) (now latency : ℕ) (h : HaManager)
    → (mark_peer_answer w (role_name standby) now latency h).role ≡ h.role
unfolding mark_peer_answer
keeps_role_by_standby w now latency h = ground (arith, Bool-cases (is_active h.role))

-- If a primary and a manager in another mode are both active and each gets the other's heartbeat,
-- the primary first or the other first, the primary is a standby and the other is active.
pub one_active_after_heartbeats :
    (w v : World) (now latency : ℕ) (a b : HaManager)
    → a.role ≡ active
    → b.role ≡ active
    → str_eq a.mode "primary" ≡ true
    → str_eq b.mode "primary" ≡ false
    → let a_first = mark_peer_answer w (role_name b.role) now latency a in
      let b_second = mark_peer_answer v (role_name a_first.role) now latency b in
      let b_first = mark_peer_answer v (role_name a.role) now latency b in
      let a_second = mark_peer_answer w (role_name b_first.role) now latency a in
      (a_first.role ≡ standby)
      × (b_second.role ≡ active)
      × (b_first.role ≡ active)
      × (a_second.role ≡ standby)
one_active_after_heartbeats w v now latency a b ea eb ma mb =
    let b_first : (mark_peer_answer v (role_name a.role) now latency b).role ≡ active =
      keeps_role v (role_name a.role) now latency b mb ∙ eb in
    (
      rw eb (steps_down w now latency a ea ma),
      keeps_role v _ now latency b mb ∙ eb,
      b_first,
      rw b_first (steps_down w now latency a ea ma),
    )

-- The good answers of a peer, one after another.
abbrev pub after_answers : World → List (String × ℕ × ℕ) → HaManager → HaManager
after_answers w [] h = h
after_answers w ((role, now, latency) ∷ rest) h =
    after_answers w rest (mark_peer_answer w role now latency h)

answer-standby :
    (w : World) (role : String) (now latency : ℕ) (h : HaManager)
    → h.role ≡ standby
    → (mark_peer_answer w role now latency h).role ≡ standby
unfolding mark_peer_answer
answer-standby w role now latency h e = rw e refl

answers-standby :
    (w : World) (beats : List (String × ℕ × ℕ)) (h : HaManager)
    → h.role ≡ standby
    → (after_answers w beats h).role ≡ standby
answers-standby w [] h e = e
answers-standby w ((role, now, latency) ∷ rest) h e =
    answers-standby w rest (mark_peer_answer w role now latency h)
      (answer-standby w role now latency h e)

demotes : (w : World) (h : HaManager) → (demote_to_standby w h).role ≡ standby
unfolding demote_to_standby
demotes w h = ground (arith, release_vip-same w (record h { role = standby }))

-- A standby asks its online peer to step down and the answer is lost behind the peer's demotion:
-- the switchover fails, and both are standbys, however many heartbeats they then exchange.
pub lost_answer_leaves_no_active :
    (w v : World) (a b : HaManager) (beats beats' : List (String × ℕ × ℕ))
    → a.role ≡ standby
    → a.peer_online ≡ true
    → str_eq a.mode "standalone" ≡ false
    → let (result, a') = switchover w (λ _. false) a in
      let b' = demote_to_standby v b in
      (result ≡ peer_refused)
      × ((after_answers w beats a').role ≡ standby)
      × ((after_answers v beats' b').role ≡ standby)
unfolding switchover
lost_answer_leaves_no_active w v a b beats beats' e online mode =
    rw (mode, ap not online, ap is_active e)
      (refl, answers-standby w beats a e, answers-standby v beats' _ (demotes v b))
