-- ===== src/Ha/Failover.antt =====
-- When a standby takes over, and after how many failures: `markPeerFailure` of
-- internal/manager/ha.go.
use distribute_storage_log_a.Prelude.{
  ℕ, zero, suc, ◌+◌, ◌≤◌, ◌<◌, ◌≡◌, ◌⊎◌, ◌↔◌, refl, ap, ◌∙◌, Bool, true, false, ◌&&◌, none, some,
  if◌then◌else◌, leb, leb→le, le→leb, arith, Bool-cases, inl, inr,
}
use distribute_storage_log_a.Prelude.Int.{ℤ, pos, negsuc}
use distribute_storage_log_a.Ha.{HaManager, active, standby, World, bind_vip, release_vip}
use distribute_storage_log_a.Ha.Quorum.{Nodes, Safety}
use distribute_storage_log_a.Ha.Safety.{checks, GatewayPasses, WorkersPass, checks-safe}
use distribute_storage_log_a.Ha.Peer.{
  quotient, at_least_two, failover_limit, try_promote, after_failure, mark_peer_failure,
}

pub bind_vip-same :
    (w : World) (h : HaManager)
    → ((bind_vip w h).role ≡ h.role)
      × ((bind_vip w h).failover_count ≡ h.failover_count)
      × ((bind_vip w h).consecutive_failures ≡ h.consecutive_failures)
unfolding bind_vip
bind_vip-same w h = ground arith

pub release_vip-same :
    (w : World) (h : HaManager)
    → ((release_vip w h).role ≡ h.role)
      × ((release_vip w h).failover_count ≡ h.failover_count)
      × ((release_vip w h).consecutive_failures ≡ h.consecutive_failures)
unfolding release_vip
release_vip-same w h = ground arith

safe_if_active : (b : Bool) → (if b then active else standby) ≡ active → b ≡ true
safe_if_active true e = refl
safe_if_active false e = cc

try_promote-role :
    (w : World) (nodes : Nodes) (h : HaManager)
    → (try_promote w nodes h).role ≡ (if (checks w nodes h).safe then active else h.role)
unfolding try_promote
try_promote-role w nodes h = elim (Bool-cases ((checks w nodes h).safe)) [
  | inl e ↦ rw (e, (bind_vip-same w _).0) refl
  | inr e ↦ rw e refl
]

too_few : {m n : ℕ} → m ≤ n → n < m → ⊥
too_few p q = omega arith

standby_not_active : standby ≡ active → ⊥
standby_not_active e = cc

and_false : (a : Bool) → (a && false) ≡ false
and_false true = refl
and_false false = refl

pub after_failure-below :
    (w : World) (nodes : Nodes) (limit : ℕ) (h : HaManager)
    → h.consecutive_failures < limit
    → after_failure w nodes limit h ≡ h
unfolding after_failure
after_failure-below w nodes limit h few =
    let below : leb limit h.consecutive_failures ≡ false = ground arith in
    rw (below, and_false, and_false) refl

pub after_failure-standby :
    (w : World) (nodes : Nodes) (limit : ℕ) (h : HaManager)
    → h.role ≡ standby
    → limit ≤ h.consecutive_failures
    → after_failure w nodes limit h ≡ try_promote w nodes h
unfolding after_failure
after_failure-standby w nodes limit h e many = rw (e, le→leb limit h.consecutive_failures many) refl

abbrev pub failed : HaManager → HaManager
failed h = record h { peer_online = false; consecutive_failures = h.consecutive_failures + 1 }

try_promote-safe :
    (w : World) (nodes : Nodes) (h : HaManager)
    → (checks w nodes h).safe ≡ true
    → let h' = try_promote w nodes h in
      (h'.role ≡ active)
      × (h'.failover_count ≡ h.failover_count + 1)
      × (h'.consecutive_failures ≡ 0)
unfolding try_promote
try_promote-safe w nodes h e = rw e (bind_vip-same w _)

pub mark_peer_failure-promotes_safe :
    (w : World) (nodes : Nodes) (limit : ℕ) (h : HaManager)
    → h.role ≡ standby
    → ((mark_peer_failure w nodes limit h).role ≡ active)
      ↔ ((limit ≤ h.consecutive_failures + 1) × ((checks w nodes h).safe ≡ true))
unfolding mark_peer_failure
mark_peer_failure-promotes_safe w nodes limit h e =
    elim (Bool-cases (leb limit (h.consecutive_failures + 1))) [
      | inl many ↦
          let reached : limit ≤ h.consecutive_failures + 1 =
            leb→le limit (h.consecutive_failures + 1) many in
          let step : after_failure w nodes limit (failed h) ≡ try_promote w nodes (failed h) =
            after_failure-standby w nodes limit (failed h) e reached in
          rw (step, try_promote-role w nodes (failed h), e)
            ((λ p. (reached, safe_if_active ((checks w nodes h).safe) p)), (λ p. rw p.1 refl))
      | inr few ↦
          let below : h.consecutive_failures + 1 < limit = ground arith in
          let step : after_failure w nodes limit (failed h) ≡ failed h =
            after_failure-below w nodes limit (failed h) below in
          rw (step, e) ((λ p. elim (standby_not_active p) [ ]), (λ p. elim (too_few p.0 below) [ ]))
    ]

-- A failed probe makes an active of a standby if and only if the failures, this one counted, reach the
-- limit; the gateway is not to be checked, not known, or answers the ping; and the workers are not to
-- be asked, there are none, or more than half of them answer.
pub mark_peer_failure-promotes :
    (w : World) (nodes : Nodes) (limit : ℕ) (h : HaManager)
    → h.role ≡ standby
    → ((mark_peer_failure w nodes limit h).role ≡ active)
      ↔ ((limit ≤ h.consecutive_failures + 1) × (GatewayPasses w h × WorkersPass w nodes h))
mark_peer_failure-promotes w nodes limit h e =
    let promotes = mark_peer_failure-promotes_safe w nodes limit h e in
    let safe = checks-safe w nodes h in
    ((λ p. ((promotes.0 p).0, safe.0 ((promotes.0 p).1))), (λ p. promotes.1 (p.0, safe.1 p.1)))

-- The state after a number of failed probes in a row.
abbrev pub after_failures : World → Nodes → ℕ → ℕ → HaManager → HaManager
after_failures w nodes limit zero h = h
after_failures w nodes limit (suc n) h =
    mark_peer_failure w nodes limit (after_failures w nodes limit n h)

waits :
    (w : World) (nodes : Nodes) (limit n : ℕ) (h : HaManager)
    → h.role ≡ standby
    → h.consecutive_failures ≡ 0
    → n < limit
    → let h' = after_failures w nodes limit n h in
      (h'.role ≡ standby)
      × (h'.consecutive_failures ≡ n)
      × (h'.failover_count ≡ h.failover_count)
      × (checks w nodes h' ≡ checks w nodes h)
unfolding mark_peer_failure
waits w nodes limit zero h e none_yet few = (e, none_yet, refl, refl)
waits w nodes limit (suc n) h e none_yet few =
    let h' : HaManager = after_failures w nodes limit n h in
    let (r, c, f, s) = waits w nodes limit n h e none_yet (omega arith) in
    let step : after_failure w nodes limit (failed h') ≡ failed h' =
      after_failure-below w nodes limit (failed h') (omega arith) in
    rw step (r, omega arith, f, s)

-- For a limit of at least 1, if a standby has counted no failure and its checks pass, the failed
-- probes before the limit is
-- reached leave it a standby, and the one that reaches it makes it active, with one failover
-- counted and the failures counted from 0 again.
pub takes_over_at_limit :
    (w : World) (nodes : Nodes) (limit n : ℕ) (h : HaManager)
    → h.role ≡ standby
    → h.consecutive_failures ≡ 0
    → (checks w nodes h).safe ≡ true
    → n < suc limit
    → ((after_failures w nodes (suc limit) n h).role ≡ standby)
      × (let last = after_failures w nodes (suc limit) (suc limit) h in
          (last.role ≡ active)
          × (last.failover_count ≡ h.failover_count + 1)
          × (last.consecutive_failures ≡ 0))
unfolding mark_peer_failure
takes_over_at_limit w nodes limit n h e none_yet safe few =
    let h' : HaManager = after_failures w nodes (suc limit) limit h in
    let (r, c, f, s) = waits w nodes (suc limit) limit h e none_yet (omega arith) in
    let step : after_failure w nodes (suc limit) (failed h') ≡ try_promote w nodes (failed h') =
      after_failure-standby w nodes (suc limit) (failed h') r (omega arith) in
    let (a, b, d) = try_promote-safe w nodes (failed h') (ap (λ (x : Safety). x.safe) s ∙ safe) in
    ((waits w nodes (suc limit) n h e none_yet few).0, rw step (a, b ∙ ap (λ (x : ℕ). x + 1) f, d))

two-at_least_two : (q : ℤ) → 2 ≤ at_least_two q
two-at_least_two (pos n) = ground arith
two-at_least_two (negsuc n) = omega arith

quotient-cases :
    (a b : ℤ) → ((b ≡ pos 0) × (quotient a b ≡ none)) ⊎ ((q : ℤ) × (quotient a b ≡ some q))
unfolding quotient
quotient-cases a (pos zero) = inl (refl, refl)
quotient-cases (pos a) (pos (suc b)) = inr (_, refl)
quotient-cases (negsuc a) (pos (suc b)) = inr (_, refl)
quotient-cases (pos a) (negsuc b) = inr (_, refl)
quotient-cases (negsuc a) (negsuc b) = inr (_, refl)

-- The heartbeat loop panics with a division by zero where the interval is 0; everywhere else it
-- waits for a number of failures that is at least 2.
pub failover_limit-cases :
    (timeout interval : ℤ)
    → ((interval ≡ pos 0) × (failover_limit timeout interval ≡ none))
      ⊎ ((limit : ℕ) × (failover_limit timeout interval ≡ some limit) × (2 ≤ limit))
unfolding failover_limit
failover_limit-cases timeout interval = elim (quotient-cases timeout interval) [
  | inl (e, p) ↦ inl (e, rw p refl)
  | inr (q, p) ↦ inr (at_least_two q, rw p refl, two-at_least_two q)
]
