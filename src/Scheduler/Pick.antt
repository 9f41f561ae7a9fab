-- ===== src/Scheduler/Pick.antt =====
-- Which worker is chosen.
use distribute_storage_log_a.Prelude.{
  ℕ, ◌≡◌, ◌⊎◌, refl, Bool, true, some, List, [], ◌∷◌, String, if◌then◌else◌, filter, arith,
  Bool-cases, inl, inr,
}
use distribute_storage_log_a.Prelude.Int.{ℤ, eqb_ℤ, ◌≤ℤ◌}
use distribute_storage_log_a.Scheduler.{
  Floats, Worker, positive, is_worker_capacity_lower, is_candidate, best_of, pick_best,
  pick_lowest_usage_worker,
}

pub data IsIn {A : Type 0} (a : A) : List A → Type 0 where
  here : {rest : List A} → IsIn a (a ∷ rest)
  there : {b : A} {rest : List A} → IsIn a rest → IsIn a (b ∷ rest)

kept :
    {A : Type 0} {a y : A} {xs ys : List A} (p : A → Bool)
    → p y ≡ true
    → (IsIn a ys → IsIn a xs × (p a ≡ true))
    → IsIn a (y ∷ ys)
    → IsIn a (y ∷ xs) × (p a ≡ true)
kept p e f here = (here, e)
kept p e f (there i) = let (j, t) = f i in (there j, t)

filter-IsIn :
    {A : Type 0} (p : A → Bool) (xs : List A) {a : A}
    → IsIn a (filter p xs)
    → IsIn a xs × (p a ≡ true)
filter-IsIn p [] h = elim h [ ]
filter-IsIn p (x ∷ xs) {a} h = elim (Bool-cases (p x)) [
  | inl e ↦ kept p e (filter-IsIn p xs) (rw e at h)
  | inr e ↦ let (i, t) = filter-IsIn p xs (rw e at h) in (there i, t)
]

IsIn-filter :
    {A : Type 0} (p : A → Bool) (xs : List A) {a : A}
    → IsIn a xs
    → p a ≡ true
    → IsIn a (filter p xs)
IsIn-filter p [] i e = elim i [ ]
IsIn-filter p (x ∷ xs) here e = rw e here
IsIn-filter p (x ∷ xs) (there i) e = elim (Bool-cases (p x)) [
  | inl q ↦ rw q (there (IsIn-filter p xs i e))
  | inr q ↦ rw q (IsIn-filter p xs i e)
]

skip_second : {A : Type 0} {x a b : A} {rest : List A} → IsIn x (a ∷ rest) → IsIn x (a ∷ b ∷ rest)
skip_second here = here
skip_second (there j) = there (there j)

≤ℤ_trans : (a b c : ℤ) → a ≤ℤ b → b ≤ℤ c → a ≤ℤ c
≤ℤ_trans a b c h k = omega arith

≤ℤ_refl : (a : ℤ) → a ≤ℤ a
≤ℤ_refl a = omega arith

module _ (floats : Floats) where
  -- Of two workers with disks in use, the one that is kept uses no more than either.
  abbrev better : (cur best : Worker floats.Float) → Worker floats.Float
  better cur best = if is_worker_capacity_lower floats cur best then cur else best

  better-least :
      (cur best : Worker floats.Float)
      → positive cur.disk_used_mb ≡ true
      → positive best.disk_used_mb ≡ true
      → ((better cur best).disk_used_mb ≤ℤ cur.disk_used_mb)
        × ((better cur best).disk_used_mb ≤ℤ best.disk_used_mb)
  unfolding is_worker_capacity_lower
  better-least cur best c b = ground (
    arith,
    Bool-cases (eqb_ℤ cur.disk_used_mb best.disk_used_mb),
    Bool-cases (is_worker_capacity_lower floats cur best),
  )

  better-one-of :
      (cur best : Worker floats.Float) → (better cur best ≡ cur) ⊎ (better cur best ≡ best)
  better-one-of cur best = elim (Bool-cases (is_worker_capacity_lower floats cur best)) [
    | inl e ↦ inl (rw e refl)
    | inr e ↦ inr (rw e refl)
  ]

  IsIn-pair :
      (x cur best : Worker floats.Float) (rest : List (Worker floats.Float))
      → (better cur best ≡ cur) ⊎ (better cur best ≡ best)
      → IsIn x (better cur best ∷ rest)
      → IsIn x (best ∷ cur ∷ rest)
  IsIn-pair x cur best rest (inl e) i = there (rw e at i)
  IsIn-pair x cur best rest (inr e) i = skip_second (rw e at i)

  best_of-IsIn :
      (best : Worker floats.Float) (rest : List (Worker floats.Float))
      → IsIn (best_of floats best rest) (best ∷ rest)
  unfolding best_of
  best_of-IsIn best [] = here
  best_of-IsIn best (cur ∷ rest) =
      IsIn-pair _ cur best rest (better-one-of cur best) (best_of-IsIn (better cur best) rest)

  better-positive :
      (cur best : Worker floats.Float)
      → positive cur.disk_used_mb ≡ true
      → positive best.disk_used_mb ≡ true
      → positive (better cur best).disk_used_mb ≡ true
  better-positive cur best c b = elim (Bool-cases (is_worker_capacity_lower floats cur best)) [
    | inl e ↦ rw e c
    | inr e ↦ rw e b
  ]

  among :
      (x y : ℤ) (cur : Worker floats.Float) (rest : List (Worker floats.Float))
      → x ≤ℤ y
      → y ≤ℤ cur.disk_used_mb
      → ((m : Worker floats.Float) → IsIn m rest → x ≤ℤ m.disk_used_mb)
      → (m : Worker floats.Float) → IsIn m (cur ∷ rest)
      → x ≤ℤ m.disk_used_mb
  among x y cur rest h k others m here = ≤ℤ_trans x y cur.disk_used_mb h k
  among x y cur rest h k others m (there i) = others m i

  best_of-least :
      (best : Worker floats.Float) (rest : List (Worker floats.Float))
      → positive best.disk_used_mb ≡ true
      → ((m : Worker floats.Float) → IsIn m rest → positive m.disk_used_mb ≡ true)
      → ((best_of floats best rest).disk_used_mb ≤ℤ best.disk_used_mb)
        × ((m : Worker floats.Float)
            → IsIn m rest
            → (best_of floats best rest).disk_used_mb ≤ℤ m.disk_used_mb)
  unfolding best_of
  best_of-least best [] b used = (≤ℤ_refl best.disk_used_mb, λ m i. elim i [ ])
  best_of-least best (cur ∷ rest) b used =
      let c : positive cur.disk_used_mb ≡ true = used cur here in
      let (below, others) =
        best_of-least (better cur best) rest (better-positive cur best c b)
          (λ m i. used m (there i)) in
      let (to_cur, to_best) = better-least cur best c b in
      (
        ≤ℤ_trans _ (better cur best).disk_used_mb _ below to_best,
        among _ (better cur best).disk_used_mb cur rest below to_cur others,
      )

  pick_best-least :
      (cs : List (Worker floats.Float)) (n : Worker floats.Float)
      → IsIn n cs
      → ((m : Worker floats.Float) → IsIn m cs → positive m.disk_used_mb ≡ true)
      → (best : Worker floats.Float) × (pick_best floats cs ≡ some best)
        × IsIn best cs
        × (best.disk_used_mb ≤ℤ n.disk_used_mb)
  unfolding pick_best
  pick_best-least (first ∷ rest) n here used =
      let (to_first, to_rest) =
        best_of-least first rest (used first here) (λ m j. used m (there j)) in
      (best_of floats first rest, refl, best_of-IsIn first rest, to_first)
  pick_best-least (first ∷ rest) n (there i) used =
      let (to_first, to_rest) =
        best_of-least first rest (used first here) (λ m j. used m (there j)) in
      (best_of floats first rest, refl, best_of-IsIn first rest, to_rest n i)
  pick_best-least [] n i used = elim i [ ]

  -- If a registered node may be chosen, and every node that may be reports used disk space, then a
  -- node is chosen that is registered, may be chosen, and has no more disk space in use than the given
  -- one.
  pub pick-least_used :
      (now : ℕ) (read_only : String → Bool) (required : ℤ) (nodes : List (Worker floats.Float))
      (n : Worker floats.Float)
      → IsIn n nodes
      → is_candidate floats now read_only required n ≡ true
      → ((m : Worker floats.Float)
          → IsIn m nodes
          → is_candidate floats now read_only required m ≡ true
          → positive m.disk_used_mb ≡ true)
      → (best : Worker floats.Float) × (pick_lowest_usage_worker floats now read_only required
            (some nodes)
          ≡ some best)
        × IsIn best nodes
        × (is_candidate floats now read_only required best ≡ true)
        × (best.disk_used_mb ≤ℤ n.disk_used_mb)
  unfolding pick_lowest_usage_worker
  pick-least_used now read_only required nodes n i e used =
      let ok : Worker floats.Float → Bool = is_candidate floats now read_only required in
      let (best, picked, among, least) =
        pick_best-least (filter ok nodes) n (IsIn-filter ok nodes i e)
          (λ m j. let (k, t) = filter-IsIn ok nodes j in used m k t) in
      let (k, t) = filter-IsIn ok nodes among in (best, picked, k, t, least)
