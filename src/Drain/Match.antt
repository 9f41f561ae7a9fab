-- ===== src/Drain/Match.antt =====
-- A template fits the lines that were gathered under it: Drain.antt.
use distribute_storage_log_a.Prelude.{
  ℕ, zero, suc, ◌-◌, ◌*◌, ◌≡◌, refl, sym, ap, ◌∙◌, Bool, true, false, ◌&&◌, ◌||◌, Option, none,
  some, List, [], ◌∷◌, ◌++◌, String, length, get_elem?, set, ltb, leb, ◌==◌, arith, Bool-cases,
  Option-cases, inl, inr,
}
use distribute_storage_log_a.Prelude.Text.{str_eq, eq_refl}
use distribute_storage_log_a.Drain.{
  Cluster, DrainMiner, Line, wildcard, seq_similarity, at_least, above, better, best_of, place_of,
  tree_search, find_child, children_of, places_of, descend, merge_tokens, joined_by,
}

unfoldable pub fits_template : List String → List String → Bool
fits_template [] [] = true
fits_template [] (x ∷ xs) = false
fits_template (t ∷ ts) [] = false
fits_template (t ∷ ts) (x ∷ xs) = (str_eq t wildcard || str_eq t x) && fits_template ts xs

abbrev pub fits_at : Option Cluster → List String → Bool
fits_at none line = false
fits_at (some c) line = fits_template c.tokens line

pub fits_self : (xs : List String) → fits_template xs xs ≡ true
unfolding fits_template
fits_self [] = refl
fits_self (x ∷ xs) = rw (eq_refl x, fits_self xs) (ground (arith, Bool-cases (str_eq x wildcard)))

merge_fits_new :
    (ts xs : List String) → length ts ≡ length xs → fits_template (merge_tokens ts xs) xs ≡ true
unfolding fits_template merge_tokens
merge_fits_new [] [] h = refl
merge_fits_new [] (x ∷ xs) h = ground (arith, h)
merge_fits_new (t ∷ ts) [] h = ground (arith, h)
merge_fits_new (t ∷ ts) (x ∷ xs) h = elim (Bool-cases (str_eq t x)) [
  | inl e ↦
      rw (e, merge_fits_new ts xs (omega (arith, h)))
        (ground (arith, e, Bool-cases (str_eq t wildcard)))
  | inr e ↦ rw e (merge_fits_new ts xs (omega (arith, h)))
]

merge_fits_old :
    (ts xs ys : List String)
    → fits_template ts ys ≡ true
    → fits_template (merge_tokens ts xs) ys ≡ true
unfolding fits_template merge_tokens
merge_fits_old [] xs ys h = h
merge_fits_old (t ∷ ts) [] ys h = h
merge_fits_old (t ∷ ts) (x ∷ xs) [] h = h
merge_fits_old (t ∷ ts) (x ∷ xs) (y ∷ ys) h = elim (Bool-cases (str_eq t wildcard || str_eq t y)) [
  | inr n ↦ cc (rw n at h)
  | inl n ↦
      let behind = merge_fits_old ts xs ys (rw n at h) in
      elim (Bool-cases (str_eq t x)) [
        | inl e ↦ rw (e, behind) (ground (arith, n))
        | inr e ↦ rw e behind
      ]
]

-- What the search gives is the place of a cluster whose similarity reaches the threshold.
abbrev Reached : ℕ × ℕ → List Cluster → List String → ℕ → Type 0
Reached threshold clusters tokens place =
    (c : Cluster) × ((get_elem? clusters place ≡ some c)
      × (at_least threshold (seq_similarity c.tokens tokens) ≡ true))

abbrev Held : ℕ × ℕ → List Cluster → List String → Option (ℕ × (ℕ × ℕ)) → Type 0
Held threshold clusters tokens none = Unit
Held threshold clusters tokens (some (place, sim)) = Reached threshold clusters tokens place

better-Held :
    (threshold : ℕ × ℕ) (clusters : List Cluster) (tokens : List String) (place : ℕ) (c : Cluster)
    (best : Option (ℕ × (ℕ × ℕ)))
    → get_elem? clusters place ≡ some c
    → Held threshold clusters tokens best
    → Held threshold clusters tokens
        (better threshold place (some (seq_similarity c.tokens tokens)) best)
better-Held threshold clusters tokens place c none there h =
    elim (Bool-cases (at_least threshold (seq_similarity c.tokens tokens))) [
      | inl e ↦ rw e (c, (there, e))
      | inr e ↦ rw e tt
    ]
better-Held threshold clusters tokens place c (some (old, max)) there h =
    elim (Bool-cases (at_least threshold (seq_similarity c.tokens tokens))) [
      | inr e ↦ rw e h
      | inl e ↦ elim (Bool-cases (above (some max) (seq_similarity c.tokens tokens))) [
        | inl a ↦ rw (e, a) (c, (there, e))
        | inr a ↦ rw (e, a) h
      ]
    ]

best_of-Held :
    (threshold : ℕ × ℕ) (clusters : List Cluster) (tokens : List String) (places : List ℕ)
    (best : Option (ℕ × (ℕ × ℕ)))
    → Held threshold clusters tokens best
    → Held threshold clusters tokens (best_of threshold clusters tokens places best)
unfolding best_of
best_of-Held threshold clusters tokens [] best h = h
best_of-Held threshold clusters tokens (place ∷ rest) best h =
    elim (Option-cases (get_elem? clusters place)) [
      | inl e ↦ rw e (best_of-Held threshold clusters tokens rest best h)
      | inr (c, e) ↦ rw e (
          best_of-Held threshold clusters tokens rest _
            (better-Held threshold clusters tokens place c best e h))
    ]

place_Reached :
    (threshold : ℕ × ℕ) (clusters : List Cluster) (tokens : List String)
    (best : Option (ℕ × (ℕ × ℕ))) (place : ℕ)
    → Held threshold clusters tokens best
    → place_of best ≡ some place
    → Reached threshold clusters tokens place
place_Reached threshold clusters tokens none place h e = cc
place_Reached threshold clusters tokens (some (old, sim)) place (c, (there, reached)) e =
    let same : old ≡ place = cc in (c, ((ap (get_elem? clusters) (sym same) ∙ there), reached))

-- A similarity above 0 is one of as many tokens.
reached_length :
    (threshold : ℕ × ℕ) (xs ys : List String)
    → ltb 0 threshold.0 ≡ true
    → at_least threshold (seq_similarity xs ys) ≡ true
    → length xs ≡ length ys
unfolding seq_similarity
reached_length threshold xs ys positive h = elim (Bool-cases (length xs == length ys)) [
  | inl e ↦ ground (arith, e)
  | inr e ↦
      let never : leb (threshold.0 * 1) (0 * threshold.1) ≡ true = rw e at h in
      ground (arith, never, positive)
]

pub tree_search_found :
    (len_key : ℕ → String) (d : DrainMiner) (tokens : List String) (place : ℕ)
    → ltb 0 d.sim_threshold.0 ≡ true
    → tree_search len_key d tokens ≡ some place
    → (c : Cluster) × ((get_elem? d.clusters place ≡ some c) × (length c.tokens ≡ length tokens))
unfolding tree_search
tree_search_found len_key d tokens place positive h =
    elim (Option-cases (find_child (len_key (length tokens)) (children_of d.root))) [
      | inl e ↦ cc (rw e at h)
      | inr (n, e) ↦
          let places : List ℕ = places_of (descend (d.max_depth - 1) tokens n) in
          let held = best_of-Held d.sim_threshold d.clusters tokens places none tt in
          let (c, (there, reached)) =
            place_Reached d.sim_threshold d.clusters tokens _ place held (rw e at h) in
          (c, (there, reached_length d.sim_threshold c.tokens tokens positive reached))
    ]

-- A cluster that fits no less in the place of another.
fits-set :
    (clusters : List Cluster) (i j : ℕ) (c new : Cluster) (line : List String)
    → get_elem? clusters i ≡ some c
    → (wider : fits_template c.tokens line ≡ true → fits_template new.tokens line ≡ true)
    → fits_at (get_elem? clusters j) line ≡ true
    → fits_at (get_elem? (set clusters i new) j) line ≡ true
fits-set [] i j c new line there wider h = h
fits-set (x ∷ rest) zero zero c new line there wider h =
    let same : x ≡ c = cc in wider (ap (λ y. fits_template y.tokens line) (sym same) ∙ h)
fits-set (x ∷ rest) zero (suc j) c new line there wider h = h
fits-set (x ∷ rest) (suc i) zero c new line there wider h = h
fits-set (x ∷ rest) (suc i) (suc j) c new line there wider h =
    fits-set rest i j c new line there wider h

pub fits-append :
    (clusters more : List Cluster) (j : ℕ) (line : List String)
    → fits_at (get_elem? clusters j) line ≡ true
    → fits_at (get_elem? (clusters ++ more) j) line ≡ true
fits-append [] more j line h = cc
fits-append (x ∷ rest) more zero line h = h
fits-append (x ∷ rest) more (suc j) line h = fits-append rest more j line h

pub fits_joined :
    (clusters : List Cluster) (i j : ℕ) (c : Cluster) (line : Line) (xs : List String)
    → get_elem? clusters i ≡ some c
    → fits_at (get_elem? clusters j) xs ≡ true
    → fits_at (get_elem? (set clusters i (joined_by line c)) j) xs ≡ true
unfolding joined_by
fits_joined clusters i j c line xs there h =
    fits-set clusters i j c (joined_by line c) xs there (merge_fits_old c.tokens line.tokens xs) h

get-set :
    (clusters : List Cluster) (i : ℕ) (c new : Cluster)
    → get_elem? clusters i ≡ some c
    → get_elem? (set clusters i new) i ≡ some new
get-set [] i c new h = cc
get-set (x ∷ rest) zero c new h = refl
get-set (x ∷ rest) (suc i) c new h = get-set rest i c new h

pub fits_newest :
    (clusters : List Cluster) (i : ℕ) (c : Cluster) (line : Line)
    → get_elem? clusters i ≡ some c
    → length c.tokens ≡ length line.tokens
    → fits_at (get_elem? (set clusters i (joined_by line c)) i) line.tokens ≡ true
unfolding joined_by
fits_newest clusters i c line there h =
    ap (λ o. fits_at o line.tokens) (get-set clusters i c (joined_by line c) there)
    ∙ merge_fits_new c.tokens line.tokens h
