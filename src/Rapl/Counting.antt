-- ===== src/Rapl/Counting.antt =====
-- Proofs about src/plugins/pwr_rapldev.c: how many packages `pwr_rapldev_init` finds.
use pwrapi_ref.Prelude.{
  ℕ, zero, suc, ◌+◌, ◌≤◌, ◌<◌, ◌≡◌, ◌≢◌, refl, inl, inr, arith, Option, none, some, List, [], ◌∷◌,
  ◌++◌, Outcome, returns, aborts, faults, length, length-append, Bool-cases, Option-cases, sym, ap,
  ◌∙◌,
}
use native.Mathlib.Numerals.{add-one}
use native.Mathlib.Decide.{dec_lt}
use pwrapi_ref.Prelude.Int.{ℤ, pos, ltb_ℤ, sub_ℕ}
use pwrapi_ref.Prelude.Io.{Io}
use pwrapi_ref.Rapl.Device.{Device}
use pwrapi_ref.Rapl.Packages.{count_cpu, count_cpus, init, next_cpu}

-- The processors 0 to n - 1 all have a file.
abbrev pub Present : (ℕ → Option ℤ) → ℕ → Type 0
Present package_id n = (j : ℕ) → j < n → package_id j ≢ none

-- Packages are numbered from 0 on, in the order in which the processors show them.
abbrev pub IsDense : (ℕ → Option ℤ) → Type 0
IsDense package_id =
    (j p : ℕ)
    → package_id j ≡ some (pos (suc p))
    → (i : ℕ) × (i < j) × (package_id i ≡ some (pos p))

module _ {D W : Type 0} (start : ℕ → Io W (Option (Device D))) (package_id : ℕ → Option ℤ) where
  -- Every package that a processor below `i` names has been counted.
  abbrev Counted : ℕ → List (Option (Device D)) → Type 0
  Counted i pkgs = (j p : ℕ) → j < i → package_id j ≡ some (pos p) → p < length pkgs

  module _ (pkgs : List (Option (Device D))) (w : W) {r : List (Option (Device D))} where
    count_cpu-le :
        (id : ℤ)
        → (count_cpu start package_id id pkgs w).0 ≡ returns r
        → (length pkgs ≤ length r) × (length pkgs ≤ 8 → length r ≤ 8)
    unfolding count_cpu
    count_cpu-le id e = ground (arith, length-append pkgs ((start (length pkgs) w).0 ∷ []))

    count_cpu-lt :
        (p : ℕ)
        → p ≤ length pkgs
        → (count_cpu start package_id (pos p) pkgs w).0 ≡ returns r
        → p < length r
    unfolding count_cpu
    count_cpu-lt p h e = ground (arith, length-append pkgs ((start (length pkgs) w).0 ∷ []))

    count_cpu-Counted :
        (id : ℤ) (i : ℕ)
        → IsDense package_id
        → Counted i pkgs
        → package_id i ≡ some id
        → (count_cpu start package_id id pkgs w).0 ≡ returns r
        → Counted (suc i) r
    count_cpu-Counted id i dense counted at_i e j p below named = elim (dec_lt j i) [
      | yes earlier ↦ omega (arith, counted j p earlier named, (count_cpu-le id e).0)
      | no later ↦ this_cpu p (omega arith) named
    ]
      where
        reached : (p : ℕ) → package_id i ≡ some (pos p) → p ≤ length pkgs
        reached zero q = omega arith
        reached (suc p) q = let (k, lt, known) = dense i p q in counted k p lt known

        same_id : {p : ℕ} → package_id i ≡ some (pos p) → pos p ≡ id
        same_id q = cc

        this_cpu : (p : ℕ) → j ≡ i → package_id j ≡ some (pos p) → p < length r
        this_cpu p same q =
            let here : package_id i ≡ some (pos p) = ap package_id (sym same) ∙ q in
            count_cpu-lt p (reached p here)
              (ap (λ z. (count_cpu start package_id z pkgs w).0) (same_id here) ∙ e)

  -- A loop that returned went on from what its first processor returned.
  next_cpu-returns :
      {A : Type 0} (o : Outcome A) (rest : A → Io W (Outcome A)) (w : W) {r : A}
      → (next_cpu start package_id o rest w).0 ≡ returns r
      → (a : A) × (o ≡ returns a) × ((rest a w).0 ≡ returns r)
  next_cpu-returns (returns a) rest w e = (a, refl, e)
  next_cpu-returns aborts rest w e = cc
  next_cpu-returns faults rest w e = cc

  pub count_cpus-next :
      (left i : ℕ) (pkgs : List (Option (Device D))) (w : W) {id : ℤ} {r : List (Option (Device D))}
      → package_id i ≡ some id
      → (count_cpus start package_id (suc left) i pkgs w).0 ≡ returns r
      → (pkgs' : List (Option (Device D))) × (w' : W) × ((count_cpu start package_id id pkgs w).0
          ≡ returns pkgs')
        × ((count_cpus start package_id left (i + 1) pkgs' w').0 ≡ returns r)
  unfolding count_cpus
  count_cpus-next left i pkgs w {id} at_i e =
      let w' = (count_cpu start package_id id pkgs w).1 in
      let (pkgs', first, rest) =
        next_cpu-returns (count_cpu start package_id id pkgs w).0
          (λ p. count_cpus start package_id left (i + 1) p) w' (rw (at_i, count_cpus) at e) in
      (pkgs', w', first, rest)

  count_cpus-stop :
      (left i : ℕ) (pkgs : List (Option (Device D))) (w : W)
      → package_id i ≡ none
      → (count_cpus start package_id (suc left) i pkgs w).0 ≡ returns pkgs
  unfolding count_cpus
  count_cpus-stop left i pkgs w at_i = rw (at_i, count_cpus)

  count_cpus-Counted :
      (left i : ℕ) (pkgs : List (Option (Device D))) (w : W) {r : List (Option (Device D))}
      → IsDense package_id
      → Counted i pkgs
      → (count_cpus start package_id left i pkgs w).0 ≡ returns r
      → (j p : ℕ) → j < i + left
      → Present package_id (suc j)
      → package_id j ≡ some (pos p)
      → p < length r
  count_cpus-Counted zero i pkgs w dense counted e j p below present named =
      unfold count_cpus in ground (arith, counted j p)
  count_cpus-Counted (suc left) i pkgs w dense counted e j p below present named =
      elim (Option-cases (package_id i)) [
        | inl missing ↦
            ground (arith, count_cpus-stop left i pkgs w missing, counted j p, present i)
        | inr (id, at_i) ↦
            let (pkgs', w', first, rest) = count_cpus-next left i pkgs w at_i e in
            count_cpus-Counted left (i + 1) pkgs' w' dense
              (rw add-one (count_cpu-Counted pkgs w id i dense counted at_i first)) rest j p
              (omega arith) present named
      ]

  count_cpu-total :
      (p : ℕ) (pkgs : List (Option (Device D))) (w : W)
      → p < 8
      → (r : List (Option (Device D))) × ((count_cpu start package_id (pos p) pkgs w).0 ≡ returns r)
  count_cpu-total p pkgs w h = elim (Bool-cases (ltb_ℤ (sub_ℕ (length pkgs) 1) (pos p))) [
    | inl more ↦ (pkgs ++ (start (length pkgs) w).0 ∷ [], unfold count_cpu in ground arith)
    | inr same ↦ (pkgs, unfold count_cpu in rw (same, count_cpu))
  ]

  -- Every number in a file is that of one of at most eight packages.
  abbrev AtMostEight : Type 0
  AtMostEight = (j : ℕ) (id : ℤ) → package_id j ≡ some id → (p : ℕ) × (id ≡ pos p) × (p < 8)

  count_cpus-total :
      (left i : ℕ) (pkgs : List (Option (Device D))) (w : W)
      → AtMostEight
      → (r : List (Option (Device D))) × ((count_cpus start package_id left i pkgs w).0 ≡ returns r)
  unfolding count_cpus
  count_cpus-total zero i pkgs w small = (pkgs, refl)
  count_cpus-total (suc left) i pkgs w small = elim (Option-cases (package_id i)) [
    | inl missing ↦ (pkgs, rw (missing, count_cpus))
    | inr (id, at_i) ↦
        let (p, same, lt) = small i id at_i in
        let (pkgs', first) = count_cpu-total p pkgs w lt in
        let (r, rest) =
          count_cpus-total left (i + 1) pkgs' (count_cpu start package_id (pos p) pkgs w).1 small in
        (r, rw (at_i, count_cpus, same, first) rest)
  ]

  init-some :
      (w : W) {r : List (Option (Device D))}
      → (count_cpus start package_id 512 0 [] w).0 ≡ returns r
      → 0 < length r
      → (init start package_id w).0 ≡ returns r
  unfolding init
  init-some w e h = rw (e, init) (ground arith)

  -- If the packages are numbered from 0 in the order in which the processors show them, there are at
  -- most eight and processor 0 has a file, then the start of the plugin returns, and each package
  -- named by a processor below 512 that comes before any gap has its place in the array.
  pub init-counts_packages :
      IsDense package_id
      → ((j : ℕ) (id : ℤ) → package_id j ≡ some id → (p : ℕ) × (id ≡ pos p) × (p < 8))
      → package_id 0 ≢ none
      → (w : W) (j p : ℕ) → j < 512
      → Present package_id (suc j)
      → package_id j ≡ some (pos p)
      → (r : List (Option (Device D))) × ((init start package_id w).0 ≡ returns r) × (p < length r)
  init-counts_packages dense small first w j p below present named =
      let (r, done) = count_cpus-total 512 0 [] w small in
      let counted = count_cpus-Counted 512 0 [] w dense (λ j p h _. absurd (omega arith)) done in
      (r, init-some w done (filled r counted), counted j p below present named)
    where
      filled :
          (r : List (Option (Device D)))
          → ((j p : ℕ)
              → j < 0 + 512
              → Present package_id (suc j)
              → package_id j ≡ some (pos p)
              → p < length r)
          → 0 < length r
      filled r counted = elim (Option-cases (package_id 0)) [
        | inl missing ↦ absurd (first missing)
        | inr (id, at_0) ↦
            let (p, same, lt) = small 0 id at_0 in
            let h =
              counted 0 p (omega arith) (λ j lt_1. ground (arith, first)) (at_0 ∙ ap some same) in
            omega arith
      ]
