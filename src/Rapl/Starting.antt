-- ===== src/Rapl/Starting.antt =====
-- Proofs about src/plugins/pwr_rapldev.c: which processor each package is started through.
use mathlib.Core.Path.{subst}
use native.Mathlib.Decide.{dec_lt}
use pwrapi_ref.Prelude.{
  ℕ, zero, suc, ◌+◌, ◌<◌, ◌≡◌, ◌⊎◌, inl, inr, arith, Option, some, List, [], ◌∷◌, ◌++◌, returns,
  length, length-append, get_elem?, get_elem?-append_lt, get_elem?-append_end, Option-cases, ◌∙◌,
}
use pwrapi_ref.Prelude.Int.{ℤ}
use pwrapi_ref.Prelude.Io.{Io}
use pwrapi_ref.Rapl.Device.{Device}
use pwrapi_ref.Rapl.Packages.{count_cpu, count_cpus, init}
use pwrapi_ref.Rapl.Counting.{count_cpus-next}

module _ {D W : Type 0} (start : ℕ → Io W (Option (Device D))) (package_id : ℕ → Option ℤ) where
  module _ (dev : ℕ → Option (Device D)) (frozen : (k : ℕ) (w : W) → start k w ≡ (dev k, w)) where
    abbrev Started : List (Option (Device D)) → Type 0
    Started pkgs = (k : ℕ) → k < length pkgs → get_elem? pkgs k ≡ some (dev k)

    append-Started :
        (pkgs : List (Option (Device D))) → Started pkgs → Started (pkgs ++ dev (length pkgs) ∷ [])
    append-Started pkgs old k h = elim (dec_lt k (length pkgs)) [
      | yes lt ↦ get_elem?-append_lt pkgs (dev (length pkgs)) k lt ∙ old k lt
      | no ge ↦
          let e : k ≡ length pkgs = omega (arith, length-append pkgs (dev (length pkgs) ∷ [])) in
          rw e (get_elem?-append_end pkgs (dev (length pkgs)))
    ]

    count_cpu-cases :
        (id : ℤ) (pkgs : List (Option (Device D))) (w : W) {r : List (Option (Device D))}
        → (count_cpu start package_id id pkgs w).0 ≡ returns r
        → (pkgs ≡ r) ⊎ (pkgs ++ dev (length pkgs) ∷ [] ≡ r)
    unfolding count_cpu
    count_cpu-cases id pkgs w e = ground (arith, frozen (length pkgs) w)

    count_cpu-Started :
        (id : ℤ) (pkgs : List (Option (Device D))) (w : W) {r : List (Option (Device D))}
        → Started pkgs
        → (count_cpu start package_id id pkgs w).0 ≡ returns r
        → Started r
    count_cpu-Started id pkgs w old e = elim (count_cpu-cases id pkgs w e) [
      | inl same ↦ subst Started same old
      | inr more ↦ subst Started more (append-Started pkgs old)
    ]

    count_cpus-Started :
        (left i : ℕ) (pkgs : List (Option (Device D))) (w : W) {r : List (Option (Device D))}
        → Started pkgs
        → (count_cpus start package_id left i pkgs w).0 ≡ returns r
        → Started r
    count_cpus-Started zero i pkgs w {r} old e =
        let same : pkgs ≡ r = unfold count_cpus in cc in subst Started same old
    count_cpus-Started (suc left) i pkgs w {r} old e = elim (Option-cases (package_id i)) [
      | inl missing ↦
          let same : pkgs ≡ r = unfold count_cpus in ground (arith) in subst Started same old
      | inr (id, at_i) ↦
          let (pkgs', w', first, rest) = count_cpus-next start package_id left i pkgs w at_i e in
          count_cpus-Started left (i + 1) pkgs' w' (count_cpu-Started id pkgs w old first) rest
    ]

    init-cases :
        (w : W) {r : List (Option (Device D))}
        → (init start package_id w).0 ≡ returns r
        → (count_cpus start package_id 512 0 [] w).0 ≡ returns r
    unfolding init
    init-cases w e = ground arith

    -- Where a start answers by its argument alone, the package at index k was started with the
    -- processor number k, on whatever package that processor lies.
    pub init-starts_by_index :
        (w : W) {r : List (Option (Device D))}
        → (init start package_id w).0 ≡ returns r
        → (k : ℕ) → k < length r
        → get_elem? r k ≡ some (dev k)
    init-starts_by_index w e =
        count_cpus-Started 512 0 [] w (λ k h. absurd (omega arith)) (init-cases w e)
