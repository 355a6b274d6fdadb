-- ===== src/Router/Counts.antt =====
-- Proofs about tools/pwrdaemon/router/commRespEvent.h: how many groups of a request are not complete.
use pwrapi_ref.Prelude.{
  ℕ, zero, suc, ◌≤◌, ◌<◌, ◌≡◌, ◌≢◌, refl, arith, some, List, [], ◌∷◌, ◌==◌, if◌then◌else◌, length,
  get_elem?, set, replicate, All,
}

module _ {A : Type 0} where
  -- The groups whose queues do not have as many elements as `sizes` says.
  abbrev pub open_groups : List ℕ → List (List A) → ℕ
  open_groups (k ∷ ks) (q ∷ qs) =
      let rest = open_groups ks qs in if length q == k then rest else suc rest
  open_groups _ _ = 0

  pub open_groups-still :
      (ks : List ℕ) (qs : List (List A)) (g : ℕ) {k : ℕ} {q : List A} (q' : List A)
      → get_elem? ks g ≡ some k
      → get_elem? qs g ≡ some q
      → length q ≢ k
      → length q' ≢ k
      → open_groups ks (set qs g q') ≡ open_groups ks qs
  open_groups-still [] qs g q' e f h h' = cc
  open_groups-still (k ∷ ks) [] g q' e f h h' = cc
  open_groups-still (k ∷ ks) (q ∷ qs) zero q' e f h h' = ground arith
  open_groups-still (k ∷ ks) (q ∷ qs) (suc g) q' e f h h' =
      ground (arith, open_groups-still ks qs g q' e f h h')

  pub open_groups-closed :
      (ks : List ℕ) (qs : List (List A)) (g : ℕ) {k : ℕ} {q : List A} (q' : List A)
      → get_elem? ks g ≡ some k
      → get_elem? qs g ≡ some q
      → length q ≢ k
      → length q' ≡ k
      → suc (open_groups ks (set qs g q')) ≡ open_groups ks qs
  open_groups-closed [] qs g q' e f h h' = cc
  open_groups-closed (k ∷ ks) [] g q' e f h h' = cc
  open_groups-closed (k ∷ ks) (q ∷ qs) zero q' e f h h' = ground arith
  open_groups-closed (k ∷ ks) (q ∷ qs) (suc g) q' e f h h' =
      ground (arith, open_groups-closed ks qs g q' e f h h')

  -- One group that is open, and all of them closed.
  pub open_groups-pos :
      (ks : List ℕ) (qs : List (List A)) (g : ℕ) {k : ℕ} {q : List A}
      → get_elem? ks g ≡ some k
      → get_elem? qs g ≡ some q
      → length q ≢ k
      → 0 < open_groups ks qs
  open_groups-pos [] qs g e f h = cc
  open_groups-pos (k ∷ ks) [] g e f h = cc
  open_groups-pos (k ∷ ks) (q ∷ qs) zero e f h = ground arith
  open_groups-pos (k ∷ ks) (q ∷ qs) (suc g) e f h = ground (arith, open_groups-pos ks qs g e f h)

  pub open_groups-zero :
      (ks : List ℕ) (qs : List (List A))
      → ((g k : ℕ) (q : List A) → get_elem? ks g ≡ some k → get_elem? qs g ≡ some q → length q ≡ k)
      → open_groups ks qs ≡ 0
  open_groups-zero [] qs h = refl
  open_groups-zero (k ∷ ks) [] h = refl
  open_groups-zero (k ∷ ks) (q ∷ qs) h =
      let here = h 0 k q refl refl in
      let rest = open_groups-zero ks qs (λ g. h (suc g)) in ground arith

  pub open_groups-le : (ks : List ℕ) (qs : List (List A)) → open_groups ks qs ≤ length ks
  open_groups-le [] qs = omega arith
  open_groups-le (k ∷ ks) [] = omega arith
  open_groups-le (k ∷ ks) (q ∷ qs) = ground (arith, open_groups-le ks qs)

pub open_groups-fresh :
    (A : Type 0) (ks : List ℕ)
    → All (λ k. 0 < k) ks
    → open_groups ks (replicate {A = List A} (length ks) []) ≡ length ks
open_groups-fresh A [] h = refl
open_groups-fresh A (k ∷ ks) (hk, h) = ground (arith, open_groups-fresh A ks h)
