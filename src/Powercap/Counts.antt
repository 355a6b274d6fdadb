-- ===== src/Powercap/Counts.antt =====
-- Proofs about src/plugins/pwr_powercap.c: the loop over files finds the first number that is missing.
use pwrapi_ref.Prelude.{
  ℕ, zero, suc, ◌+◌, ◌<◌, ◌≡◌, ◌≢◌, ap, ◌∙◌, arith, Option, none, some, inl, inr, Option-cases,
}
use pwrapi_ref.Powercap.Paths.{Text, find_num_zones}

-- If the files num, …, num + n - 1 are there and the next is not, the loop ends at num + n, with any
-- fuel above n.
pub find_num_zones-eq :
    (name : ℕ → Option Text) (n num fuel : ℕ)
    → n < fuel
    → ((j : ℕ) → j < n → name (num + j) ≢ none)
    → name (num + n) ≡ none
    → find_num_zones name fuel num ≡ some (num + n)
unfolding find_num_zones
find_num_zones-eq name n num zero lt there missing = elim lt [ ]
find_num_zones-eq name zero num (suc fuel) lt there missing =
    let here : name num ≡ none = ap name (omega arith) ∙ missing in
    rw (here, find_num_zones) (ap some (omega arith))
find_num_zones-eq name (suc n) num (suc fuel) lt there missing = elim (Option-cases (name num)) [
  | inl gone ↦ absurd (there 0 (omega arith) (ap name (omega arith) ∙ gone))
  | inr (text, here) ↦
      rw (here, find_num_zones)
        (find_num_zones-eq name n (num + 1) fuel (omega arith)
            (λ j h e. there (suc j) (omega arith) (ap name (omega arith) ∙ e))
            (ap name (omega arith) ∙ missing)
          ∙ ap some (omega arith))
]
