-- ===== src/Powercap/Frees.antt =====
-- Proofs about src/plugins/pwr_powercap.c: when `powercap_dev_final` frees a block twice.
use mathlib.Core.Path.{subst}
use mathlib.Core.List.{append_assoc}
use pwrapi_ref.Prelude.{
  ℕ, zero, suc, ◌≤◌, ◌≡◌, ◌≢◌, refl, arith, true, false, List, [], ◌∷◌, ◌++◌, Outcome, returns,
  faults, ◌>>=◌, ◌==◌, if◌then◌else◌, ==_self, ==_of_ne, inl, inr, Bool-cases, All, ◌⊎◌,
}
use pwrapi_ref.Powercap.Release.{Blocks, Zoned, free, free_times, free_packages, final}

free_times-two : (n a : ℕ) (live : Blocks) → free_times (suc (suc n)) a live ≡ faults
unfolding free_times free
free_times-two n a live = elim (Bool-cases (live a)) [
  | inl is_live ↦ rw (is_live, ==_self a)
  | inr dead ↦ rw dead
]

-- Some package of the list has two zones or more.
abbrev pub HasManyZones : List Zoned → Type 0
HasManyZones [] = ⊥
HasManyZones (p ∷ ps) = (2 ≤ p.num_zones) ⊎ HasManyZones ps

free_package-two : (n a : ℕ) (live : Blocks) → 2 ≤ n → free_times n a live ≡ faults
free_package-two zero a live h = absurd (omega arith)
free_package-two (suc zero) a live h = absurd (omega arith)
free_package-two (suc (suc n)) a live h = free_times-two n a live

-- No call stops the process: a release returns or has no defined behaviour.
abbrev Ends : Outcome Blocks → Type 0
Ends o = (o ≡ faults) ⊎ ((l : Blocks) × (o ≡ returns l))

free-Ends : (live : Blocks) (a : ℕ) → Ends (free live a)
unfolding free
free-Ends live a = elim (Bool-cases (live a)) [
  | inl is_live ↦ inr ((λ b. if b == a then false else live b), rw is_live)
  | inr dead ↦ inl (rw dead)
]

free_times-Ends : (n a : ℕ) (live : Blocks) → Ends (free_times n a live)
unfolding free_times
free_times-Ends zero a live = inr (live, refl)
free_times-Ends (suc n) a live = elim (free-Ends live a) [
  | inl bad ↦ inl (rw bad)
  | inr (l, done) ↦ rw (done, ◌>>=◌) (free_times-Ends n a l)
]

free_packages-faults :
    (ps : List Zoned) (live : Blocks) → HasManyZones ps → free_packages ps live ≡ faults
unfolding free_packages
free_packages-faults [] live h = absurd h
free_packages-faults (p ∷ ps) live (inl two) = rw (free_package-two p.num_zones p.zones live two)
free_packages-faults (p ∷ ps) live (inr later) = elim (free_times-Ends p.num_zones p.zones live) [
  | inl bad ↦ rw bad
  | inr (l, done) ↦ rw (done, ◌>>=◌) (free_packages-faults ps l later)
]

-- Whatever is allocated, the release of a device with a package of two zones or more frees a block
-- that is not allocated.
pub final-faults :
    (ps : List Zoned) (array info ops : ℕ) (live : Blocks)
    → HasManyZones ps
    → final ps array info ops live ≡ faults
unfolding final
final-faults ps array info ops live h = rw (free_packages-faults ps live h)

-- The blocks of a device: allocated, and all different.
abbrev pub Owned : Blocks → List ℕ → Type 0
Owned live [] = Unit {0}
Owned live (a ∷ bs) = (live a ≡ true) × All (λ b. b ≢ a) bs × Owned live bs

abbrev pub without : Blocks → ℕ → Blocks
without live a = λ b. if b == a then false else live b

free-Owned : (live : Blocks) (a : ℕ) → live a ≡ true → free live a ≡ returns (without live a)
unfolding free
free-Owned live a h = rw h

Owned-without :
    (live : Blocks) (a : ℕ) (bs : List ℕ)
    → All (λ b. b ≢ a) bs
    → Owned live bs
    → Owned (without live a) bs
Owned-without live a [] ne own = tt
Owned-without live a (b ∷ bs) ne own =
    (rw (==_of_ne b a ne.0) own.0, own.1, Owned-without live a bs ne.1 own.2)

-- The block of the zones of a package, if it has a zone.
abbrev pub zone_block : ℕ → ℕ → List ℕ
zone_block zero a = []
zone_block (suc n) a = a ∷ []

abbrev pub zone_blocks : List Zoned → List ℕ
zone_blocks [] = []
zone_blocks (p ∷ ps) = zone_block p.num_zones p.zones ++ zone_blocks ps

free_times-returns :
    (n a : ℕ) (rest : List ℕ) (live : Blocks)
    → n ≤ 1
    → Owned live (zone_block n a ++ rest)
    → (l : Blocks) × (free_times n a live ≡ returns l) × Owned l rest
unfolding free_times
free_times-returns zero a rest live few own = (live, refl, own)
free_times-returns (suc zero) a rest live few own =
    (without live a, rw (free-Owned live a own.0), Owned-without live a rest own.1 own.2)
free_times-returns (suc (suc n)) a rest live few own = absurd (omega arith)

free_packages-returns :
    (ps : List Zoned) (rest : List ℕ) (live : Blocks)
    → All (λ p. p.num_zones ≤ 1) ps
    → Owned live (zone_blocks ps ++ rest)
    → (l : Blocks) × (free_packages ps live ≡ returns l) × Owned l rest
unfolding free_packages
free_packages-returns [] rest live few own = (live, refl, own)
free_packages-returns (p ∷ ps) rest live few own =
    let regrouped = append_assoc (zone_block p.num_zones p.zones) (zone_blocks ps) rest in
    let (l, first, left) =
      free_times-returns p.num_zones p.zones (zone_blocks ps ++ rest) live few.0
        (subst (Owned live) regrouped own) in
    let (l', done, own') = free_packages-returns ps rest l few.1 left in
    (l', rw (first, ◌>>=◌) done, own')

-- If no package has more than one zone and the blocks of the device are allocated and all different,
-- its release returns.
pub final-returns :
    (ps : List Zoned) (array info ops : ℕ) (live : Blocks)
    → All (λ p. p.num_zones ≤ 1) ps
    → Owned live (zone_blocks ps ++ array ∷ info ∷ ops ∷ [])
    → (l : Blocks) × (final ps array info ops live ≡ returns l)
unfolding final
final-returns ps array info ops live few own =
    let (l, done, left) = free_packages-returns ps (array ∷ info ∷ ops ∷ []) live few own in
    let left_2 = Owned-without l array (info ∷ ops ∷ []) left.1 left.2 in
    let left_3 = Owned-without (without l array) info (ops ∷ []) left_2.1 left_2.2 in
    (
      without (without (without l array) info) ops,
      rw (
        done,
        ◌>>=◌,
        free-Owned l array left.0,
        free-Owned (without l array) info left_2.0,
        free-Owned (without (without l array) info) ops left_3.0,
      ),
    )
