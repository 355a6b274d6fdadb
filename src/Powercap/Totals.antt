-- ===== src/Powercap/Totals.antt =====
-- Proofs about src/plugins/pwr_powercap.c: what the energies of the two object types add up to, and
-- that they start at nothing.
use mathlib.Core.Path.{subst}
use pwrapi_ref.Prelude.{
  ℕ, zero, suc, ◌+◌, ◌≡◌, arith, Option, none, some, List, [], ◌∷◌, returns, >>=-returns, All,
  get_elem?, if◌then◌else◌, ◌==◌,
}
use pwrapi_ref.Prelude.Int.{ℤ, pos, ◌+ℤ◌, ◌-ℤ◌, int_laws}
use pwrapi_ref.Types.{ObjType}
use pwrapi_ref.Powercap.Paths.{Text}
use pwrapi_ref.Powercap.Zones.{
  Zone, Package, Files, opened, init_zone, init_zones, init_package, init_packages, init,
  count_zones,
}
use pwrapi_ref.Powercap.Energy.{gained, energy_of}

-- If the counters of a package and of its first zone can be read, both objects of the package have an
-- energy, and together they are what the package's own counter has gained since the start.
pub energy_of-adds_up :
    (counter : Text → Option ℤ) (p : Package) (z : Zone) (zs : List Zone) (of_zone of_pkg : ℤ)
    → p.zones ≡ z ∷ zs
    → counter z.energy ≡ some of_zone
    → counter p.zone.energy ≡ some of_pkg
    → (mem socket : ℤ) × (energy_of counter ObjType.mem p ≡ returns mem)
      × (energy_of counter ObjType.socket p ≡ returns socket)
      × (mem +ℤ socket ≡ of_pkg -ℤ p.zone.start_value)
unfolding energy_of gained
energy_of-adds_up counter p z zs of_zone of_pkg has e_zone e_pkg = (
  of_zone -ℤ z.start_value,
  of_pkg -ℤ p.zone.start_value -ℤ (of_zone -ℤ z.start_value),
  rw (has, e_zone),
  rw (has, e_zone, e_pkg),
  omega int_laws,
)

module _ (fs : Files) where
  -- The start value of a zone is what its counter held when the plugin started.
  abbrev IsFresh : Zone → Type 0
  IsFresh z = fs.counter z.energy ≡ some z.start_value

  init_zone-IsFresh : (prefix : Text) {z : Zone} → init_zone fs prefix ≡ returns z → IsFresh z
  unfolding init_zone
  init_zone-IsFresh prefix e = ground arith

  init_zones-IsFresh :
      (pkg : ℕ) (prefix : Text) (left i : ℕ) {zs : List Zone}
      → init_zones fs pkg prefix left i ≡ returns zs
      → All IsFresh zs
  unfolding init_zones
  init_zones-IsFresh pkg prefix zero i {zs} e = subst (All IsFresh) (nothing e) tt
    where
      nothing : returns [] ≡ returns zs → [] ≡ zs
      nothing h = cc
  init_zones-IsFresh pkg prefix (suc left) i {zs} e =
      let (z, first, more) = >>=-returns (init_zone fs _) _ e in
      let (rest, others, all) = >>=-returns (init_zones fs pkg prefix left (i + 1)) _ more in
      subst (All IsFresh) (joined z rest all)
        (init_zone-IsFresh _ first, init_zones-IsFresh pkg prefix left (i + 1) others)
    where
      joined : (z : Zone) (rest : List Zone) → returns (z ∷ rest) ≡ returns zs → z ∷ rest ≡ zs
      joined z rest h = cc

  abbrev IsFreshPackage : Package → Type 0
  IsFreshPackage p = IsFresh p.zone × All IsFresh p.zones

  init_package-IsFresh :
      (num : ℕ) (prefix : Text) {p : Package}
      → init_package fs num prefix ≡ returns p
      → IsFreshPackage p
  unfolding init_package
  init_package-IsFresh num prefix {p} e =
      let (z, first, more) = >>=-returns (init_zone fs prefix) _ e in
      let (n, counted, rest) = >>=-returns (opened (count_zones fs _)) _ more in
      let (zs, others, all) = >>=-returns (init_zones fs num prefix n 0) _ rest in
      subst IsFreshPackage (joined z zs all)
        (init_zone-IsFresh prefix first, init_zones-IsFresh num prefix n 0 others)
    where
      joined :
          (z : Zone) (zs : List Zone)
          → returns (record { zone = z; zones = zs }) ≡ returns p
          → record { zone = z; zones = zs } ≡ p
      joined z zs h = cc

  init_packages-IsFresh :
      (left i : ℕ) {ps : List Package}
      → init_packages fs left i ≡ returns ps
      → All IsFreshPackage ps
  unfolding init_packages
  init_packages-IsFresh zero i {ps} e = subst (All IsFreshPackage) (nothing e) tt
    where
      nothing : returns [] ≡ returns ps → [] ≡ ps
      nothing h = cc
  init_packages-IsFresh (suc left) i {ps} e =
      let (p, first, more) = >>=-returns (init_package fs i _) _ e in
      let (rest, others, all) = >>=-returns (init_packages fs left (i + 1)) _ more in
      subst (All IsFreshPackage) (joined p rest all)
        (init_package-IsFresh i _ first, init_packages-IsFresh left (i + 1) others)
    where
      joined : (p : Package) (rest : List Package) → returns (p ∷ rest) ≡ returns ps → p ∷ rest ≡ ps
      joined p rest h = cc

  init-IsFresh : {ps : List Package} → init fs ≡ returns (some ps) → All IsFreshPackage ps
  unfolding init
  init-IsFresh {ps} e =
      let (n, counted, more) = >>=-returns (opened (count_zones fs _)) _ e in
      let (qs, started, result) = >>=-returns (init_packages fs n 0) _ more in
      subst (All IsFreshPackage) (same n qs result) (init_packages-IsFresh n 0 started)
    where
      same :
          (n : ℕ) (qs : List Package)
          → returns (if n == 0 then none else some qs) ≡ returns (some ps)
          → qs ≡ ps
      same n qs h = ground arith

  All-get :
      (ps : List Package) (k : ℕ) {p : Package}
      → All IsFreshPackage ps
      → get_elem? ps k ≡ some p
      → IsFreshPackage p
  All-get [] k a e = cc
  All-get (q ∷ ps) zero {p} a e = let same : q ≡ p = cc in subst IsFreshPackage same a.0
  All-get (q ∷ ps) (suc k) a e = All-get ps k a.1 e

  sub_self : (a : ℤ) → a -ℤ a ≡ pos 0
  sub_self a = omega int_laws

  -- While the counters stand where they stood when the plugin started, both objects of every package
  -- that has a zone read as zero.
  pub init-reads_zero :
      (ps : List Package) (k : ℕ) (p : Package) (z : Zone) (zs : List Zone)
      → init fs ≡ returns (some ps)
      → get_elem? ps k ≡ some p
      → p.zones ≡ z ∷ zs
      → (energy_of fs.counter ObjType.mem p ≡ returns (pos 0))
        × (energy_of fs.counter ObjType.socket p ≡ returns (pos 0))
  unfolding energy_of gained
  init-reads_zero ps k p z zs started at_k has =
      let fresh = All-get ps k (init-IsFresh started) at_k in
      let zone_fresh = (subst (All IsFresh) has fresh.1).0 in
      (
        rw (has, zone_fresh, sub_self z.start_value),
        rw (has, zone_fresh, fresh.0, sub_self z.start_value, sub_self p.zone.start_value),
      )
