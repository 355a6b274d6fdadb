-- ===== src/Xtpm/Generations.antt =====
-- Proofs about src/plugins/pwr_xtpmdev.c: what
-- generation the descriptor keeps.
use Prim.Native.String.{String}
use mathlib.Core.Path.{subst}
use pwrapi_ref.Prelude.{
  ℕ, ◌≡◌, ◌≢◌, ◌⊎◌, inl, inr, Bool-cases, refl, ap, sym, ◌∙◌, arith, true, Option, none, some,
  Outcome, returns, aborts, faults,
}
use pwrapi_ref.Prelude.Int.{ℤ}
use pwrapi_ref.Prelude.Doubles.{Doubles}
use pwrapi_ref.Types.{AttrName, ret_success, ret_failure}
use pwrapi_ref.Plugin.{Reading}
use pwrapi_ref.Xtpm.Device.{
  System, Descriptor, State, counter, settle, check_generation, stored, read_counter, read, failed,
  counter_name,
}

module _ {D W : Type 0} (fl : Doubles D) (sys : System D W) where
  returned : {a r : Reading D} → returns a ≡ returns r → a ≡ r
  returned e = cc

  apart : ret_failure ≡ ret_success → ⊥
  apart e = cc

  failed-status :
      (value : Option D) (stamp : Option ℤ) {r : Reading D}
      → returns (failed fl sys value stamp) ≡ returns r
      → r.status ≢ ret_success
  failed-status value stamp e ok = apart (ap (λ x. x.status) (returned e) ∙ ok)

  -- The generation after a read that found `g`: that of before, if it is equal to `g` as a double, and
  -- `g` itself otherwise.
  abbrev pub Follows : Descriptor D → D → Descriptor D → Type 0
  Follows d g d' = ((fl.eq d.generation g ≡ true) × (d' ≡ d)) ⊎ (d' ≡ record d { generation = g })

  settle-generation :
      (value : Option D) (now : ℤ) (o : Outcome (Option D)) (d : Descriptor D) (w : W)
      {r : Reading D}
      → (settle fl sys value now o (d, w)).0 ≡ returns r
      → r.status ≡ ret_success
      → (g : D) × (o ≡ returns (some g)) × Follows d g (settle fl sys value now o (d, w)).1.0
  unfolding settle
  settle-generation value now (returns none) d w e ok = absurd (failed-status value (some now) e ok)
  settle-generation value now (returns (some g)) d w e ok = (
    g,
    refl,
    elim (Bool-cases (fl.eq d.generation g)) [
      | inl e ↦ rw e (inl (refl, refl))
      | inr e ↦ rw e (inr refl)
    ],
  )
  settle-generation value now aborts d w e ok = cc
  settle-generation value now faults d w e ok = cc

  check_generation-generation :
      (value : Option D) (d : Descriptor D) (w : W) {r : Reading D}
      → (check_generation fl sys value (d, w)).0 ≡ returns r
      → r.status ≡ ret_success
      → (g : D) × (v : W) × ((counter fl sys "generation" v).0 ≡ returns (some g))
        × Follows d g (check_generation fl sys value (d, w)).1.0
  unfolding check_generation
  check_generation-generation value d w e ok =
      let (now, v) = sys.clock w in
      let (g, found, kept) =
        settle-generation value now (counter fl sys "generation" v).0 d
          (counter fl sys "generation" v).1 e ok in
      (g, v, found, kept)

  stored-generation :
      (o : Outcome (Option D)) (d : Descriptor D) (w : W) {r : Reading D}
      → (stored fl sys o (d, w)).0 ≡ returns r
      → r.status ≡ ret_success
      → (g : D) × (v : W) × ((counter fl sys "generation" v).0 ≡ returns (some g))
        × Follows d g (stored fl sys o (d, w)).1.0
  unfolding stored
  stored-generation (returns none) d w e ok = absurd (failed-status none none e ok)
  stored-generation (returns (some value)) d w e ok =
      check_generation-generation (some value) d w e ok
  stored-generation aborts d w e ok = cc
  stored-generation faults d w e ok = cc

  -- A read of a device that is not null reads a counter, or fails for its length.
  read-cases :
      (attr : AttrName) (len : ℕ) (d : Descriptor D) (w : W)
      → d.dev ≡ true
      → (read fl sys attr len (d, w) ≡ read_counter fl sys (counter_name fl sys attr) (d, w))
        ⊎ (read fl sys attr len (d, w) ≡ (returns (failed fl sys none none), (d, w)))
  unfolding read
  read-cases attr len d w present = ground (arith, present)

  -- A read of a device that is not null and that reports success has read the generation counter, and
  -- leaves that generation in the descriptor, unless the one there is already equal to it as a double;
  -- then the descriptor is left alone.
  pub read-generation :
      (attr : AttrName) (len : ℕ) (d : Descriptor D) (w : W) {r : Reading D}
      → d.dev ≡ true
      → (read fl sys attr len (d, w)).0 ≡ returns r
      → r.status ≡ ret_success
      → (g : D) × (v : W) × ((counter fl sys "generation" v).0 ≡ returns (some g))
        × Follows d g (read fl sys attr len (d, w)).1.0
  unfolding read read_counter
  read-generation attr len d w {r} present e ok = elim (read-cases attr len d w present) [
    | inl q ↦ subst Kept (sym q) (by_name (counter_name fl sys attr)) e
    | inr q ↦ absurd (failed-status none none (ap (λ x. x.0) (sym q) ∙ e) ok)
  ]
    where
      Kept : Outcome (Reading D) × State fl sys → Type 0
      Kept x =
          x.0 ≡ returns r
          → (g : D) × (v : W) × ((counter fl sys "generation" v).0 ≡ returns (some g))
            × Follows d g x.1.0

      by_name : (name : Option String) → Kept (read_counter fl sys name (d, w))
      by_name none q = check_generation-generation none d w q ok
      by_name (some name) q =
          stored-generation (counter fl sys name w).0 d (counter fl sys name w).1 q ok
