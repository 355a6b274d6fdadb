-- ===== src/Rapl/Registers.antt =====
-- Proofs about src/plugins/pwr_rapldev.c: which registers `rapldev_gather` needs, and what it does
-- with the time of its caller.
use pwrapi_ref.Prelude.{
  ℕ, ◌≡◌, refl, arith, Option, none, some, Bool, true, false, ◌&&◌, List, [], ◌∷◌, if◌then◌else◌,
}
use pwrapi_ref.Prelude.Int.{ℤ}
use pwrapi_ref.Prelude.Doubles.{Doubles}
use pwrapi_ref.Rapl.Device.{System, Units}
use pwrapi_ref.Rapl.Packages.{Layer}
use pwrapi_ref.Rapl.Gather.{Sample, has_perf_status, has_pp1, gather}

abbrev pub is_some : {A : Type 0} → Option A → Bool
is_some none = false
is_some (some a) = true

-- The offsets that a layer depends on: its energy counter, its policy and its performance status.
abbrev perf_registers : ℤ → ℕ → List ℕ
perf_registers model reg = if has_perf_status model then reg ∷ [] else []

abbrev pub layer_registers : ℤ → Layer → List ℕ
layer_registers model Layer.invalid = []
layer_registers model Layer.pkg = 0x611 ∷ perf_registers model 0x613
layer_registers model Layer.pp0 = 0x639 ∷ 0x63a ∷ perf_registers model 0x63b
layer_registers model Layer.pp1 = if has_pp1 model then 0x641 ∷ 0x642 ∷ [] else 0x619 ∷ []

abbrev pub all_readable : (ℕ → Option ℕ) → List ℕ → Bool
all_readable regs [] = true
all_readable regs (r ∷ rs) = is_some (regs r) && all_readable regs rs

module _ {D W : Type 0} (fl : Doubles D) (sys : System W) (fd : ℕ) (model : ℤ)
    (units : Units D) where
  -- With registers that stay as they are, a layer is gathered exactly if each register that its
  -- processor model has for it can be read.
  pub gather-is_some :
      (regs : ℕ → Option ℕ)
      → ((reg : ℕ) (w : W) → sys.pread fd reg w ≡ (regs reg, w))
      → (l : Layer) (s : Sample D) (w : W)
      → is_some (gather fl sys fd model units l s w).0 ≡ all_readable regs (layer_registers model l)
  unfolding gather
  gather-is_some regs frozen Layer.invalid s w = refl
  gather-is_some regs frozen Layer.pkg s w = ground (arith, frozen 0x611 w, frozen 0x613 w)
  gather-is_some regs frozen Layer.pp0 s w =
      ground (arith, frozen 0x639 w, frozen 0x63a w, frozen 0x63b w)
  gather-is_some regs frozen Layer.pp1 s w =
      ground (arith, frozen 0x641 w, frozen 0x642 w, frozen 0x619 w)

  -- Only the two models with a performance status register change the time.
  pub gather-time :
      (l : Layer) (s : Sample D) (w : W) {v : Sample D}
      → has_perf_status model ≡ false
      → (gather fl sys fd model units l s w).0 ≡ some v
      → v.time ≡ s.time
  unfolding gather
  gather-time Layer.invalid s w h e = ground arith
  gather-time Layer.pkg s w h e = ground arith
  gather-time Layer.pp0 s w h e = ground arith
  gather-time Layer.pp1 s w h e = ground arith
