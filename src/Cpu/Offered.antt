-- ===== src/Cpu/Offered.antt =====
-- Proofs about src/plugins/pwr_cpudev.c: the attributes that the plugin offers are the ones for which it
-- looks at files.
use pwrapi_ref.Prelude.{ℕ, ◌≡◌, ◌≢◌, refl, inl, inr, Bool-cases, ◌==◌, All}
use pwrapi_ref.Prelude.Int.{ℤ}
use pwrapi_ref.Prelude.Doubles.{Doubles}
use pwrapi_ref.Types.{AttrName, double_size}
use pwrapi_ref.Cpu.Device.{System, read_attr, read, write_attr, write, offered}

module _ {D W : Type 0} (fl : Doubles D) (sys other : System D W)
    (clock : (w : W) → sys.clock w ≡ other.clock w) where
  read_attr-unoffered :
      (cpu : ℤ) (attr : AttrName) (w : W)
      → All (λ a. attr ≢ a) offered
      → read_attr fl sys cpu attr w ≡ read_attr fl other cpu attr w
  unfolding read_attr
  read_attr-unoffered cpu AttrName.sstate w h = absurd (h.0 refl)
  read_attr-unoffered cpu AttrName.freq w h = absurd (h.1.0 refl)
  read_attr-unoffered cpu attr w h = rw (clock w)

  write_attr-unoffered :
      (cpu : ℤ) (attr : AttrName) (value : D) (w : W)
      → All (λ a. attr ≢ a) offered
      → write_attr fl sys cpu attr value w ≡ ((write_attr fl other cpu attr value w).0, w)
  unfolding write_attr
  write_attr-unoffered cpu AttrName.sstate value w h = absurd (h.0 refl)
  write_attr-unoffered cpu AttrName.freq value w h = absurd (h.1.0 refl)
  write_attr-unoffered cpu attr value w h = refl

  -- For an attribute that the plugin does not offer, the files do not matter: two systems with the same
  -- clock, whatever their files hold and whether they can be written, give the same result of a read
  -- and of a write, and the write leaves the system as it was.
  pub read-unoffered :
      (cpu : ℤ) (attr : AttrName) (value : D) (len : ℕ) (w : W)
      → All (λ a. attr ≢ a) offered
      → (read fl sys cpu attr len w ≡ read fl other cpu attr len w)
        × (write fl sys cpu attr value len w ≡ ((write fl other cpu attr value len w).0, w))
  unfolding read write
  read-unoffered cpu attr value len w h = elim (Bool-cases (len == double_size)) [
    | inl size ↦ (
      rw size (read_attr-unoffered cpu attr w h),
      rw size (write_attr-unoffered cpu attr value w h),
    )
    | inr size ↦ (rw size, rw size)
  ]
