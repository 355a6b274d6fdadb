-- ===== src/Rapl/Energy.antt =====
-- Proofs about src/plugins/pwr_rapldev.c: what `pwr_rapldev_read` reports, and when.
use pwrapi_ref.Prelude.{
  ℕ, ◌≡◌, refl, ap, ◌∙◌, ◌⊎◌, inl, inr, arith, Option, none, some, false, List, [], ◌∷◌, returns,
  Option-cases, Bool-cases, if◌then◌else◌,
}
use pwrapi_ref.Prelude.Int.{ℤ, pos}
use pwrapi_ref.Prelude.Io.{after}
use pwrapi_ref.Prelude.Doubles.{Doubles}
use pwrapi_ref.Types.{AttrName, double_size}
use pwrapi_ref.Plugin.{Reading}
use pwrapi_ref.Rapl.Msr.{msr}
use pwrapi_ref.Rapl.Device.{System, Device}
use pwrapi_ref.Rapl.Packages.{Layer}
use pwrapi_ref.Rapl.Gather.{Sample, has_perf_status, has_pp1, gather, in_units}
use pwrapi_ref.Rapl.Read.{
  zero_double, timestamp, first_sample, refusal, report, gather_layers, read,
}
use pwrapi_ref.Rapl.Registers.{gather-time}

-- The energy counter of a layer.
abbrev pub energy_register : ℤ → Layer → ℕ
energy_register model Layer.invalid = 0
energy_register model Layer.pkg = 0x611
energy_register model Layer.pp0 = 0x639
energy_register model Layer.pp1 = if has_pp1 model then 0x641 else 0x619

module _ {D W : Type 0} (fl : Doubles D) (sys : System W) where
  module _ (dev : Device D)
      (readable : (reg : ℕ) (w : W) → (raw : ℕ) × ((sys.pread dev.fd reg w).0 ≡ some raw)) where
    -- What a register of the package holds at a moment, and what its read leaves.
    unfoldable pub raw_at : ℕ → W → ℕ
    raw_at reg w = (readable reg w).0

    unfoldable pub read_leaves : ℕ → W → W
    read_leaves reg w = (sys.pread dev.fd reg w).1

    pread-raw :
        (reg : ℕ) (w : W) → sys.pread dev.fd reg w ≡ (some (raw_at reg w), read_leaves reg w)
    unfolding raw_at read_leaves
    pread-raw reg w = ap (λ r. (r, (sys.pread dev.fd reg w).1)) ((readable reg w).1)

    -- The energy counter of a layer at a moment, in the unit of the processor.
    abbrev pub layer_energy : Layer → W → D
    layer_energy Layer.invalid w = zero_double fl
    layer_energy l w = in_units fl dev.units.energy (raw_at (energy_register dev.cpu_model l) w)

    -- What the reads of a layer leave: the energy, then the policy and the performance status, where
    -- the processor has them.
    abbrev pub perf_leaves : ℕ → W → W
    perf_leaves reg w = if has_perf_status dev.cpu_model then read_leaves reg w else w

    abbrev pub layer_leaves : Layer → W → W
    layer_leaves Layer.invalid w = w
    layer_leaves Layer.pkg w = perf_leaves 0x613 (read_leaves 0x611 w)
    layer_leaves Layer.pp0 w = perf_leaves 0x63b (read_leaves 0x63a (read_leaves 0x639 w))
    layer_leaves Layer.pp1 w =
        if has_pp1 dev.cpu_model
        then read_leaves 0x642 (read_leaves 0x641 w)
        else read_leaves 0x619 w

    abbrev pub sum_layers : D → List Layer → W → D
    sum_layers total [] w = total
    sum_layers total (l ∷ layers) w =
        sum_layers (fl.add total (layer_energy l w)) layers (layer_leaves l w)

    abbrev run : Layer → Sample D → W → Option (Sample D) × W
    run l s w = gather fl sys dev.fd dev.cpu_model dev.units l s w

    run-energy :
        (l : Layer) (s : Sample D) (w : W)
        → s.energy ≡ zero_double fl
        → (v : Sample D) × (run l s w ≡ (some v, layer_leaves l w)) × (v.energy ≡ layer_energy l w)
    unfolding gather
    run-energy Layer.invalid s w z = (s, refl, z)
    run-energy Layer.pkg s w z =
        let w1 = read_leaves 0x611 w in
        let s1 : Sample D = record s { energy = layer_energy Layer.pkg w } in
        elim (Bool-cases (has_perf_status dev.cpu_model)) [
          | inl e ↦ (
            record s1 { time = in_units fl dev.units.time (raw_at 0x613 w1) },
            rw (pread-raw 0x611 w, e, pread-raw 0x613 w1) refl,
            refl,
          )
          | inr e ↦ (s1, rw (pread-raw 0x611 w, e) refl, refl)
        ]
    run-energy Layer.pp0 s w z =
        let w1 = read_leaves 0x639 w in
        let w2 = read_leaves 0x63a w1 in
        let s1 : Sample D = record s {
          energy = layer_energy Layer.pp0 w;
          policy = msr (raw_at 0x63a w1) 0 0x1f;
        } in
        elim (Bool-cases (has_perf_status dev.cpu_model)) [
          | inl e ↦ (
            record s1 { time = in_units fl dev.units.time (raw_at 0x63b w2) },
            rw (pread-raw 0x639 w, pread-raw 0x63a w1, e, pread-raw 0x63b w2) refl,
            refl,
          )
          | inr e ↦ (s1, rw (pread-raw 0x639 w, pread-raw 0x63a w1, e) refl, refl)
        ]
    run-energy Layer.pp1 s w z =
        let w1 = read_leaves 0x641 w in
        let s1 : Sample D = record s { energy = layer_energy Layer.pp1 w } in
        elim (Bool-cases (has_pp1 dev.cpu_model)) [
          | inl e ↦ (
            record s1 { policy = msr (raw_at 0x642 w1) 0 0x1f },
            rw (e, pread-raw 0x641 w, pread-raw 0x642 w1) refl,
            refl,
          )
          | inr e ↦ (s1, rw (e, pread-raw 0x619 w) refl, refl)
        ]

    gather_layers-sum :
        (layers : List Layer) (s : Sample D) (w : W)
        → (v : Sample D) × ((gather_layers fl sys dev layers s w).0 ≡ some v)
          × (v.energy ≡ sum_layers s.energy layers w)
    unfolding gather_layers
    gather_layers-sum [] s w = (s, refl, refl)
    gather_layers-sum (l ∷ layers) s w =
        let (v, done, energy) = run-energy l (record s { energy = zero_double fl }) w refl in
        let (r, rest, sum) =
          gather_layers-sum layers (record v { energy = fl.add s.energy v.energy })
            (layer_leaves l w) in
        (
          r,
          rw (done, after) rest,
          sum ∙ ap (λ t. sum_layers (fl.add s.energy t) layers (layer_leaves l w)) energy,
        )

    -- Where each register of the package can be read whenever it is, an energy read of an open
    -- descriptor succeeds, and its value is the sum of its layers' counters, each in the unit of the
    -- processor, from 0.0 on: the counter of each layer as it is after the reads for the layers before.
    pub read-sums_layers :
        (layers : List Layer) (w : W)
        → (t : ℤ) × ((read fl sys
              (record { dev = some dev; layers = some layers })
              AttrName.energy
              double_size
              w).0
            ≡ returns (record {
              status = pos 0;
              value = some (sum_layers (zero_double fl) layers w);
              stamp = some t;
            }))
    unfolding read report
    read-sums_layers layers w =
        let (v, done, sum) = gather_layers-sum layers (first_sample fl) w in
        (timestamp fl v.time, rw (done, report, sum))

  module _ (dev : Device D) (no_perf : has_perf_status dev.cpu_model ≡ false) where
    gather_layers-time :
        (layers : List Layer) (s : Sample D) (w : W) {v : Sample D}
        → (gather_layers fl sys dev layers s w).0 ≡ some v
        → v.time ≡ s.time
    unfolding gather_layers
    gather_layers-time [] s w e = ground arith
    gather_layers-time (l ∷ layers) s w e =
        let s_0 : Sample D = record s { energy = zero_double fl } in
        let first = gather fl sys dev.fd dev.cpu_model dev.units l s_0 w in
        elim (Option-cases first.0) [
          | inl missing ↦ absurd_none (rw (missing, after) at e)
          | inr (u, found) ↦
              gather_layers-time layers (record u { energy = fl.add s.energy u.energy }) first.1
                (rw (found, after) at e)
              ∙ gather-time fl sys dev.fd dev.cpu_model dev.units l s_0 w no_perf found
        ]
      where
        absurd_none : {v : Sample D} → none ≡ some v → v.time ≡ s.time
        absurd_none h = cc

    -- On a processor with no performance status register, no read reports a time: every read of an
    -- open descriptor, with the length of a double, either is refused and writes nothing, or stamps the value with time 0.0.
    pub read-stamps_zero :
        (layers : List Layer) (attr : AttrName) (w : W)
        → (r : Reading D) × ((read fl sys
              (record { dev = some dev; layers = some layers })
              attr
              double_size
              w).0
            ≡ returns r)
          × ((r ≡ refusal fl)
              ⊎ ((r.status ≡ pos 0) × (r.stamp ≡ some (timestamp fl (zero_double fl)))))
    unfolding read report
    read-stamps_zero layers attr w =
        let gathered = gather_layers fl sys dev layers (first_sample fl) w in
        elim (Option-cases gathered.0) [
          | inl missing ↦ (refusal fl, rw (missing, report), inl refl)
          | inr (v, found) ↦ (
            report fl attr (some v),
            rw (found, report),
            inr (
              refl,
              ap (λ t. some (timestamp fl t)) (gather_layers-time layers (first_sample fl) w found),
            ),
          )
        ]
