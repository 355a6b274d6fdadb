-- ===== src/Rapl/Read.antt =====
-- src/plugins/pwr_rapldev.c: `pwr_rapldev_read` and the calls that are made of it.
use pwrapi_ref.Prelude.{
  ℕ, ◌*◌, ◌%◌, ◌^◌, Option, none, some, List, [], ◌∷◌, Outcome, returns, faults, ◌==◌,
  if◌then◌else◌,
}
use pwrapi_ref.Prelude.Int.{ℤ, pos, negsuc}
use pwrapi_ref.Prelude.Io.{Io, Try, ◌>>=◌, give}
use pwrapi_ref.Prelude.Doubles.{Doubles}
use pwrapi_ref.Types.{AttrName, double_size}
use pwrapi_ref.Plugin.{Reading, Arrays, readv}
use pwrapi_ref.Rapl.Device.{System, Device}
use pwrapi_ref.Rapl.Packages.{Layer, Descriptor}
use pwrapi_ref.Rapl.Gather.{Sample, gather}

abbrev pub giga : ℕ
giga = 1_000_000_000

module _ {D : Type 0} (fl : Doubles D) where
  abbrev pub zero_double : D
  zero_double = fl.of_int (pos 0)

  -- (unsigned int)time*1000000000ULL + (time-(unsigned int)time)*1000000000ULL
  pub timestamp : D → ℤ
  timestamp time = fl.to_time (
      fl.add (fl.of_int (pos (fl.to_uint time * giga % 2 ^ 64)))
        (fl.mul (fl.sub time (fl.of_int (pos (fl.to_uint time)))) (fl.of_int (pos giga))))

  abbrev pub first_sample : Sample D
  first_sample = record { energy = zero_double; time = zero_double; policy = 0 }

  -- A length that is not the size of a double, or a register that cannot be read.
  abbrev pub refusal : Reading D
  refusal = record { status = negsuc 0; value = none; stamp = none }

  -- The switch over the attribute: only the energy is stored.
  abbrev pub selected : AttrName → D → Option D
  selected AttrName.energy energy = some energy
  selected _ energy = none

  unfoldable pub report : AttrName → Option (Sample D) → Reading D
  unfolding timestamp
  report attr none = refusal
  report attr (some s) = record {
    status = pos 0;
    value = selected attr s.energy;
    stamp = some (timestamp s.time);
  }

  module _ {W : Type 0} (sys : System W) where
    -- The loop over the layers: `energy` of the sample is the sum so far, `time` and `policy` stay as
    -- the last layer left them.
    unfoldable pub gather_layers : Device D → List Layer → Sample D → Try W (Sample D)
    gather_layers dev [] s = give s
    gather_layers dev (l ∷ layers) s = do
      v ← gather fl sys dev.fd dev.cpu_model dev.units l (record s { energy = zero_double })
      gather_layers dev layers (record v { energy = fl.add s.energy v.energy })

    unfoldable pub read_layers : Device D → List Layer → AttrName → Io W (Outcome (Reading D))
    unfolding report
    read_layers dev layers attr w =
        let (s, w') = gather_layers dev layers first_sample w in (returns (report attr s), w')

    -- `numLayers` is read first: where it was never set, the behaviour is undefined. With no layer the
    -- device is not looked at, but an open descriptor always has one.
    unfoldable pub read_open :
        Option (Device D) → Option (List Layer) → AttrName → Io W (Outcome (Reading D))
    unfolding read_layers
    read_open dev none attr w = (faults, w)
    read_open none (some layers) attr w = (faults, w)
    read_open (some dev) (some layers) attr w = read_layers dev layers attr w

    unfoldable pub read : Descriptor D → AttrName → ℕ → Io W (Outcome (Reading D))
    unfolding read_open
    read d attr len w =
        if len == double_size then read_open d.dev d.layers attr w else (returns refusal, w)

    unfoldable pub readv_arrays :
        Descriptor D → ℕ → List AttrName → Arrays D → Io W (Outcome (Arrays D))
    readv_arrays d = readv (λ attr. read d attr double_size)

    -- The caller's timestamp, read through an attribute that the plugin does not have.
    unfoldable pub read_time : Descriptor D → Io W (Outcome (Reading D))
    read_time d = read d AttrName.power double_size
