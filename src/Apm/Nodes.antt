-- ===== src/Apm/Nodes.antt =====
-- Proofs about src/plugins/pwr_apmdev.c: which nodes the start finds and how it sets them up, where
-- every command answers.
use mathlib.Core.List.{append-nil, append_assoc}
use pwrapi_ref.Prelude.{
  ℕ, zero, suc, ◌+◌, ◌%◌, ◌^◌, ◌≤◌, ◌≡◌, refl, arith, some, none, Option, List, [], ◌∷◌, ◌++◌, map,
  true, ◌||◌, length, inl, inr, Bool-cases, if◌then◌else◌, ◌==◌,
}
use pwrapi_ref.Prelude.Int.{ℤ, pos, eqb_ℤ}
use pwrapi_ref.Prelude.Bits.{and_mask}
use pwrapi_ref.Prelude.Doubles.{Doubles}
use pwrapi_ref.Apm.Fields.{masked, tdp_to_watt_bits}
use pwrapi_ref.Apm.Device.{
  System, Node, config_read, config_write, set_up, checked_range, force_range,
}
use pwrapi_ref.Apm.Scan.{try_node, probe, scan_nodes, blank_node}

-- The node numbers from `i` on, `left` of them at most, whose vendor register holds AMD's number.
abbrev pub vendor_nodes : (ℕ → ℕ) → ℕ → ℕ → List ℕ
vendor_nodes vendor zero i = []
vendor_nodes vendor (suc left) i =
    if vendor i % 2 ^ 16 == 0x1022
    then i ∷ vendor_nodes vendor left (i + 1)
    else vendor_nodes vendor left (i + 1)

-- The range of the running average that belongs to a model.
abbrev pub wanted_range : ℤ → Option ℕ
wanted_range model =
    if eqb_ℤ model (pos 1)
    then some 9
    else if eqb_ℤ model (pos 16) || eqb_ℤ model (pos 48)
    then some 2
    else none

pub length-vendor_nodes : (vendor : ℕ → ℕ) (left i : ℕ) → length (vendor_nodes vendor left i) ≤ left
length-vendor_nodes vendor zero i = omega arith
length-vendor_nodes vendor (suc left) i = ground (arith, length-vendor_nodes vendor left (i + 1))

module _ {D W : Type 0} (fl : Doubles D) (sys : System W) where
  module _ (regs : ℕ → ℕ → ℕ → ℕ)
      (answers : (node reg offset : ℕ) (w : W)
        → sys.query node reg offset w ≡ (some (some (regs node reg offset)), w)) where
    abbrev pub vendor : ℕ → ℕ
    vendor i = regs i 0x0 0x0

    vendor_bits : (i : ℕ) → masked (vendor i) 0xffff 0 ≡ vendor i % 2 ^ 16
    vendor_bits i = omega (arith, and_mask 16 (vendor i))

    abbrev one : ℕ → List (Node D)
    one i = if vendor i % 2 ^ 16 == 0x1022 then blank_node fl sys i ∷ [] else []

    config_read-answers :
        (node reg offset old : ℕ) (w : W)
        → config_read fl sys node reg offset old w ≡ (some (regs node reg offset), w)
    unfolding config_read
    config_read-answers node reg offset old w = rw (answers node reg offset w)

    try_node-finds :
        (i : ℕ) (nodes : List (Node D)) (w : W)
        → (m : ℕ) × (try_node fl sys i (vendor i) nodes w ≡ (some (nodes ++ one i, m), w))
    try_node-finds i nodes w = elim (Bool-cases (vendor i % 2 ^ 16 == 0x1022)) [
      | inl amd ↦ (
        regs i 0x3 0xe8,
        unfold try_node in rw (vendor_bits i, amd, config_read-answers i 0x3 0xe8 (vendor i) w),
      )
      | inr other ↦ (vendor i, unfold try_node in rw (vendor_bits i, other) (rw append-nil))
    ]

    probe-finds :
        (i msr : ℕ) (nodes : List (Node D)) (w : W)
        → (m : ℕ) × (probe fl sys i msr nodes w ≡ (some (nodes ++ one i, m), w))
    unfolding probe
    probe-finds i msr nodes w =
        let (m, kept) = try_node-finds i nodes w in
        (m, rw (config_read-answers i 0x0 0x0 msr w) kept)

    abbrev pub found : ℕ → ℕ → List (Node D)
    found left i = map (blank_node fl sys) (vendor_nodes vendor left i)

    found-suc : (left i : ℕ) → one i ++ found left (i + 1) ≡ found (suc left) i
    found-suc left i = ground arith

    pub scan_nodes-finds :
        (left i msr : ℕ) (nodes : List (Node D)) (w : W)
        → (m : ℕ) × (scan_nodes fl sys left i msr nodes w ≡ (some (nodes ++ found left i, m), w))
    unfolding scan_nodes
    scan_nodes-finds zero i msr nodes w = (msr, rw append-nil)
    scan_nodes-finds (suc left) i msr nodes w =
        let (m, first) = probe-finds i msr nodes w in
        let (m', rest) = scan_nodes-finds left (i + 1) m (nodes ++ one i) w in
        (m', rw (first, rest) (rw (append_assoc, found-suc left i)))

    module _
        (writes : (node reg offset value : ℕ) (w : W)
          → (sys.assign node reg offset value w).0 ≡ true)
        (same : (n : ℕ) → fl.eq (fl.of_int (pos n)) (fl.of_int (pos n)) ≡ true) where
      -- The range is the one that the model asks for, and the divisor belongs to it.
      pub record Ready (model : ℤ) (node : Node D) : Type 0 where
        pub range :
            (n : ℕ)
            → wanted_range model ≡ some n
            → fl.eq node.run_avg_range (fl.of_int (pos n)) ≡ true
        pub divisor :
            node.avg_divide_by
            ≡ fl.pow (fl.literal 20 1) (fl.add node.run_avg_range (fl.of_int (pos 1)))

      force_range-eq :
          (number wanted : ℕ) (range : D) (w : W)
          → (r : D) × ((force_range fl sys number wanted range w).0 ≡ some r)
            × (fl.eq r (fl.of_int (pos wanted)) ≡ true)
      unfolding force_range config_write
      force_range-eq number wanted range w =
          elim (Bool-cases (fl.eq range (fl.of_int (pos wanted)))) [
            | inl fits ↦ (range, rw fits, fits)
            | inr other ↦
                (fl.of_int (pos wanted), rw (other, writes number 0x5 0xe0 wanted w), same wanted)
          ]

      checked_range-eq :
          (model : ℤ) (number : ℕ) (range : D) (w : W)
          → (r : D) × ((checked_range fl sys model number range w).0 ≡ some r)
            × ((n : ℕ) → wanted_range model ≡ some n → fl.eq r (fl.of_int (pos n)) ≡ true)
      unfolding checked_range
      checked_range-eq model number range w = elim (Bool-cases (eqb_ℤ model (pos 1))) [
        | inl one ↦
            let (r, done, ok) = force_range-eq number 9 range w in
            (r, rw (one, checked_range) done, λ n e. ground (arith, ok))
        | inr not_one ↦ elim (Bool-cases (eqb_ℤ model (pos 16) || eqb_ℤ model (pos 48))) [
          | inl a10 ↦
              let (r, done, ok) = force_range-eq number 2 range w in
              (r, rw (not_one, a10, checked_range) done, λ n e. ground (arith, ok))
          | inr other ↦ (range, rw (not_one, other, checked_range), λ n e. ground arith)
        ]
      ]

      pub set_up-Ready :
          (model : ℤ) (node : Node D) (old : ℕ) (w : W)
          → (node' : Node D) × (m : ℕ) × ((set_up fl sys model node old w).0 ≡ some (node', m))
            × (node'.number ≡ node.number)
            × Ready model node'
      unfolding set_up config_read
      set_up-Ready model node old w =
          let raw = fl.of_int (pos (masked (regs node.number 0x5 0xe0) 0x000f 0)) in
          let checked = checked_range fl sys model node.number raw w in
          let (r, done, ok) = checked_range-eq model node.number raw w in
          (
            record node {
              tdp_to_watt =
                  fl.div (fl.of_int (pos (tdp_to_watt_bits (regs node.number 0x5 0xe8))))
                    (fl.of_int (pos 65536));
              run_avg_range = r;
              avg_divide_by = fl.pow (fl.literal 20 1) (fl.add r (fl.of_int (pos 1)));
              proc_tdp = fl.of_int (pos (masked (regs node.number 0x4 0x1b8) 0xffff 0));
            },
            regs node.number 0x4 0x1b8,
            rw (
              answers node.number 0x5 0xe8 w,
              answers node.number 0x5 0xe0 w,
              set_up,
              config_read,
              done,
              answers node.number 0x4 0x1b8 checked.1,
            ),
            refl,
            record { range = ok; divisor = refl },
          )
