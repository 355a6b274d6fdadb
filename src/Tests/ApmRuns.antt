-- ===== src/Tests/ApmRuns.antt =====
-- Runs of the APM plugin.
use pwrapi_ref.Prelude.{
  ℕ, ◌+◌, ◌-◌, ◌/◌, ◌%◌, ◌^◌, ◌≡◌, refl, true, some, [], ◌∷◌, All, if◌then◌else◌, ltb, ◌==◌, ◌||◌,
}
use pwrapi_ref.Prelude.Int.{ℤ, pos, negsuc, signed64}
use pwrapi_ref.Cpuinfo.{identify}
use pwrapi_ref.Apm.Fields.{run_avg_acc_cap}
use pwrapi_ref.Apm.Device.{System, gather}
use pwrapi_ref.Apm.Scan.{Device, blank_node, init}
use pwrapi_ref.Apm.Nodes.{Ready}
use pwrapi_ref.Apm.Ranges.{numbers, init-sets_up}
use pwrapi_ref.Apm.Signs.{acc_field, run_avg_acc_cap-signed, gather-power}
use pwrapi_ref.Tests.Fixtures.{whole, eqb_ℤ-self, amd, amd_scan}

-- Node 0 and node 2 are AMD's; every other register holds its offset.
abbrev registers : ℕ → ℕ → ℕ → ℕ
registers node reg offset =
    if offset == 0 then (if (node == 0) || (node == 2) then 0x16001022 else 0x8086) else offset

abbrev machine : System ℕ
machine = record {
  scan = amd_scan;
  junk = pos 21;
  cpuinfo = λ w. (some amd, w);
  query = λ node reg offset w. (some (some (registers node reg offset)), w);
  assign = λ node reg offset value w. (true, w + 1);
  clock = λ w. (pos w, w);
}

assigns : (node reg offset value : ℕ) (w : ℕ) → (machine.assign node reg offset value w).0 ≡ true
assigns node reg offset value w = refl

answers :
    (node reg offset : ℕ) (w : ℕ)
    → machine.query node reg offset w ≡ (some (some (registers node reg offset)), w)
answers node reg offset w = refl

of_int-self : (n : ℕ) → whole.eq (whole.of_int (pos n)) (whole.of_int (pos n)) ≡ true
of_int-self n = eqb_ℤ-self (pos n)

init-sets_up_example :
    (dev : Device ℤ) × ((init whole machine (some (pos 3)) 0 0).0 ≡ some dev)
    × (dev.cpu_model ≡ pos 16)
    × (numbers dev.node ≡ 0 ∷ 2 ∷ [])
    × All (Ready whole machine registers answers assigns of_int-self (pos 16)) dev.node
    × (dev.core ≡ 0)
unfolding identify
init-sets_up_example =
    init-sets_up whole machine registers answers assigns of_int-self (pos 3) (pos 16) 0 0 refl

run_avg_acc_cap-signed_example : signed64 (run_avg_acc_cap 0x3fffff0) ≡ (
    if ltb (acc_field 0x3fffff0) (2 ^ 21)
    then pos (acc_field 0x3fffff0)
    else negsuc (2 ^ 22 - acc_field 0x3fffff0 - 1))
run_avg_acc_cap-signed_example = run_avg_acc_cap-signed 0x3fffff0

-- A node whose accumulator holds -1.
abbrev draining : System ℕ
draining = record machine {
  query = λ node reg offset w. (some (some (if offset == 0xe8 then 0x640000 else 0x3fffff0)), w);
}

gather-power_example :
    (gather whole draining (blank_node whole draining 0) 0 7).0
    ≡ some (
        whole.mul
          (whole.sub (pos (0x640000 / 2 ^ 16 % 2 ^ 13)) (
            whole.div
              (pos (
                if ltb (acc_field 0x3fffff0) (2 ^ 21)
                then acc_field 0x3fffff0
                else 2 ^ 64 - (2 ^ 22 - acc_field 0x3fffff0)))
              (pos 0)))
          (pos 0))
gather-power_example =
    gather-power whole draining (blank_node whole draining 0) 0 0x640000 0x3fffff0 7 (λ v. refl)
      (λ v. refl)
