-- ===== src/Apm/Scan.antt =====
-- src/plugins/pwr_apmdev.c: `pwr_apmdev_init`, which looks for the nodes and then sets each one up.
use pwrapi_ref.Prelude.{
  ℕ, zero, suc, ◌+◌, Option, none, some, List, [], ◌∷◌, ◌++◌, if◌then◌else◌, ◌==◌,
}
use pwrapi_ref.Prelude.Int.{ℤ, pos}
use pwrapi_ref.Prelude.Io.{Try, ◌>>=◌, give}
use pwrapi_ref.Prelude.Doubles.{Doubles}
use pwrapi_ref.Cpuinfo.{identify}
use pwrapi_ref.Apm.Fields.{masked}
use pwrapi_ref.Apm.Device.{System, Node, rules, config_read, set_up}

-- `node` holds the first `node_count` entries of the array of eight.
pub record Device (D : Type 0) : Type 0 where
  pub cpu_model : ℤ
  pub node : List (Node D)
  pub core : ℕ

module _ {D W : Type 0} (fl : Doubles D) (sys : System W) where
  abbrev pub blank_node : ℕ → Node D
  blank_node number = record {
    number = number;
    tdp_to_watt = fl.of_int (pos 0);
    run_avg_range = fl.of_int (pos 0);
    avg_divide_by = fl.of_int (pos 0);
    proc_tdp = fl.of_int (pos 0);
    base_tdp = fl.of_int (pos 0);
    off_core_pwr_watt = fl.of_int (pos 0);
  }

  -- A node that answered with `msr`: it is kept if the vendor fits, after one more read, whose failure
  -- ends the start.
  unfoldable pub try_node : ℕ → ℕ → List (Node D) → Try W (List (Node D) × ℕ)
  try_node i msr nodes =
      if masked msr 0xffff 0 == 0x1022
      then (do
        multinode ← config_read fl sys i 0x3 0xe8 msr
        give (nodes ++ blank_node i ∷ [], multinode))
      else give (nodes, msr)

  -- A node that gives no answer is passed over.
  unfoldable pub answered : ℕ → ℕ → List (Node D) → Option ℕ × W → Option (List (Node D) × ℕ) × W
  unfolding try_node
  answered i msr nodes (none, w) = (some (nodes, msr), w)
  answered i msr nodes (some vendor, w) = try_node i vendor nodes w

  unfoldable pub probe : ℕ → ℕ → List (Node D) → Try W (List (Node D) × ℕ)
  unfolding answered
  probe i msr nodes w = answered i msr nodes (config_read fl sys i 0x0 0x0 msr w)

  unfoldable pub scan_nodes : ℕ → ℕ → ℕ → List (Node D) → Try W (List (Node D) × ℕ)
  scan_nodes zero i msr nodes = give (nodes, msr)
  scan_nodes (suc left) i msr nodes = do
    (nodes', msr') ← probe i msr nodes
    scan_nodes left (i + 1) msr' nodes'

  unfoldable pub set_up_all : ℤ → List (Node D) → ℕ → Try W (List (Node D))
  set_up_all model [] msr = give []
  set_up_all model (node ∷ nodes) msr = do
    (node', msr') ← set_up fl sys model node msr
    rest ← set_up_all model nodes msr'
    give (node' ∷ rest)

  -- The core that `apmdev_parse` took from the string is not stored: `core` keeps the 0 of `bzero`.
  unfoldable pub init : Option ℤ → ℕ → Try W (Device D)
  init none msr w = (none, w)
  init (some core) msr w =
      let (lines, w') = sys.cpuinfo w in
      (do
        model ← (λ v. (identify rules sys.scan sys.junk lines, v))
        (nodes, msr') ← scan_nodes 8 0 msr []
        nodes' ← set_up_all model nodes msr'
        give (record { cpu_model = model; node = nodes'; core = 0 }))
        w'
