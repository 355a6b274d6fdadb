-- ===== src/Apm/Ranges.antt =====
-- Proofs about src/plugins/pwr_apmdev.c: the start as a whole, where every command answers and every
-- write works.
use pwrapi_ref.Prelude.{ℕ, ◌≡◌, refl, ap, ap₂, ◌∙◌, some, List, [], ◌∷◌, map, true, All}
use pwrapi_ref.Prelude.Int.{ℤ, pos}
use pwrapi_ref.Prelude.Io.{after}
use pwrapi_ref.Prelude.Doubles.{Doubles}
use pwrapi_ref.Cpuinfo.{identify}
use pwrapi_ref.Apm.Device.{System, Node, set_up, rules}
use pwrapi_ref.Apm.Scan.{Device, set_up_all, init, blank_node}
use pwrapi_ref.Apm.Nodes.{vendor_nodes, Ready, found, scan_nodes-finds, set_up-Ready}

abbrev pub numbers : {D : Type 0} → List (Node D) → List ℕ
numbers = map (λ n. n.number)

numbers-blank :
    {D W : Type 0} (fl : Doubles D) (sys : System W) (is : List ℕ)
    → numbers (map (blank_node fl sys) is) ≡ is
numbers-blank fl sys [] = refl
numbers-blank fl sys (i ∷ is) = ap (◌∷◌ i) (numbers-blank fl sys is)

module _ {D W : Type 0} (fl : Doubles D) (sys : System W) (regs : ℕ → ℕ → ℕ → ℕ)
    (answers : (node reg offset : ℕ) (w : W)
      → sys.query node reg offset w ≡ (some (some (regs node reg offset)), w))
    (writes : (node reg offset value : ℕ) (w : W) → (sys.assign node reg offset value w).0 ≡ true)
    (same : (n : ℕ) → fl.eq (fl.of_int (pos n)) (fl.of_int (pos n)) ≡ true) where
  abbrev AllReady : ℤ → List (Node D) → Type 0
  AllReady model = All (Ready fl sys regs answers writes same model)

  set_up_all-Ready :
      (model : ℤ) (nodes : List (Node D)) (msr : ℕ) (w : W)
      → (nodes' : List (Node D)) × ((set_up_all fl sys model nodes msr w).0 ≡ some nodes')
        × (numbers nodes' ≡ numbers nodes)
        × AllReady model nodes'
  unfolding set_up_all
  set_up_all-Ready model [] msr w = ([], refl, refl, tt)
  set_up_all-Ready model (node ∷ nodes) msr w =
      let (node', m, first, number, ready) =
        set_up-Ready fl sys regs answers writes same model node msr w in
      let (rest, done, others, all) =
        set_up_all-Ready model nodes m (set_up fl sys model node msr w).1 in
      (node' ∷ rest, rw (first, after, done), ap₂ ◌∷◌ number others, (ready, all))

  -- If every command answers by its register alone and every write works, if `==` holds between the
  -- double of a number and itself, and if the processor is recognised, then the start of the plugin
  -- gives a device whose nodes are, in order, those of the numbers 0 to 7 whose vendor register holds
  -- AMD's number; each has the averaging range that its model asks for and the divisor that belongs to
  -- it; and the core is 0, whatever core the initialisation string names.
  pub init-sets_up :
      (core model : ℤ) (msr : ℕ) (w : W)
      → identify rules sys.scan sys.junk (sys.cpuinfo w).0 ≡ some model
      → (dev : Device D) × ((init fl sys (some core) msr w).0 ≡ some dev)
        × (dev.cpu_model ≡ model)
        × (numbers dev.node ≡ vendor_nodes (λ i. regs i 0x0 0x0) 8 0)
        × AllReady model dev.node
        × (dev.core ≡ 0)
  unfolding init
  init-sets_up core model msr w known =
      let (m, scanned) = scan_nodes-finds fl sys regs answers 8 0 msr [] (sys.cpuinfo w).1 in
      let (nodes, done, kept, all) =
        set_up_all-Ready model (found fl sys regs answers 8 0) m (sys.cpuinfo w).1 in
      (
        record { cpu_model = model; node = nodes; core = 0 },
        rw (known, scanned, after, done),
        refl,
        kept ∙ numbers-blank fl sys (vendor_nodes (λ i. regs i 0x0 0x0) 8 0),
        all,
        refl,
      )
