-- ===== src/Tx2mon/Cores.antt =====
-- Proofs about src/plugins/pwr_tx2mon.c: which node and which entry a read of a core takes.
use native.Mathlib.Nat.{mul-add-div_right, div-add-mod', div-eq_of_lt}
use pwrapi_ref.Prelude.{
  ℕ, ◌+◌, ◌*◌, ◌/◌, ◌%◌, ◌<◌, ◌≡◌, ap, ◌∙◌, refl, arith, Bool, true, false, Option, none, some,
  returns, ==_of_ne, lt→ltb, get_elem?, set,
}
use pwrapi_ref.Prelude.Int.{ℤ, pos}
use pwrapi_ref.Prelude.Doubles.{Doubles}
use pwrapi_ref.Types.{AttrName, ret_success, double_size}
use pwrapi_ref.Tx2mon.Region.{Region, System, Monitor, read_node}
use pwrapi_ref.Tx2mon.Read.{read_core, finish}

quotient : (n k c : ℕ) → k < c → (n * c + k) / c ≡ n
quotient n k c h = mul-add-div_right {m = c} (omega arith) n k ∙ omega (arith, div-eq_of_lt h)

remainder : (n k c : ℕ) → k < c → (n * c + k) % c ≡ k
remainder n k c h =
    let whole = div-add-mod' (n * c + k) c in
    let part : (n * c + k) / c * c ≡ n * c = ap (λ (t : ℕ). t * c) (quotient n k c h) in
    omega (arith, whole, part)

module _ {D W : Type 0} (fl : Doubles D) (sys : System D W) where
  -- The time that a caller gets who wants one, and what reading the clock leaves.
  abbrev pub time_of : Bool → W → Option ℤ × W
  time_of false w = (none, w)
  time_of true w = let (now, w') = sys.clock w in (some (fl.to_time now), w')

  finish-time_of :
      (timed : Bool) (v : D) (m : Monitor D) (w : W)
      → finish fl sys timed v (m, w)
        ≡ returns (
          record { status = ret_success; value = some v; stamp = (time_of timed w).0 },
          (m, (time_of timed w).1),
        )
  finish-time_of false v m w = refl
  finish-time_of true v m w = refl

  -- Core k of node n has the number n * cores + k. If both exist, a read of its frequency refreshes the
  -- buffer of node n, and gives entry k of what the buffer then holds; a caller that passes a timestamp
  -- gets the time of the clock after the refresh, and one that passes a null pointer gets none.
  pub read_core-entry :
      (timed : Bool) (n k : ℕ) (m : Monitor D) (w : W) (old : Region) (f : ℤ)
      → n < m.nodes
      → k < m.cores
      → get_elem? m.buf n ≡ some old
      → get_elem? (sys.refresh n old w).0.freq_cpu k ≡ some f
      → (let (now_read, w') = sys.refresh n old w in
          read_core fl sys timed (pos (n * m.cores + k)) AttrName.freq double_size (m, w)
          ≡ returns (
            record {
              status = ret_success;
              value = some (fl.of_int f);
              stamp = (time_of timed w').0;
            },
            (record m { buf = set m.buf n now_read }, (time_of timed w').1),
          ))
  unfolding read_core read_node
  read_core-entry timed n k m w old f n_lt k_lt at_n at_k =
      rw
        (
          ==_of_ne m.cores 0 (omega arith),
          quotient n k m.cores k_lt,
          remainder n k m.cores k_lt,
          lt→ltb (n + 0) (m.nodes + 0) (omega arith),
          lt→ltb (k + 0) (m.cores + 0) (omega arith),
          at_n,
          at_k,
        )
        (finish-time_of timed (fl.of_int f) (record m { buf = set m.buf n (sys.refresh n old w).0 })
          (sys.refresh n old w).1)
