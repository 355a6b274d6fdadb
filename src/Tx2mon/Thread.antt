-- ===== src/Tx2mon/Thread.antt =====
-- Proofs about src/plugins/pwr_tx2mon.c: a round of the thread with no call in between finds the descriptors
-- that it samples in place.
use pwrapi_ref.Prelude.{
  ℕ, zero, suc, ◌+◌, ◌≤◌, ◌<◌, ◌≡◌, refl, sym, ap, ◌∙◌, inl, inr, arith, false, Bool-cases, Option,
  none, some, returns, lt→ltb, length, get_elem?, get_elem?-lt, get_elem?-some, set,
}
use pwrapi_ref.Prelude.Int.{pos}
use pwrapi_ref.Prelude.Doubles.{Doubles}
use pwrapi_ref.Types.{AttrName, ret_success, double_size}
use pwrapi_ref.Plugin.{Reading, written}
use pwrapi_ref.Tx2mon.Region.{System, FdInfo, Monitor, State, read_node}
use pwrapi_ref.Tx2mon.Read.{read_dev, read_socket, read_object, power_of}
use pwrapi_ref.Tx2mon.Sampling.{gain, add_sample, sample_entry, sample_nodes, sample}
use pwrapi_ref.Tx2mon.Sockets.{update-AreSockets}
use pwrapi_ref.Tx2mon.Registered.{Registered}
use pwrapi_ref.Tx2mon.Frames.{Kept-Registered, read_socket-Leaves}

module _ {D W : Type 0} (fl : Doubles D) (sys : System D W) where
  -- The power of a socket that has a buffer.
  pub read_socket-power :
      (f : FdInfo D) (i : ℕ) (old : D) (m : Monitor D) (w : W)
      → f.id ≡ pos i
      → i < m.nodes
      → m.nodes ≤ length m.buf
      → (x : Reading D × State sys) × (read_socket fl sys false f AttrName.power old double_size
            (m, w)
          ≡ returns x)
  unfolding read_socket read_node
  read_socket-power f i old m w at_i lt room =
      let (region, here) = get_elem?-some m.buf i (omega arith) in
      let (now_read, w') = sys.refresh i region w in
      (
        (
          record {
            status = ret_success;
            value = some (power_of fl sys f.obj_type old now_read);
            stamp = none;
          },
          (record m { buf = set m.buf i now_read }, w'),
        ),
        rw (at_i, lt→ltb (i + 0) (m.nodes + 0) (omega arith), here),
      )

  add_sample-returns :
      (junk now : D) (i h : ℕ) (m : Monitor D) (w : W)
      → Registered m
      → get_elem? m.energy_objs i ≡ some (some h)
      → (s : State sys) × (add_sample fl sys junk now h (m, w) ≡ returns s)
        × Registered s.0
        × (s.0.nodes ≡ m.nodes)
        × (s.0.energy_objs ≡ m.energy_objs)
  unfolding add_sample read_dev
  add_sample-returns junk now i h m w v at_i =
      let (f, at_h, type, id) = v.sockets i h at_i in
      let (x, done) =
        read_socket-power f i junk m w id
          (omega (arith, get_elem?-lt m.energy_objs i (some h) at_i, v.size)) v.room in
      let object : read_object fl sys f.obj_type false f AttrName.power junk double_size (m, w)
          ≡ returns x =
        ap (λ t. read_object fl sys t false f AttrName.power junk double_size (m, w)) type ∙ done in
      let kept = read_socket-Leaves fl sys false f AttrName.power junk double_size m w x done in
      let m' = x.1.0 in
      let still : get_elem? m'.fds h ≡ some (some f) =
        ap (λ t. get_elem? t h) (sym kept.fds) ∙ at_h in
      let g = gain fl sys now m'.last_sample (written x.0.value junk) f in
      let v' = Kept-Registered m m' kept v in
      (
        (record m' { fds = set m'.fds h (some g) }, x.1.1),
        rw (at_h, object, still),
        record {
          size = v'.size;
          room = v'.room;
          sockets = update-AreSockets m'.energy_objs m'.fds h f g v'.sockets still refl refl;
        },
        sym kept.nodes,
        sym kept.objs,
      )

  sample_nodes-returns :
      (junk now : D) (left i : ℕ) (m : Monitor D) (w : W)
      → Registered m
      → i + left ≤ m.nodes
      → (s : State sys) × (sample_nodes fl sys junk now left i (m, w) ≡ returns s) × Registered s.0
  unfolding sample_nodes
  sample_nodes-returns junk now zero i m w v h = ((m, w), refl, v)
  sample_nodes-returns junk now (suc left) i m w v h =
      let (entry, at_i) = get_elem?-some m.energy_objs i (omega (arith, v.size)) in
      let (s, done, v', nodes) = one entry at_i in
      let (s', rest, v'') =
        sample_nodes-returns junk now left (i + 1) s.0 s.1 v' (omega (arith, nodes)) in
      (s', rw (at_i, done) rest, v'')
    where
      one :
          (entry : Option ℕ)
          → get_elem? m.energy_objs i ≡ some entry
          → (s : State sys) × (sample_entry fl sys junk now entry (m, w) ≡ returns s)
            × Registered s.0
            × (s.0.nodes ≡ m.nodes)
      one none e = ((m, w), refl, v, refl)
      one (some k) e = elim (Bool-cases (fl.eq m.last_sample (fl.of_int (pos 0)))) [
        | inl first ↦ ((m, w), rw first, v, refl)
        | inr later ↦
            let (s, done, v', nodes, objs) = add_sample-returns junk now i k m w v e in
            (s, rw later done, v', nodes)
      ]

  pub sample-returns :
      (junk : D) (s : State sys)
      → Registered s.0
      → (t : State sys) × (sample fl sys junk s ≡ returns t) × Registered t.0
  unfolding sample
  sample-returns junk (m, w) v =
      let (now, w') = sys.clock w in
      let (t, done, v') = sample_nodes-returns junk now m.nodes 0 m w' v (omega arith) in
      (
        (record (t.0) { last_sample = now }, t.1),
        rw done,
        record { size = v'.size; room = v'.room; sockets = v'.sockets },
      )
