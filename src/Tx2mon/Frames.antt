-- ===== src/Tx2mon/Frames.antt =====
-- Proofs about src/plugins/pwr_tx2mon.c: a read changes nothing but the buffers.
use mathlib.Core.Path.{subst}
use pwrapi_ref.Prelude.{
  ℕ, ◌≡◌, refl, sym, ap, ◌∙◌, inl, inr, arith, Bool, true, false, Bool-cases, Outcome, returns,
  faults, ◌>>=◌, >>=-returns, assert, in_bounds, ◌==◌, length, length-set, get_elem?,
}
use pwrapi_ref.Prelude.Int.{ℤ, pos, negsuc, ltb_ℤ}
use pwrapi_ref.Prelude.Doubles.{Doubles}
use pwrapi_ref.Types.{ObjType, AttrName, double_size}
use pwrapi_ref.Plugin.{Reading}
use pwrapi_ref.Tx2mon.Region.{Region, System, FdInfo, Monitor, State, read_node, quot_ℤ, rem_ℤ}
use pwrapi_ref.Tx2mon.Registry.{deref}
use pwrapi_ref.Tx2mon.Read.{
  read_dev, read_socket, read_core, read_object, core_value, socket_value, finish,
}
use pwrapi_ref.Tx2mon.Sockets.{AreSockets}
use pwrapi_ref.Tx2mon.Registered.{Registered}

-- A read may change the buffers only.
pub record Kept {D : Type 0} (m m' : Monitor D) : Type 0 where
  pub objs : m.energy_objs ≡ m'.energy_objs
  pub fds : m.fds ≡ m'.fds
  pub nodes : m.nodes ≡ m'.nodes
  pub size : length m.buf ≡ length m'.buf

Kept-self : {D : Type 0} (m : Monitor D) → Kept m m
Kept-self m = record { objs = refl; fds = refl; nodes = refl; size = refl }

pub Kept-Registered : {D : Type 0} (m m' : Monitor D) → Kept m m' → Registered m → Registered m'
Kept-Registered m m' k v = record {
  size = ap length (sym k.objs) ∙ v.size ∙ k.nodes;
  room = omega (arith, v.room, k.nodes, k.size);
  sockets =
      subst (AreSockets m'.energy_objs) k.fds (subst (λ o. AreSockets o m.fds) k.objs v.sockets);
}

module _ {D W : Type 0} (fl : Doubles D) (sys : System D W) where
  -- What a call that returned leaves.
  abbrev pub Leaves : {A : Type 0} → Monitor D → Outcome (A × State sys) → Type 0
  Leaves {A} m o = (x : A × State sys) → o ≡ returns x → Kept m x.1.0

  finish-Leaves :
      (timed : Bool) (v : D) (m : Monitor D) (w : W) → Leaves m (finish fl sys timed v (m, w))
  finish-Leaves false v m w x e = subst (λ t. Kept m t.1.0) (same e) (Kept-self m)
    where
      same : {y : Reading D × State sys} → returns y ≡ returns x → y ≡ x
      same q = cc
  finish-Leaves true v m w x e = subst (λ t. Kept m t.1.0) (same e) (Kept-self m)
    where
      same : {y : Reading D × State sys} → returns y ≡ returns x → y ≡ x
      same q = cc

  read_node-Leaves : (i : ℤ) (m : Monitor D) (w : W) → Leaves m (read_node sys i (m, w))
  unfolding read_node
  read_node-Leaves (negsuc n) m w x e = cc
  read_node-Leaves (pos i) m w x e =
      let (old, at_i, done) = >>=-returns (in_bounds (get_elem? m.buf i)) _ e in
      subst (λ t. Kept m t.1.0) (same done)
        (record { objs = refl; fds = refl; nodes = refl; size = sym (length-set m.buf i _) })
    where
      same : {y : Region × State sys} → returns y ≡ returns x → y ≡ x
      same q = cc

  after-Leaves :
      {A B : Type 0} (m : Monitor D) (o : Outcome (A × State sys))
      (f : A × State sys → Outcome (B × State sys))
      → Leaves m o
      → ((a : A) (m' : Monitor D) (w : W) → Kept m m' → Leaves m (f (a, (m', w))))
      → Leaves m (o >>= f)
  after-Leaves m o f first next y e =
      let (x, done, rest) = >>=-returns o f e in next x.0 x.1.0 x.1.1 (first x done) y rest

  Kept-trans : {a b c : Monitor D} → Kept a b → Kept b c → Kept a c
  Kept-trans p q = record {
    objs = p.objs ∙ q.objs;
    fds = p.fds ∙ q.fds;
    nodes = p.nodes ∙ q.nodes;
    size = p.size ∙ q.size;
  }

  -- The end of both reads: a region, a value, and the timestamp.
  node_value-Leaves :
      (i : ℤ) (value : Region → Outcome D) (timed : Bool) (m : Monitor D) (w : W)
      → Leaves m (read_node sys i (m, w) >>= λ x. (value x.0 >>= λ v. finish fl sys timed v x.1))
  node_value-Leaves i value timed m w =
      after-Leaves m (read_node sys i (m, w)) _ (read_node-Leaves i m w) (λ r m' v k x e.
        let (d, given, done) = >>=-returns (value r) _ e in
        Kept-trans k (finish-Leaves timed d m' v x done))

  pub read_socket-Leaves :
      (timed : Bool) (f : FdInfo D) (attr : AttrName) (old : D) (len : ℕ) (m : Monitor D) (w : W)
      → Leaves m (read_socket fl sys timed f attr old len (m, w))
  unfolding read_socket
  read_socket-Leaves timed f attr old len m w x e =
      let (u, long, more) = >>=-returns (assert (len == double_size)) _ e in
      let (v, there, rest) = >>=-returns (assert (ltb_ℤ f.id (pos m.nodes))) _ more in
      node_value-Leaves f.id (socket_value fl sys f attr old) timed m w x rest

  read_core-Leaves :
      (timed : Bool) (id : ℤ) (attr : AttrName) (len : ℕ) (m : Monitor D) (w : W)
      → Leaves m (read_core fl sys timed id attr len (m, w))
  unfolding read_core
  read_core-Leaves timed id attr len m w x e = elim (Bool-cases (m.cores == 0)) [
    | inl zero_cores ↦ absurd (never (rw zero_cores at e))
    | inr some_cores ↦
        let (u, long, more) = >>=-returns (assert (len == double_size)) _ (rw some_cores at e) in
        let (v, there, next) =
          >>=-returns (assert (ltb_ℤ (quot_ℤ id m.cores) (pos m.nodes))) _ more in
        let (t, inside, rest) =
          >>=-returns (assert (ltb_ℤ (rem_ℤ id m.cores) (pos m.cores))) _ next in
        node_value-Leaves (quot_ℤ id m.cores) (core_value fl sys attr (rem_ℤ id m.cores)) timed m w
          x rest
  ]
    where
      never : faults ≡ returns x → ⊥
      never q = cc

  read_object-Leaves :
      (type : ObjType) (timed : Bool) (f : FdInfo D) (attr : AttrName) (old : D) (len : ℕ)
      (m : Monitor D) (w : W)
      → Leaves m (read_object fl sys type timed f attr old len (m, w))
  read_object-Leaves ObjType.socket timed f attr old len m w =
      read_socket-Leaves timed f attr old len m w
  read_object-Leaves ObjType.tx2_core timed f attr old len m w =
      read_socket-Leaves timed f attr old len m w
  read_object-Leaves ObjType.tx2_sram timed f attr old len m w =
      read_socket-Leaves timed f attr old len m w
  read_object-Leaves ObjType.tx2_mem timed f attr old len m w =
      read_socket-Leaves timed f attr old len m w
  read_object-Leaves ObjType.tx2_soc timed f attr old len m w =
      read_socket-Leaves timed f attr old len m w
  read_object-Leaves ObjType.core timed f attr old len m w =
      read_core-Leaves timed f.id attr len m w
  read_object-Leaves type timed f attr old len m w = λ x e. cc

  pub read_dev-Leaves :
      (timed : Bool) (h : ℕ) (attr : AttrName) (old : D) (len : ℕ) (m : Monitor D) (w : W)
      → Leaves m (read_dev fl sys timed h attr old len (m, w))
  unfolding read_dev
  read_dev-Leaves timed h attr old len m w x e =
      let (f, found, rest) = >>=-returns (deref m h) _ e in
      read_object-Leaves f.obj_type timed f attr old len m w x rest
