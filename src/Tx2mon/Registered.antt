-- ===== src/Tx2mon/Registered.antt =====
-- Proofs about src/plugins/pwr_tx2mon.c: the array of the thread names no freed descriptor.
use mathlib.Core.Path.{subst}
use pwrapi_ref.Prelude.{
  ℕ, ◌≤◌, ◌<◌, ◌≡◌, sym, ap, ◌∙◌, inl, inr, true, false, Option, none, some, [], ◌∷◌, ◌++◌, returns,
  >>=-returns, length, length-set, get_elem?, get_elem?-set_self, set,
}
use pwrapi_ref.Prelude.Int.{ℤ, pos}
use pwrapi_ref.Prelude.Doubles.{Doubles}
use pwrapi_ref.Types.{ObjType}
use pwrapi_ref.Tx2mon.Region.{FdInfo, Monitor}
use pwrapi_ref.Tx2mon.Registry.{is_socket, register, alive, deref, open_device, close_device}
use pwrapi_ref.Tx2mon.Sockets.{
  AreSockets, register-cases, no_entry, append-AreSockets, open-AreSockets, free-AreSockets,
  clear-AreSockets,
}

pub record Registered {D : Type 0} (m : Monitor D) : Type 0 where
  pub size : length m.energy_objs ≡ m.nodes
  pub room : m.nodes ≤ length m.buf
  pub sockets : AreSockets m.energy_objs m.fds

module _ {D : Type 0} where
  pub deref-alive :
      (m : Monitor D) (h : ℕ) {f : FdInfo D}
      → deref m h ≡ returns f
      → get_elem? m.fds h ≡ some (some f)
  deref-alive m h {f} e = from (get_elem? m.fds h) e
    where
      from : (o : Option (Option (FdInfo D))) → alive o ≡ returns f → o ≡ some (some f)
      from none q = cc
      from (some none) q = cc
      from (some (some g)) q = cc

  pub open_device-Registered :
      (fl : Doubles D) (type : ObjType) (id : ℤ) (m : Monitor D) {r : ℕ × Monitor D}
      → open_device fl type id m ≡ returns r
      → Registered m
      → Registered r.1
  unfolding open_device
  open_device-Registered fl type id m {r} e v =
      let (objs, entered, done) =
        >>=-returns (register (is_socket type) m.energy_objs id (some (length m.fds))) _ e in
      let f : FdInfo D = record { obj_type = type; id = id; energy = fl.of_int (pos 0) } in
      let m' : Monitor D = record m { energy_objs = objs; fds = m.fds ++ some f ∷ [] } in
      subst (λ x. Registered x.1) (result (length m.fds, m') done)
        (elim (register-cases type m.energy_objs id (some (length m.fds)) entered) [
          | inl (other, same) ↦ record {
            size = ap length (sym same) ∙ v.size;
            room = v.room;
            sockets =
                subst (λ o. AreSockets o (m.fds ++ some f ∷ [])) same
                  (append-AreSockets m.energy_objs m.fds (some f) v.sockets);
          }
          | inr (k, is_sock, at_k, lt, same) ↦ record {
            size = ap length (sym same) ∙ length-set m.energy_objs k (some (length m.fds)) ∙ v.size;
            room = v.room;
            sockets =
                subst (λ o. AreSockets o (m.fds ++ some f ∷ [])) same
                  (open-AreSockets m.energy_objs m.fds k f v.sockets lt is_sock at_k);
          }
        ])
    where
      result : (x : ℕ × Monitor D) → returns x ≡ returns r → x ≡ r
      result x q = cc

  pub close_device-Registered :
      (h : ℕ) (m : Monitor D) {r : Monitor D}
      → close_device h m ≡ returns r
      → Registered m
      → Registered r
  unfolding close_device
  close_device-Registered h m {r} e v =
      let (f, found, more) = >>=-returns (deref m h) _ e in
      let at_h = deref-alive m h found in
      let (objs, entered, done) =
        >>=-returns (register (is_socket f.obj_type) m.energy_objs f.id none) _ more in
      let m' : Monitor D = record m { energy_objs = objs; fds = set m.fds h none } in
      subst Registered (result m' done)
        (elim (register-cases f.obj_type m.energy_objs f.id none entered) [
          | inl (other, same) ↦ record {
            size = ap length (sym same) ∙ v.size;
            room = v.room;
            sockets =
                subst (λ o. AreSockets o (set m.fds h none)) same
                  (free-AreSockets m.energy_objs m.fds h v.sockets (λ i e_i.
                    let (g, at_g, type, id) = v.sockets i h e_i in
                    not_socket g (ap (λ x. is_socket x.obj_type) (both (sym at_g ∙ at_h)) ∙ other)
                      type));
          }
          | inr (k, is_sock, at_k, lt, same) ↦ record {
            size = ap length (sym same) ∙ length-set m.energy_objs k none ∙ v.size;
            room = v.room;
            sockets =
                subst (λ o. AreSockets o (set m.fds h none)) same
                  (free-AreSockets (set m.energy_objs k none) m.fds h
                    (clear-AreSockets m.energy_objs m.fds k lt v.sockets)
                    (λ i e_i.
                      let (g, at_g, type, id) =
                        clear-AreSockets m.energy_objs m.fds k lt v.sockets i h e_i in
                      taken k i lt e_i
                        (number (sym at_k ∙ ap (λ x. x.id) (both (sym at_h ∙ at_g)) ∙ id))));
          }
        ])
    where
      result : (x : Monitor D) → returns x ≡ returns r → x ≡ r
      result x q = cc

      both : {x y : FdInfo D} → some (some x) ≡ some (some y) → x ≡ y
      both q = cc

      not_socket : (g : FdInfo D) → is_socket g.obj_type ≡ false → g.obj_type ≡ ObjType.socket → ⊥
      not_socket g q t = clash (sym (ap is_socket t) ∙ q)
        where
          clash : true ≡ false → ⊥
          clash c = cc

      number : {a b : ℕ} → pos a ≡ pos b → a ≡ b
      number q = cc

      taken :
          (k i : ℕ)
          → k < length m.energy_objs
          → get_elem? (set m.energy_objs k none) i ≡ some (some h)
          → k ≡ i
          → ⊥
      taken k i lt e_i q =
          no_entry (get_elem?-set_self m.energy_objs k none lt)
            (ap (get_elem? (set m.energy_objs k none)) q ∙ e_i)
