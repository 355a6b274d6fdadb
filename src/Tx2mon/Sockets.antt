-- ===== src/Tx2mon/Sockets.antt =====
-- Proofs about src/plugins/pwr_tx2mon.c: the array of sampled descriptors, entry by entry.
use mathlib.Core.Path.{subst}
use native.Mathlib.Decide.{ℕ_discrete}
use pwrapi_ref.Prelude.{
  ℕ, ◌<◌, ◌≡◌, ◌≢◌, refl, sym, ap, ◌∙◌, ◌⊎◌, inl, inr, true, false, Bool-cases, Option, none, some,
  List, [], ◌∷◌, ◌++◌, returns, faults, ltb, ltb→lt, length, get_elem?, get_elem?-lt,
  get_elem?-append_lt, get_elem?-append_end, get_elem?-set_self, get_elem?-set_ne, set,
}
use pwrapi_ref.Prelude.Int.{ℤ, pos, negsuc}
use pwrapi_ref.Types.{ObjType}
use pwrapi_ref.Tx2mon.Region.{FdInfo}
use pwrapi_ref.Tx2mon.Registry.{set_at, is_socket, register}

-- Each entry is a descriptor that is not freed, of the socket with the number of the entry.
abbrev pub AreSockets : {D : Type 0} → List (Option ℕ) → List (Option (FdInfo D)) → Type 0
AreSockets {D} objs fds =
    (i h : ℕ)
    → get_elem? objs i ≡ some (some h)
    → (f : FdInfo D) × (get_elem? fds h ≡ some (some f))
      × (f.obj_type ≡ ObjType.socket)
      × (f.id ≡ pos i)

set_at-returns :
    {A : Type 0} (xs : List A) (id : ℤ) (v : A) {ys : List A}
    → set_at xs id v ≡ returns ys
    → (i : ℕ) × (id ≡ pos i) × (i < length xs) × (set xs i v ≡ ys)
set_at-returns xs (negsuc n) v e = cc
set_at-returns xs (pos i) v {ys} e = elim (Bool-cases (ltb i (length xs))) [
  | inl fits ↦ (i, refl, ltb→lt i (length xs) fits, inside (rw fits at e))
  | inr past ↦ absurd (outside (rw past at e))
]
  where
    inside : returns (set xs i v) ≡ returns ys → set xs i v ≡ ys
    inside h = cc

    outside : faults ≡ returns ys → ⊥
    outside h = cc

is_socket-socket : (type : ObjType) → is_socket type ≡ true → type ≡ ObjType.socket
is_socket-socket ObjType.socket e = refl
is_socket-socket type e = cc

-- The entries after a registration of `h`, or after one is taken out.
pub register-cases :
    (type : ObjType) (objs : List (Option ℕ)) (id : ℤ) (h : Option ℕ) {objs' : List (Option ℕ)}
    → register (is_socket type) objs id h ≡ returns objs'
    → ((is_socket type ≡ false) × (objs ≡ objs'))
      ⊎ ((i : ℕ) × (type ≡ ObjType.socket)
          × (id ≡ pos i)
          × (i < length objs)
          × (set objs i h ≡ objs'))
register-cases type objs id h {objs'} e = elim (Bool-cases (is_socket type)) [
  | inl yes_socket ↦
      let (i, at_i, fits, done) = set_at-returns objs id h (rw yes_socket at e) in
      inr (i, is_socket-socket type yes_socket, at_i, fits, done)
  | inr other ↦ inl (other, same (rw other at e))
]
  where
    same : returns objs ≡ returns objs' → objs ≡ objs'
    same q = cc

pub no_entry : {o : Option (Option ℕ)} {x : ℕ} → o ≡ some none → o ≡ some (some x) → ⊥
no_entry p q = cc

module _ {D : Type 0} where
  pub append-AreSockets :
      (objs : List (Option ℕ)) (fds : List (Option (FdInfo D))) (f : Option (FdInfo D))
      → AreSockets objs fds
      → AreSockets objs (fds ++ f ∷ [])
  append-AreSockets objs fds f all i h e =
      let (g, at_h, type, id) = all i h e in
      (g, get_elem?-append_lt fds f h (get_elem?-lt fds h (some g) at_h) ∙ at_h, type, id)

  pub open-AreSockets :
      (objs : List (Option ℕ)) (fds : List (Option (FdInfo D))) (k : ℕ) (f : FdInfo D)
      → AreSockets objs fds
      → k < length objs
      → f.obj_type ≡ ObjType.socket
      → f.id ≡ pos k
      → AreSockets (set objs k (some (length fds))) (fds ++ some f ∷ [])
  open-AreSockets objs fds k f all lt type id i h e = elim (ℕ_discrete k i) [
    | yes same ↦
        let here : some (some (length fds)) ≡ some (some h) =
          sym (get_elem?-set_self objs k (some (length fds)) lt)
          ∙ ap (get_elem? (set objs k (some (length fds)))) same
          ∙ e in
        let at_end : length fds ≡ h = cc in
        (
          f,
          subst (λ p. get_elem? (fds ++ some f ∷ []) p ≡ some (some f)) at_end
              (get_elem?-append_end fds (some f)),
          type,
          id ∙ ap pos same,
        )
    | no apart ↦
        append-AreSockets objs fds (some f) all i h
          (sym (get_elem?-set_ne objs k i (some (length fds)) apart) ∙ e)
  ]

  -- A descriptor that no entry names can be freed.
  pub free-AreSockets :
      (objs : List (Option ℕ)) (fds : List (Option (FdInfo D))) (h : ℕ)
      → AreSockets objs fds
      → ((i : ℕ) → get_elem? objs i ≢ some (some h))
      → AreSockets objs (set fds h none)
  free-AreSockets objs fds h all unnamed i k e =
      let (g, at_k, type, id) = all i k e in
      let apart : h ≢ k = λ q. unnamed i (e ∙ ap (λ (p : ℕ). some (some p)) (sym q)) in
      (g, get_elem?-set_ne fds h k none apart ∙ at_k, type, id)

  -- A sampled descriptor stays the same but for its energy.
  pub update-AreSockets :
      (objs : List (Option ℕ)) (fds : List (Option (FdInfo D))) (h : ℕ) (f g : FdInfo D)
      → AreSockets objs fds
      → get_elem? fds h ≡ some (some f)
      → g.obj_type ≡ f.obj_type
      → g.id ≡ f.id
      → AreSockets objs (set fds h (some g))
  update-AreSockets objs fds h f g all at_h type id i k e = elim (ℕ_discrete h k) [
    | yes same ↦
        let (f', at_k, type', id') = all i k e in
        let equal : f ≡ f' = both (sym at_h ∙ ap (get_elem? fds) same ∙ at_k) in
        (
          g,
          subst (λ p. get_elem? (set fds h (some g)) p ≡ some (some g)) same
              (get_elem?-set_self fds h (some g) (get_elem?-lt fds h (some f) at_h)),
          type ∙ ap (λ x. x.obj_type) equal ∙ type',
          id ∙ ap (λ x. x.id) equal ∙ id',
        )
    | no apart ↦
        let (f', at_k, type', id') = all i k e in
        (f', get_elem?-set_ne fds h k (some g) apart ∙ at_k, type', id')
  ]
    where
      both : {x y : FdInfo D} → some (some x) ≡ some (some y) → x ≡ y
      both q = cc

  pub clear-AreSockets :
      (objs : List (Option ℕ)) (fds : List (Option (FdInfo D))) (k : ℕ)
      → k < length objs
      → AreSockets objs fds
      → AreSockets (set objs k none) fds
  clear-AreSockets objs fds k lt all i h e = elim (ℕ_discrete k i) [
    | yes same ↦
        absurd
          (no_entry (get_elem?-set_self objs k none lt) (ap (get_elem? (set objs k none)) same ∙ e))
    | no apart ↦ all i h (sym (get_elem?-set_ne objs k i none apart) ∙ e)
  ]
