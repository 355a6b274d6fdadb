-- ===== src/Objects/Members.antt =====
-- Proofs about src/pwr/group.h: a group holds each of its objects once.
use pwrapi_ref.Prelude.{
  ℕ, ◌≡◌, refl, Bool, true, false, List, [], ◌∷◌, ◌++◌, arith, ◌==◌, if◌then◌else◌, sym, ap, ◌∙◌,
  ==_iff, Bool-cases, inl, inr,
}
use pwrapi_ref.Prelude.Int.{ℤ}
use pwrapi_ref.Objects.Groups.{Grp, holds, add, remove, erase_first}

-- What a client does with the members of a group.
pub data Change : Type 0 where
  adds : ℕ → Change
  removes : ℕ → Change

abbrev pub change : Change → Grp → ℤ × Grp
change (adds obj) g = add obj g
change (removes obj) g = remove obj g

-- The changes one after the other, with the codes they return.
abbrev pub change_all : List Change → Grp → List ℤ × Grp
change_all [] g = ([], g)
change_all (c ∷ cs) g =
    let (r, g') = change c g in let (rs, g'') = change_all cs g' in (r ∷ rs, g'')

-- The group as the set of its addresses: what the same changes come to.
abbrev pub member_after : List Change → ℕ → Bool → Bool
member_after [] obj m = m
member_after (adds o ∷ cs) obj m =
    let rest = member_after cs obj in rest (if o == obj then true else m)
member_after (removes o ∷ cs) obj m =
    let rest = member_after cs obj in rest (if o == obj then false else m)

abbrev pub Distinct : Grp → Type 0
Distinct [] = Unit
Distinct (o ∷ g) = (holds g o ≡ false) × Distinct g

holds-end :
    (g : Grp) (o obj : ℕ) → holds (g ++ o ∷ []) obj ≡ (if o == obj then true else holds g obj)
holds-end [] o obj = refl
holds-end (x ∷ g) o obj = rw (holds-end g o obj) (ground arith)

holds-erase_first :
    (g : Grp) (o obj : ℕ)
    → Distinct g
    → holds (erase_first g o) obj ≡ (if o == obj then false else holds g obj)
holds-erase_first [] o obj d = ground arith
holds-erase_first (x ∷ g) o obj (n, d) = elim (Bool-cases (x == o)) [
  | inl e ↦ ground arith
  | inr e ↦ rw (e, holds-erase_first g o obj d) (ground arith)
]

Distinct-end : (g : Grp) (o : ℕ) → holds g o ≡ false → Distinct g → Distinct (g ++ o ∷ [])
Distinct-end [] o h d = (refl, tt)
Distinct-end (x ∷ g) o h (n, d) =
    (rw (holds-end g o x) (ground arith), Distinct-end g o (ground arith) d)

Distinct-erase_first : (g : Grp) (o : ℕ) → Distinct g → Distinct (erase_first g o)
Distinct-erase_first [] o d = tt
Distinct-erase_first (x ∷ g) o (n, d) = elim (Bool-cases (x == o)) [
  | inl e ↦ rw e d
  | inr e ↦ rw e (rw (holds-erase_first g o x d) (ground arith), Distinct-erase_first g o d)
]

change-Distinct : (c : Change) (g : Grp) → Distinct g → Distinct (change c g).1
unfolding add remove
change-Distinct (adds o) g d = elim (Bool-cases (holds g o)) [
  | inl e ↦ rw e d
  | inr e ↦ rw e (Distinct-end g o e d)
]
change-Distinct (removes o) g d = Distinct-erase_first g o d

-- What one change makes of the membership of an object.
change-holds :
    (c : Change) (g : Grp) (obj : ℕ)
    → Distinct g
    → holds (change c g).1 obj ≡ member_after (c ∷ []) obj (holds g obj)
unfolding add remove
change-holds (adds o) g obj d = elim (Bool-cases (holds g o)) [
  | inl e ↦ rw e (ground (arith, ==_iff o obj))
  | inr e ↦ rw (e, holds-end g o obj) refl
]
change-holds (removes o) g obj d = holds-erase_first g o obj d

member_after-cons :
    (c : Change) (cs : List Change) (obj : ℕ) (m : Bool)
    → member_after (c ∷ cs) obj m ≡ member_after cs obj (member_after (c ∷ []) obj m)
member_after-cons (adds o) cs obj m = refl
member_after-cons (removes o) cs obj m = refl

change_all-members :
    (cs : List Change) (g : Grp)
    → Distinct g
    → Distinct (change_all cs g).1
      × ((obj : ℕ) → holds (change_all cs g).1 obj ≡ member_after cs obj (holds g obj))
change_all-members [] g d = (d, λ obj. refl)
change_all-members (c ∷ cs) g d =
    let (d', h) = change_all-members cs (change c g).1 (change-Distinct c g d) in
    (
      d',
      λ obj.
          h obj
          ∙ ap (member_after cs obj) (change-holds c g obj d)
          ∙ sym (member_after-cons c cs obj (holds g obj)),
    )

-- A group that is made by adding and removing objects, in any order, holds each of them once, and
-- holds exactly those whose last change was to be added.
pub change_all-holds_once :
    (cs : List Change)
    → Distinct (change_all cs []).1
      × ((obj : ℕ) → holds (change_all cs []).1 obj ≡ member_after cs obj false)
change_all-holds_once cs = change_all-members cs [] tt
