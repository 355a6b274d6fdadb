-- ===== src/Objects/Groups.antt =====
-- src/pwr/group.h: a group of objects and the accesses to the attributes of all of them. An object is its
-- address, and `obj_at` what stands there.
use pwrapi_ref.Prelude.{
  ℕ, suc, ◌+◌, ◌-◌, ◌*◌, Bool, true, false, Option, none, some, List, [], ◌∷◌, ◌++◌, ◌==◌, ltb,
  if◌then◌else◌, length,
}
use pwrapi_ref.Prelude.Int.{ℤ}
use pwrapi_ref.Prelude.Acts.{Act, give, ◌>>=◌}
use pwrapi_ref.Types.{AttrName, attr_code, ret_success, ret_failure}
use pwrapi_ref.Wire.{Text}
use pwrapi_ref.Client.{Status, status_add}
use pwrapi_ref.Objects.{
  Object, Buffers, is_success, is_empty, attr_get_values, attr_set_values, attr_set_value,
}

abbrev pub Grp : Type 0
Grp = List ℕ

abbrev pub holds : Grp → ℕ → Bool
holds [] obj = false
holds (o ∷ g) obj = let rest = holds g obj in if o == obj then true else rest

unfoldable pub add : ℕ → Grp → ℤ × Grp
add obj g = if holds g obj then (ret_failure, g) else (ret_success, g ++ obj ∷ [])

-- What is left after the first object at the address is taken out.
abbrev pub erase_first : Grp → ℕ → Grp
erase_first [] obj = []
erase_first (o ∷ g) obj = let rest = erase_first g obj in if o == obj then g else o ∷ rest

unfoldable pub remove : ℕ → Grp → ℤ × Grp
remove obj g = (ret_success, erase_first g obj)

abbrev pub group_code : Status → ℤ
group_code s = if is_empty s then ret_success else ret_failure

-- The arrays from an index on, and what is in them after a call that was given this part.
abbrev pub from : ℕ → Buffers → Buffers
from k b = record { buf = λ j. b.buf (k + j); ts = λ j. b.ts (k + j) }

abbrev pub patched : {A : Type 0} → ℕ → (ℕ → A) → (ℕ → A) → ℕ → A
patched k old new j = if ltb j k then old j else new (j - k)

abbrev pub put_back : ℕ → Buffers → Buffers → Buffers
put_back k old new = record { buf = patched k old.buf new.buf; ts = patched k old.ts new.ts }

module _ {W : Type 0} (obj_at : ℕ → Object W) where
  unfoldable pub get_members : ℕ → List AttrName → Grp → Buffers → Status → Act W (Buffers × Status)
  get_members i attrs [] b s = give (b, s)
  get_members i attrs (obj ∷ g) b s =
      let k = i * length attrs in
      attr_get_values (obj_at obj) attrs (from k b) s >>= λ r.
      get_members (suc i) attrs g (put_back k b r.1) r.2

  unfoldable pub group_get_values :
      List AttrName → Grp → Buffers → Status → Act W (ℤ × Buffers × Status)
  group_get_values attrs g b s = get_members 0 attrs g b s >>= λ r. give (group_code r.1, r.0, r.1)

  abbrev pub group_get_value : AttrName → Grp → Buffers → Status → Act W (ℤ × Buffers × Status)
  group_get_value attr = group_get_values (attr ∷ [])

  unfoldable pub set_members : List AttrName → (ℕ → ℕ) → Grp → Status → Act W Status
  set_members attrs buf [] s = give s
  set_members attrs buf (obj ∷ g) s =
      attr_set_values (obj_at obj) attrs buf s >>= λ r. set_members attrs buf g r.1

  unfoldable pub group_set_values : List AttrName → (ℕ → ℕ) → Grp → Status → Act W (ℤ × Status)
  group_set_values attrs buf g s = set_members attrs buf g s >>= λ s. give (group_code s, s)

  -- `attrSetValue` notes a refusal with the code that the object reports, and goes on.
  unfoldable pub set_each : AttrName → (ℕ → ℕ) → Grp → Status → Act W Status
  set_each attr buf [] s = give s
  set_each attr buf (obj ∷ g) s = attr_set_value (obj_at obj) attr buf >>= λ r.
      set_each attr buf g (if is_success r then s else status_add s (some obj) (attr_code attr) r)

  unfoldable pub group_set_value : AttrName → (ℕ → ℕ) → Grp → Status → Act W (ℤ × Status)
  group_set_value attr buf g s = set_each attr buf g s >>= λ s. give (group_code s, s)

-- `find`: an object whose name is the name of its parent, a dot and the name that is looked for.
abbrev pub dot : ℕ
dot = 46

unfoldable pub find_named :
    (Text → Text → Bool) → (ℕ → Text) → (ℕ → Option ℕ) → Text → Grp → Option ℕ
find_named same name_of parent_of name [] = none
find_named same name_of parent_of name (obj ∷ g) =
    let rest = find_named same name_of parent_of name g in
    elim (parent_of obj) [
      | none ↦ rest
      | some p ↦ if same (name_of p ++ dot ∷ name) (name_of obj) then some obj else rest
    ]
