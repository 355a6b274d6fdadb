-- ===== src/Prelude/Maps.antt =====
-- `std::map` as an association list: a key is looked up from the front, a write puts a new entry in
-- front of what is left of the others.
use mathlib.Core.Bool.{Bool, true}
use mathlib.Core.List.{List, [], ◌∷◌}
use mathlib.Core.Option.{Option, none, some}
use mathlib.Core.Path.{◌≡◌}
use pwrapi_ref.Prelude.Tests.{if◌then◌else◌}

module _ {K V : Type 0} (eqb : K → K → Bool) where
  abbrev pub find : List (K × V) → K → Option V
  find [] k = none
  find ((k', v) ∷ m) k = if eqb k' k then some v else find m k

  abbrev pub erase : List (K × V) → K → List (K × V)
  erase [] k = []
  erase ((k', v) ∷ m) k = let rest = erase m k in if eqb k' k then rest else (k', v) ∷ rest

  abbrev pub insert : List (K × V) → K → V → List (K × V)
  insert m k v = (k, v) ∷ erase m k

  pub find-insert :
      (m : List (K × V)) (k : K) (v : V) → eqb k k ≡ true → find (insert m k v) k ≡ some v
  find-insert m k v e = rw e
