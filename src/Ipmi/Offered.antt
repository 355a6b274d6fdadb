-- ===== src/Ipmi/Offered.antt =====
-- Proofs about src/plugins/pwr_ipmi.c: the reads that succeed are those of the attributes that the table
-- offers.
use pwrapi_ref.Prelude.{
  ℕ, ◌≡◌, Bool, false, ◌||◌, Option, none, some, List, [], ◌∷◌, ◌==◌, if◌then◌else◌,
}
use pwrapi_ref.Prelude.Int.{eqb_ℤ}
use pwrapi_ref.Prelude.Doubles.{Doubles}
use pwrapi_ref.Types.{AttrName, attr_code, ret_success}
use pwrapi_ref.Meta.{ipmi_plan}
use pwrapi_ref.Ipmi.{System, has_node_power, read}

abbrev pub lists : List AttrName → AttrName → Bool
lists [] a = false
lists (b ∷ attrs) a = eqb_ℤ (attr_code b) (attr_code a) || lists attrs a

-- Whether the calls of a table enter an attribute for the object type with a number.
abbrev pub offers : List (ℕ × List AttrName) → ℕ → AttrName → Bool
offers [] t a = false
offers ((u, attrs) ∷ plan) t a = (if u == t then lists attrs a else false) || offers plan t a

module _ {D W : Type 0} (fl : Doubles D) (sys : System D W) where
  -- If the file holds the same when the table is made and when it is read, a read of an attribute
  -- succeeds exactly if the table offers that attribute for a node.
  pub read-offers :
      (p : Option D)
      → ((w : W) → (sys.power w).0 ≡ p)
      → (timed : Bool) (attr : AttrName) (v w : W)
      → eqb_ℤ (read fl sys timed attr w).0.status ret_success
        ≡ offers (ipmi_plan (has_node_power fl sys v).0) 4 attr
  unfolding read has_node_power
  read-offers none same timed AttrName.power v w = rw (same v, same w)
  read-offers (some p) same timed AttrName.power v w = rw (same v, same w)
  read-offers none same timed attr v w = rw (same v)
  read-offers (some p) same timed attr v w = rw (same v)
