-- ===== src/Plugin.antt =====
-- src/pwr/pwrdev.h: the calls that a plugin offers. A read writes through two pointers of its caller,
-- and `none` in a `Reading` says that it left what one of them points to alone. The vector reads of
-- the plugins for RAPL, APM, XTPM and the processor are one loop over the caller's parallel arrays.
pub mod Vector
use pwrapi_ref.Prelude.{
  ℕ, zero, suc, ◌>>=◌, get_elem?, Option, none, some, List, [], ◌∷◌, Outcome, returns, aborts,
  faults,
}
use pwrapi_ref.Prelude.Int.{ℤ}
use pwrapi_ref.Prelude.Io.{Io}
use pwrapi_ref.Types.{AttrName}

pub record Reading (D : Type 0) : Type 0 where
  pub status : ℤ
  pub value : Option D
  pub stamp : Option ℤ

-- The caller's parallel arrays.
pub record Arrays (D : Type 0) : Type 0 where
  pub values : List D
  pub stamps : List ℤ
  pub statuses : List ℤ

abbrev pub written {ℓ} : {A : Type ℓ} → Option A → A → A
written none old = old
written (some new) old = new

-- A store at an index, and one that a call makes or leaves out.
abbrev pub put_at : {A : Type 0} → List A → ℕ → A → Outcome (List A)
put_at [] i v = faults
put_at (x ∷ xs) zero v = returns (v ∷ xs)
put_at (x ∷ xs) (suc i) v = put_at xs i v >>= λ ys. returns (x ∷ ys)

abbrev pub put_written : {A : Type 0} → List A → ℕ → Option A → Outcome (List A)
put_written xs i none = returns xs
put_written xs i (some v) = put_at xs i v

module _ {D : Type 0} where
  abbrev pub store : ℕ → Reading D → Arrays D → Outcome (Arrays D)
  store i r a = do
    values ← put_written a.values i r.value
    stamps ← put_written a.stamps i r.stamp
    statuses ← put_at a.statuses i r.status
    returns (record { values = values; stamps = stamps; statuses = statuses })

  module _ {W : Type 0} where
    abbrev pub resume :
        Outcome (Arrays D) → (Arrays D → Io W (Outcome (Arrays D))) → Io W (Outcome (Arrays D))
    resume (returns a) rest w = rest a w
    resume aborts rest w = (aborts, w)
    resume faults rest w = (faults, w)

    module _ (read : AttrName → Io W (Outcome (Reading D))) where
      -- What the read of one attribute gives, `none` for an index past the end of the attributes.
      abbrev pub read_at : Option AttrName → Io W (Outcome (Reading D))
      read_at none w = (faults, w)
      read_at (some attr) w = read attr w

      -- The loop from index `i` on, with `left` rounds to go.
      unfoldable pub readv_from : ℕ → ℕ → List AttrName → Arrays D → Io W (Outcome (Arrays D))
      readv_from zero i attrs a w = (returns a, w)
      readv_from (suc left) i attrs a w =
          let (r, w') = read_at (get_elem? attrs i) w in
          resume (r >>= λ r. store i r a) (readv_from left (suc i) attrs) w'

      unfoldable pub readv : ℕ → List AttrName → Arrays D → Io W (Outcome (Arrays D))
      unfolding readv_from
      readv arraysize = readv_from arraysize 0
