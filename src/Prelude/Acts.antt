-- ===== src/Prelude/Acts.antt =====
-- Calls into the operating system that a process may not survive: each leaves another world, and returns,
-- aborts or faults in it.
use mathlib.Core.Path.{◌≡◌, ap}
use pwrapi_ref.Prelude.Outcomes.{Outcome, returns, aborts, faults}
use pwrapi_ref.Prelude.Io.{Io}

abbrev pub Act : Type 0 → Type 0 → Type 0
Act W A = W → Outcome A × W

abbrev pub proceed : {W A B : Type 0} → Outcome A × W → (A → Act W B) → Outcome B × W
proceed (returns a, w) f = f a w
proceed (aborts, w) f = (aborts, w)
proceed (faults, w) f = (faults, w)

infixl 5 ◌>>=◌ ◌>>◌
abbrev pub ◌>>=◌ : {W A B : Type 0} → Act W A → (A → Act W B) → Act W B
◌>>=◌ m f w = proceed (m w) f

abbrev pub ◌>>◌ : {W B : Type 0} → Act W (Unit {0}) → Act W B → Act W B
m >> k = m >>= λ _. k

abbrev pub give : {W A : Type 0} → A → Act W A
give a w = (returns a, w)

abbrev pub of : {W A : Type 0} → Outcome A → Act W A
of r w = (r, w)

abbrev pub call : {W A : Type 0} → Io W A → Act W A
call m w = let (a, w') = m w in (returns a, w')

-- A chain whose first step is known.
pub go_on :
    {W A B : Type 0} (m : Act W A) (f : A → Act W B) {w w' : W} {a : A}
    → m w ≡ (returns a, w')
    → (m >>= f) w ≡ f a w'
go_on m f h = ap (λ r. proceed r f) h
