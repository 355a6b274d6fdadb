-- ===== src/Prelude/Io.antt =====
-- Calls into the operating system as state passing: a call answers, and leaves another world.
-- `Try` is the C idiom of a chain of calls that returns an error code (or a null pointer) as soon as
-- one of them fails; `none` is that error.
use mathlib.Core.Option.{Option, none, some}

abbrev pub Io : Type 0 → Type 0 → Type 0
Io W A = W → A × W

abbrev pub Try : Type 0 → Type 0 → Type 0
Try W A = W → Option A × W

-- What a call that answered `r` goes on with.
abbrev pub after : {W A B : Type 0} → Option A → (A → Try W B) → Try W B
after none f w = (none, w)
after (some a) f w = f a w

infixl 5 ◌>>=◌
abbrev pub ◌>>=◌ : {W A B : Type 0} → Try W A → (A → Try W B) → Try W B
◌>>=◌ m f w = let (r, w') = m w in after r f w'

abbrev pub give : {W A : Type 0} → A → Try W A
give a w = (some a, w)

abbrev pub fail : {W A : Type 0} → Try W A
fail w = (none, w)
