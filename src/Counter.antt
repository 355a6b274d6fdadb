-- ===== src/Counter.antt =====
-- src/plugins/pwr_xtpmdev.c and src/plugins/pwr_cpudev.c: how both read a number from a small file,
-- byte by byte up to a blank, into an array of 20 bytes. Writes past the array, and reads past the end
-- of the file, are part of the model: `read` gives 0 at the end, which is not EOF.
pub mod Blanks
use pwrapi_ref.Prelude.{
  ℕ, zero, suc, ◌+◌, Bool, Option, none, some, List, [], ◌∷◌, ◌++◌, Outcome, returns, aborts,
  faults, ◌==◌, if◌then◌else◌, ltb, length, set, get_or, take, replicate,
}

abbrev pub Text : Type 0
Text = List ℕ

abbrev pub blank : ℕ
blank = 32

abbrev pub capacity : ℕ
capacity = 20

-- The bytes before the terminating zero.
abbrev pub c_string : Text → Text
c_string [] = []
c_string (c ∷ cs) = if c == 0 then [] else c ∷ c_string cs

-- A file that has been opened: its bytes, and whether the read after them fails. A read answers 0 at
-- the end of a file and -1, which is EOF, when it fails.
pub record File : Type 0 where
  pub bytes : Text
  pub fails : Bool

-- while( read( fd, strval+offset, 1 ) != EOF ): `rest` is what is left of the bytes, and `left` the room
-- that is left in the array. A blank and a read that fails (`none`, for a return of -1) end the loop. At
-- the end of the file `read` stores nothing, but the byte at the offset is looked at all the same, and
-- the offset grows until it leaves the array.
unfoldable pub scan_text : Bool → ℕ → Text → ℕ → Text → Outcome (Option Text)
scan_text fails zero strval offset [] = if fails then returns none else faults
scan_text fails zero strval offset (c ∷ rest) = faults
scan_text fails (suc left) strval offset [] =
    let more = scan_text fails left strval (offset + 1) [] in
    if fails
    then returns none
    else if get_or strval offset 0 == blank
    then returns (some (c_string strval))
    else more
scan_text fails (suc left) strval offset (c ∷ rest) =
    let strval' = set strval offset c in
    let more = scan_text fails left strval' (offset + 1) rest in
    if c == blank then returns (some (c_string strval')) else more

-- The text that `atof` is given. After 20 bytes with no blank the next is written past the array.
unfoldable pub read_text : File → Outcome (Option Text)
unfolding scan_text
read_text file = scan_text file.fails capacity (replicate capacity 0) 0 file.bytes
