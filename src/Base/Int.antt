-- ===== src/Base/Int.antt =====
-- Go's `int`, `strconv.Atoi`, and how `%d` prints an `int`.
pub mod Decimal
use Prim.Native.Nat.{ℕ, zero, suc, ◌+◌, ◌-◌, ◌*◌, ◌^◌}
use Prim.Native.Char.{code}
use Prim.Native.String.{String}
use mathlib.Core.Bool.{◌&&◌}
use mathlib.Core.Option.{Option, none, some}
use go_service_bao_fight.Base.Tests.{◌==◌, leb, ltb, if◌then◌else◌}

pub data ℤ : Type 0 where
  pos : ℕ → ℤ
  negsuc : ℕ → ℤ

-- The digits of a text: a character that is none, a number past 64 bits, or the number.
pub data Scan : Type 0 where
  bad : Scan
  over : Scan
  number : ℕ → Scan

-- `strconv.ParseUint`, base 10: the characters are read one by one, and the first that is no digit or
-- passes 64 bits decides.
unfoldable pub digits : ℕ → String → Scan
digits acc String.[] = number acc
digits acc (String.◌∷◌ c s) =
    let rest = digits (acc * 10 + (code c - b'0')) s in
    if leb b'0' (code c) && leb (code c) b'9'
    then if leb (2 ^ 64) (acc * 10 + (code c - b'0')) then over else rest
    else bad

-- No digits at all are an error.
unfoldable pub unsigned : String → Scan
unfolding digits
unsigned String.[] = bad
unsigned (String.◌∷◌ c s) = digits 0 (String.◌∷◌ c s)

-- What `strconv.Atoi` returns: a number without an error, the nearest bound with `ErrRange`, or 0
-- with `ErrSyntax`.
pub data Parsed : Type 0 where
  exact : ℤ → Parsed
  out_of_range : ℤ → Parsed
  syntax : Parsed

abbrev pub positive : Scan → Parsed
positive bad = syntax
positive over = out_of_range (pos (2 ^ 63 - 1))
positive (number n) = if ltb n (2 ^ 63) then exact (pos n) else out_of_range (pos (2 ^ 63 - 1))

abbrev pub negative : Scan → Parsed
negative bad = syntax
negative over = out_of_range (negsuc (2 ^ 63 - 1))
negative (number zero) = exact (pos 0)
negative (number (suc n)) =
    if ltb n (2 ^ 63) then exact (negsuc n) else out_of_range (negsuc (2 ^ 63 - 1))

unfoldable pub parse_int : String → Parsed
unfolding unsigned
parse_int String.[] = syntax
parse_int (String.◌∷◌ c s) =
    if code c == b'+'
    then positive (unsigned s)
    else if code c == b'-'
    then negative (unsigned s)
    else positive (unsigned (String.◌∷◌ c s))

-- `n, _ := strconv.Atoi(s)`
abbrev pub value_of : Parsed → ℤ
value_of (exact z) = z
value_of (out_of_range z) = z
value_of syntax = pos 0

unfoldable pub atoi : String → ℤ
unfolding parse_int
atoi s = value_of (parse_int s)

-- `n, err := strconv.Atoi(s)`, where only a nil error counts.
abbrev pub if_exact : Parsed → Option ℤ
if_exact (exact z) = some z
if_exact _ = none
