-- ===== src/Base/Int/Decimal.antt =====
-- `%d` of an `int`, and that `strconv.Atoi` reads it back.
use Prim.Native.Nat.{ℕ, zero, suc, ◌+◌, ◌-◌, ◌*◌, ◌/◌, ◌%◌, ◌^◌, ◌<◌}
use Prim.Native.Char.{Char, code}
use Prim.Native.String.{String}
use mathlib.Core.Path.{◌≡◌, refl, ◌∙◌, sym, ap}
use mathlib.Core.Logic.{inl, inr}
use mathlib.Core.Bool.{Bool, true, false}
use native.Mathlib.Omega.{arith}
use go_service_bao_fight.Base.Tests.{◌==◌, leb, ltb, if◌then◌else◌, Bool-cases}
use go_service_bao_fight.Base.Int.{
  ℤ, pos, negsuc, number, digits, unsigned, positive, negative, exact, parse_int,
}

-- The character of a digit.
digit : ℕ → Char
digit d =
    if d == 0
    then "0"
    else if d == 1
    then "1"
    else if d == 2
    then "2"
    else if d == 3
    then "3"
    else if d == 4
    then "4"
    else if d == 5
    then "5"
    else if d == 6
    then "6"
    else if d == 7
    then "7"
    else if d == 8
    then "8"
    else "9"

-- The digits of a number in front of a text. The fuel counts the digits that may come.
unfoldable emit : ℕ → ℕ → String → String
emit zero n out = out
emit (suc fuel) n out =
    let longer = emit fuel (n / 10) (String.◌∷◌ (digit (n % 10)) out) in
    if n == 0 then out else longer

unfoldable pub print_nat : ℕ → String
unfolding emit digit
print_nat n = if n == 0 then "0" else emit (suc n) n ""

unfoldable pub print_int : ℤ → String
unfolding print_nat
print_int (pos n) = print_nat n
print_int (negsuc n) = String.◌∷◌ "-" (print_nat (suc n))

code_if : (b : Bool) (x y : Char) → code (if b then x else y) ≡ (if b then code x else code y)
code_if true x y = refl
code_if false x y = refl

code-digit : (d : ℕ) → d < 10 → code (digit d) ≡ b'0' + d
unfolding digit
code-digit d h = rw (code_if (d == 0) "0" _) (
    rw (code_if (d == 1) "1" _) (
      rw (code_if (d == 2) "2" _) (
        rw (code_if (d == 3) "3" _) (
          rw (code_if (d == 4) "4" _) (
            rw (code_if (d == 5) "5" _) (
              rw (code_if (d == 6) "6" _)
                (rw (code_if (d == 7) "7" _) (rw (code_if (d == 8) "8" _) (ground arith)))))))))

-- The last digit, read after those before it.
digits_last :
    (n : ℕ) (out : String)
    → n < 2 ^ 64
    → digits (n / 10) (String.◌∷◌ (digit (n % 10)) out) ≡ digits n out
unfolding digits
digits_last n out h =
    let low : leb b'0' (b'0' + n % 10) ≡ true = ground arith in
    let high : leb (b'0' + n % 10) b'9' ≡ true = ground arith in
    let whole : n / 10 * 10 + (b'0' + n % 10 - b'0') ≡ n = omega arith in
    let small : leb (2 ^ 64) n ≡ false = ground arith in
    rw (code-digit (n % 10) (omega arith)) (rw low (rw high (rw whole (rw small refl))))

digits-emit :
    (fuel n : ℕ) (out : String) → n < fuel → n < 2 ^ 64 → digits 0 (emit fuel n out) ≡ digits n out
unfolding emit
digits-emit zero n out f h = absurd (omega arith)
digits-emit (suc fuel) n out f h = elim (Bool-cases (n == 0)) [
  | inl e ↦ let z : n ≡ 0 = ground arith in rw z refl
  | inr e ↦
      let p : 0 < n = ground arith in
      rw e (
        digits-emit fuel (n / 10) (String.◌∷◌ (digit (n % 10)) out) (omega arith) (omega arith)
        ∙ digits_last n out h)
]

emit-zero : (fuel : ℕ) (out : String) → emit fuel 0 out ≡ out
unfolding emit
emit-zero zero out = refl
emit-zero (suc fuel) out = refl

-- What is emitted of a number begins with a digit.
begins :
    (fuel n : ℕ) (out : String)
    → n < fuel
    → 0 < n
    → (d : ℕ) × (rest : String) × (d < 10) × (emit fuel n out ≡ String.◌∷◌ (digit d) rest)
unfolding emit
begins zero n out f p = absurd (omega arith)
begins (suc fuel) n out f p =
    let e : (n == 0) ≡ false = ground arith in
    elim (Bool-cases (n / 10 == 0)) [
      | inl z ↦
          let last : n / 10 ≡ 0 = ground arith in
          (
            n % 10,
            out,
            omega arith,
            rw e (rw last (emit-zero fuel (String.◌∷◌ (digit (n % 10)) out))),
          )
      | inr z ↦
          let more : 0 < n / 10 = ground arith in
          rw e (begins fuel (n / 10) (String.◌∷◌ (digit (n % 10)) out) (omega arith) more)
    ]

-- A text that begins with a digit has no sign.
parse_int-digit :
    (d : ℕ) (rest : String)
    → d < 10
    → parse_int (String.◌∷◌ (digit d) rest) ≡ positive (digits 0 (String.◌∷◌ (digit d) rest))
unfolding parse_int unsigned
parse_int-digit d rest h =
    let plus : (code (digit d) == b'+') ≡ false = rw (code-digit d h) (ground arith) in
    let minus : (code (digit d) == b'-') ≡ false = rw (code-digit d h) (ground arith) in
    rw plus (rw minus refl)

parse_int-emit :
    (n : ℕ)
    → 0 < n
    → n < 2 ^ 64
    → (parse_int (emit (suc n) n "") ≡ positive (number n))
      × (unsigned (emit (suc n) n "") ≡ number n)
unfolding digits unsigned
parse_int-emit n p h =
    let (d, rest, small, e) = begins (suc n) n "" (omega arith) p in
    let r : digits 0 (String.◌∷◌ (digit d) rest) ≡ number n =
      ap (digits 0) (sym e) ∙ digits-emit (suc n) n "" (omega arith) h in
    rw e ((parse_int-digit d rest small ∙ ap positive r), r)

-- The values of Go's `int` on a 64-bit machine.
abbrev pub IsInt : ℤ → Type 0
IsInt (pos n) = n < 2 ^ 63
IsInt (negsuc n) = n < 2 ^ 63

print_nat-emit : (n : ℕ) → 0 < n → print_nat n ≡ emit (suc n) n ""
unfolding print_nat
print_nat-emit n p = let e : (n == 0) ≡ false = ground arith in rw e refl

parse_int-zero : (n : ℕ) → n ≡ 0 → parse_int (print_nat n) ≡ exact (pos n)
unfolding print_nat parse_int
parse_int-zero n z = rw z refl

parse_int-minus : (s : String) → parse_int (String.◌∷◌ "-" s) ≡ negative (unsigned s)
unfolding parse_int
parse_int-minus s = refl

-- An int that `%d` prints is read back by `strconv.Atoi`, without an error.
pub parse_int-print_int : (z : ℤ) → IsInt z → parse_int (print_int z) ≡ exact z
unfolding print_int
parse_int-print_int (pos n) h = elim (Bool-cases (n == 0)) [
  | inl e ↦ parse_int-zero n (ground arith)
  | inr e ↦
      let p : 0 < n = ground arith in
      let small : ltb n (2 ^ 63) ≡ true = ground arith in
      rw (print_nat-emit n p) ((parse_int-emit n p (omega arith)).0 ∙ rw small refl)
]
parse_int-print_int (negsuc n) h =
    let small : ltb n (2 ^ 63) ≡ true = ground arith in
    rw (print_nat-emit (suc n) (omega arith)) (
      parse_int-minus _
      ∙ ap negative (parse_int-emit (suc n) (omega arith) (omega arith)).1
      ∙ rw small refl)
