-- ===== src/Js/Decimal.antt =====
-- `String(n)` of a natural number and `parseInt(s, 10)`.
use Prim.Native.Char.{Char, code}
use Prim.Native.String.{[], ◌∷◌}
use Prim.Native.Nat.{◌^◌}
use quota_shift.Prelude.{
  ℕ, zero, suc, ◌+◌, ◌-◌, ◌*◌, ◌/◌, ◌%◌, ◌≤◌, ◌<◌, String, ◌≡◌, refl, ◌∙◌, ap, Bool, true, false,
  not, ◌&&◌, Option, none, some, leb, ltb, eqb, arith, Bool-cases, inl, inr, if◌then◌else◌,
}
use quota_shift.Js.Text.{is_digit, is_space, trim, trim_start, trim_end, is_empty, every_char}

unfoldable pub digit : ℕ → Char
digit zero = "0"
digit (suc zero) = "1"
digit (suc (suc zero)) = "2"
digit (suc (suc (suc zero))) = "3"
digit (suc (suc (suc (suc zero)))) = "4"
digit (suc (suc (suc (suc (suc zero))))) = "5"
digit (suc (suc (suc (suc (suc (suc zero)))))) = "6"
digit (suc (suc (suc (suc (suc (suc (suc zero))))))) = "7"
digit (suc (suc (suc (suc (suc (suc (suc (suc zero)))))))) = "8"
digit (suc (suc (suc (suc (suc (suc (suc (suc (suc _))))))))) = "9"

-- The digits of n in front of `rest`; the fuel n is enough, since each step divides by ten.
unfoldable pub show_from : ℕ → ℕ → String → String
unfolding digit
show_from zero n rest = digit n ∷ rest
show_from (suc fuel) n rest =
    let more = show_from fuel (n / 10) (digit (n % 10) ∷ rest) in
    if ltb n 10 then digit n ∷ rest else more

unfoldable pub show_nat : ℕ → String
unfolding show_from
show_nat n = show_from n n ""

-- The number that the leading digits denote, after `acc`.
unfoldable pub digits_value : ℕ → String → ℕ
unfolding is_digit
digits_value acc [] = acc
digits_value acc (c ∷ s) =
    let more = digits_value (10 * acc + (code c - 48)) s in if is_digit (code c) then more else acc

-- The least number that rounds to `Infinity` as a double.
unfoldable pub overflow : ℕ
overflow = 2 ^ 1024 - 2 ^ 970

-- A finite result with its sign, or `none` for `NaN` and the infinities. Up to 2 ^ 53 the double is the
-- number itself, and beyond it a number near it.
unfoldable pub parse_digits : Bool → String → Option (Bool × ℕ)
unfolding digits_value is_digit overflow
parse_digits negative [] = none
parse_digits negative (c ∷ s) =
    if is_digit (code c) && ltb (digits_value 0 (c ∷ s)) overflow
    then some (negative, digits_value 0 (c ∷ s))
    else none

unfoldable pub parse_signed : String → Option (Bool × ℕ)
unfolding parse_digits
parse_signed [] = none
parse_signed (c ∷ s) =
    if eqb (code c) b'-'
    then parse_digits true s
    else if eqb (code c) b'+'
    then parse_digits false s
    else parse_digits false (c ∷ s)

unfoldable pub parse_int : String → Option (Bool × ℕ)
unfolding parse_signed trim_start is_space
parse_int s = parse_signed (trim_start s)

digit-code : (d : ℕ) → d < 10 → code (digit d) ≡ d + 48
unfolding digit
digit-code zero h = refl
digit-code (suc zero) h = refl
digit-code (suc (suc zero)) h = refl
digit-code (suc (suc (suc zero))) h = refl
digit-code (suc (suc (suc (suc zero)))) h = refl
digit-code (suc (suc (suc (suc (suc zero))))) h = refl
digit-code (suc (suc (suc (suc (suc (suc zero)))))) h = refl
digit-code (suc (suc (suc (suc (suc (suc (suc zero))))))) h = refl
digit-code (suc (suc (suc (suc (suc (suc (suc (suc zero)))))))) h = refl
digit-code (suc (suc (suc (suc (suc (suc (suc (suc (suc zero))))))))) h = refl
digit-code (suc (suc (suc (suc (suc (suc (suc (suc (suc (suc d)))))))))) h =
    absurd (omega (arith, h))

digits_value-digit :
    (acc d : ℕ) (s : String)
    → d < 10
    → digits_value acc (digit d ∷ s) ≡ digits_value (10 * acc + d) s
unfolding digits_value is_digit
digits_value-digit acc d s h =
    let back : d + 48 - 48 ≡ d = omega arith in
    let is : (leb 48 (d + 48) && leb (d + 48) 57) ≡ true = ground (arith, h) in
    rw (digit-code d h, digits_value) (rw is (ap (λ n. digits_value (10 * acc + n) s) back))

digits_value-show_from :
    (fuel n : ℕ) (rest : String)
    → n ≤ fuel
    → digits_value 0 (show_from fuel n rest) ≡ digits_value n rest
unfolding show_from
digits_value-show_from zero n rest h =
    digits_value-digit 0 n rest (omega (arith, h)) ∙ ap (λ m. digits_value m rest) (omega arith)
digits_value-show_from (suc fuel) n rest h = elim (Bool-cases (ltb n 10)) [
  | inl e ↦
      rw (e, show_from)
        (digits_value-digit 0 n rest (ground arith) ∙ ap (λ m. digits_value m rest) (omega arith))
  | inr e ↦
      rw (e, show_from)
        (digits_value-show_from fuel (n / 10) (digit (n % 10) ∷ rest) (ground arith)
          ∙ digits_value-digit (n / 10) (n % 10) rest (omega arith)
          ∙ ap (λ m. digits_value m rest) (omega arith))
]

-- Digits only, one at least.
abbrev pub is_decimal : String → Bool
is_decimal s = not (is_empty s) && every_char is_digit s

digit-is_digit : (d : ℕ) → d < 10 → is_digit (code (digit d)) ≡ true
unfolding is_digit
digit-is_digit d h = rw (digit-code d h) (ground arith)

show_from-is_decimal :
    (fuel n : ℕ) (rest : String)
    → n ≤ fuel
    → every_char is_digit rest ≡ true
    → is_decimal (show_from fuel n rest) ≡ true
unfolding show_from every_char
show_from-is_decimal zero n rest h digits = rw (digit-is_digit n (omega (arith, h))) digits
show_from-is_decimal (suc fuel) n rest h digits = elim (Bool-cases (ltb n 10)) [
  | inl e ↦ rw (e, show_from) (rw (digit-is_digit n (ground arith)) digits)
  | inr e ↦
      rw (e, show_from)
        (show_from-is_decimal fuel (n / 10) (digit (n % 10) ∷ rest) (ground arith)
          (rw (digit-is_digit (n % 10) (omega arith)) digits))
]

is_digit-is_space : (c : ℕ) → is_digit c ≡ true → is_space c ≡ false
unfolding is_digit is_space
is_digit-is_space c h = ground arith

trim_end-digits : (s : String) → every_char is_digit s ≡ true → trim_end s ≡ s
unfolding trim_end every_char
trim_end-digits [] h = refl
trim_end-digits (c ∷ s) h = ground (arith, trim_end-digits s, is_digit-is_space (code c))

trim_start-digits : (s : String) → every_char is_digit s ≡ true → trim_start s ≡ s
unfolding trim_start every_char
trim_start-digits [] h = refl
trim_start-digits (c ∷ s) h = ground (arith, is_digit-is_space (code c))

show_nat-is_decimal : (n : ℕ) → is_decimal (show_nat n) ≡ true
unfolding show_nat every_char
show_nat-is_decimal n = show_from-is_decimal n n "" (omega arith) refl

show_nat-digits : (n : ℕ) → every_char is_digit (show_nat n) ≡ true
show_nat-digits n = ground (arith, show_nat-is_decimal n)

digits_value-show_nat : (n : ℕ) → digits_value 0 (show_nat n) ≡ n
unfolding show_nat digits_value
digits_value-show_nat n = digits_value-show_from n n "" (omega arith)

pub show_nat-is_empty : (n : ℕ) → is_empty (show_nat n) ≡ false
show_nat-is_empty n = ground (arith, show_nat-is_decimal n)

pub trim-show_nat : (n : ℕ) → trim (show_nat n) ≡ show_nat n
unfolding trim show_nat
trim-show_nat n =
    ap trim_end (trim_start-digits (show_nat n) (show_nat-digits n))
    ∙ trim_end-digits (show_nat n) (show_nat-digits n)

parse_signed-digits :
    (s : String)
    → is_decimal s ≡ true
    → digits_value 0 s < overflow
    → parse_signed s ≡ some (false, digits_value 0 s)
unfolding parse_signed parse_digits every_char is_digit
parse_signed-digits [] h small = cc
parse_signed-digits (c ∷ s) h small = ground arith

-- A natural number that is small enough for a finite double reads back from its decimal text.
pub parse_int-show_nat : (n : ℕ) → n < overflow → parse_int (show_nat n) ≡ some (false, n)
unfolding parse_int
parse_int-show_nat n small =
    ap parse_signed (trim_start-digits (show_nat n) (show_nat-digits n))
    ∙ parse_signed-digits (show_nat n) (show_nat-is_decimal n)
        (omega (arith, small, digits_value-show_nat n))
    ∙ ap (λ m. some (false, m)) (digits_value-show_nat n)

pub small-overflow : (n : ℕ) → n ≤ 9007199254740991 → n < overflow
unfolding overflow
small-overflow n h = omega (arith, h)
