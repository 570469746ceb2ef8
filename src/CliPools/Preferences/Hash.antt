-- ===== src/CliPools/Preferences/Hash.antt =====
-- The hash of the continuation prompt, FNV-1a over UTF-16 code units (src/utils/cli-pools/preferences.ts).
use Prim.Native.Char.{Char, code}
use Prim.Native.Nat.{◌^◌, bit_xor}
use native.Mathlib.Nat.{pow-succ'}
use quota_shift.Prelude.{
  ℕ, zero, suc, ◌<◌, ◌+◌, ◌-◌, ◌*◌, ◌/◌, ◌%◌, String, ◌≡◌, refl, ap, ◌∙◌, Bool-cases, inl, inr,
  if_true_holds, if_false_holds, List, [], ◌∷◌, ◌++◌, Option, leb, ltb, if◌then◌else◌, arith,
}
use quota_shift.Js.{Value, size, digit}
use quota_shift.Browser.{Storage}
use quota_shift.CliPools.Preferences.{load_cli_rotation_preferences}

-- The code units of one character: `charCodeAt`.
unfoldable pub code_units : ℕ → List ℕ
code_units c =
    if ltb c 0x10000
    then c ∷ []
    else (0xd800 + (c - 0x10000) / 0x400) ∷ (0xdc00 + (c - 0x10000) % 0x400) ∷ []

unfoldable pub units_of : String → List ℕ
unfolding code_units
units_of String.[] = []
units_of (String.◌∷◌ c s) = code_units (code c) ++ units_of s

-- `hash ^= unit; hash = Math.imul(hash, 16777619)`, unsigned
unfoldable pub hash_step : ℕ → ℕ → ℕ
hash_step hash unit = bit_xor hash unit * 16777619 % 2 ^ 32

unfoldable pub hash_units : ℕ → List ℕ → ℕ
unfolding hash_step
hash_units hash [] = hash
hash_units hash (unit ∷ units) = hash_units (hash_step hash unit) units

-- The digits from ten on.
unfoldable pub letter : ℕ → Char
letter zero = "a"
letter (suc zero) = "b"
letter (suc (suc zero)) = "c"
letter (suc (suc (suc zero))) = "d"
letter (suc (suc (suc (suc zero)))) = "e"
letter _ = "f"

-- The digit of a number below sixteen.
unfoldable pub hex_digit : ℕ → Char
unfolding digit letter
hex_digit (suc (suc (suc (suc (suc (suc (suc (suc (suc (suc n)))))))))) = letter n
hex_digit n = digit n

-- The hexadecimal digits of n in front of `rest`; the fuel is enough where n is below 16 to the power of it
-- and one more.
unfoldable pub hex_from : ℕ → ℕ → String → String
unfolding hex_digit
hex_from zero n rest = String.◌∷◌ (hex_digit n) rest
hex_from (suc fuel) n rest =
    let more = hex_from fuel (n / 16) (String.◌∷◌ (hex_digit (n % 16)) rest) in
    if ltb n 16 then String.◌∷◌ (hex_digit n) rest else more

-- `(hash >>> 0).toString(16)`, of a number below 2 ^ 32
unfoldable pub to_hex : ℕ → String
unfolding hex_from
to_hex n = hex_from 7 n ""

unfoldable pub zeros : ℕ → String → String
zeros zero s = s
zeros (suc n) s = String.◌∷◌ "0" (zeros n s)

-- `s.padStart(width, "0")`
unfoldable pub pad_start : ℕ → String → String
unfolding zeros size
pad_start width s = zeros (width - size s) s

unfoldable pub hash_string : String → String
unfolding hash_units units_of to_hex pad_start
hash_string s = pad_start 8 (to_hex (hash_units 2166136261 (units_of s)))

pub record PromptSnapshot : Type 0 where
  pub prompt : String
  pub hash : String
  pub snapshot_at : ℕ

-- `now` is `Date.now()`.
unfoldable pub snapshot_continuation_prompt :
    (String → Option Value) → (now : ℕ) → Option Storage → PromptSnapshot
unfolding load_cli_rotation_preferences hash_string
snapshot_continuation_prompt parse now storage =
    let prefs = load_cli_rotation_preferences parse storage in
    record {
      prompt = prefs.continuation_prompt;
      hash = hash_string prefs.continuation_prompt;
      snapshot_at = now;
    }

-- The number that a hexadecimal digit denotes.
abbrev digit_value : ℕ → ℕ
digit_value c = if leb c b'9' then c - 48 else c - 87

-- The number that hexadecimal digits denote, after `acc`: `parseInt(text, 16)`.
abbrev hex_value : ℕ → String → ℕ
hex_value acc String.[] = acc
hex_value acc (String.◌∷◌ c s) = hex_value (16 * acc + digit_value (code c)) s

letter-value : (n : ℕ) → n < 6 → digit_value (code (letter n)) ≡ 10 + n
unfolding letter
letter-value zero h = refl
letter-value (suc zero) h = refl
letter-value (suc (suc zero)) h = refl
letter-value (suc (suc (suc zero))) h = refl
letter-value (suc (suc (suc (suc zero)))) h = refl
letter-value (suc (suc (suc (suc (suc zero))))) h = refl
letter-value (suc (suc (suc (suc (suc (suc n)))))) h = omega (arith, h)

hex_digit-value : (n : ℕ) → n < 16 → digit_value (code (hex_digit n)) ≡ n
unfolding hex_digit digit
hex_digit-value zero h = refl
hex_digit-value (suc zero) h = refl
hex_digit-value (suc (suc zero)) h = refl
hex_digit-value (suc (suc (suc zero))) h = refl
hex_digit-value (suc (suc (suc (suc zero)))) h = refl
hex_digit-value (suc (suc (suc (suc (suc zero))))) h = refl
hex_digit-value (suc (suc (suc (suc (suc (suc zero)))))) h = refl
hex_digit-value (suc (suc (suc (suc (suc (suc (suc zero))))))) h = refl
hex_digit-value (suc (suc (suc (suc (suc (suc (suc (suc zero)))))))) h = refl
hex_digit-value (suc (suc (suc (suc (suc (suc (suc (suc (suc zero))))))))) h = refl
hex_digit-value (suc (suc (suc (suc (suc (suc (suc (suc (suc (suc n)))))))))) h =
    letter-value n (omega (arith, h)) ∙ omega arith

hex_value-hex_digit :
    (n : ℕ) (rest : String)
    → n < 16
    → hex_value 0 (String.◌∷◌ (hex_digit n) rest) ≡ hex_value n rest
hex_value-hex_digit n rest h =
    ap (λ v. hex_value v rest) (ap (λ v. 16 * 0 + v) (hex_digit-value n h) ∙ omega arith)

-- The digits denote the number, so that the fuel was enough.
hex_value-hex_from :
    (fuel n : ℕ) (rest : String)
    → n < 16 ^ suc fuel
    → hex_value 0 (hex_from fuel n rest) ≡ hex_value n rest
unfolding hex_from
hex_value-hex_from zero n rest h = hex_value-hex_digit n rest h
hex_value-hex_from (suc fuel) n rest h = elim (Bool-cases (ltb n 16)) [
  | inl e ↦
      if_true_holds (λ s. hex_value 0 s ≡ hex_value n rest) (ltb n 16) _ _ e
        (hex_value-hex_digit n rest (ground arith))
  | inr e ↦
      if_false_holds (λ s. hex_value 0 s ≡ hex_value n rest) (ltb n 16) _ _ e
        (hex_value-hex_from fuel (n / 16) (String.◌∷◌ (hex_digit (n % 16)) rest)
            (omega (arith, h, pow-succ' 16 (suc fuel)))
          ∙ ap (λ v. hex_value v rest)
              (ap (λ v. 16 * (n / 16) + v) (hex_digit-value (n % 16) (omega arith)) ∙ omega arith))
]

hex_value-zeros : (n : ℕ) (s : String) → hex_value 0 (zeros n s) ≡ hex_value 0 s
unfolding zeros
hex_value-zeros zero s = refl
hex_value-zeros (suc n) s = hex_value-zeros n s

hash_units-bound : (hash : ℕ) (units : List ℕ) → hash < 2 ^ 32 → hash_units hash units < 2 ^ 32
unfolding hash_units hash_step
hash_units-bound hash [] h = h
hash_units-bound hash (unit ∷ units) h = hash_units-bound (hash_step hash unit) units (omega arith)

-- The text denotes the whole 32-bit hash.
hash_string-value : (s : String) → hex_value 0 (hash_string s) ≡ hash_units 2166136261 (units_of s)
unfolding hash_string pad_start to_hex
hash_string-value s =
    let n = hash_units 2166136261 (units_of s) in
    hex_value-zeros (8 - size (to_hex n)) (to_hex n)
    ∙ hex_value-hex_from 7 n "" (hash_units-bound 2166136261 (units_of s) (omega arith))

hash_test : hash_string "a" ≡ "e40c292c"
unfolding hash_string
hash_test = refl
