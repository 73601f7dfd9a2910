-- ===== src/Prelude/Strconv.antt =====
-- What the program uses of Go's strconv, encoding/hex and encoding/base64.
use Prim.Native.Nat.{ℕ, zero, suc, ◌+◌, ◌-◌, ◌*◌, ◌/◌, ◌%◌, ◌^◌, ◌≤◌, ◌<◌}
use Prim.Native.Char.{Char, code, nul}
use Prim.Native.String.{String, [], ◌∷◌}
use native.Mathlib.Nat.{pow-suc}
use mathlib.Core.Path.{◌≡◌, refl}
use mathlib.Core.Logic.{◌≢◌, inl, inr}
use mathlib.Core.Bool.{Bool, true, false, ◌&&◌}
use mathlib.Core.Option.{Option, none, some}
use mathlib.Core.List.{List}
use native.Mathlib.Omega.{arith}
use chaosblade_box_agent.Prelude.Tests.{leb, ◌==◌, if◌then◌else◌, Bool-cases}

-- the character at a position of an alphabet
abbrev char_at : String → ℕ → Char
char_at [] n = nul
char_at (c ∷ s) zero = c
char_at (c ∷ s) (suc n) = char_at s n

abbrev pub digit_char : ℕ → Char
digit_char d = char_at "0123456789" d

-- the digits of `n` in front of `out`; `fuel` bounds their number
format_digits : ℕ → ℕ → String → String
format_digits zero n out = out
format_digits (suc fuel) n out =
    let out' = digit_char (n % 10) ∷ out in
    let rest = format_digits fuel (n / 10) out' in if n / 10 == 0 then out' else rest

-- `strconv.FormatInt(n, 10)` of an int64 that is not negative: at most 19 digits
unfoldable pub format_int : ℕ → String
unfolding format_digits
format_int n = format_digits 19 n []

-- the digits of a text, read behind the value `n`
parse_digits : ℕ → String → Option ℕ
parse_digits n [] = some n
parse_digits n (c ∷ s) =
    if leb b'0' (code c) && leb (code c) b'9'
    then parse_digits (n * 10 + (code c - b'0')) s
    else none

-- a magnitude is at least one digit, and at most `most`
magnitude : ℕ → String → Option ℕ
unfolding parse_digits
magnitude most [] = none
magnitude most (c ∷ s) = elim (parse_digits 0 (c ∷ s)) [
  | none ↦ none
  | some n ↦ if leb n most then some n else none
]

-- `strconv.ParseInt(s, 10, 64)`: the sign (true for a minus) and the magnitude, none for an error
unfoldable pub parse_int : String → Option (Bool × ℕ)
unfolding magnitude
parse_int [] = none
parse_int (c ∷ s) =
    if code c == b'-'
    then elim (magnitude (2 ^ 63) s) [ none ↦ none | some n ↦ some (true, n) ]
    else if code c == b'+'
    then elim (magnitude (2 ^ 63 - 1) s) [ none ↦ none | some n ↦ some (false, n) ]
    else elim (magnitude (2 ^ 63 - 1) (c ∷ s)) [ none ↦ none | some n ↦ some (false, n) ]

code-digit_char : (d : ℕ) → d < 10 → code (digit_char d) ≡ b'0' + d
code-digit_char zero h = refl
code-digit_char (suc zero) h = refl
code-digit_char (suc (suc zero)) h = refl
code-digit_char (suc (suc (suc zero))) h = refl
code-digit_char (suc (suc (suc (suc zero)))) h = refl
code-digit_char (suc (suc (suc (suc (suc zero))))) h = refl
code-digit_char (suc (suc (suc (suc (suc (suc zero)))))) h = refl
code-digit_char (suc (suc (suc (suc (suc (suc (suc zero))))))) h = refl
code-digit_char (suc (suc (suc (suc (suc (suc (suc (suc zero)))))))) h = refl
code-digit_char (suc (suc (suc (suc (suc (suc (suc (suc (suc zero))))))))) h = refl
code-digit_char (suc (suc (suc (suc (suc (suc (suc (suc (suc (suc d)))))))))) h =
    absurd (omega arith)

parse-format_digits :
    (fuel n : ℕ) (out : String)
    → n < 10 ^ fuel
    → parse_digits 0 (format_digits fuel n out) ≡ parse_digits n out
unfolding parse_digits format_digits
parse-format_digits zero n out h = let e : n ≡ 0 = omega arith in rw e
parse-format_digits (suc fuel) n out h =
    let less : n / 10 < 10 ^ fuel = omega (arith, pow-suc 10 fuel) in
    ground (
      arith,
      code-digit_char (n % 10),
      parse-format_digits fuel (n / 10) (digit_char (n % 10) ∷ out) less,
    )

-- the text begins with a digit
abbrev DigitHead : String → Type 0
DigitHead [] = ⊥
DigitHead (c ∷ s) = (b'0' ≤ code c) × (code c ≤ b'9')

digit_char-DigitHead : (n : ℕ) (out : String) → DigitHead (digit_char (n % 10) ∷ out)
digit_char-DigitHead n out = omega (arith, code-digit_char (n % 10) (omega arith))

format_digits-DigitHead :
    (fuel n : ℕ) (out : String) → DigitHead out → DigitHead (format_digits fuel n out)
unfolding format_digits
format_digits-DigitHead zero n out h = h
format_digits-DigitHead (suc fuel) n out h = elim (Bool-cases (n / 10 == 0)) [
  | inl last ↦ rw last (digit_char-DigitHead n out)
  | inr more ↦ rw more (format_digits-DigitHead fuel (n / 10) _ (digit_char-DigitHead n out))
]

format_int-DigitHead : (n : ℕ) → DigitHead (format_int n)
unfolding format_int
format_int-DigitHead n = elim (Bool-cases (n / 10 == 0)) [
  | inl last ↦ rw last (digit_char-DigitHead n [])
  | inr more ↦ rw more (format_digits-DigitHead 18 (n / 10) _ (digit_char-DigitHead n []))
]

parse_int-DigitHead :
    (s : String) (n : ℕ)
    → DigitHead s
    → parse_digits 0 s ≡ some n
    → n ≤ 2 ^ 63 - 1
    → parse_int s ≡ some (false, n)
unfolding parse_int
parse_int-DigitHead [] n h e fits = absurd h
parse_int-DigitHead (c ∷ s) n h e fits = ground arith

-- An int64 that is not negative is read back from its decimal print.
pub parse_int-format_int : (n : ℕ) → n < 2 ^ 63 → parse_int (format_int n) ≡ some (false, n)
parse_int-format_int n h =
    parse_int-DigitHead (format_int n) n (format_int-DigitHead n)
      (unfold format_int parse_digits in parse-format_digits 19 n [] (omega arith)) (omega arith)

-- `fmt.Sprintf("%x", bytes)`
unfoldable pub hex : List ℕ → String
hex List.[] = []
hex (List.◌∷◌ b bs) =
    char_at "0123456789abcdef" (b / 16 % 16) ∷ char_at "0123456789abcdef" (b % 16) ∷ hex bs

abbrev base64_char : ℕ → Char
base64_char n = char_at "ABCDEFGHIJKLMNOPQRSTUVWXYZabcdefghijklmnopqrstuvwxyz0123456789+/" n

-- `base64.StdEncoding.EncodeToString` of an ASCII text: three bytes make four characters
unfoldable pub base64 : String → String
base64 [] = []
base64 (a ∷ []) = base64_char (code a / 4) ∷ base64_char (code a % 4 * 16) ∷ "=="
base64 (a ∷ b ∷ []) =
    base64_char (code a / 4)
    ∷ base64_char (code a % 4 * 16 + code b / 16)
    ∷ base64_char (code b % 16 * 4)
    ∷ "="
base64 (a ∷ b ∷ c ∷ s) =
    base64_char (code a / 4)
    ∷ base64_char (code a % 4 * 16 + code b / 16)
    ∷ base64_char (code b % 16 * 4 + code c / 64)
    ∷ base64_char (code c % 64)
    ∷ base64 s

pub hex-ne-nil : (bs : List ℕ) → bs ≢ List.[] → hex bs ≢ ""
unfolding hex
hex-ne-nil List.[] h = λ _. h refl
hex-ne-nil (List.◌∷◌ b bs) h = λ e. cc

pub base64-ne-nil : (s : String) → s ≢ "" → base64 s ≢ ""
unfolding base64
base64-ne-nil [] h = h
base64-ne-nil (a ∷ []) h = λ e. cc
base64-ne-nil (a ∷ b ∷ []) h = λ e. cc
base64-ne-nil (a ∷ b ∷ c ∷ s) h = λ e. cc

base64_tests :
    (base64 "Man" ≡ "TWFu")
    × (base64 "Ma" ≡ "TWE=")
    × (base64 "M" ≡ "TQ==")
    × (hex (List.◌∷◌ 171 List.[]) ≡ "ab")
unfolding base64 hex
base64_tests = (refl, refl, refl, refl)
