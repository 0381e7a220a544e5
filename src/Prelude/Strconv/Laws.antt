-- ===== src/Prelude/Strconv/Laws.antt =====
-- Decimal text: what is printed is read back.
use Prim.Native.Nat.{ℕ, zero, suc, ◌+◌, ◌*◌, ◌/◌, ◌%◌, ◌<◌, ◌≤◌}
use Prim.Native.Char.{Char, code}
use Prim.Native.String.{String}
use mathlib.Core.Path.{◌≡◌, refl, ◌∙◌}
use mathlib.Core.Logic.{inl, inr}
use mathlib.Core.Bool.{Bool, true, false}
use mathlib.Core.Option.{some}
use native.Mathlib.Omega.{arith}
use whyopen.Prelude.Tests.{ltb, Bool-cases}
use whyopen.Prelude.Strconv.{digit, decimal_loop, decimal, digits_value, at_most, parse_uint16, cut}

code-digit : (d : ℕ) → d < 10 → code (digit d) ≡ b'0' + d
unfolding digit
code-digit zero h = refl
code-digit (suc zero) h = refl
code-digit (suc (suc zero)) h = refl
code-digit (suc (suc (suc zero))) h = refl
code-digit (suc (suc (suc (suc zero)))) h = refl
code-digit (suc (suc (suc (suc (suc zero))))) h = refl
code-digit (suc (suc (suc (suc (suc (suc zero)))))) h = refl
code-digit (suc (suc (suc (suc (suc (suc (suc zero))))))) h = refl
code-digit (suc (suc (suc (suc (suc (suc (suc (suc zero)))))))) h = refl
code-digit (suc (suc (suc (suc (suc (suc (suc (suc (suc zero))))))))) h = refl
code-digit (suc (suc (suc (suc (suc (suc (suc (suc (suc (suc d)))))))))) h = absurd (omega arith)

digits_value-digit :
    (n d : ℕ) (s : String)
    → d < 10
    → digits_value n (String.◌∷◌ (digit d) s) ≡ digits_value (n * 10 + d) s
unfolding digits_value
digits_value-digit n d s h = ground (arith, code-digit d h)

digits_value-decimal_loop :
    (f n : ℕ) (rest : String) → n < f → digits_value 0 (decimal_loop f n rest) ≡ digits_value n rest
unfolding decimal_loop
digits_value-decimal_loop zero n rest h = absurd (omega arith)
digits_value-decimal_loop (suc f) n rest h = ground (
  arith,
  digits_value-digit 0 n rest,
  digits_value-digit (n / 10) (n % 10) rest,
  digits_value-decimal_loop f (n / 10) (String.◌∷◌ (digit (n % 10)) rest),
)

-- A byte below the digits is not found among them.
cut-decimal_loop :
    (sep f n : ℕ) (rest : String)
    → sep < b'0'
    → n < f
    → cut sep (decimal_loop f n rest) ≡ (decimal_loop f n (cut sep rest).0, (cut sep rest).1)
unfolding decimal_loop cut
cut-decimal_loop sep zero n rest k h = absurd (omega arith)
cut-decimal_loop sep (suc f) n rest k h = ground (
  arith,
  code-digit n,
  code-digit (n % 10),
  cut-decimal_loop sep f (n / 10) (String.◌∷◌ (digit (n % 10)) rest) k,
)

abbrev is_text : String → Bool
is_text String.[] = false
is_text (String.◌∷◌ c s) = true

is_text-decimal_loop :
    (f n : ℕ) (c : Char) (s : String) → is_text (decimal_loop f n (String.◌∷◌ c s)) ≡ true
unfolding decimal_loop
is_text-decimal_loop zero n c s = refl
is_text-decimal_loop (suc f) n c s = elim (Bool-cases (ltb n 10)) [
  | inl q ↦ rw (q, is_text) refl
  | inr q ↦ rw (q, is_text) (is_text-decimal_loop f (n / 10) (digit (n % 10)) (String.◌∷◌ c s))
]

is_text-decimal : (n : ℕ) → is_text (decimal n String.[]) ≡ true
unfolding decimal decimal_loop
is_text-decimal n = elim (Bool-cases (ltb n 10)) [
  | inl q ↦ rw (q, is_text) refl
  | inr q ↦ rw (q, is_text) (is_text-decimal_loop n (n / 10) (digit (n % 10)) String.[])
]

parse_uint16-digits :
    (s : String) → is_text s ≡ true → parse_uint16 s ≡ at_most 65535 (digits_value 0 s)
unfolding parse_uint16
parse_uint16-digits String.[] h = ground arith
parse_uint16-digits (String.◌∷◌ c s) h = refl

pub cut-decimal :
    (sep n : ℕ) (rest : String)
    → sep < b'0'
    → cut sep (decimal n rest) ≡ (decimal n (cut sep rest).0, (cut sep rest).1)
unfolding decimal
cut-decimal sep n rest h = cut-decimal_loop sep (suc n) n rest h (omega arith)

-- A number of sixteen bits is read back from its decimal print.
pub parse_uint16-decimal : (n : ℕ) → n ≤ 65535 → parse_uint16 (decimal n "") ≡ some n
unfolding decimal digits_value
parse_uint16-decimal n h =
    parse_uint16-digits (decimal n "") (is_text-decimal n)
    ∙ ground (arith, digits_value-decimal_loop (suc n) n "")

pub parse_uint16_max : (s : String) (n : ℕ) → parse_uint16 s ≡ some n → n ≤ 65535
unfolding parse_uint16
parse_uint16_max String.[] n h = ground arith
parse_uint16_max (String.◌∷◌ c s) n h = ground arith
