-- ===== src/Prelude/Strconv.antt =====
-- strconv and strings of Go's standard library, as far as the program uses them on decimal text.
pub mod Laws
use Prim.Native.Nat.{ℕ, zero, suc, ◌+◌, ◌-◌, ◌*◌, ◌/◌, ◌%◌}
use Prim.Native.Char.{Char, code}
use Prim.Native.String.{String}
use mathlib.Core.Bool.{Bool, true, false, ◌&&◌, ◌||◌}
use mathlib.Core.List.{List, [], ◌∷◌}
use mathlib.Core.Option.{Option, none, some}
use text.Mathlib.Text.{◌==◌ as str_eq}
use whyopen.Prelude.Text.{hex_digit}
use whyopen.Prelude.Tests.{ltb, leb, ◌==◌, if◌then◌else◌}

-- The character of one decimal digit.
unfoldable pub digit : ℕ → Char
digit d =
    if d == 0
    then "0"
    else (if d == 1
        then "1"
        else (if d == 2
            then "2"
            else (if d == 3
                then "3"
                else (if d == 4
                    then "4"
                    else (if d == 5
                        then "5"
                        else (if d == 6
                            then "6"
                            else (if d == 7 then "7" else (if d == 8 then "8" else "9"))))))))

-- The decimal digits of a number, before the text that follows them. The fuel is one more than the
-- number.
unfoldable pub decimal_loop : ℕ → ℕ → String → String
unfolding digit
decimal_loop zero n rest = rest
decimal_loop (suc f) n rest = elim (ltb n 10) [
  | true ↦ String.◌∷◌ (digit n) rest
  | false ↦ decimal_loop f (n / 10) (String.◌∷◌ (digit (n % 10)) rest)
]

-- `%d`, and then the text that follows.
unfoldable pub decimal : ℕ → String → String
unfolding decimal_loop
decimal n rest = decimal_loop (suc n) n rest

abbrev pub is_digit : Char → Bool
is_digit c = leb b'0' (code c) && leb (code c) b'9'

-- The value of a text of digits after the value `n` of those before it.
unfoldable pub digits_value : ℕ → String → Option ℕ
digits_value n String.[] = some n
digits_value n (String.◌∷◌ c s) = elim (is_digit c) [
  | true ↦ digits_value (n * 10 + (code c - b'0')) s
  | false ↦ none
]

abbrev pub at_most : ℕ → Option ℕ → Option ℕ
at_most max none = none
at_most max (some n) = if ltb max n then none else some n

-- `strconv.ParseUint(s, 10, 16)`; `none` is its error, of syntax or of range.
unfoldable pub parse_uint16 : String → Option ℕ
unfolding digits_value
parse_uint16 String.[] = none
parse_uint16 (String.◌∷◌ c s) = at_most 65535 (digits_value 0 (String.◌∷◌ c s))

-- `strings.Cut` at one ASCII character: what stands before the first, and what follows it if it is there.
unfoldable pub cut : ℕ → String → String × Option String
cut sep String.[] = (String.[], none)
cut sep (String.◌∷◌ c s) =
    let rest = cut sep s in
    if code c == sep then (String.[], some s) else (String.◌∷◌ c rest.0, rest.1)

-- `unicode.IsSpace`.
abbrev is_space : Char → Bool
is_space c =
    let n = code c in
    (leb 9 n && leb n 13)
    || n == 0x20
    || n == 0x85
    || n == 0xa0
    || n == 0x1680
    || (leb 0x2000 n && leb n 0x200a)
    || n == 0x2028
    || n == 0x2029
    || n == 0x202f
    || n == 0x205f
    || n == 0x3000

abbrev trim_left : String → String
trim_left String.[] = String.[]
trim_left (String.◌∷◌ c s) = let rest = trim_left s in if is_space c then rest else String.◌∷◌ c s

abbrev put : Char → String → String
put c String.[] = if is_space c then String.[] else String.◌∷◌ c String.[]
put c (String.◌∷◌ d s) = String.◌∷◌ c (String.◌∷◌ d s)

abbrev trim_right : String → String
trim_right String.[] = String.[]
trim_right (String.◌∷◌ c s) = put c (trim_right s)

-- `strings.TrimSpace`.
unfoldable pub trim_space : String → String
trim_space s = trim_right (trim_left s)

-- A character before the first of the parts.
abbrev to_first : Char → List String → List String
to_first c [] = String.◌∷◌ c String.[] ∷ []
to_first c (s ∷ ss) = String.◌∷◌ c s ∷ ss

-- `strings.Split` at one ASCII character.
unfoldable pub split : ℕ → String → List String
split sep String.[] = String.[] ∷ []
split sep (String.◌∷◌ c s) =
    let rest = split sep s in if code c == sep then String.[] ∷ rest else to_first c rest

-- A word that has ended before the words after it.
abbrev close : String → List String → List String
close String.[] ws = ws
close (String.◌∷◌ c w) ws = String.◌∷◌ c w ∷ ws

-- The word that a text starts with, which a space ends, and the words after it.
abbrev words : String → String × List String
words String.[] = (String.[], [])
words (String.◌∷◌ c s) =
    let rest = words s in
    if is_space c then (String.[], close rest.0 rest.1) else (String.◌∷◌ c rest.0, rest.1)

-- `strings.Fields`.
unfoldable pub fields : String → List String
fields s = close (words s).0 (words s).1

-- `strings.HasSuffix`.
unfoldable pub has_suffix : String → String → Bool
has_suffix String.[] p = str_eq String.[] p
has_suffix (String.◌∷◌ c s) p = str_eq (String.◌∷◌ c s) p || has_suffix s p

-- What `strconv.ParseUint` returns: the number, or its error of syntax or of range.
pub data Parsed : Type 0 where
  value : ℕ → Parsed
  bad_syntax : Parsed
  out_of_range : Parsed

-- The value of a digit below the base.
abbrev digit_below : ℕ → Option ℕ → Option ℕ
digit_below base none = none
digit_below base (some d) = if ltb d base then some d else none

-- The digits after those with the value `n`. The first that is no digit, or that leads past `max`, ends it.
unfoldable pub uint_digits : ℕ → ℕ → ℕ → String → Parsed
uint_digits base max n String.[] = Parsed.value n
uint_digits base max n (String.◌∷◌ c s) = elim (digit_below base (hex_digit (code c))) [
  | none ↦ Parsed.bad_syntax
  | some d ↦ elim (ltb max (n * base + d)) [
    | true ↦ Parsed.out_of_range
    | false ↦ uint_digits base max (n * base + d) s
  ]
]

-- `strconv.ParseUint` at a base up to 16, of a number up to `max`, which has 32 bits at most.
unfoldable pub parse_uint : ℕ → ℕ → String → Parsed
unfolding uint_digits
parse_uint base max String.[] = Parsed.bad_syntax
parse_uint base max (String.◌∷◌ c s) = uint_digits base max 0 (String.◌∷◌ c s)

-- The number that `strconv.ParseUint` returns, whatever the error is.
abbrev pub parsed_value : ℕ → Parsed → ℕ
parsed_value max (Parsed.value n) = n
parsed_value max Parsed.bad_syntax = 0
parsed_value max Parsed.out_of_range = max
