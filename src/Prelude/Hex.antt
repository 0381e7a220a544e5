-- ===== src/Prelude/Hex.antt =====
-- encoding/hex of Go's standard library, the way back.
pub mod Laws
use Prim.Native.Nat.{ℕ, ◌/◌, ◌%◌}
use Prim.Native.Char.{Char}
use Prim.Native.String.{String}
use mathlib.Core.List.{List, [], ◌∷◌}
use whyopen.Prelude.Tests.{◌==◌, ltb, if◌then◌else◌}
use whyopen.Prelude.Text.{Bytes}
use whyopen.Prelude.Strconv.{digit}

-- The character of one hexadecimal digit.
unfoldable pub hex_char : ℕ → Char
unfolding digit
hex_char d =
    if ltb d 10
    then digit d
    else (if d == 10
        then "a"
        else (if d == 11
            then "b"
            else (if d == 12
                then "c"
                else (if d == 13 then "d" else (if d == 14 then "e" else "f")))))

-- `hex.EncodeToString`.
unfoldable pub hex_encode : Bytes → String
unfolding hex_char
hex_encode [] = String.[]
hex_encode (b ∷ bs) =
    String.◌∷◌ (hex_char (b / 16)) (String.◌∷◌ (hex_char (b % 16)) (hex_encode bs))
