-- ===== src/Prelude/Hex/Laws.antt =====
-- What is written in hexadecimal is read back.
use Prim.Native.Nat.{ℕ, suc, zero, ◌+◌, ◌*◌, ◌/◌, ◌%◌, ◌<◌}
use Prim.Native.Char.{code}
use Prim.Native.String.{String}
use mathlib.Core.Path.{◌≡◌, refl, ap, ◌∙◌}
use mathlib.Core.List.{[], ◌∷◌}
use mathlib.Core.Option.{Option, some}
use native.Mathlib.Omega.{arith}
use whyopen.Prelude.Lists.{All}
use whyopen.Prelude.Text.{Bytes, bytes, hex_digit, hex_bytes, hex_decode, pair_digits}
use whyopen.Prelude.Hex.{hex_char, hex_encode}

abbrev pub IsByte : ℕ → Type 0
IsByte b = b < 256

bytes-hex_char :
    (d : ℕ) (s : String) → d < 16 → bytes (String.◌∷◌ (hex_char d) s) ≡ code (hex_char d) ∷ bytes s
unfolding hex_char
bytes-hex_char zero s h = refl
bytes-hex_char (suc zero) s h = refl
bytes-hex_char (suc (suc zero)) s h = refl
bytes-hex_char (suc (suc (suc zero))) s h = refl
bytes-hex_char (suc (suc (suc (suc zero)))) s h = refl
bytes-hex_char (suc (suc (suc (suc (suc zero))))) s h = refl
bytes-hex_char (suc (suc (suc (suc (suc (suc zero)))))) s h = refl
bytes-hex_char (suc (suc (suc (suc (suc (suc (suc zero))))))) s h = refl
bytes-hex_char (suc (suc (suc (suc (suc (suc (suc (suc zero)))))))) s h = refl
bytes-hex_char (suc (suc (suc (suc (suc (suc (suc (suc (suc zero))))))))) s h = refl
bytes-hex_char (suc (suc (suc (suc (suc (suc (suc (suc (suc (suc zero)))))))))) s h = refl
bytes-hex_char (suc (suc (suc (suc (suc (suc (suc (suc (suc (suc (suc zero))))))))))) s h = refl
bytes-hex_char (suc (suc (suc (suc (suc (suc (suc (suc (suc (suc (suc (suc zero)))))))))))) s h =
    refl
bytes-hex_char (suc (suc (suc (suc (suc (suc (suc (suc (suc (suc (suc (suc (suc zero))))))))))))) s
      h =
    refl
bytes-hex_char
      (suc (suc (suc (suc (suc (suc (suc (suc (suc (suc (suc (suc (suc (suc zero)))))))))))))) s h =
    refl
bytes-hex_char
      (suc (suc (suc (suc (suc (suc (suc (suc (suc (suc (suc (suc (suc (suc (suc zero)))))))))))))))
      s h =
    refl
bytes-hex_char
      (suc
        (suc (suc (suc (suc (suc (suc (suc (suc (suc (suc (suc (suc (suc (suc (suc d))))))))))))))))
      s h =
    absurd (omega arith)

hex_digit-hex_char : (d : ℕ) → d < 16 → hex_digit (code (hex_char d)) ≡ some d
unfolding hex_char
hex_digit-hex_char zero h = refl
hex_digit-hex_char (suc zero) h = refl
hex_digit-hex_char (suc (suc zero)) h = refl
hex_digit-hex_char (suc (suc (suc zero))) h = refl
hex_digit-hex_char (suc (suc (suc (suc zero)))) h = refl
hex_digit-hex_char (suc (suc (suc (suc (suc zero))))) h = refl
hex_digit-hex_char (suc (suc (suc (suc (suc (suc zero)))))) h = refl
hex_digit-hex_char (suc (suc (suc (suc (suc (suc (suc zero))))))) h = refl
hex_digit-hex_char (suc (suc (suc (suc (suc (suc (suc (suc zero)))))))) h = refl
hex_digit-hex_char (suc (suc (suc (suc (suc (suc (suc (suc (suc zero))))))))) h = refl
hex_digit-hex_char (suc (suc (suc (suc (suc (suc (suc (suc (suc (suc zero)))))))))) h = refl
hex_digit-hex_char (suc (suc (suc (suc (suc (suc (suc (suc (suc (suc (suc zero))))))))))) h = refl
hex_digit-hex_char (suc (suc (suc (suc (suc (suc (suc (suc (suc (suc (suc (suc zero)))))))))))) h =
    refl
hex_digit-hex_char
      (suc (suc (suc (suc (suc (suc (suc (suc (suc (suc (suc (suc (suc zero))))))))))))) h =
    refl
hex_digit-hex_char
      (suc (suc (suc (suc (suc (suc (suc (suc (suc (suc (suc (suc (suc (suc zero)))))))))))))) h =
    refl
hex_digit-hex_char
      (suc (suc (suc (suc (suc (suc (suc (suc (suc (suc (suc (suc (suc (suc (suc zero)))))))))))))))
      h =
    refl
hex_digit-hex_char
      (suc
        (suc (suc (suc (suc (suc (suc (suc (suc (suc (suc (suc (suc (suc (suc (suc d))))))))))))))))
      h =
    absurd (omega arith)

hex_pair :
    (h l b : ℕ) (o : Option Bytes) (bs : Bytes)
    → h < 16
    → l < 16
    → o ≡ some bs
    → h * 16 + l ≡ b
    → pair_digits (hex_digit (code (hex_char h))) (hex_digit (code (hex_char l))) o ≡ some (b ∷ bs)
hex_pair h l b o bs hh hl ho hb =
    ap (λ x. pair_digits x (hex_digit (code (hex_char l))) o) (hex_digit-hex_char h hh)
    ∙ ap (λ x. pair_digits (some h) x o) (hex_digit-hex_char l hl)
    ∙ ap (λ x. pair_digits (some h) (some l) x) ho
    ∙ ap (λ n. some (n ∷ bs)) hb

-- The bytes of a text in hexadecimal are those that it was written from.
pub hex_decode-hex_encode : (b : Bytes) → All IsByte b → hex_decode (hex_encode b) ≡ some b
unfolding hex_decode hex_encode hex_bytes
hex_decode-hex_encode [] h = refl
hex_decode-hex_encode (b ∷ bs) (h, hs) =
    ap hex_bytes (
      bytes-hex_char (b / 16) (String.◌∷◌ (hex_char (b % 16)) (hex_encode bs)) (omega arith)
      ∙ ap (λ t. code (hex_char (b / 16)) ∷ t)
          (bytes-hex_char (b % 16) (hex_encode bs) (omega arith)))
    ∙ hex_pair (b / 16) (b % 16) b (hex_bytes (bytes (hex_encode bs))) bs (omega arith)
        (omega arith) (hex_decode-hex_encode bs hs) (omega arith)
