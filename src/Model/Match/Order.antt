-- ===== src/Model/Match/Order.antt =====
-- internal/model/match.go: comparing registers byte by byte is comparing numbers.
use Prim.Native.Nat.{compare, Ordering}
use whyopen.Prelude.{
  ℕ, ◌+◌, ◌*◌, ◌^◌, ◌<◌, ◌≡◌, refl, sym, ap, ◌∙◌, subst, Bool, not, Option, none, some, [], ◌∷◌,
  arith, All, ◌==◌, ltb, leb, length, Bytes, bytes_compare,
}
use native.Mathlib.Nat.{pow-suc}
use whyopen.Facts.Types.{CmpOp}
use whyopen.Model.Match.Exprs.{cmp_holds}

-- A byte, and a string of them.
abbrev pub AreBytes : Bytes → Type 0
AreBytes b = All (λ x. x < 256) b

-- The number that a register holds, its first byte the highest.
unfoldable pub big_endian : Bytes → ℕ
big_endian [] = 0
big_endian (x ∷ xs) = x * 256 ^ length xs + big_endian xs

big_endian-lt : (b : Bytes) → AreBytes b → big_endian b < 256 ^ length b
unfolding big_endian
big_endian-lt [] h = omega arith
big_endian-lt (x ∷ xs) (hx, h) = grind (arith, big_endian-lt xs h, pow-suc 256 (length xs))

digits_lt : (x y a b p : ℕ) → x < y → a < p → b < p → x * p + a < y * p + b
digits_lt x y a b p h ha hb = grind arith

compare_digits :
    (x y a b p : ℕ)
    → a < p
    → b < p
    → ◌≡◌ {A = Ordering}
        (elim (compare x y) [
          | Ordering.lt ↦ Ordering.lt
          | Ordering.eq ↦ compare a b
          | Ordering.gt ↦ Ordering.gt
        ])
        (compare (x * p + a) (y * p + b))
compare_digits x y a b p ha hb = ground (arith, digits_lt x y a b p, digits_lt y x b a p)

-- For two byte strings of one length the order of `bytes.Compare` is the order of the numbers.
pub bytes_compare-eq-compare :
    (a b : Bytes)
    → length a ≡ length b
    → AreBytes a
    → AreBytes b
    → bytes_compare a b ≡ compare (big_endian a) (big_endian b)
unfolding big_endian
bytes_compare-eq-compare [] [] e ha hb = refl
bytes_compare-eq-compare [] (y ∷ ys) e ha hb = absurd (omega arith)
bytes_compare-eq-compare (x ∷ xs) [] e ha hb = absurd (omega arith)
bytes_compare-eq-compare (x ∷ xs) (y ∷ ys) e (hx, ha) (hy, hb) =
    let same : length xs ≡ length ys = omega arith in
    ap
      (λ r. elim (compare x y) [
        | Ordering.lt ↦ Ordering.lt
        | Ordering.eq ↦ r
        | Ordering.gt ↦ Ordering.gt
      ])
      (bytes_compare-eq-compare xs ys same ha hb)
    ∙ (subst
        (λ n.
          elim (compare x y) [
            | Ordering.lt ↦ Ordering.lt
            | Ordering.eq ↦ compare (big_endian xs) (big_endian ys)
            | Ordering.gt ↦ Ordering.gt
          ]
          ≡ compare (x * 256 ^ length xs + big_endian xs) (y * 256 ^ n + big_endian ys))
        same
        (compare_digits x y (big_endian xs) (big_endian ys) (256 ^ length xs) (big_endian-lt xs ha)
          (subst (λ n. big_endian ys < 256 ^ n) (sym same) (big_endian-lt ys hb))))

-- What the operators of a comparison mean on numbers.
abbrev pub numeric_holds : CmpOp → ℕ → ℕ → Option Bool
numeric_holds CmpOp.eq m n = some (m == n)
numeric_holds CmpOp.neq m n = some (not (m == n))
numeric_holds CmpOp.lt m n = some (ltb m n)
numeric_holds CmpOp.lte m n = some (leb m n)
numeric_holds CmpOp.gt m n = some (ltb n m)
numeric_holds CmpOp.gte m n = some (leb n m)
numeric_holds (CmpOp.unnamed text) m n = none

holds_of_compare :
    (op : CmpOp) (v b : Bytes) (m n : ℕ)
    → bytes_compare v b ≡ compare m n
    → cmp_holds op v b ≡ numeric_holds op m n
unfolding cmp_holds
holds_of_compare CmpOp.eq v b m n h = ground arith
holds_of_compare _ v b m n h = ground arith

-- Every operator of a `Cmp` on a register prefix as wide as its operand is the comparison of the
-- numbers that the two hold, and an operator with no name decides nothing.
pub cmp_holds-eq-numeric :
    (op : CmpOp) (v b : Bytes)
    → length v ≡ length b
    → AreBytes v
    → AreBytes b
    → cmp_holds op v b ≡ numeric_holds op (big_endian v) (big_endian b)
cmp_holds-eq-numeric op v b e hv hb =
    holds_of_compare op v b _ _ (bytes_compare-eq-compare v b e hv hb)
