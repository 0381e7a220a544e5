-- ===== src/Model/Match/Interval.antt =====
-- internal/model/match.go, `intervalMatch`: what membership in an interval set means.
use whyopen.Prelude.{
  ◌≡◌, ◌≤◌, refl, Bool, true, false, not, ◌||◌, ◌&&◌, Option, none, some, List, [], ◌∷◌, arith, All,
  if◌then◌else◌, length, take, Bytes, bytes_compare, is_lt, inl, inr, Bool-cases,
}
use whyopen.Facts.Types.{LookupExpr, ElementSet}
use whyopen.Model.Match.Sets.{
  Bound, collect, width, invert, insert_bound, sort_bounds, at_least, below, scan, interval_match,
}

-- The independent reading of a list of bounds in ascending order: a value is in the set when the
-- last bound at or below it is a start. `inside` is what the bounds before the list say.
abbrev pub inside_after : Bytes → Bool → List Bound → Bool
inside_after v inside [] = inside
inside_after v inside (b ∷ bs) = inside_after v (if at_least v b.key then not b.end else inside) bs

-- `bytes.Compare` as an order.
lt_of_lt-of-le :
    (a b c : Bytes)
    → is_lt (bytes_compare a b) ≡ true
    → is_lt (bytes_compare c b) ≡ false
    → is_lt (bytes_compare a c) ≡ true
lt_of_lt-of-le [] [] c h k = cc
lt_of_lt-of-le [] (y ∷ b) [] h k = cc
lt_of_lt-of-le [] (y ∷ b) (z ∷ c) h k = refl
lt_of_lt-of-le (x ∷ a) [] c h k = cc
lt_of_lt-of-le (x ∷ a) (y ∷ b) [] h k = cc
lt_of_lt-of-le (x ∷ a) (y ∷ b) (z ∷ c) h k = ground (arith, lt_of_lt-of-le a b c)

le_total : (a b : Bytes) → is_lt (bytes_compare a b) ≡ true → is_lt (bytes_compare b a) ≡ false
le_total [] b h = ground arith
le_total (x ∷ a) [] h = cc
le_total (x ∷ a) (y ∷ b) h = ground (arith, le_total a b)

-- Every key of the list is above the value.
abbrev AllAbove : Bytes → List Bound → Type 0
AllAbove v bs = All (λ b. below v b.key ≡ true) bs

-- Ascending keys, with equal ones allowed.
abbrev NoneBelow : Bytes → List Bound → Type 0
NoneBelow k bs = All (λ b. below b.key k ≡ false) bs

abbrev IsAscending : List Bound → Type 0
IsAscending [] = Unit
IsAscending (b ∷ bs) = NoneBelow b.key bs × IsAscending bs

AllAbove-of-NoneBelow :
    (v k : Bytes) (bs : List Bound) → below v k ≡ true → NoneBelow k bs → AllAbove v bs
AllAbove-of-NoneBelow v k [] h n = tt
AllAbove-of-NoneBelow v k (b ∷ bs) h (n, ns) =
    (lt_of_lt-of-le v k b.key h n, AllAbove-of-NoneBelow v k bs h ns)

insert_bound-NoneBelow :
    (k : Bytes) (b : Bound) (bs : List Bound)
    → below b.key k ≡ false
    → NoneBelow k bs
    → NoneBelow k (insert_bound b bs)
unfolding insert_bound
insert_bound-NoneBelow k b [] h n = (h, tt)
insert_bound-NoneBelow k b (c ∷ cs) h n = ground (arith, insert_bound-NoneBelow k b cs)

NoneBelow-le : (j k : Bytes) (bs : List Bound) → below k j ≡ false → NoneBelow k bs → NoneBelow j bs
NoneBelow-le j k [] h n = tt
NoneBelow-le j k (b ∷ bs) h (n, ns) =
    (ground (arith, lt_of_lt-of-le b.key j k), NoneBelow-le j k bs h ns)

insert_bound-IsAscending :
    (b : Bound) (bs : List Bound) → IsAscending bs → IsAscending (insert_bound b bs)
unfolding insert_bound
insert_bound-IsAscending b [] h = (tt, tt)
insert_bound-IsAscending b (c ∷ cs) (n, h) = elim (Bool-cases (is_lt (bytes_compare c.key b.key))) [
  | inl less ↦ rw less (
    insert_bound-NoneBelow c.key b cs (le_total c.key b.key less) n,
    insert_bound-IsAscending b cs h,
  )
  | inr more ↦ rw more ((more, NoneBelow-le b.key c.key cs more n), (n, h))
]

sort_bounds-IsAscending : (bs : List Bound) → IsAscending (sort_bounds bs)
unfolding sort_bounds
sort_bounds-IsAscending [] = tt
sort_bounds-IsAscending (b ∷ bs) =
    insert_bound-IsAscending b (sort_bounds bs) (sort_bounds-IsAscending bs)

-- What the loop knows of the bounds that it has passed: with an interval open, whether the value is
-- past its start; with a hit, that nothing ahead is at or below the value.
abbrev Passed : Bytes → Option Bytes → Bool → Bool → List Bound → Type 0
Passed v none false inside bs = inside ≡ false
Passed v (some s) false inside bs = inside ≡ at_least v s
Passed v start true inside bs = (inside ≡ true) × AllAbove v bs

scan-eq-inside_after :
    (v : Bytes) (start : Option Bytes) (member inside : Bool) (bs : List Bound) (hit : Bool)
    → IsAscending bs
    → Passed v start member inside bs
    → scan v start member bs ≡ some hit
    → hit ≡ inside_after v inside bs
unfolding scan
scan-eq-inside_after v none false inside [] hit h p e = ground arith
scan-eq-inside_after v none true inside [] hit h p e = ground arith
scan-eq-inside_after v (some s) false inside [] hit h p e = ground arith
scan-eq-inside_after v (some s) true inside [] hit h p e = ground arith
scan-eq-inside_after v none false inside (b ∷ bs) hit (n, h) p e = ground (
  arith,
  scan-eq-inside_after v none false (if at_least v b.key then not b.end else inside) bs hit h,
  scan-eq-inside_after v (some b.key) false (if at_least v b.key then not b.end else inside) bs hit
      h,
)
scan-eq-inside_after v none true inside (b ∷ bs) hit (n, h) p e = ground (
  arith,
  scan-eq-inside_after v none true (if at_least v b.key then not b.end else inside) bs hit h,
  scan-eq-inside_after v (some b.key) true (if at_least v b.key then not b.end else inside) bs hit
      h,
)
scan-eq-inside_after v (some s) false inside (b ∷ bs) hit (n, h) p e = ground (
  arith,
  AllAbove-of-NoneBelow v b.key bs,
  scan-eq-inside_after v none false (if at_least v b.key then not b.end else inside) bs hit h,
  scan-eq-inside_after v none true (if at_least v b.key then not b.end else inside) bs hit h,
)
scan-eq-inside_after v (some s) true inside (b ∷ bs) hit (n, h) p e = ground (
  arith,
  scan-eq-inside_after v none true (if at_least v b.key then not b.end else inside) bs hit h,
)

-- No interval starts while another one is open: `within` says whether one is before the list.
abbrev pub nests : Bool → List Bound → Bool
nests within [] = true
nests within (b ∷ bs) = (b.end || not within) && nests (not b.end) bs

abbrev is_open : Option Bytes → Bool
is_open none = false
is_open (some s) = true

scan-answers :
    (v : Bytes) (start : Option Bytes) (member : Bool) (bs : List Bound)
    → nests (is_open start) bs ≡ true
    → (m : Bool) × (scan v start member bs ≡ some m)
unfolding scan
scan-answers v none member [] h = (member, refl)
scan-answers v (some s) member [] h = (member || at_least v s, refl)
scan-answers v none member (b ∷ bs) h = elim (Bool-cases b.end) [
  | inl e ↦ rw e (scan-answers v none member bs (ground arith))
  | inr e ↦ rw e (scan-answers v (some b.key) member bs (ground arith))
]
scan-answers v (some s) member (b ∷ bs) h = elim (Bool-cases b.end) [
  | inl e ↦ rw e (scan-answers v none (member || (at_least v s && below v b.key)) bs (ground arith))
  | inr e ↦ absurd (ground arith)
]

-- `intervalMatch` answers where the register is as wide as the keys and no interval starts inside
-- another, and it answers by the last bound at or below the value in ascending order: the value is
-- in the set when that bound is a start and outside when it is an end or when there is none;
-- `Invert` turns the answer round.
pub interval_match-eq-inside_after :
    (reg : Bytes) (lk : LookupExpr) (s : ElementSet) (bounds : List Bound)
    → collect none s.elements ≡ some bounds
    → width bounds ≤ length reg
    → nests false (sort_bounds bounds) ≡ true
    → interval_match reg lk s
      ≡ some (invert lk.invert (inside_after (take (width bounds) reg) false (sort_bounds bounds)))
unfolding interval_match
interval_match-eq-inside_after reg lk s bounds c wide h =
    let v = take (width bounds) reg in
    let (m, answered) = scan-answers v none false (sort_bounds bounds) h in
    let agrees =
      scan-eq-inside_after v none false false (sort_bounds bounds) m
        (sort_bounds-IsAscending bounds) refl answered in
    ground arith
