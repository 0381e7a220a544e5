-- ===== src/Model/Match/Sets.antt =====
-- internal/model/match.go: membership of a register in an nftables set. `none` is the second result
-- `false`, by which the lookup refuses.
use whyopen.Prelude.{
  ℕ, Bool, true, false, ◌&&◌, ◌||◌, not, Option, none, some, List, [], ◌∷◌, ◌==◌, ltb,
  if◌then◌else◌, length, take, any, Bytes, bytes_compare, is_lt, hex_decode, str_eq,
}
use whyopen.Facts.Types.{LookupExpr, ElementSet, SetElement}
use whyopen.Netip.{bytes_eq}

unfoldable pub find_set : LookupExpr → List ElementSet → Option ElementSet
find_set lk [] = none
find_set lk (s ∷ ss) =
    if not (str_eq lk.set "") && str_eq s.name lk.set
      || (str_eq lk.set "" && not (lk.set_id == 0) && s.id == lk.set_id)
    then some s
    else find_set lk ss

-- One element of an interval set: a start, or an exclusive end.
pub record Bound : Type 0 where
  pub key : Bytes
  pub end : Bool

-- `e.Val != "" || e.KeyEnd != ""`, on which both loops refuse.
carries_value : SetElement → Bool
carries_value e = not (str_eq e.val "") || not (str_eq e.key_end "")

-- `keyLen`, which the first element sets and the others must have.
abbrev same_length : Option ℕ → ℕ → Bool
same_length none n = true
same_length (some m) n = n == m

abbrev cons_bound : Bytes → Bool → Option (List Bound) → Option (List Bound)
cons_bound k e none = none
cons_bound k e (some bs) = some (record { key = k; end = e } ∷ bs)

-- The loop that both lookups share: every key decoded, and all of one length. The flat lookup
-- keeps no `end` flag and does not read it.
unfoldable pub collect : Option ℕ → List SetElement → Option (List Bound)
unfolding carries_value
collect key_len [] = some []
collect key_len (e ∷ es) = if carries_value e then none else elim (hex_decode e.key) [
  | none ↦ none
  | some k ↦
      if same_length key_len (length k)
      then cons_bound k e.interval_end (collect (some (length k)) es)
      else none
]

-- The common length of the keys.
abbrev pub width : List Bound → ℕ
width [] = 0
width (b ∷ bs) = length b.key

abbrev pub invert : Bool → Bool → Bool
invert true b = not b
invert false b = b

-- `slices.SortFunc` by key: an insertion sort, as Go's is up to twelve elements. On more, it gives
-- no promise on the order of equal keys; sorts of distinct keys agree.
unfoldable pub insert_bound : Bound → List Bound → List Bound
insert_bound b [] = b ∷ []
insert_bound b (c ∷ cs) =
    if is_lt (bytes_compare c.key b.key) then c ∷ insert_bound b cs else b ∷ c ∷ cs

unfoldable pub sort_bounds : List Bound → List Bound
unfolding insert_bound
sort_bounds [] = []
sort_bounds (b ∷ bs) = insert_bound b (sort_bounds bs)

-- `bytes.Compare(v, k) >= 0`.
abbrev pub at_least : Bytes → Bytes → Bool
at_least v k = not (is_lt (bytes_compare v k))

abbrev pub below : Bytes → Bytes → Bool
below v k = is_lt (bytes_compare v k)

-- The loop over the sorted bounds: `start` is the open interval, if there is one.
unfoldable pub scan : Bytes → Option Bytes → Bool → List Bound → Option Bool
scan v none member [] = some member
scan v (some s) member [] = some (member || at_least v s)
scan v start member (b ∷ bs) = elim b.end [
  | false ↦ elim start [ none ↦ scan v (some b.key) member bs | some s ↦ none ]
  | true ↦ elim start [
    | none ↦ scan v none member bs
    | some s ↦ scan v none (member || (at_least v s && below v b.key)) bs
  ]
]

abbrev pub map_invert : Bool → Option Bool → Option Bool
map_invert inv none = none
map_invert inv (some m) = some (invert inv m)

unfoldable pub interval_match : Bytes → LookupExpr → ElementSet → Option Bool
interval_match reg lk s = elim (collect none s.elements) [
  | none ↦ none
  | some bounds ↦
      if ltb (length reg) (width bounds)
      then none
      else map_invert lk.invert (scan (take (width bounds) reg) none false (sort_bounds bounds))
]

unfoldable pub flat_match : Bytes → LookupExpr → ElementSet → Option Bool
flat_match reg lk s = elim (collect none s.elements) [
  | none ↦ none
  | some keys ↦
      if ltb (length reg) (width keys)
      then none
      else some (invert lk.invert (any (λ b. bytes_eq (take (width keys) reg) b.key) keys))
]

abbrev pub is_empty {ℓ} : {A : Type ℓ} → List A → Bool
is_empty [] = true
is_empty (x ∷ xs) = false

unfoldable pub lookup_match : Bytes → LookupExpr → List ElementSet → Option Bool
lookup_match reg lk sets = elim (find_set lk sets) [
  | none ↦ none
  | some s ↦
      if s.is_map || s.concatenation || is_empty s.elements
      then none
      else (if s.interval then interval_match reg lk s else flat_match reg lk s)
]
