-- ===== src/Netip/Parse.antt =====
-- net/netip.ParseAddr: dotted decimal, and the hexadecimal groups of version 6 with an ellipsis, a
-- trailing dotted quad and a zone.
use whyopen.Prelude.{
  ℕ, zero, suc, ◌+◌, ◌-◌, ◌*◌, ◌/◌, ◌%◌, String, Bool, true, false, ◌&&◌, ◌||◌, not, Option, none,
  some, [], ◌∷◌, ◌++◌, ◌==◌, ltb, leb, if◌then◌else◌, length, take, drop, replicate, Bytes, bytes,
  hex_digit,
}
use whyopen.Netip.{Addr, v4, v6}

abbrev is_none {ℓ} : {A : Type ℓ} → Option A → Bool
is_none none = true
is_none (some a) = false

record Quad : Type 0 where
  val : ℕ
  digits : ℕ
  fields : Bytes

-- One byte of `parseIPv4Fields`: is it the first, does a dot stand before it, is it the last.
quad_step : Bool → Bool → Bool → Quad → ℕ → Option Quad
quad_step first after_dot last q c =
    if leb b'0' c && leb c b'9'
    then (if q.digits == 1 && q.val == 0
        then none
        else (if ltb 255 (q.val * 10 + (c - b'0'))
            then none
            else some (record q { val = q.val * 10 + (c - b'0'); digits = q.digits + 1 })))
    else (if c == b'.'
        then (if first || last || after_dot || length q.fields == 3
            then none
            else some (record { val = 0; digits = 0; fields = q.fields ++ (q.val ∷ []) }))
        else none)

abbrev is_empty : Bytes → Bool
is_empty [] = true
is_empty (c ∷ cs) = false

quad_loop : Bool → Bool → Quad → Bytes → Option Bytes
unfolding quad_step
quad_loop first after_dot q [] =
    if ltb (length q.fields) 3 then none else some (q.fields ++ (q.val ∷ []))
quad_loop first after_dot q (c ∷ cs) = elim (quad_step first after_dot (is_empty cs) q c) [
  | none ↦ none
  | some q' ↦ quad_loop false (c == b'.') q' cs
]

-- `parseIPv4Fields`.
parse_ipv4_fields : Bytes → Option Bytes
unfolding quad_loop
parse_ipv4_fields s = quad_loop true false (record { val = 0; digits = 0; fields = [] }) s

record Run : Type 0 where
  acc : ℕ
  digits : ℕ
  rest : Bytes

-- The digits of one group; a fifth one fails.
hex_run : ℕ → ℕ → Bytes → Option Run
hex_run acc n [] = some (record { acc = acc; digits = n; rest = [] })
hex_run acc n (c ∷ cs) = elim (hex_digit c) [
  | none ↦ some (record { acc = acc; digits = n; rest = c ∷ cs })
  | some d ↦ elim (ltb 3 n) [ true ↦ none | false ↦ hex_run (acc * 16 + d) (n + 1) cs ]
]

-- What follows the loop of `parseIPv6`: the ellipsis stands for at least one group of zeros.
expand : Bytes → Bytes → Option ℕ → Option Bytes
expand (c ∷ cs) ip ellipsis = none
expand [] ip none = if ltb (length ip) 16 then none else some ip
expand [] ip (some at) =
    if ltb (length ip) 16
    then some (take at ip ++ replicate (16 - length ip) 0 ++ drop at ip)
    else none

-- A trailing dotted quad, which ends the loop.
trailing_quad : Bytes → Bytes → Option ℕ → Option Bytes
unfolding parse_ipv4_fields expand
trailing_quad s ip ellipsis =
    if is_none ellipsis && not (length ip == 12)
    then none
    else (if ltb 16 (length ip + 4)
        then none
        else elim (parse_ipv4_fields s) [ none ↦ none | some fs ↦ expand [] (ip ++ fs) ellipsis ])

-- What follows the digits of a group: the end, a colon, an ellipsis.
after_group : (Bytes → Bytes → Option ℕ → Option Bytes) → Bytes → Option ℕ → Bytes → Option Bytes
unfolding expand
after_group more ip ellipsis [] = expand [] ip ellipsis
after_group more ip ellipsis (c ∷ []) = none
after_group more ip ellipsis (c ∷ d ∷ []) =
    if not (c == b':')
    then none
    else (if d == b':'
        then (if is_none ellipsis then expand [] ip (some (length ip)) else none)
        else more (d ∷ []) ip ellipsis)
after_group more ip ellipsis (c ∷ d ∷ cs) =
    if not (c == b':')
    then none
    else (if d == b':'
        then (if is_none ellipsis then more cs ip (some (length ip)) else none)
        else more (d ∷ cs) ip ellipsis)

abbrev starts_with_dot : Bytes → Bool
starts_with_dot [] = false
starts_with_dot (c ∷ cs) = c == b'.'

-- The loop of `parseIPv6`, at most eight groups.
groups : ℕ → Bytes → Bytes → Option ℕ → Option Bytes
unfolding hex_run trailing_quad after_group
groups zero s ip ellipsis = expand s ip ellipsis
groups (suc n) s ip ellipsis = elim (hex_run 0 0 s) [
  | none ↦ none
  | some r ↦
      if r.digits == 0
      then none
      else (if starts_with_dot r.rest
          then trailing_quad s ip ellipsis
          else after_group (groups n) (ip ++ (r.acc / 256 ∷ r.acc % 256 ∷ [])) ellipsis r.rest)
]

-- `parseIPv6`, of what stands before the zone.
parse_ipv6 : Bytes → Option Bytes
unfolding groups
parse_ipv6 (c ∷ d ∷ []) =
    if c == b':' && d == b':' then some (replicate 16 0) else groups 8 (c ∷ d ∷ []) [] none
parse_ipv6 (c ∷ d ∷ cs) =
    if c == b':' && d == b':' then groups 8 cs [] (some 0) else groups 8 (c ∷ d ∷ cs) [] none
parse_ipv6 s = groups 8 s [] none

-- The text before a byte, and what follows it if it is there.
cut : ℕ → Bytes → Bytes × Option Bytes
cut sep [] = ([], none)
cut sep (c ∷ cs) =
    let (before, after) = cut sep cs in if c == sep then ([], some cs) else (c ∷ before, after)

with_zone : Option Bytes → Bytes → Option Addr
with_zone none z = none
with_zone (some ip) z = some (v6 ip z)

zoned : Bytes × Option Bytes → Option Addr
unfolding parse_ipv6 with_zone
zoned (s, none) = with_zone (parse_ipv6 s) []
zoned (s, some []) = none
zoned (s, some (z ∷ zs)) = with_zone (parse_ipv6 s) (z ∷ zs)

unzoned : Option Bytes → Option Addr
unzoned none = none
unzoned (some fields) = some (v4 fields)

-- The first dot, colon or percent sign says which kind of address the text `s` is.
classify : Bytes → Bytes → Option Addr
unfolding parse_ipv4_fields zoned cut unzoned
classify s [] = none
classify s (c ∷ cs) =
    let rest = classify s cs in
    if c == b'.'
    then unzoned (parse_ipv4_fields s)
    else (if c == b':' then zoned (cut b'%' s) else (if c == b'%' then none else rest))

-- `ParseAddr`; `none` is its error.
unfoldable pub parse_addr : String → Option Addr
unfolding classify
parse_addr s = classify (bytes s) (bytes s)
