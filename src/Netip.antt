-- ===== src/Netip.antt =====
-- net/netip of Go's standard library, as far as the program uses it: addresses, their bytes, and
-- the prefixes that hold them. A version 6 address keeps its zone.
pub mod Parse
use whyopen.Prelude.{
  ℕ, ◌-◌, ◌/◌, ◌^◌, Bool, true, false, ◌&&◌, Option, none, some, [], ◌∷◌, ◌==◌, leb, if◌then◌else◌,
  length, take, drop, Bytes, bytes_compare, is_eq, ℤ, pos, negsuc,
}

pub data Addr : Type 0 where
  invalid : Addr
  v4 : Bytes → Addr
  v6 : Bytes → Bytes → Addr

abbrev pub bytes_eq : Bytes → Bytes → Bool
bytes_eq a b = is_eq (bytes_compare a b)

-- `a == b`.
abbrev pub addr_eq : Addr → Addr → Bool
addr_eq invalid invalid = true
addr_eq (v4 a) (v4 b) = bytes_eq a b
addr_eq (v6 a z) (v6 b y) = bytes_eq a b && bytes_eq z y
addr_eq _ _ = false

-- `AsSlice`.
abbrev pub as_slice : Addr → Bytes
as_slice invalid = []
as_slice (v4 b) = b
as_slice (v6 b z) = b

-- `AddrFromSlice`.
abbrev pub addr_from_slice : Bytes → Option Addr
addr_from_slice b =
    if length b == 4 then some (v4 b) else (if length b == 16 then some (v6 b []) else none)

abbrev pub is_valid : Addr → Bool
is_valid invalid = false
is_valid _ = true

abbrev pub is4 : Addr → Bool
is4 (v4 b) = true
is4 _ = false

abbrev pub is6 : Addr → Bool
is6 (v6 b z) = true
is6 _ = false

-- The first twelve bytes of an IPv4-mapped address.
abbrev mapped : Bytes
mapped = 0 ∷ 0 ∷ 0 ∷ 0 ∷ 0 ∷ 0 ∷ 0 ∷ 0 ∷ 0 ∷ 0 ∷ 0xff ∷ 0xff ∷ []

abbrev pub is4_in6 : Addr → Bool
is4_in6 (v6 b z) = bytes_eq (take 12 b) mapped
is4_in6 _ = false

abbrev pub unmap : Addr → Addr
unmap (v6 b z) = if bytes_eq (take 12 b) mapped then v4 (drop 12 b) else v6 b z
unmap a = a

-- Whether the first `n` bits of two byte strings agree.
pub same_bits : ℕ → Bytes → Bytes → Bool
same_bits n [] ys = true
same_bits n (x ∷ xs) [] = true
same_bits n (x ∷ xs) (y ∷ ys) =
    if leb 8 n then x == y && same_bits (n - 8) xs ys else x / 2 ^ (8 - n) == y / 2 ^ (8 - n)

abbrev bit_len : Addr → ℕ
bit_len invalid = 0
bit_len (v4 b) = 32
bit_len (v6 b z) = 128

abbrev zone_is_empty : Addr → Bool
zone_is_empty (v6 b z) = bytes_eq z []
zone_is_empty _ = true

-- `PrefixFrom(base, bits)` is valid: the length is neither negative nor past the address.
abbrev pub prefix_is_valid : Addr → ℤ → Bool
prefix_is_valid base (pos n) = is_valid base && leb n (bit_len base)
prefix_is_valid base (negsuc n) = false

-- `PrefixFrom(base, bits).Contains(ip)`.
pub prefix_contains : Addr → ℤ → Addr → Bool
unfolding same_bits
prefix_contains base (negsuc n) ip = false
prefix_contains base (pos n) ip =
    prefix_is_valid base (pos n)
    && zone_is_empty ip
    && bit_len base == bit_len ip
    && same_bits n (as_slice base) (as_slice ip)
