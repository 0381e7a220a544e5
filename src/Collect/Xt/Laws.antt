-- ===== src/Collect/Xt/Laws.antt =====
-- internal/collect/nftconv.go with internal/model/match.go: what a decoded mask decides of a packet.
use whyopen.Prelude.{
  ℕ, zero, suc, ◌+◌, ◌*◌, ◌/◌, ◌%◌, ◌<◌, ◌≡◌, refl, ◌∙◌, ap, ◌↔◌, inl, inr, Bool-cases, leb, String,
  Bool, true, false, ◌&&◌, ◌||◌, not, none, some, List, [], ◌∷◌, ◌==◌, if◌then◌else◌, arith, any,
  all, Bytes, str_eq,
}
use whyopen.Model.Packet.{Packet}
use whyopen.Model.Match.Xt.{
  contains, decided, xt_conntrack, xt_addrtype, known_addr_types, xt_expr, is_empty, address_types,
  role_hit,
}
use whyopen.Collect.Xt.{
  has_bit, names_of, named_bits, ct_state_names, addr_type_names, other_flags, conntrack,
  addr_types, convert_xt,
}
use whyopen.Collect.Nft.{XtInfo}

-- Whether the match is undone by its flag.
abbrev pub flip : Bool → Bool → Bool
flip inv b = if inv then not b else b

-- A name is among those of a mask exactly when some bit of that name is set.
contains-names_of :
    (mask : ℕ) (bits : List (ℕ × String)) (s : String)
    → contains (names_of mask bits) s ≡ any (λ b. has_bit mask b.0 && str_eq b.1 s) bits
unfolding names_of
contains-names_of mask [] s = refl
contains-names_of mask ((bit, name) ∷ bits) s = elim (Bool-cases (has_bit mask bit)) [
  | inl q ↦ rw q (ap (λ b. str_eq name s || b) (contains-names_of mask bits s))
  | inr q ↦ rw q (contains-names_of mask bits s)
]

new_named : (mask : ℕ) → contains (names_of mask ct_state_names) "new" ≡ has_bit mask 0x8
new_named mask = contains-names_of mask ct_state_names "new" ∙ ground arith

local_named : (mask : ℕ) → contains (names_of mask addr_type_names) "local" ≡ has_bit mask 0x4
local_named mask = contains-names_of mask addr_type_names "local" ∙ ground arith

unicast_named : (mask : ℕ) → contains (names_of mask addr_type_names) "unicast" ≡ has_bit mask 0x2
unicast_named mask = contains-names_of mask addr_type_names "unicast" ∙ ground arith

choose_bit : (x bit rest : ℕ) → x < 2 → (if x == 1 then bit + rest else rest) ≡ x * bit + rest
choose_bit zero bit rest h = ground arith
choose_bit (suc zero) bit rest h = omega arith
choose_bit (suc (suc x)) bit rest h = absurd (omega arith)

named_bits-cons :
    (mask bit : ℕ) (name : String) (bits : List (ℕ × String))
    → named_bits mask ((bit, name) ∷ bits) ≡ mask / bit % 2 * bit + named_bits mask bits
unfolding named_bits
named_bits-cons mask bit name bits =
    choose_bit (mask / bit % 2) bit (named_bits mask bits) (omega arith)

named_bits-nil : (mask : ℕ) → named_bits mask [] ≡ 0
unfolding named_bits
named_bits-nil mask = refl

-- The bits that have a name are the six lowest.
named_bits-eq : (mask : ℕ) → named_bits mask addr_type_names ≡ mask % 64
named_bits-eq mask = omega (
  arith,
  named_bits-cons mask 0x1 "unspec" _,
  named_bits-cons mask 0x2 "unicast" _,
  named_bits-cons mask 0x4 "local" _,
  named_bits-cons mask 0x8 "broadcast" _,
  named_bits-cons mask 0x10 "anycast" _,
  named_bits-cons mask 0x20 "multicast" [],
  named_bits-nil mask,
)

-- Every bit of a mask is named exactly when the mask is below the first bit that has no name.
pub addr_types_complete : (mask : ℕ) → (addr_types mask).1 ≡ true ↔ mask < 64
unfolding addr_types
addr_types_complete mask = ground (arith, named_bits-eq mask)

conntrack_decided :
    (pkt : Packet) (complete matches inv : Bool) (mask : ℕ)
    → pkt.ct_state ≡ "new"
    → xt_conntrack pkt complete (
        some (record {
          matches_state = matches;
          states = if matches then names_of mask ct_state_names else [];
          invert = inv;
        }))
      ≡ (if complete && matches then decided (flip inv (has_bit mask 0x8)) else none)
unfolding xt_conntrack
conntrack_decided pkt false matches inv mask h = refl
conntrack_decided pkt true false inv mask h = refl
conntrack_decided pkt true true inv mask h =
    ap (λ b. decided (flip inv b)) (ap (contains (names_of mask ct_state_names)) h ∙ new_named mask)

-- A conntrack match that constrains nothing but the state decides a packet of a new connection by the
-- bit of new connections in its mask, and by its flag for the reverse; any other is left undecided.
pub xt_expr-conntrack :
    (ip_string : Bytes → String) (pkt : Packet) (rev match_flags invert_flags mask : ℕ)
    → pkt.ct_state ≡ "new"
    → xt_expr pkt (
        convert_xt ip_string "match" "conntrack" rev
          (XtInfo.conntrack match_flags invert_flags mask))
      ≡ (if other_flags match_flags == 0 && has_bit match_flags 0x1
          then decided (flip (has_bit invert_flags 0x1) (has_bit mask 0x8))
          else none)
unfolding convert_xt xt_expr conntrack
xt_expr-conntrack ip_string pkt rev m i mask h =
    conntrack_decided pkt (other_flags m == 0) (has_bit m 0x1) (has_bit i 0x1) mask h

-- A table names only types that the evaluator knows.
known_names :
    (mask : ℕ) (bits : List (ℕ × String))
    → all (λ b. contains address_types b.1) bits ≡ true
    → known_addr_types (names_of mask bits) ≡ true
unfolding known_addr_types names_of
known_names mask [] h = refl
known_names mask ((bit, name) ∷ bits) h = elim (Bool-cases (has_bit mask bit)) [
  | inl q ↦ rw q (ground (arith, known_names mask bits))
  | inr q ↦ rw q (known_names mask bits (ground arith))
]

names_of-nil :
    (mask : ℕ) (bits : List (ℕ × String))
    → is_empty (names_of mask bits) ≡ true
    → named_bits mask bits ≡ 0
unfolding named_bits names_of
names_of-nil mask [] h = refl
names_of-nil mask ((bit, name) ∷ bits) h = ground (arith, h, names_of-nil mask bits)

names_empty : (mask : ℕ) → mask < 64 → is_empty (names_of mask addr_type_names) ≡ (mask == 0)
unfolding names_of
names_empty zero h = refl
names_empty (suc n) h = ground (arith, names_of-nil (suc n) addr_type_names, named_bits-eq (suc n))

-- What a mask asks of the type that its bit stands for: nothing where it is empty.
abbrev pub asks : ℕ → Bool → ℕ → Bool
asks mask inv bit = if mask == 0 then true else flip inv (has_bit mask bit)

role_hit-asks :
    (mask bit : ℕ) (inv : Bool) (role : String)
    → mask < 64
    → contains (names_of mask addr_type_names) role ≡ has_bit mask bit
    → role_hit (names_of mask addr_type_names) inv role ≡ asks mask inv bit
role_hit-asks mask bit inv role h k = rw (names_empty mask h, k) refl

addrtype_decided :
    (pkt : Packet) (dest source : ℕ) (inv_dest inv_source : Bool)
    → dest < 64
    → source < 64
    → xt_addrtype pkt true (
        some (record {
          dest_types = names_of dest addr_type_names;
          source_types = names_of source addr_type_names;
          invert_dest = inv_dest;
          invert_source = inv_source;
        }))
      ≡ (if dest == 0 && source == 0
          then none
          else decided (
              asks dest inv_dest (if pkt.dst_is_local then 0x4 else 0x2)
              && asks source inv_source 0x2))
unfolding xt_addrtype known_addr_types
addrtype_decided pkt dest source inv_dest inv_source hd hs = elim (Bool-cases pkt.dst_is_local) [
  | inl q ↦
      rw
        (
          q,
          known_names dest addr_type_names refl,
          known_names source addr_type_names refl,
          role_hit-asks dest 0x4 inv_dest "local" hd (local_named dest),
          role_hit-asks source 0x2 inv_source "unicast" hs (unicast_named source),
          names_empty dest hd,
          names_empty source hs,
        )
        refl
  | inr q ↦
      rw
        (
          q,
          known_names dest addr_type_names refl,
          known_names source addr_type_names refl,
          role_hit-asks dest 0x2 inv_dest "unicast" hd (unicast_named dest),
          role_hit-asks source 0x2 inv_source "unicast" hs (unicast_named source),
          names_empty dest hd,
          names_empty source hs,
        )
        refl
]

-- A payload that limits the match to an interface, or names a type outside the table, is not decoded.
abbrev pub is_partial : ℕ → ℕ → ℕ → Bool
is_partial dest source flags =
    has_bit flags 0x4 || has_bit flags 0x8 || leb 64 dest || leb 64 source

decoded-not-is_partial :
    (dest source flags : ℕ)
    → (not (has_bit flags 0x4)
        && not (has_bit flags 0x8)
        && (addr_types dest).1
        && (addr_types source).1)
      ≡ not (is_partial dest source flags)
decoded-not-is_partial dest source flags =
    ground (arith, addr_types_complete dest, addr_types_complete source)

-- An addrtype match of revision 1, for all masks and flags. It is undecided where it limits the match to
-- an interface, names a type outside the table, or names no type at all. Otherwise it holds exactly when
-- the destination mask, where it names a type, has the bit of local addresses for a local destination
-- and of unicast addresses for any other, and the source mask, where it names a type, has the bit of
-- unicast addresses, each undone by its flag for the reverse.
pub xt_expr-addrtype :
    (ip_string : Bytes → String) (pkt : Packet) (rev dest source flags : ℕ)
    → xt_expr pkt
        (convert_xt ip_string "match" "addrtype" rev (XtInfo.addr_type_v1 dest source flags))
      ≡ (if is_partial dest source flags || dest == 0 && source == 0
          then none
          else decided (
              asks dest (has_bit flags 0x2) (if pkt.dst_is_local then 0x4 else 0x2)
              && asks source (has_bit flags 0x1) 0x2))
unfolding convert_xt xt_expr addr_types names_of xt_addrtype
xt_expr-addrtype ip_string pkt rev dest source flags =
    ap
      (λ c. xt_addrtype pkt c (
        some (record {
          dest_types = names_of dest addr_type_names;
          source_types = names_of source addr_type_names;
          invert_dest = has_bit flags 0x2;
          invert_source = has_bit flags 0x1;
        })))
      (decoded-not-is_partial dest source flags)
    ∙ elim (Bool-cases (is_partial dest source flags)) [
      | inl q ↦ rw q refl
      | inr q ↦ rw q (
          addrtype_decided pkt dest source (has_bit flags 0x2) (has_bit flags 0x1) (ground arith)
            (ground arith))
    ]
