-- ===== src/Model/Forwards/Fields.antt =====
-- internal/model/forwards.go: what is read off one expression is within its bounds.
use whyopen.Prelude.{
  ℕ, ◌<◌, ◌≡◌, refl, ◌⊎◌, inr, String, Bool, true, false, ◌||◌, Option, none, some, List, [], ◌∷◌,
  arith, All, All-append, if◌then◌else◌, Bytes, hex_digit, hex_bytes, hex_decode, bytes,
  pair_digits,
}
use whyopen.Facts.Types.{CmpExpr, LookupExpr, SetElement, ElementSet}
use whyopen.Model.Match.Sets.{find_set, is_empty}
use whyopen.Model.Forwards.Types.{
  FwdMatch, FwdField, port_of_bytes, port_from_hex, proto_from_hex, add_port_or_refuse, flat_ports,
  is_plain, proto_of_bytes, cons_port, cmp_constraint, element_ports, set_ports,
}

-- A port of sixteen bits.
abbrev pub IsUint16 : ℕ → Type 0
IsUint16 n = n < 65536

abbrev IsByte : ℕ → Type 0
IsByte b = b < 256

hex_digit_small : (c d : ℕ) → hex_digit c ≡ some d → d < 16
hex_digit_small c d h = ground arith

-- Where a reading returns bytes, they are bytes.
abbrev AreBytes : Option Bytes → Type 0
AreBytes none = Unit
AreBytes (some b) = All IsByte b

pair_digits-AreBytes :
    (h l : Option ℕ) (b : Option Bytes)
    → ((d : ℕ) → h ≡ some d → d < 16)
    → ((d : ℕ) → l ≡ some d → d < 16)
    → AreBytes b
    → AreBytes (pair_digits h l b)
pair_digits-AreBytes (some h) (some l) (some b) hh hl k =
    let low = hl l refl in let high = hh h refl in (omega arith, k)
pair_digits-AreBytes none l b hh hl k = tt
pair_digits-AreBytes (some h) none b hh hl k = tt
pair_digits-AreBytes (some h) (some l) none hh hl k = tt

hex_bytes-AreBytes : (cs : Bytes) → AreBytes (hex_bytes cs)
unfolding hex_bytes
hex_bytes-AreBytes [] = tt
hex_bytes-AreBytes (c ∷ []) = tt
hex_bytes-AreBytes (c ∷ d ∷ cs) =
    pair_digits-AreBytes (hex_digit c) (hex_digit d) (hex_bytes cs) (hex_digit_small c)
      (hex_digit_small d) (hex_bytes-AreBytes cs)

port_of_bytes-IsUint16 :
    (o : Option Bytes) (p : ℕ) → AreBytes o → port_of_bytes o ≡ some p → IsUint16 p
port_of_bytes-IsUint16 none p h k = ground arith
port_of_bytes-IsUint16 (some []) p h k = ground arith
port_of_bytes-IsUint16 (some (a ∷ [])) p h k = ground arith
port_of_bytes-IsUint16 (some (a ∷ b ∷ [])) p (ha, hb) k = ground arith
port_of_bytes-IsUint16 (some (a ∷ b ∷ c ∷ d)) p h k = ground arith

port_from_hex-IsUint16 : (s : String) (p : ℕ) → port_from_hex s ≡ some p → IsUint16 p
unfolding port_from_hex hex_decode
port_from_hex-IsUint16 s p h =
    port_of_bytes-IsUint16 (hex_decode s) p (hex_bytes-AreBytes (bytes s)) h

-- The protocol of a match: none, one with ports, or another.
abbrev pub IsMatchProto : String → Type 0
IsMatchProto p = (p ≡ "") ⊎ (p ≡ "tcp") ⊎ (p ≡ "udp") ⊎ (p ≡ "other")

pub record IsMatch (m : FwdMatch) : Type 0 where
  pub proto : IsMatchProto m.proto
  pub ports : All IsUint16 m.ports

proto_of_bytes-IsMatchProto : (o : Option Bytes) → IsMatchProto (proto_of_bytes o)
proto_of_bytes-IsMatchProto none = inr (inr (inr refl))
proto_of_bytes-IsMatchProto (some []) = inr (inr (inr refl))
proto_of_bytes-IsMatchProto (some (b ∷ c ∷ d)) = inr (inr (inr refl))
proto_of_bytes-IsMatchProto (some (b ∷ [])) = ground arith

proto_from_hex-IsMatchProto : (s : String) → IsMatchProto (proto_from_hex s)
unfolding proto_from_hex
proto_from_hex-IsMatchProto s = proto_of_bytes-IsMatchProto (hex_decode s)

add_port_or_refuse-IsMatch :
    (m : FwdMatch) (o : Option ℕ)
    → IsMatch m
    → ((p : ℕ) → o ≡ some p → IsUint16 p)
    → IsMatch (add_port_or_refuse m o)
unfolding add_port_or_refuse
add_port_or_refuse-IsMatch m none h k = record { proto = h.proto; ports = h.ports }
add_port_or_refuse-IsMatch m (some p) h k = record {
  proto = h.proto;
  ports = All-append IsUint16 m.ports (p ∷ []) h.ports (k p refl, tt);
}

pub if_kept {ℓ κ} :
    {A : Type ℓ} (P : A → Type κ) (c : Bool) (a b : A) → P a → P b → P (if c then a else b)
if_kept P true a b h k = h
if_kept P false a b h k = k

pub if_else {ℓ κ} :
    {A : Type ℓ} (P : A → Type κ) (c : Bool) (a b : A) → c ≡ false → P b → P (if c then a else b)
if_else P true a b h k = absurd (ground arith)
if_else P false a b h k = k

pub cmp_constraint-IsMatch :
    (m : FwdMatch) (f : FwdField) (c : CmpExpr) → IsMatch m → IsMatch (cmp_constraint m f c)
unfolding cmp_constraint
cmp_constraint-IsMatch m FwdField.dport c h =
    if_kept IsMatch _ _ _ (record { proto = h.proto; ports = h.ports })
      (add_port_or_refuse-IsMatch m (port_from_hex c.hex) h (port_from_hex-IsUint16 c.hex))
cmp_constraint-IsMatch m FwdField.l4proto c h =
    if_kept IsMatch _ _ _ (record { proto = h.proto; ports = h.ports })
      (record { proto = proto_from_hex-IsMatchProto c.hex; ports = h.ports })
cmp_constraint-IsMatch m FwdField.unset c h = h
cmp_constraint-IsMatch m FwdField.other c h = h

-- Where a set is read, its ports are ports.
abbrev pub ArePorts : Option (List ℕ) → Type 0
ArePorts none = Unit
ArePorts (some ps) = All IsUint16 ps

cons_port-ArePorts :
    (o : Option ℕ) (ps : Option (List ℕ))
    → ((p : ℕ) → o ≡ some p → IsUint16 p)
    → ArePorts ps
    → ArePorts (cons_port o ps)
cons_port-ArePorts none ps h k = tt
cons_port-ArePorts (some p) none h k = tt
cons_port-ArePorts (some p) (some ps) h k = (h p refl, k)

element_ports-ArePorts : (els : List SetElement) → ArePorts (element_ports els)
unfolding element_ports
element_ports-ArePorts [] = tt
element_ports-ArePorts (el ∷ els) =
    if_kept ArePorts (is_plain el) (cons_port (port_from_hex el.key) (element_ports els)) none
      (cons_port-ArePorts _ _ (port_from_hex-IsUint16 el.key) (element_ports-ArePorts els)) tt

flat_ports-ArePorts : (o : Option ElementSet) → ArePorts (flat_ports o)
unfolding flat_ports
flat_ports-ArePorts none = tt
flat_ports-ArePorts (some s) =
    if_kept ArePorts (s.interval || s.is_map || s.concatenation || is_empty s.elements) none _ tt
      (element_ports-ArePorts s.elements)

pub set_ports-ArePorts : (sets : List ElementSet) (lk : LookupExpr) → ArePorts (set_ports sets lk)
unfolding set_ports
set_ports-ArePorts sets lk =
    if_kept ArePorts (lk.invert || lk.is_dest_reg_set) none _ tt
      (flat_ports-ArePorts (find_set lk sets))
