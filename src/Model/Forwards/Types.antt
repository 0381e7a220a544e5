-- ===== src/Model/Forwards/Types.antt =====
-- internal/model/forwards.go: what the scan for destination rewrites carries, and what it reads off one
-- expression.
use whyopen.Prelude.{
  ℕ, String, Bool, false, ◌&&◌, ◌||◌, not, Option, none, some, List, [], ◌∷◌, ◌++◌, ◌==◌,
  if◌then◌else◌, Bytes, hex_decode, str_eq,
}
use whyopen.Facts.Types.{
  CmpOp, PayloadBase, PayloadExpr, CmpExpr, LookupExpr, NatExpr, DnatInfo, ElementSet, SetElement,
}
use whyopen.Netip.{Addr, invalid, addr_from_slice, is_valid, is4, is4_in6}
use whyopen.Netip.Parse.{parse_addr}
use whyopen.Model.Match.Fields.{get_uint16}
use whyopen.Model.Match.Sets.{find_set, is_empty}

-- Why the ports cannot be enumerated.
pub data Refusal : Type 0 where
  masked ranged unreadable_set not_a_port : Refusal
  port_compared proto_compared : CmpOp → Refusal

-- `fwdMatch`: the protocol is empty where nothing constrains it, and "other" for one without ports.
pub record FwdMatch : Type 0 where
  pub proto : String
  pub ports : List ℕ
  pub refuse : Option Refusal

-- `fwdField`.
pub data FwdField : Type 0 where
  unset dport l4proto other : FwdField

-- `fwdTarget`: port zero keeps the port that the packet arrived on.
pub record FwdTarget : Type 0 where
  pub addr : Addr
  pub port : ℕ

abbrev pub port_of_bytes : Option Bytes → Option ℕ
port_of_bytes none = none
port_of_bytes (some b) = get_uint16 b

-- `portFromHex`.
unfoldable pub port_from_hex : String → Option ℕ
port_from_hex s = port_of_bytes (hex_decode s)

abbrev pub proto_of_bytes : Option Bytes → String
proto_of_bytes (some (b ∷ [])) = if b == 6 then "tcp" else (if b == 17 then "udp" else "other")
proto_of_bytes _ = "other"

-- `protoFromHex`.
unfoldable pub proto_from_hex : String → String
proto_from_hex s = proto_of_bytes (hex_decode s)

abbrev is_transport : PayloadBase → Bool
is_transport PayloadBase.transport = Bool.true
is_transport _ = false

abbrev is_network : PayloadBase → Bool
is_network PayloadBase.network = Bool.true
is_network _ = false

-- `payloadField`.
unfoldable pub payload_field : PayloadExpr → FwdField
payload_field p =
    if is_transport p.base && p.offset == 2 && p.len == 2
    then FwdField.dport
    else (if is_network p.base && p.len == 1 && (p.offset == 9 || p.offset == 6)
        then FwdField.l4proto
        else FwdField.other)

abbrev is_eq_op : CmpOp → Bool
is_eq_op CmpOp.eq = Bool.true
is_eq_op _ = false

unfoldable pub add_port_or_refuse : FwdMatch → Option ℕ → FwdMatch
add_port_or_refuse m none = record m { refuse = some Refusal.not_a_port }
add_port_or_refuse m (some p) = record m { ports = m.ports ++ (p ∷ []) }

-- `cmpConstraint`.
unfoldable pub cmp_constraint : FwdMatch → FwdField → CmpExpr → FwdMatch
unfolding add_port_or_refuse port_from_hex proto_from_hex
cmp_constraint m FwdField.dport c =
    if not (is_eq_op c.op)
    then record m { refuse = some (Refusal.port_compared c.op) }
    else add_port_or_refuse m (port_from_hex c.hex)
cmp_constraint m FwdField.l4proto c =
    if not (is_eq_op c.op)
    then record m { refuse = some (Refusal.proto_compared c.op) }
    else record m { proto = proto_from_hex c.hex }
cmp_constraint m _ c = m

abbrev pub is_plain : SetElement → Bool
is_plain el = str_eq el.val "" && str_eq el.key_end "" && not el.interval_end

abbrev pub cons_port : Option ℕ → Option (List ℕ) → Option (List ℕ)
cons_port (some p) (some ps) = some (p ∷ ps)
cons_port _ _ = none

-- The loop of `setPorts`.
unfoldable pub element_ports : List SetElement → Option (List ℕ)
unfolding port_from_hex
element_ports [] = some []
element_ports (el ∷ els) =
    let rest = element_ports els in
    if is_plain el then cons_port (port_from_hex el.key) rest else none

unfoldable pub flat_ports : Option ElementSet → Option (List ℕ)
unfolding element_ports
flat_ports none = none
flat_ports (some s) =
    if s.interval || s.is_map || s.concatenation || is_empty s.elements
    then none
    else element_ports s.elements

-- `setPorts`.
unfoldable pub set_ports : List ElementSet → LookupExpr → Option (List ℕ)
unfolding flat_ports find_set
set_ports sets lk = if lk.invert || lk.is_dest_reg_set then none else flat_ports (find_set lk sets)

abbrev addr_of : Option Addr → Addr
addr_of none = invalid
addr_of (some a) = a

abbrev addr_of_bytes : Option Bytes → Addr
addr_of_bytes none = invalid
addr_of_bytes (some b) = addr_of (addr_from_slice b)

addr_of_text : Option String → Addr
addr_of_text none = invalid
addr_of_text (some raw) = addr_of_bytes (hex_decode raw)

-- `imm[r]`, empty where nothing was written.
abbrev text_of : Option String → String
text_of none = ""
text_of (some s) = s

abbrev port_or_zero : Option ℕ → ℕ
port_or_zero none = 0
port_or_zero (some p) = p

-- `nativeTarget`.
unfoldable pub native_target : NatExpr → (ℕ → Option String) → FwdTarget
unfolding addr_of_text port_from_hex
native_target n imm = record {
  addr = addr_of_text (imm n.addr_register);
  port =
      if not (n.proto_register == 0)
      then port_or_zero (port_from_hex (text_of (imm n.proto_register)))
      else 0;
}

-- `xtTarget`.
unfoldable pub xt_target : DnatInfo → FwdTarget
xt_target d = record { addr = addr_of (parse_addr d.min_ip); port = d.min_port }

-- `tableFamilies`.
unfoldable pub table_families : String → List String
table_families family =
    if str_eq family "ip"
    then "ip" ∷ []
    else (if str_eq family "ip6"
        then "ip6" ∷ []
        else (if str_eq family "inet" then "ip" ∷ "ip6" ∷ [] else []))

-- `families`, of a table's family and a target.
unfoldable pub families : String → FwdTarget → List String
unfolding table_families
families family t =
    if not (str_eq family "inet") || not (is_valid t.addr)
    then table_families family
    else (if is4 t.addr || is4_in6 t.addr then "ip" ∷ [] else "ip6" ∷ [])

-- `fwdProtos`.
unfoldable pub fwd_protos : String → List String
fwd_protos proto = if str_eq proto "" then "tcp" ∷ "udp" ∷ [] else proto ∷ []
