-- ===== src/Model/Match/Fields.antt =====
-- internal/model/match.go: the bytes that an expression loads into a register. `none` is the second
-- result `false`, by which a load refuses. `binary.NativeEndian` is little-endian, as on the two
-- architectures that .goreleaser.yaml builds for.
use whyopen.Prelude.{
  ℕ, ◌+◌, ◌-◌, ◌*◌, ◌/◌, ◌%◌, String, Bool, true, false, ◌&&◌, ◌||◌, not, Option, none, some, [],
  ◌∷◌, ◌++◌, ◌==◌, ltb, if◌then◌else◌, length, take, drop, replicate, Bytes, bytes, str_eq,
}
use whyopen.Facts.Types.{
  PayloadBase, PayloadExpr, MetaKey, CtKey, FibQuery, FibExpr, NatExpr, ActionKind,
}
use whyopen.Netip.{Addr, as_slice, addr_from_slice}
use whyopen.Model.Packet.{Packet, Action}

abbrev pub ifname_len : ℕ
ifname_len = 16

-- `binary.NativeEndian.PutUint32`.
abbrev pub put_uint32 : ℕ → Bytes
put_uint32 n = n % 256 ∷ n / 256 % 256 ∷ n / 65536 % 256 ∷ n / 16777216 % 256 ∷ []

-- `binary.BigEndian.Uint16`, of two bytes.
abbrev pub get_uint16 : Bytes → Option ℕ
get_uint16 (h ∷ l ∷ []) = some (h * 256 + l)
get_uint16 _ = none

unfoldable pub addr_bytes : Addr → ℕ → Option Bytes
addr_bytes a want = if length (as_slice a) == want then some (as_slice a) else none

slice_from : ℕ → ℕ → Option Bytes → Option Bytes
slice_from start len none = none
slice_from start len (some b) = some (take len (drop start b))

unfoldable pub addr_window : Addr → ℕ → ℕ → PayloadExpr → Option Bytes
unfolding addr_bytes slice_from
addr_window a size field_offset p =
    if p.len == 0 || ltb p.offset field_offset
    then none
    else (if ltb size (p.offset - field_offset + p.len)
        then none
        else slice_from (p.offset - field_offset) p.len (addr_bytes a size))

unfoldable pub proto_number : String → ℕ
proto_number proto = if str_eq proto "udp" then 17 else 6

abbrev pub tcp_flag_syn : ℕ
tcp_flag_syn = 0x02

-- The first answer that is there.
abbrev or_else : Option Bytes → Option Bytes → Option Bytes
or_else none b = b
or_else (some a) b = some a

network_bytes : Packet → PayloadExpr → Option Bytes
unfolding addr_window proto_number
network_bytes pkt p =
    if str_eq pkt.family "ip"
    then (if p.offset == 9 && p.len == 1
        then some (proto_number pkt.proto ∷ [])
        else or_else (addr_window pkt.src 4 12 p) (addr_window pkt.dst 4 16 p))
    else (if p.offset == 6 && p.len == 1
        then some (proto_number pkt.proto ∷ [])
        else or_else (addr_window pkt.src 16 8 p) (addr_window pkt.dst 16 24 p))

transport_bytes : Packet → PayloadExpr → Option Bytes
transport_bytes pkt p =
    if p.offset == 0 && p.len == 2
    then some (pkt.src_port / 256 % 256 ∷ pkt.src_port % 256 ∷ [])
    else (if p.offset == 2 && p.len == 2
        then some (pkt.dst_port / 256 % 256 ∷ pkt.dst_port % 256 ∷ [])
        else (if p.offset == 13 && p.len == 1 && str_eq pkt.proto "tcp"
            then some (tcp_flag_syn ∷ [])
            else none))

base_bytes : PayloadBase → Packet → PayloadExpr → Option Bytes
unfolding network_bytes transport_bytes
base_bytes PayloadBase.network pkt p = network_bytes pkt p
base_bytes PayloadBase.transport pkt p = transport_bytes pkt p
base_bytes (PayloadBase.unnamed text) pkt p = none

unfoldable pub payload_bytes : Packet → PayloadExpr → Option Bytes
unfolding base_bytes
payload_bytes pkt p = base_bytes p.base pkt p

unfoldable pub meta_absent : MetaKey → Bool
meta_absent MetaKey.skuid = true
meta_absent MetaKey.skgid = true
meta_absent _ = false

ifindex : ℕ → Option Bytes
ifindex idx = if idx == 0 then none else some (put_uint32 idx)

-- `copy` into a buffer of IFNAMSIZ zeros.
ifname : String → Bytes
ifname s = take ifname_len (bytes s ++ replicate ifname_len 0)

unfoldable pub meta_bytes : Packet → MetaKey → Option Bytes
unfolding ifname ifindex proto_number
meta_bytes pkt MetaKey.iifname = some (ifname pkt.in_iface)
meta_bytes pkt MetaKey.oifname = some (ifname pkt.out_iface)
meta_bytes pkt MetaKey.iif = ifindex pkt.in_iface_index
meta_bytes pkt MetaKey.oif = ifindex pkt.out_iface_index
meta_bytes pkt MetaKey.l4proto = some (proto_number pkt.proto ∷ [])
meta_bytes pkt MetaKey.nfproto = some ((if str_eq pkt.family "ip" then 2 else 10) ∷ [])
meta_bytes pkt _ = none

abbrev pub ct_state_new_bit : ℕ
ct_state_new_bit = 0x8

abbrev pub ct_status_dst_nat_bit : ℕ
ct_status_dst_nat_bit = 0x20

unfoldable pub ct_bytes : Packet → CtKey → Option Bytes
ct_bytes pkt CtKey.state =
    if str_eq pkt.ct_state "new" then some (put_uint32 ct_state_new_bit) else none
ct_bytes pkt CtKey.status =
    some (put_uint32 (if pkt.dnat_applied then ct_status_dst_nat_bit else 0))
ct_bytes pkt (CtKey.unnamed text) = none

abbrev pub rtn_unicast_value : ℕ
rtn_unicast_value = 1

abbrev pub rtn_local_value : ℕ
rtn_local_value = 2

fib_query_bytes : FibQuery → Packet → FibExpr → Option Bytes
fib_query_bytes FibQuery.addrtype pkt f = some (
    put_uint32
      (if str_eq f.source "daddr" && pkt.dst_is_local then rtn_local_value else rtn_unicast_value))
fib_query_bytes FibQuery.oif_present pkt f =
    if str_eq pkt.src_route_dev ""
    then none
    else (if f.matches_iface
          && not (str_eq pkt.in_iface "")
          && not (str_eq pkt.src_route_dev pkt.in_iface)
        then none
        else some (put_uint32 1))
fib_query_bytes (FibQuery.unnamed text) pkt f = none

unfoldable pub fib_bytes : Packet → FibExpr → Option Bytes
unfolding fib_query_bytes
fib_bytes pkt f = fib_query_bytes f.query pkt f

-- The register file: which registers were written, and with what.
abbrev pub Regs : Type 0
Regs = ℕ → Option Bytes

abbrev pub write : Regs → ℕ → Bytes → Regs
write regs r b q = if q == r then some b else regs q

dnat_to : Option Addr → Option ℕ → Option Action
dnat_to none port = none
dnat_to (some ip) none = none
dnat_to (some ip) (some port) =
    some
      (record { kind = ActionKind.dnat; chain = ""; dnat = some (record { ip = ip; port = port }) })

-- The value of a register, put through a reading that may fail.
abbrev pub read_as {ℓ} : {A : Type ℓ} → (Bytes → Option A) → Option Bytes → Option A
read_as f none = none
read_as f (some b) = f b

unfoldable pub nat_action : Packet → NatExpr → Regs → Option Action
unfolding dnat_to
nat_action pkt n regs =
    if not (str_eq n.type "dnat")
    then none
    else dnat_to (read_as addr_from_slice (regs n.addr_register)) (
        if n.proto_register == 0
        then some pkt.dst_port
        else read_as get_uint16 (regs n.proto_register))
