-- ===== src/Model/Packet.antt =====
-- internal/model/packet.go: the synthetic packet, what a rule does with it, and how a rule ends.
use whyopen.Prelude.{ℕ, String, Bool, Option}
use whyopen.Facts.Types.{ActionKind}
use whyopen.Netip.{Addr}

pub record Packet : Type 0 where
  pub family : String
  pub proto : String
  pub src : Addr
  pub dst : Addr
  pub src_port : ℕ
  pub dst_port : ℕ
  pub in_iface : String
  pub out_iface : String
  pub ct_state : String
  pub dst_is_local : Bool
  pub dnat_applied : Bool
  pub src_route_dev : String
  pub in_iface_index : ℕ
  pub out_iface_index : ℕ

pub record Dnat : Type 0 where
  pub ip : Addr
  pub port : ℕ

pub record Action : Type 0 where
  pub kind : ActionKind
  pub chain : String
  pub dnat : Option Dnat

pub data Outcome : Type 0 where
  match no_match unknown skipped : Outcome
