-- ===== src/Facts/Host.antt =====
-- internal/facts/facts.go: the host around the ruleset, and the whole document.
use whyopen.Prelude.{ℕ, String, Bool, List, ℤ}
use whyopen.Facts.Types.{Ruleset}

pub record Route : Type 0 where
  pub dest : String
  pub prefix_len : ℤ
  pub family : String
  pub device : String

pub record HostAddr : Type 0 where
  pub ip : String
  pub prefix : ℤ
  pub family : String
  pub scope : String

pub record Interface : Type 0 where
  pub name : String
  pub index : ℤ
  pub up : Bool
  pub addresses : List HostAddr
  pub ipv4_forwarding : Bool
  pub ipv6_forwarding : Bool

pub record Sysctls : Type 0 where
  pub ipv4_forward : Bool
  pub ipv6_forward : Bool
  pub bind_v6_only : Bool

pub record Host : Type 0 where
  pub interfaces : List Interface
  pub sysctls : Sysctls
  pub routes : List Route

pub record Socket : Type 0 where
  pub family : String
  pub proto : String
  pub bind_ip : String
  pub port : ℕ
  pub inode : ℕ
  pub uid : ℕ
  pub pid : ℤ
  pub process : String
  pub unit : String
  pub container : String

pub record Publish : Type 0 where
  pub host_ip : String
  pub host_port : ℕ
  pub proto : String

pub record Container : Type 0 where
  pub name : String
  pub publishes : List Publish

-- What collection could not see, or what the evaluation cannot list.
pub record Warning : Type 0 where
  pub source : String
  pub message : String

-- The document, as far as an evaluation reads it; `containers` are those of the `Docker` object.
pub record Facts : Type 0 where
  pub host : Host
  pub sockets : List Socket
  pub rules : Ruleset
  pub containers : List Container
