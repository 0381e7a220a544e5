-- ===== src/Examples.antt =====
-- Concrete hosts, rules, packets and verdicts, and what the development says of them.
mod Walks
mod Hosts
mod Calls
mod Rules
mod Reports
mod Policies
mod Ports
mod Forwards
mod Collected
mod Tables
use whyopen.Prelude.{ℕ, String, Bool, true, false, Option, none, some, List, [], ◌∷◌, pos}
use whyopen.Facts.Types.{
  ExprKind, CmpOp, ActionKind, VerdictExpr, DnatInfo, XtExpr, Expr, Rule, Chain, SetElement,
  ElementSet, Table, Ruleset,
}
use whyopen.Facts.Host.{Route, HostAddr, Interface, Sysctls, Host, Facts}
use whyopen.Netip.{Addr, v4, invalid}
use whyopen.Model.Packet.{Packet}
use whyopen.Model.Traverse.Types.{Walker}
use whyopen.Model.Evaluate.Types.{EndpointKind, Owner, Endpoint, VerdictResult, Why, Verdict}
use whyopen.Model.Evaluate.{Zone}
use whyopen.Model.Evaluate.Lookups.{PubAddr}
use whyopen.Model.Match.Ports.{bare, dport_rule, give_verdict}

abbrev to_accept : VerdictExpr
to_accept = record { kind = ActionKind.accept; chain = "" }

-- `tcp dport 22 accept`.
abbrev ssh_rule : Rule
ssh_rule = dport_rule 4 1 CmpOp.eq "0016" to_accept

abbrev input_chain : Chain
input_chain = record {
  name = "input";
  base = true;
  hook = "input";
  priority = pos 0;
  devices = [];
  policy = "drop";
  rules = ssh_rule ∷ [];
}

-- A rule that jumps to the chain it stands in.
abbrev loop_rule : Rule
loop_rule = record {
  handle = 9;
  exprs = give_verdict (record { kind = ActionKind.jump; chain = "loop" }) ∷ [];
}

abbrev loop_chain : Chain
loop_chain = record {
  name = "loop";
  base = false;
  hook = "";
  priority = pos 0;
  devices = [];
  policy = "";
  rules = loop_rule ∷ [];
}

abbrev filter_table : Table
filter_table = record {
  family = "inet";
  name = "filter";
  chains = input_chain ∷ loop_chain ∷ [];
  sets = [];
}

abbrev loaded_rules : Ruleset
loaded_rules = record { tables = filter_table ∷ []; read_failed = false }

abbrev client : Addr
client = v4 (198 ∷ 51 ∷ 100 ∷ 7 ∷ [])

abbrev server : Addr
server = v4 (203 ∷ 0 ∷ 113 ∷ 10 ∷ [])

abbrev to_ssh : Packet
to_ssh = record {
  family = "ip";
  proto = "tcp";
  src = client;
  dst = server;
  src_port = 41234;
  dst_port = 22;
  in_iface = "eth0";
  out_iface = "";
  ct_state = "new";
  dst_is_local = true;
  dnat_applied = false;
  src_route_dev = "eth0";
  in_iface_index = 2;
  out_iface_index = 0;
}

abbrev eth0 : Interface
eth0 = record {
  name = "eth0";
  index = pos 2;
  up = true;
  addresses = record { ip = "203.0.113.10"; prefix = pos 24; family = "ip"; scope = "global" } ∷ [];
  ipv4_forwarding = false;
  ipv6_forwarding = false;
}

abbrev host : Host
host = record {
  interfaces = eth0 ∷ [];
  sysctls = record { ipv4_forward = false; ipv6_forward = false; bind_v6_only = false };
  routes = record { dest = "0.0.0.0"; prefix_len = pos 0; family = "ip"; device = "eth0" } ∷ [];
}

abbrev document : Facts
document = record { host = host; sockets = []; rules = loaded_rules; containers = [] }

abbrev internet : Zone
internet = record { src4 = client; src6 = invalid }

abbrev socket_on : ℕ → Endpoint
socket_on port = record {
  kind = EndpointKind.socket;
  family = "ip";
  proto = "tcp";
  bind_ip = "0.0.0.0";
  port = port;
  owner = Owner.named "sshd";
}

abbrev at_eth0 : PubAddr
at_eth0 = record { ip = server; iface = "eth0" }

abbrev start_walker : Walker
start_walker = record { hits = []; dnat = none }

abbrev found : ℕ → VerdictResult → Verdict
found port result = record {
  endpoint = socket_on port;
  family = "ip";
  result = result;
  why = Why.unsaid;
  path = [];
  dnat = none;
}
