-- ===== src/Examples/Forwards.antt =====
-- internal/model/forwards.go and `endpoints` of internal/model/evaluate.go on a concrete router.
use whyopen.Prelude.{
  pos, Bool, ap, arith, ◌++◌, ◌≡◌, refl, inl, String, true, false, hex_decode, none, some, List, [],
  ◌∷◌, here, negsuc, Go, panic, ok, map,
}
use whyopen.Facts.Types.{ExprKind, CmpOp, MetaKey, Expr, Rule, Chain, Table, Ruleset}
use whyopen.Facts.Host.{Facts}
use whyopen.Facts.Validate.{validate}
use whyopen.Netip.{Addr}
use whyopen.Model.Evaluate.Types.{Endpoint, Verdict}
use whyopen.Model.Evaluate.All.{families_for}
use whyopen.Model.Evaluate.All.Complete.{FamiliesCovered}
use whyopen.Model.Evaluate.Endpoints.{key, endpoints, evaluate_document}
use whyopen.Model.Evaluate.Endpoints.Laws.{
  IsMerged, last_at, named_endpoints, endpoints-IsMerged, evaluate_document-Covered,
}
use whyopen.Model.Forwards.{forwards, has_row}
use whyopen.Model.Forwards.Types.{FwdTarget, port_from_hex, proto_from_hex, families}
use whyopen.Model.Forwards.Exprs.{Scan}
use whyopen.Model.Forwards.Laws.{AreRows, forwards-AreRows}
use whyopen.Model.Match.Ports.{bare, compare_to}
use whyopen.Model.Forwards.Shapes.{
  load_meta, immediate_to, nat_from, Passes, done, transparent, tested, tests_port,
  to_addr_and_port, sent_to,
}
use whyopen.Model.Forwards.Names.{row, Sends, TableSends, forwards-has_row}
use whyopen.Examples.{host, internet}

abbrev is_l4proto : MetaKey → Bool
is_l4proto MetaKey.l4proto = true
is_l4proto _ = false

-- iifname "eth0" tcp dport 8080 counter dnat to 10.0.0.5:80.
abbrev web_before : List Expr
web_before =
    load_meta MetaKey.iifname 1
    ∷ compare_to (record { op = CmpOp.eq; register = 1; hex = "6574683000" })
    ∷ []

abbrev web_rewrite : List Expr
web_rewrite = immediate_to 1 "0a000005" ∷ immediate_to 2 "0050" ∷ nat_from 1 2 ∷ []

abbrev web : Rule
web = record {
  handle = 4;
  exprs = web_before ++ tests_port "06" "1f90" ((bare ExprKind.other ∷ []) ++ web_rewrite);
}

-- iifname "eth0" dnat to 10.0.0.5.
abbrev all_rewrite : List Expr
all_rewrite = immediate_to 1 "0a000005" ∷ nat_from 1 0 ∷ []

abbrev all_ports : Rule
all_ports = record { handle = 5; exprs = web_before ++ all_rewrite }

abbrev prerouting : Chain
prerouting = record {
  name = "PREROUTING";
  base = true;
  hook = "prerouting";
  priority = negsuc 99;
  devices = [];
  policy = "accept";
  rules = web ∷ all_ports ∷ [];
}

abbrev nat_table : Table
nat_table = record { family = "ip"; name = "nat"; chains = prerouting ∷ []; sets = [] }

abbrev router_rules : Ruleset
router_rules = record { tables = nat_table ∷ []; read_failed = false }

abbrev router : Facts
router = record {
  host = host;
  sockets =
      record {
        family = "ip";
        proto = "tcp";
        bind_ip = "0.0.0.0";
        port = 22;
        process = "sshd";
        inode = 4711;
        uid = 0;
        pid = pos 812;
        unit = "ssh.service";
        container = "";
      }
      ∷ [];
  rules = router_rules;
  containers =
      record {
        name = "web";
        publishes = record { host_ip = "0.0.0.0"; host_port = 443; proto = "tcp" } ∷ [];
      }
      ∷ [];
}

router_validates : validate router_rules ≡ none
unfolding validate
router_validates = refl

abbrev target : FwdTarget
target = sent_to "0a000005" "0050"

forwards-AreRows_example : (s : Scan) × (forwards router_rules ≡ ok s) × AreRows s.eps
forwards-AreRows_example = forwards-AreRows router_rules router_validates

abbrev before-Passes : Passes web_before
before-Passes =
    tested MetaKey.iifname 1 CmpOp.eq "6574683000" (λ e. ground (arith, ap is_l4proto e)) done

web-Sends : Sends web "tcp" 8080 target
unfolding port_from_hex proto_from_hex hex_decode
web-Sends = record {
  before = web_before;
  between = bare ExprKind.other ∷ [];
  rewrite = web_rewrite;
  proto_hex = "06";
  port_hex = "1f90";
  is_rule = refl;
  passes_before = before-Passes;
  passes_between = transparent done;
  is_rewrite = to_addr_and_port "0a000005" "0050" [];
  is_proto = refl;
  is_port = refl;
}

nat_table-TableSends : TableSends "tcp" "ip" 8080 target nat_table
unfolding families
nat_table-TableSends = record {
  served = refl;
  chain = here (record {
    base = refl;
    hook = refl;
    rule = here (record { served = refl; sends = web-Sends });
  });
}

forwards-has_row_example :
    (s : Scan) × (forwards router_rules ≡ ok s)
    × (has_row s.eps (row target "ip" "tcp" 8080) ≡ true)
forwards-has_row_example =
    forwards-has_row router_rules "tcp" "ip" 8080 target router_validates (inl refl)
      (here nat_table-TableSends)

endpoints-IsMerged_example :
    (s : Scan) × (eps : List Endpoint) × (forwards router.rules ≡ ok s)
    × (endpoints router ≡ ok eps)
    × IsMerged router s.eps eps
endpoints-IsMerged_example = endpoints-IsMerged router router_validates

evaluate_document-Covered_example :
    (s : Scan) × (eps : List Endpoint) × (vs : List Verdict) × (forwards router.rules ≡ ok s)
    × (evaluate_document router internet ≡ ok vs)
    × ((k : String) (e : Endpoint)
        → last_at k (named_endpoints router s.eps) ≡ some e
        → FamiliesCovered e (families_for e router.host.sysctls eps) vs)
evaluate_document-Covered_example = evaluate_document-Covered router internet router_validates

abbrev plain : Addr → String
plain a = "10.0.0.5"

-- The socket, the publish and the forwarded port.
abbrev router_keys : List String
router_keys = "ip/tcp/0.0.0.0/22" ∷ "ip/tcp/0.0.0.0/443" ∷ "ip/tcp//8080" ∷ []

abbrev keys_of : Go (List Endpoint) → List String
keys_of panic = []
keys_of (ok eps) = map key eps

router_keys_found : keys_of (endpoints router) ≡ router_keys
unfolding endpoints hex_decode
router_keys_found = refl
