-- ===== src/Model/Forwards/Names.antt =====
-- internal/model/forwards.go: a rewrite that names one port has its row.
use whyopen.Prelude.{
  ℕ, ◌≡◌, refl, sym, ap, subst, ◌∙◌, String, true, none, some, List, [], ◌∷◌, ◌++◌, arith, Any, any,
  ◌⊎◌, inl, inr, str_eq, eq_iff, ok, Go, Gives,
}
use whyopen.Facts.Types.{Expr, Rule, Chain, Table, Ruleset}
use whyopen.Facts.Validate.{validate}
use whyopen.Model.Evaluate.Types.{EndpointKind, Endpoint}
use whyopen.Model.Forwards.Types.{
  FwdMatch, FwdTarget, port_from_hex, proto_from_hex, families, fwd_protos,
}
use whyopen.Model.Forwards.Exprs.{Scan, rows_of_families, emit_ports, emit, label}
use whyopen.Model.Forwards.{unconstrained, rule_start, scan_exprs, has_row, forwards}
use whyopen.Model.Forwards.Keeps.{Holds, has_row-right, emit-Holds, keep_rows-Holds}
use whyopen.Model.Forwards.Meets.{TableLeads, forwards-Held}
use whyopen.Model.Forwards.Shapes.{
  Passes, tests_port, Rewrites, Passes-Leaves, tests_port-Leaves, scan_exprs-Rewrites,
}

-- The row of one port.
abbrev pub row : FwdTarget → String → String → ℕ → Endpoint
row t family proto port = record {
  kind = EndpointKind.forward;
  family = family;
  proto = proto;
  bind_ip = "";
  port = port;
  owner = label t;
}

rows_of_families-has_row :
    (t : FwdTarget) (fams : List String) (family proto : String) (port : ℕ)
    → any (str_eq family) fams ≡ true
    → has_row (rows_of_families t fams (proto ∷ []) (port ∷ [])) (row t family proto port) ≡ true
unfolding rows_of_families has_row
rows_of_families-has_row t [] family proto port h = ground arith
rows_of_families-has_row t (f ∷ fams) family proto port h = ground (
  arith,
  rows_of_families-has_row t fams family proto port,
  eq_iff f family,
  eq_iff family f,
  eq_iff proto proto,
)

module _ (sub : Chain → FwdMatch → Scan → Go Scan) (table : Table) (ch : Chain) where
  -- A rewrite of one port of tcp or udp leaves its row.
  emit-row :
      (r : Rule) (p : ℕ) (proto family : String) (t : FwdTarget) (s : Scan)
      → (proto ≡ "tcp") ⊎ (proto ≡ "udp")
      → any (str_eq family) (families table.family t) ≡ true
      → Holds
          (row t family proto p)
          (emit table ch r (record { proto = proto; ports = p ∷ []; refuse = none }) t s)
  unfolding emit emit_ports fwd_protos
  emit-row r p proto family t s (inl h) k =
      subst
        (λ q.
          Holds (row t family q p)
            (emit table ch r (record { proto = q; ports = p ∷ []; refuse = none }) t s))
        (sym h)
        (has_row-right s.eps _ _
          (rows_of_families-has_row t (families table.family t) family "tcp" p k))
  emit-row r p proto family t s (inr h) k =
      subst
        (λ q.
          Holds (row t family q p)
            (emit table ch r (record { proto = q; ports = p ∷ []; refuse = none }) t s))
        (sym h)
        (has_row-right s.eps _ _
          (rows_of_families-has_row t (families table.family t) family "udp" p k))

-- A rule that sends one port elsewhere: a test of the protocol and of the port, then a rewrite to the
-- target, with nothing but passing expressions before the test and between the two.
pub record Sends (r : Rule) (proto : String) (p : ℕ) (t : FwdTarget) : Type 0 where
  pub before : List Expr
  pub between : List Expr
  pub rewrite : List Expr
  pub proto_hex : String
  pub port_hex : String
  pub is_rule : r.exprs ≡ before ++ tests_port proto_hex port_hex (between ++ rewrite)
  pub passes_before : Passes before
  pub passes_between : Passes between
  pub is_rewrite : Rewrites rewrite t
  pub is_proto : proto_from_hex proto_hex ≡ proto
  pub is_port : port_from_hex port_hex ≡ some p

-- Such a rule, in a table that serves the family.
pub record SendsFrom (proto family : String) (p : ℕ) (t : FwdTarget) (table : Table) (ch : Chain)
    (r : Rule) : Type 0 where
  pub served : any (str_eq family) (families table.family t) ≡ true
  pub sends : Sends r proto p t

scan_exprs-Sends :
    (sub : Chain → FwdMatch → Scan → Go Scan) (table : Table) (ch : Chain) (r : Rule) (s : Scan)
    (proto : String) (p : ℕ) (t : FwdTarget)
    → Sends r proto p t
    → scan_exprs sub table ch r r.exprs (rule_start unconstrained) s
      ≡ ok (emit table ch r (record { proto = proto; ports = p ∷ []; refuse = none }) t s)
scan_exprs-Sends sub table ch r s proto p t h =
    let (st1, e1, go1) =
      Passes-Leaves sub table ch r unconstrained h.passes_before (rule_start unconstrained) refl in
    let (st2, e2, go2) =
      tests_port-Leaves sub table ch r h.proto_hex h.port_hex p h.is_port st1 e1 in
    let (st3, e3, go3) = Passes-Leaves sub table ch r _ h.passes_between st2 e2 in
    ap (λ es. scan_exprs sub table ch r es (rule_start unconstrained) s) h.is_rule
    ∙ go1 (tests_port h.proto_hex h.port_hex (h.between ++ h.rewrite)) s
    ∙ go2 (h.between ++ h.rewrite) s
    ∙ go3 h.rewrite s
    ∙ scan_exprs-Rewrites sub table ch r st3 s h.is_rewrite
    ∙ ap (λ m. ok (emit table ch r m t s)) e3
    ∙ ap (λ q. ok (emit table ch r (record { proto = q; ports = p ∷ []; refuse = none }) t s))
        h.is_proto

SendsFrom-Holds :
    (proto family : String) (p : ℕ) (t : FwdTarget)
    → (proto ≡ "tcp") ⊎ (proto ≡ "udp")
    → (sub : Chain → FwdMatch → Scan → Go Scan) (table : Table) (ch : Chain) (r : Rule) (s : Scan)
    → SendsFrom proto family p t table ch r
    → Gives
        (Holds (row t family proto p))
        (scan_exprs sub table ch r r.exprs (rule_start unconstrained) s)
SendsFrom-Holds proto family p t known sub table ch r s h = (
  _,
  scan_exprs-Sends sub table ch r s proto p t h.sends,
  emit-row sub table ch r p proto family t s known h.served,
)

-- A table of a scanned family, with a base chain on prerouting in which a rule sends the port on.
abbrev pub TableSends : String → String → ℕ → FwdTarget → Table → Type 0
TableSends proto family p t table = TableLeads (SendsFrom proto family p t) table

-- On a document that `facts.Validate` accepts, let a rule in a base chain on prerouting test the protocol,
-- tcp or udp, and the destination port for equality, and then rewrite the destination by a nat
-- expression, with a port or without, or by an xt target DNAT; the test and the nat expression use the
-- registers that nft takes, 1 and, for a new port, 2. Before the test and between the two stand only
-- counters, logs, limits, xt expressions without a rewrite and tests of meta data other than the
-- protocol. Then the scan has a row for that port and protocol in each family that the rewrite serves,
-- whatever the other rules, chains and tables are. Where another rule forwards the same port, the row
-- may name that one's target.
pub forwards-has_row :
    (rs : Ruleset) (proto family : String) (p : ℕ) (t : FwdTarget)
    → validate rs ≡ none
    → (proto ≡ "tcp") ⊎ (proto ≡ "udp")
    → Any (TableSends proto family p t) rs.tables
    → (s : Scan) × (forwards rs ≡ ok s) × (has_row s.eps (row t family proto p) ≡ true)
forwards-has_row rs proto family p t h known sends =
    forwards-Held (Holds (row t family proto p)) (emit-Holds _) (keep_rows-Holds _)
      (SendsFrom proto family p t) (SendsFrom-Holds proto family p t known) rs h sends
