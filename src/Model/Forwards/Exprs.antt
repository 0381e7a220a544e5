-- ===== src/Model/Forwards/Exprs.antt =====
-- internal/model/forwards.go: one rule of the scan, what it constrains and whether it rewrites. A note is
-- a value that names its parts. Go's appends to the ports of a match write past the end of every slice
-- that is still read, so that the ports are a list.
use whyopen.Prelude.{
  ℕ, String, Bool, true, false, ◌&&◌, not, Option, none, some, List, [], ◌∷◌, ◌++◌, ◌==◌,
  if◌then◌else◌, str_eq, Go, ok, ◌>>=◌, deref,
}
use whyopen.Facts.Types.{
  ExprKind, MetaKey, ActionKind, BitwiseExpr, ImmediateExpr, LookupExpr, NatExpr, XtExpr,
  VerdictExpr, DnatInfo, Expr, Rule, Chain, Table, ElementSet,
}
use whyopen.Netip.{is_valid}
use whyopen.Model.Evaluate.Types.{EndpointKind, Owner, Endpoint}
use whyopen.Model.Match.Sets.{is_empty}
use whyopen.Model.Forwards.Types.{
  Refusal, FwdMatch, FwdField, FwdTarget, payload_field, cmp_constraint, set_ports, native_target,
  xt_target, families, fwd_protos,
}

-- A rewrite whose ports cannot be listed: those that a refusal hides, or all of them.
pub record FwdNote : Type 0 where
  pub family : String
  pub table : String
  pub chain : String
  pub handle : ℕ
  pub target : FwdTarget
  pub refuse : Option Refusal

-- The rows and the notes of a `fwdScan`.
pub record Scan : Type 0 where
  pub eps : List Endpoint
  pub notes : List FwdNote

-- `regs`, `imm` and the match, within one rule.
pub record RuleState : Type 0 where
  pub regs : ℕ → FwdField
  pub imm : ℕ → Option String
  pub match : FwdMatch

-- What an expression leaves: the rule goes on, or ends.
pub data FwdStep : Type 0 where
  next : RuleState → FwdStep
  stop : Scan → FwdStep

abbrev pub set_field : ℕ → FwdField → RuleState → RuleState
set_field r f st = record st { regs = λ q. if q == r then f else st.regs q }

abbrev pub is_dport : FwdField → Bool
is_dport FwdField.dport = true
is_dport _ = false

abbrev pub refused : Refusal → RuleState → RuleState
refused why st = record st { match = record st.match { refuse = some why } }

abbrev pub label : FwdTarget → Owner
label t = Owner.forwarded_to (if is_valid t.addr then some t.addr else none) t.port

-- The rows of one family and one protocol.
abbrev pub rows_of : FwdTarget → String → String → List ℕ → List Endpoint
rows_of t family proto [] = []
rows_of t family proto (port ∷ ports) =
    record {
      kind = EndpointKind.forward;
      family = family;
      proto = proto;
      bind_ip = "";
      port = port;
      owner = label t;
    }
    ∷ rows_of t family proto ports

abbrev pub rows_of_protos : FwdTarget → String → List String → List ℕ → List Endpoint
rows_of_protos t family [] ports = []
rows_of_protos t family (proto ∷ protos) ports =
    rows_of t family proto ports ++ rows_of_protos t family protos ports

unfoldable pub rows_of_families : FwdTarget → List String → List String → List ℕ → List Endpoint
rows_of_families t [] protos ports = []
rows_of_families t (family ∷ fams) protos ports =
    rows_of_protos t family protos ports ++ rows_of_families t fams protos ports

abbrev pub note : Table → Chain → Rule → FwdTarget → Option Refusal → Scan → Scan
note table ch r t why s = record s {
  notes =
      s.notes
      ++ (record {
        family = table.family;
        table = table.name;
        chain = ch.name;
        handle = r.handle;
        target = t;
        refuse = why;
      }
          ∷ []);
}

unfoldable pub emit_ports :
    Option Refusal → Table → Chain → Rule → FwdMatch → FwdTarget → Scan → Scan
unfolding rows_of_families families fwd_protos
emit_ports (some why) table ch r m t s = note table ch r t (some why) s
emit_ports none table ch r m t s = if is_empty m.ports then note table ch r t none s else record s {
  eps = s.eps ++ rows_of_families t (families table.family t) (fwd_protos m.proto) m.ports;
}

-- `emit`.
unfoldable pub emit : Table → Chain → Rule → FwdMatch → FwdTarget → Scan → Scan
unfolding emit_ports
emit table ch r m t s = if str_eq m.proto "other" then s else emit_ports m.refuse table ch r m t s

-- `findChain`, of the scan.
unfoldable pub scan_find_chain : String → List Chain → Option Chain
scan_find_chain name [] = none
scan_find_chain name (ch ∷ chs) = if str_eq ch.name name then some ch else scan_find_chain name chs

abbrev pub meta_field : MetaKey → FwdField
meta_field MetaKey.l4proto = FwdField.l4proto
meta_field _ = FwdField.other

unfoldable pub scan_bitwise : BitwiseExpr → RuleState → RuleState
scan_bitwise b st =
    set_field b.dest_register FwdField.other
      (if is_dport (st.regs b.source_register) then refused Refusal.masked st else st)

unfoldable pub add_set_ports : Option (List ℕ) → RuleState → RuleState
add_set_ports none st = refused Refusal.unreadable_set st
add_set_ports (some ports) st = record st {
  match = record st.match { ports = st.match.ports ++ ports };
}

unfoldable pub scan_lookup : List ElementSet → LookupExpr → RuleState → RuleState
unfolding add_set_ports set_ports
scan_lookup sets lk st =
    if not (is_dport (st.regs lk.source_register)) then st else add_set_ports (set_ports sets lk) st

unfoldable pub scan_immediate : ImmediateExpr → RuleState → RuleState
scan_immediate e st = record (set_field e.register FwdField.other st) {
  imm = λ q. if q == e.register then some e.hex else st.imm q;
}

-- A DNAT target that was decoded.
unfoldable pub rewrite_of : XtExpr → Option DnatInfo → Option FwdTarget
unfolding xt_target
rewrite_of x none = none
rewrite_of x (some d) =
    if str_eq x.kind "target" && str_eq x.name "DNAT" && x.decoded then some (xt_target d) else none

abbrev pub calls : ActionKind → Bool
calls ActionKind.jump = true
calls ActionKind.goto = true
calls _ = false

unfoldable pub scan_call :
    (Chain → FwdMatch → Scan → Go Scan) → Option Chain → FwdMatch → Scan → Go Scan
scan_call sub none m s = ok s
scan_call sub (some target) m s = sub target m s

module _ (sub : Chain → FwdMatch → Scan → Go Scan) (table : Table) (ch : Chain) (r : Rule) where
  unfoldable pub scan_xt : Option FwdTarget → RuleState → Scan → FwdStep
  unfolding emit
  scan_xt none st s = next st
  scan_xt (some t) st s = stop (emit table ch r st.match t s)

  unfoldable pub scan_nat : NatExpr → RuleState → Scan → FwdStep
  unfolding emit native_target
  scan_nat n st s =
      if not (str_eq n.type "dnat")
      then next st
      else stop (emit table ch r st.match (native_target n st.imm) s)

  -- Any verdict ends the rule.
  unfoldable pub scan_verdict : VerdictExpr → RuleState → Scan → Go FwdStep
  unfolding scan_call scan_find_chain
  scan_verdict v st s =
      (if calls v.kind
        then scan_call sub (scan_find_chain v.chain table.chains) st.match s
        else ok s)
      >>= λ s'. ok (stop s')

  -- One expression of `rule`.
  unfoldable pub scan_expr : ExprKind → Expr → RuleState → Scan → Go FwdStep
  unfolding payload_field cmp_constraint scan_bitwise scan_lookup scan_immediate scan_nat scan_xt
      rewrite_of scan_verdict
  scan_expr ExprKind.payload e st s =
      deref e.payload >>= λ p. ok (next (set_field p.dest_register (payload_field p) st))
  scan_expr ExprKind.meta e st s =
      deref e.meta >>= λ m. ok (next (set_field m.register (meta_field m.key) st))
  scan_expr ExprKind.ct e st s =
      deref e.ct >>= λ c. ok (next (set_field c.register FwdField.other st))
  scan_expr ExprKind.fib e st s =
      deref e.fib >>= λ f. ok (next (set_field f.register FwdField.other st))
  scan_expr ExprKind.bitwise e st s = deref e.bitwise >>= λ b. ok (next (scan_bitwise b st))
  scan_expr ExprKind.cmp e st s = deref e.cmp >>= λ c.
      ok (next (record st { match = cmp_constraint st.match (st.regs c.register) c }))
  scan_expr ExprKind.lookup e st s =
      deref e.lookup >>= λ lk. ok (next (scan_lookup table.sets lk st))
  scan_expr ExprKind.range e st s = deref e.range >>= λ g.
      ok (next (if is_dport (st.regs g.register) then refused Refusal.ranged st else st))
  scan_expr ExprKind.immediate e st s = deref e.immediate >>= λ i. ok (next (scan_immediate i st))
  scan_expr ExprKind.nat e st s = deref e.nat >>= λ n. ok (scan_nat n st s)
  scan_expr ExprKind.xt e st s = deref e.xt >>= λ x. ok (scan_xt (rewrite_of x x.dnat) st s)
  scan_expr ExprKind.verdict e st s = deref e.verdict >>= λ v. scan_verdict v st s
  scan_expr ExprKind.other e st s = ok (next st)
  scan_expr ExprKind.unknown e st s = ok (next st)
  scan_expr (ExprKind.unrecognised text) e st s = ok (next st)

abbrev pub after_expr : (RuleState → Go Scan) → FwdStep → Go Scan
after_expr rest (next st) = rest st
after_expr rest (stop s) = ok s
