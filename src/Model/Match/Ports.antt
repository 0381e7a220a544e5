-- ===== src/Model/Match/Ports.antt =====
-- internal/model/match.go: whole rules, as `nft` compiles them, against what they say.
use whyopen.Prelude.{
  ℕ, ◌/◌, ◌%◌, ◌<◌, ◌≡◌, refl, ap, ap₂, ◌∙◌, String, Bool, true, false, Option, none, some, List,
  [], ◌∷◌, arith, Bytes, hex_decode, Go, ok,
}
use whyopen.Facts.Types.{
  ExprKind, CmpOp, PayloadBase, PayloadExpr, CmpExpr, VerdictExpr, Expr, Rule, ElementSet,
}
use whyopen.Model.Packet.{Packet, Action, Outcome, match, no_match, unknown}
use whyopen.Model.Match.Fields.{payload_bytes, write}
use whyopen.Model.Match.Xt.{act_none}
use whyopen.Model.Match.Exprs.{MatchState, cmp_test, tested, eval_payload, eval_cmp, eval_verdict}
use whyopen.Model.Match.Rule.{match_rule, after_step, start}
use whyopen.Model.Match.Order.{big_endian, numeric_holds, cmp_holds-eq-numeric}

-- An expression with no object.
abbrev pub bare : ExprKind → Expr
bare k = record {
  kind = k;
  payload = none;
  cmp = none;
  meta = none;
  bitwise = none;
  ct = none;
  lookup = none;
  range = none;
  fib = none;
  immediate = none;
  nat = none;
  verdict = none;
  xt = none;
}

abbrev pub load_payload : PayloadExpr → Expr
load_payload p = record (bare ExprKind.payload) { payload = some p }

abbrev pub compare_to : CmpExpr → Expr
compare_to c = record (bare ExprKind.cmp) { cmp = some c }

abbrev pub give_verdict : VerdictExpr → Expr
give_verdict v = record (bare ExprKind.verdict) { verdict = some v }

-- `th dport OP OPERAND VERDICT`, through one register.
abbrev pub dport_rule : ℕ → ℕ → CmpOp → String → VerdictExpr → Rule
dport_rule handle reg op operand v = record {
  handle = handle;
  exprs =
      load_payload
        (record { dest_register = reg; base = PayloadBase.transport; offset = 2; len = 2 })
      ∷ compare_to (record { op = op; register = reg; hex = operand })
      ∷ give_verdict v
      ∷ [];
}

-- How a rule with one test ends.
abbrev pub ends : Option Bool → VerdictExpr → Outcome × Action
ends none v = (unknown, act_none)
ends (some false) v = (no_match, act_none)
ends (some true) v = (match, record act_none { kind = v.kind; chain = v.chain })

abbrev port_bytes : ℕ → Bytes
port_bytes p = p / 256 % 256 ∷ p % 256 ∷ []

big_endian_port : (p : ℕ) → p < 65536 → big_endian (port_bytes p) ≡ p
unfolding big_endian
big_endian_port p h = omega arith

cmp_port :
    (op : CmpOp) (d p : ℕ)
    → d < 65536
    → p < 65536
    → cmp_test op (some (port_bytes p)) (some (port_bytes d)) ≡ numeric_holds op d p
unfolding cmp_test
cmp_port op d p hd hp =
    cmp_holds-eq-numeric op (port_bytes d) (port_bytes p) refl (omega arith) (omega arith)
    ∙ ap₂ (numeric_holds op) (big_endian_port d hd) (big_endian_port p hp)

write_self : (regs : _) (r : ℕ) (b : Bytes) → write regs r b r ≡ some b
write_self regs r b = ground arith

-- A rule that compares the destination port matches exactly when the port compares so to the
-- operand, for each of the six operators; then it ends in the rule's verdict. An operator with no
-- name makes the rule unknown.
pub match_rule-dport_rule :
    (pkt : Packet) (sets : List ElementSet) (handle reg p : ℕ) (op : CmpOp) (operand : String)
    (v : VerdictExpr)
    → pkt.dst_port < 65536
    → p < 65536
    → hex_decode operand ≡ some (p / 256 % 256 ∷ p % 256 ∷ [])
    → match_rule pkt (dport_rule handle reg op operand v) sets
      ≡ ok (ends (numeric_holds op pkt.dst_port p) v)
unfolding match_rule payload_bytes eval_payload eval_cmp eval_verdict
match_rule-dport_rule pkt sets handle reg p op operand v hd hp h =
    ap (after_step verdict_next loaded) compared ∙ verdict_ends (numeric_holds op pkt.dst_port p)
  where
    loaded : MatchState
    loaded = record { regs = write start.regs reg (port_bytes pkt.dst_port); act = act_none }

    verdict_next : MatchState → Go (Outcome × Action)
    verdict_next st' = ok (match, record act_none { kind = v.kind; chain = v.chain })

    compared :
        eval_cmp (record { op = op; register = reg; hex = operand }) loaded
        ≡ tested (numeric_holds op pkt.dst_port p) loaded
    compared =
        ap (λ t. tested t loaded)
          (ap₂ (cmp_test op) h (write_self start.regs reg (port_bytes pkt.dst_port))
            ∙ cmp_port op pkt.dst_port p hd hp)

    verdict_ends :
        (t : Option Bool) → after_step verdict_next loaded (tested t loaded) ≡ ok (ends t v)
    verdict_ends none = refl
    verdict_ends (some true) = refl
    verdict_ends (some false) = refl
