-- ===== src/Model/Match/Exprs.antt =====
-- internal/model/match.go, `MatchRule`: the cases of the switch over one expression. A step either
-- goes on with new registers and a new action, or ends the rule with an outcome.
use whyopen.Prelude.{
  ℕ, Bool, true, false, ◌&&◌, ◌||◌, not, Option, none, some, List, [], ◌∷◌, ◌==◌, ltb,
  if◌then◌else◌, length, take, replicate, Bytes, bytes_compare, is_eq, is_lt, is_gt, hex_decode,
  bit_and, bit_xor,
}
use whyopen.Facts.Types.{
  CmpOp, ElementSet, PayloadExpr, CmpExpr, MetaExpr, BitwiseExpr, CtExpr, LookupExpr, RangeExpr,
  FibExpr, ImmediateExpr, NatExpr, VerdictExpr,
}
use whyopen.Model.Packet.{Packet, Action, Outcome, no_match, unknown}
use whyopen.Model.Match.Fields.{
  Regs, write, payload_bytes, meta_absent, meta_bytes, ct_bytes, fib_bytes, nat_action,
}
use whyopen.Model.Match.Sets.{lookup_match, at_least}
use whyopen.Model.Match.Xt.{act_none}

pub record MatchState : Type 0 where
  pub regs : Regs
  pub act : Action

pub data Step : Type 0 where
  next : MatchState → Step
  stop : Outcome → Step

-- `regs[r] = b`, or a refusal.
abbrev pub load : ℕ → Option Bytes → MatchState → Step
load r none st = stop unknown
load r (some b) st = next (record st { regs = write st.regs r b })

unfoldable pub eval_payload : Packet → PayloadExpr → MatchState → Step
eval_payload pkt p st = load p.dest_register (payload_bytes pkt p) st

unfoldable pub eval_meta : Packet → MetaExpr → MatchState → Step
eval_meta pkt m st =
    if meta_absent m.key then stop no_match else load m.register (meta_bytes pkt m.key) st

-- `(src & mask) ^ xor`, as long as the mask.
unfoldable pub mask_bytes : Bytes → Bytes → Bytes → Bytes
mask_bytes (s ∷ ss) (m ∷ ms) (x ∷ xs) = bit_xor (bit_and s m) x ∷ mask_bytes ss ms xs
mask_bytes _ _ _ = []

-- A rule that xors nothing carries no xor.
abbrev padded : Bytes → Bytes → Bytes
padded mask [] = replicate (length mask) 0
padded mask (x ∷ xs) = x ∷ xs

unfoldable pub masked : Option Bytes → Option Bytes → Option Bytes → Option Bytes
unfolding mask_bytes
masked (some src) (some mask) (some xor) =
    if not (length mask == length (padded mask xor)) || ltb (length src) (length mask)
    then none
    else some (mask_bytes src mask (padded mask xor))
masked _ _ _ = none

unfoldable pub eval_bitwise : BitwiseExpr → MatchState → Step
eval_bitwise b st =
    load b.dest_register (masked (st.regs b.source_register) (hex_decode b.mask) (hex_decode b.xor))
      st

unfoldable pub eval_ct : Packet → CtExpr → MatchState → Step
eval_ct pkt c st = load c.register (ct_bytes pkt c.key) st

-- A test that holds goes on; one that does not ends the rule; one that cannot be made refuses.
abbrev pub tested : Option Bool → MatchState → Step
tested none st = stop unknown
tested (some true) st = next st
tested (some false) st = stop no_match

lookup_register : Option Bytes → LookupExpr → List ElementSet → Option Bool
lookup_register none lk sets = none
lookup_register (some reg) lk sets = lookup_match reg lk sets

unfoldable pub eval_lookup : LookupExpr → List ElementSet → MatchState → Step
unfolding lookup_register
eval_lookup lk sets st =
    if lk.is_dest_reg_set
    then stop unknown
    else tested (lookup_register (st.regs lk.source_register) lk sets) st

-- The comparison operators, on the register's prefix against the operand.
unfoldable pub cmp_holds : CmpOp → Bytes → Bytes → Option Bool
cmp_holds CmpOp.eq v b = some (is_eq (bytes_compare v b))
cmp_holds CmpOp.neq v b = some (not (is_eq (bytes_compare v b)))
cmp_holds CmpOp.gte v b = some (not (is_lt (bytes_compare v b)))
cmp_holds CmpOp.lte v b = some (not (is_gt (bytes_compare v b)))
cmp_holds CmpOp.gt v b = some (is_gt (bytes_compare v b))
cmp_holds CmpOp.lt v b = some (is_lt (bytes_compare v b))
cmp_holds (CmpOp.unnamed text) v b = none

unfoldable pub cmp_test : CmpOp → Option Bytes → Option Bytes → Option Bool
unfolding cmp_holds
cmp_test op (some operand) (some reg) =
    if ltb (length reg) (length operand)
    then none
    else cmp_holds op (take (length operand) reg) operand
cmp_test op _ _ = none

unfoldable pub eval_cmp : CmpExpr → MatchState → Step
unfolding cmp_test
eval_cmp c st = tested (cmp_test c.op (hex_decode c.hex) (st.regs c.register)) st

unfoldable pub eval_immediate : ImmediateExpr → MatchState → Step
eval_immediate m st = load m.register (hex_decode m.hex) st

set_action : Option Action → MatchState → Step
set_action none st = stop unknown
set_action (some a) st = next (record st { act = a })

unfoldable pub eval_nat : Packet → NatExpr → MatchState → Step
unfolding set_action
eval_nat pkt n st = set_action (nat_action pkt n st.regs) st

unfoldable pub eval_fib : Packet → FibExpr → MatchState → Step
eval_fib pkt f st = load f.register (fib_bytes pkt f) st

range_holds : CmpOp → Bytes → Bytes → Bytes → Option Bool
range_holds CmpOp.eq v from to = some (at_least v from && not (is_gt (bytes_compare v to)))
range_holds CmpOp.neq v from to = some (not (at_least v from && not (is_gt (bytes_compare v to))))
range_holds _ v from to = none

unfoldable pub range_test : CmpOp → Option Bytes → Option Bytes → Option Bytes → Option Bool
unfolding range_holds
range_test op (some from) (some to) (some reg) =
    if not (length from == length to) || ltb (length reg) (length from)
    then none
    else range_holds op (take (length from) reg) from to
range_test op _ _ _ = none

unfoldable pub eval_range : RangeExpr → MatchState → Step
unfolding range_test
eval_range r st =
    tested (range_test r.op (hex_decode r.from) (hex_decode r.to) (st.regs r.register)) st

unfoldable pub eval_verdict : VerdictExpr → MatchState → Step
eval_verdict v st = next (record st { act = record act_none { kind = v.kind; chain = v.chain } })
