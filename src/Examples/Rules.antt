-- ===== src/Examples/Rules.antt =====
-- internal/model/match.go on the concrete rules, and net/netip on concrete texts.
use whyopen.Prelude.{
  ℕ, ◌≡◌, refl, arith, Bool, true, false, none, some, String, List, [], ◌∷◌, ◌++◌, replicate, All,
  ok, hex_decode, take,
}
use whyopen.Facts.Types.{ExprKind, CmpOp, ActionKind, LookupExpr, Rule, SetElement, ElementSet}
use whyopen.Netip.{v4, v6}
use whyopen.Netip.Parse.{parse_addr}
use whyopen.Model.Packet.{Action, match, skipped}
use whyopen.Model.Match.Fields.{payload_bytes}
use whyopen.Model.Match.Sets.{Bound, collect, width, invert, sort_bounds, scan, interval_match}
use whyopen.Model.Match.Xt.{act_none, xt_expr}
use whyopen.Model.Match.Exprs.{cmp_holds}
use whyopen.Model.Match.Rule.{match_rule, skippable_unresolved_match, eval_xt}
use whyopen.Model.Match.Order.{big_endian, numeric_holds, cmp_holds-eq-numeric}
use whyopen.Model.Match.Interval.{inside_after, nests, interval_match-eq-inside_after}
use whyopen.Model.Match.Resolved.{
  IsKnown, UnresolvedAt, HarmlessBut, match_rule-match-IsKnown, match_rule-skipped-HarmlessBut,
}
use whyopen.Model.Match.Ports.{bare, ends, match_rule-dport_rule}
use whyopen.Examples.{to_ssh, to_accept, ssh_rule}

parse_v4 : parse_addr "203.0.113.10" ≡ some (v4 (203 ∷ 0 ∷ 113 ∷ 10 ∷ []))
unfolding parse_addr
parse_v4 = refl

parse_v4_leading_zero : parse_addr "203.0.113.010" ≡ none
unfolding parse_addr
parse_v4_leading_zero = refl

parse_v6 : parse_addr "2001:db8::10" ≡ some (v6 (32 ∷ 1 ∷ 13 ∷ 184 ∷ replicate 11 0 ++ 16 ∷ []) [])
unfolding parse_addr
parse_v6 = refl

parse_mapped :
    parse_addr "::ffff:192.0.2.1"
    ≡ some (v6 (replicate 10 0 ++ 255 ∷ 255 ∷ 192 ∷ 0 ∷ 2 ∷ 1 ∷ []) [])
unfolding parse_addr
parse_mapped = refl

-- 22 and 8080 to 8090, with the sentinel, in the order of the kernel's dump.
abbrev bound : String → Bool → SetElement
bound key end = record { key = key; val = ""; key_end = ""; interval_end = end }

abbrev port_ranges : ElementSet
port_ranges = record {
  name = "ports";
  id = 1;
  interval = true;
  is_map = false;
  concatenation = false;
  elements =
      bound "1f9b" true
      ∷ bound "0000" true
      ∷ bound "0017" true
      ∷ bound "0016" false
      ∷ bound "1f90" false
      ∷ [];
}

abbrev in_ports : LookupExpr
in_ports = record {
  source_register = 1;
  set = "ports";
  set_id = 0;
  invert = false;
  is_dest_reg_set = false;
}

abbrev port_bounds : List Bound
port_bounds =
    record { key = 0x1f ∷ 0x9b ∷ []; end = true }
    ∷ record { key = 0 ∷ 0 ∷ []; end = true }
    ∷ record { key = 0 ∷ 0x17 ∷ []; end = true }
    ∷ record { key = 0 ∷ 0x16 ∷ []; end = false }
    ∷ record { key = 0x1f ∷ 0x90 ∷ []; end = false }
    ∷ []

bounds_collected : collect none port_ranges.elements ≡ some port_bounds
unfolding collect hex_decode
bounds_collected = refl

bounds_nest : nests false (sort_bounds port_bounds) ≡ true
unfolding sort_bounds
bounds_nest = refl

interval_match-eq-inside_after_example :
    interval_match (0x1f ∷ 0x95 ∷ []) in_ports port_ranges
    ≡ some (
        invert false (
          inside_after
            (take (width port_bounds) (0x1f ∷ 0x95 ∷ []))
            false
            (sort_bounds port_bounds)))
interval_match-eq-inside_after_example =
    interval_match-eq-inside_after (0x1f ∷ 0x95 ∷ []) in_ports port_ranges port_bounds
      bounds_collected (omega arith) bounds_nest

port_8085_is_inside : interval_match (0x1f ∷ 0x95 ∷ []) in_ports port_ranges ≡ some true
unfolding interval_match collect hex_decode sort_bounds scan
port_8085_is_inside = refl

port_23_is_outside : interval_match (0 ∷ 0x17 ∷ []) in_ports port_ranges ≡ some false
unfolding interval_match collect hex_decode sort_bounds scan
port_23_is_outside = refl

cmp_holds-eq-numeric_example :
    cmp_holds CmpOp.lt (0 ∷ 22 ∷ []) (4 ∷ 0 ∷ [])
    ≡ numeric_holds CmpOp.lt (big_endian (0 ∷ 22 ∷ [])) (big_endian (4 ∷ 0 ∷ []))
cmp_holds-eq-numeric_example =
    cmp_holds-eq-numeric CmpOp.lt (0 ∷ 22 ∷ []) (4 ∷ 0 ∷ []) refl (omega arith) (omega arith)

operand_decodes : hex_decode "0016" ≡ some (0 ∷ 22 ∷ [])
unfolding hex_decode
operand_decodes = refl

match_rule-dport_rule_example :
    match_rule to_ssh ssh_rule [] ≡ ok (ends (numeric_holds CmpOp.eq 22 22) to_accept)
match_rule-dport_rule_example =
    match_rule-dport_rule to_ssh [] 4 1 22 CmpOp.eq "0016" to_accept (omega arith) (omega arith)
      operand_decodes

abbrev accepts : Action
accepts = record act_none { kind = ActionKind.accept; chain = "" }

ssh_rule_matches : match_rule to_ssh ssh_rule [] ≡ ok (match, accepts)
unfolding match_rule payload_bytes hex_decode
ssh_rule_matches = refl

match_rule-match-IsKnown_example : All (λ e. IsKnown e.kind) ssh_rule.exprs
match_rule-match-IsKnown_example =
    match_rule-match-IsKnown to_ssh ssh_rule [] accepts ssh_rule_matches

-- A match that the collector has no decoder for, and nothing else.
abbrev limit_rule : Rule
limit_rule = record {
  handle = 5;
  exprs =
      record (bare ExprKind.xt) {
        xt = some (record {
          kind = "match";
          name = "limit";
          rev = 0;
          raw = "";
          decoded = false;
          dnat = none;
          conntrack = none;
          addr_type = none;
          recent = none;
        });
      }
      ∷ [];
}

limit_rule_is_skipped : match_rule to_ssh limit_rule [] ≡ ok (skipped, act_none)
unfolding match_rule eval_xt xt_expr skippable_unresolved_match
limit_rule_is_skipped = refl

match_rule-skipped-HarmlessBut_example :
    (idx : ℕ) × UnresolvedAt to_ssh idx 0 limit_rule.exprs
    × HarmlessBut to_ssh idx 0 limit_rule.exprs
match_rule-skipped-HarmlessBut_example =
    match_rule-skipped-HarmlessBut to_ssh limit_rule [] act_none limit_rule_is_skipped
