-- ===== src/Examples/Collected.antt =====
-- internal/collect/nftconv.go on concrete expressions of the kernel.
use whyopen.Prelude.{
  ◌||◌, ℕ, ◌≡◌, refl, String, true, false, ◌&&◌, Option, none, some, List, [], ◌∷◌, ◌==◌,
  if◌then◌else◌, Bytes, pos,
}
use whyopen.Facts.Types.{ExprKind, XtExpr, Chain, Ruleset}
use whyopen.Facts.Validate.{validate}
use whyopen.Model.Match.Xt.{decided, xt_expr}
use whyopen.Collect.Nft.{NftBase, NftCmpOp, NftVerdictKind, NftExpr, XtInfo}
use whyopen.Collect.Xt.{has_bit, other_flags, bare_xt, convert_xt}
use whyopen.Collect.Xt.Laws.{flip, asks, is_partial, xt_expr-conntrack, xt_expr-addrtype}
use whyopen.Collect.Convert.{of_kind, convert_exprs}
use whyopen.Collect.Convert.Laws.{validate-convert_exprs}
use whyopen.Collect.Redecode.{redecode}
use whyopen.Collect.Redecode.Laws.{redecode_again}
use whyopen.Examples.{to_ssh}

abbrev no_ip : Bytes → String
no_ip b = ""

-- tcp dport 22, and a conntrack match on new connections.
abbrev kernel_exprs : List NftExpr
kernel_exprs =
    NftExpr.payload 1 NftBase.transport_header 2 2
    ∷ NftExpr.cmp NftCmpOp.eq 1 (0 ∷ 22 ∷ [])
    ∷ NftExpr.match "conntrack" 3 (XtInfo.conntrack 0x2001 0 0x8)
    ∷ NftExpr.counter
    ∷ NftExpr.verdict NftVerdictKind.accept ""
    ∷ []

abbrev kernel_chain : Chain
kernel_chain = record {
  name = "INPUT";
  base = true;
  hook = "input";
  priority = pos 0;
  devices = [];
  policy = "drop";
  rules = record { handle = 7; exprs = convert_exprs no_ip kernel_exprs } ∷ [];
}

abbrev kernel_rules : Ruleset
kernel_rules = record {
  tables = record { family = "ip"; name = "filter"; chains = kernel_chain ∷ []; sets = [] } ∷ [];
  read_failed = false;
}

validate-convert_exprs_example : validate kernel_rules ≡ none
validate-convert_exprs_example =
    validate-convert_exprs no_ip kernel_rules ((((kernel_exprs, refl), tt), tt), tt)

xt_expr-conntrack_example :
    xt_expr to_ssh (convert_xt no_ip "match" "conntrack" 3 (XtInfo.conntrack 0x2001 0 0x8)) ≡ (
      if other_flags 0x2001 == 0 && has_bit 0x2001 0x1
      then decided (flip (has_bit 0 0x1) (has_bit 0x8 0x8))
      else none)
xt_expr-conntrack_example = xt_expr-conntrack no_ip to_ssh 3 0x2001 0 0x8 refl

xt_expr-addrtype_example :
    xt_expr to_ssh (convert_xt no_ip "match" "addrtype" 1 (XtInfo.addr_type_v1 0x4 0x2 0x1)) ≡ (
      if is_partial 0x4 0x2 0x1 || 0x4 == 0 && 0x2 == 0
      then none
      else decided (
          asks 0x4 (has_bit 0x1 0x2) (if to_ssh.dst_is_local then 0x4 else 0x2)
          && asks 0x2 (has_bit 0x1 0x1) 0x2))
xt_expr-addrtype_example = xt_expr-addrtype no_ip to_ssh 1 0x4 0x2 0x1

-- A library that reads every payload as a match on new connections.
abbrev unmarshal_new : String → ℕ → ℕ → Bytes → Option XtInfo
unmarshal_new name family rev raw = some (XtInfo.conntrack 0x1 0 0x8)

abbrev old_xt : XtExpr
old_xt = record (bare_xt "match" "conntrack" 3) { raw = "00" }

abbrev old_rules : Ruleset
old_rules = record {
  tables =
      record {
        family = "ip";
        name = "filter";
        chains =
            record kernel_chain {
              rules =
                  record {
                    handle = 7;
                    exprs = record (of_kind ExprKind.xt) { xt = some old_xt } ∷ [];
                  }
                  ∷ [];
            }
            ∷ [];
        sets = [];
      }
      ∷ [];
  read_failed = false;
}

old_rules_changed : (redecode unmarshal_new no_ip old_rules).1 ≡ 1
unfolding redecode
old_rules_changed = refl

redecode_again_example :
    redecode unmarshal_new no_ip (redecode unmarshal_new no_ip old_rules).0
    ≡ ((redecode unmarshal_new no_ip old_rules).0, 0)
redecode_again_example = redecode_again unmarshal_new no_ip old_rules
