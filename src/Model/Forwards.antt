-- ===== src/Model/Forwards.antt =====
-- internal/model/forwards.go: the ports that the ruleset forwards to another machine.
pub mod Types
pub mod Exprs
pub mod Fields
pub mod Rows
pub mod Total
pub mod Laws
pub mod Names
pub mod Keeps
pub mod Meets
pub mod Shapes
pub mod Notes
pub mod Said
use whyopen.Prelude.{
  ℕ, zero, suc, String, Bool, ◌&&◌, ◌||◌, not, none, List, [], ◌∷◌, ◌++◌, ◌==◌, if◌then◌else◌,
  str_eq, any, Go, ok, ◌>>=◌,
}
use whyopen.Facts.Types.{Expr, Rule, Chain, Table, Ruleset}
use whyopen.Model.Evaluate.Types.{Endpoint}
use whyopen.Model.Match.Sets.{is_empty}
use whyopen.Model.Traverse.Walk.{max_jump_depth}
use whyopen.Model.Forwards.Types.{FwdMatch, FwdField, table_families}
use whyopen.Model.Forwards.Exprs.{FwdNote, Scan, RuleState, FwdStep, scan_expr, after_expr}

-- What no rule has constrained.
abbrev pub unconstrained : FwdMatch
unconstrained = record { proto = ""; ports = []; refuse = none }

abbrev pub rule_start : FwdMatch → RuleState
rule_start m = record { regs = λ r. FwdField.unset; imm = λ r. none; match = m }

module _ (sub : Chain → FwdMatch → Scan → Go Scan) (table : Table) (ch : Chain) where
  -- The loop of `rule`.
  unfoldable pub scan_exprs : Rule → List Expr → RuleState → Scan → Go Scan
  unfolding scan_expr
  scan_exprs r [] st s = ok s
  scan_exprs r (e ∷ es) st s =
      scan_expr sub table ch r e.kind e st s >>= after_expr (λ st'. scan_exprs r es st' s)

  -- The loop of `walkChain`: each rule starts from the match that the chain was given.
  unfoldable pub scan_rules : FwdMatch → List Rule → Scan → Go Scan
  unfolding scan_exprs
  scan_rules m [] s = ok s
  scan_rules m (r ∷ rs) s = scan_exprs r r.exprs (rule_start m) s >>= scan_rules m rs

-- `walkChain` of the scan, with the levels of nesting that are left.
unfoldable pub scan_chain : ℕ → Table → Chain → FwdMatch → Scan → Go Scan
unfolding scan_rules
scan_chain zero table ch m s = ok s
scan_chain (suc n) table ch m s = scan_rules (scan_chain n table) table ch m ch.rules s

-- The key that `forwards` keeps of a row. Its parts hold no slash, so that equal texts have equal parts.
abbrev pub same_row : Endpoint → Endpoint → Bool
same_row a b = str_eq a.family b.family && str_eq a.proto b.proto && a.port == b.port

unfoldable pub has_row : List Endpoint → Endpoint → Bool
has_row eps e = any (same_row e) eps

-- The loop over the rows of one chain.
unfoldable pub add_rows : List Endpoint → List Endpoint → List Endpoint
unfolding has_row
add_rows [] eps = eps
add_rows (e ∷ es) eps = add_rows es (if has_row eps e then eps else eps ++ (e ∷ []))

abbrev pub keep_rows : Scan → Scan → Scan
keep_rows found all = record { eps = add_rows found.eps all.eps; notes = all.notes ++ found.notes }

abbrev pub nothing_found : Scan
nothing_found = record { eps = []; notes = [] }

-- The loop over the chains of a table.
unfoldable pub forward_chains : Table → List Chain → Scan → Go Scan
unfolding scan_chain add_rows
forward_chains table [] all = ok all
forward_chains table (ch ∷ chs) all =
    (if not ch.base || not (str_eq ch.hook "prerouting")
      then ok all
      else (scan_chain (suc max_jump_depth) table ch unconstrained nothing_found >>= λ found.
          ok (keep_rows found all)))
    >>= forward_chains table chs

-- The loop over the tables.
unfoldable pub forward_tables : List Table → Scan → Go Scan
unfolding forward_chains table_families
forward_tables [] all = ok all
forward_tables (t ∷ ts) all =
    (if is_empty (table_families t.family) then ok all else forward_chains t t.chains all)
    >>= forward_tables ts

-- `forwards`: the rows, and every note that was made, which `ForwardNotes` gives out once each.
unfoldable pub forwards : Ruleset → Go Scan
unfolding forward_tables
forwards rs = forward_tables rs.tables nothing_found
