-- ===== src/Model/Forwards/Meets.antt =====
-- internal/model/forwards.go: what one rule leaves in the scan is there at the end, whatever the other rules,
-- chains and tables are.
use whyopen.Prelude.{
  ℕ, suc, ◌≡◌, refl, true, false, ◌||◌, not, none, List, [], ◌∷◌, arith, All, Any, here, there, ◌⊎◌,
  inl, inr, str_eq, eq_iff, Go, Gives, Gives-bind,
}
use whyopen.Facts.Types.{Rule, Chain, Table, Ruleset}
use whyopen.Facts.Validate.{validate}
use whyopen.Facts.Validate.Laws.{RuleIsCarried, ChainIsCarried, TableIsCarried, validate_iff}
use whyopen.Model.Match.Sets.{is_empty}
use whyopen.Model.Traverse.Walk.{max_jump_depth}
use whyopen.Model.Forwards.Types.{FwdMatch, table_families}
use whyopen.Model.Forwards.Exprs.{Scan}
use whyopen.Model.Forwards.Fields.{if_kept, if_else}
use whyopen.Model.Forwards.Total.{IsKept, scan_chain-IsTotal, scan_rules-Kept, scan_exprs-Kept}
use whyopen.Model.Forwards.Laws.{unconstrained-IsMatch, forward_chains-Kept, forward_tables-Kept}
use whyopen.Model.Forwards.{
  unconstrained, rule_start, scan_exprs, scan_rules, scan_chain, keep_rows, nothing_found,
  forward_chains, forward_tables, forwards,
}
use whyopen.Model.Forwards.Keeps.{AnyScan, AnyScan-IsKept}

-- Rules that lead somewhere, in their table and chain.
module _ (Leads : Table → Chain → Rule → Type 0) where
  -- A base chain on prerouting with such a rule.
  pub record ChainLeads (table : Table) (ch : Chain) : Type 0 where
    pub base : ch.base ≡ true
    pub hook : ch.hook ≡ "prerouting"
    pub rule : Any (Leads table ch) ch.rules

  -- A table of a family that is scanned, with such a chain.
  pub record TableLeads (table : Table) : Type 0 where
    pub served : is_empty (table_families table.family) ≡ false
    pub chain : Any (ChainLeads table) table.chains

-- `Held` is kept by every rewrite and by the joining of two scans, and a rule that `Leads` to it leaves
-- it in the scan.
module _ (Held : Scan → Type 0) (kept : IsKept Held)
    (join : (found all : Scan) → (Held found) ⊎ (Held all) → Held (keep_rows found all))
    (Leads : Table → Chain → Rule → Type 0)
    (leaves : (sub : Chain → FwdMatch → Scan → Go Scan) (table : Table) (ch : Chain) (r : Rule)
        (s : Scan)
      → Leads table ch r
      → Gives Held (scan_exprs sub table ch r r.exprs (rule_start unconstrained) s)) where
  module _ (table : Table) (carried : TableIsCarried table) where
    scan_rules-Held :
        (n : ℕ) (ch : Chain) (rs : List Rule) (s : Scan)
        → All RuleIsCarried rs
        → Any (Leads table ch) rs
        → Gives Held (scan_rules (scan_chain n table) table ch unconstrained rs s)
    unfolding scan_rules
    scan_rules-Held n ch [] s c h = elim h [ ]
    scan_rules-Held n ch (r ∷ rs) s (c, cs) (here h) =
        Gives-bind Held Held _ _ (leaves (scan_chain n table) table ch r s h) λ s' k.
          scan_rules-Kept Held kept table carried (scan_chain n table) ch unconstrained rs s'
            (scan_chain-IsTotal Held kept table carried n) cs unconstrained-IsMatch k
    scan_rules-Held n ch (r ∷ rs) s (c, cs) (there h) =
        Gives-bind AnyScan Held _ _
          (scan_exprs-Kept AnyScan AnyScan-IsKept (scan_chain n table) table ch r
            (scan_chain-IsTotal AnyScan AnyScan-IsKept table carried n) carried r.exprs
            (rule_start unconstrained) s c unconstrained-IsMatch tt)
          λ s' _. scan_rules-Held n ch rs s' cs h

    scan_chain-Held :
        (n : ℕ) (ch : Chain)
        → ChainIsCarried ch
        → ChainLeads Leads table ch
        → Gives Held (scan_chain (suc n) table ch unconstrained nothing_found)
    unfolding scan_chain
    scan_chain-Held n ch c h = scan_rules-Held n ch ch.rules nothing_found c h.rule

    on_prerouting :
        (ch : Chain)
        → ChainLeads Leads table ch
        → (not ch.base || not (str_eq ch.hook "prerouting")) ≡ false
    on_prerouting ch h = ground (arith, h.base, h.hook, eq_iff ch.hook "prerouting")

    forward_chains-Held :
        (chs : List Chain) (all : Scan)
        → All ChainIsCarried chs
        → Any (ChainLeads Leads table) chs
        → Gives Held (forward_chains table chs all)
    unfolding forward_chains
    forward_chains-Held [] all c h = elim h [ ]
    forward_chains-Held (ch ∷ chs) all (c, cs) (here h) =
        Gives-bind Held Held _ (forward_chains table chs)
          (if_else (Gives Held) (not ch.base || not (str_eq ch.hook "prerouting")) _ _
            (on_prerouting ch h)
            (Gives-bind Held Held _ _ (scan_chain-Held max_jump_depth ch c h)
              λ found k. (keep_rows found all, refl, join found all (inl k))))
          λ all' k.
            forward_chains-Kept AnyScan Held AnyScan-IsKept tt
              (λ found more _ h'. join found more (inr h')) table chs all' carried cs k
    forward_chains-Held (ch ∷ chs) all (c, cs) (there h) =
        Gives-bind AnyScan Held _ (forward_chains table chs)
          (if_kept (Gives AnyScan) (not ch.base || not (str_eq ch.hook "prerouting")) _ _
            (all, refl, tt)
            (Gives-bind AnyScan AnyScan _ _
              (scan_chain-IsTotal AnyScan AnyScan-IsKept table carried (suc max_jump_depth) ch
                unconstrained nothing_found c unconstrained-IsMatch tt)
              λ found k. (keep_rows found all, refl, tt)))
          λ all' k. forward_chains-Held chs all' cs h

  forward_tables-Held :
      (ts : List Table) (all : Scan)
      → All TableIsCarried ts
      → Any (TableLeads Leads) ts
      → Gives Held (forward_tables ts all)
  unfolding forward_tables
  forward_tables-Held [] all c h = elim h [ ]
  forward_tables-Held (x ∷ ts) all (c, cs) (here h) =
      Gives-bind Held Held _ (forward_tables ts)
        (if_else (Gives Held) (is_empty (table_families x.family)) _ _ h.served
          (forward_chains-Held x c x.chains all c h.chain))
        λ all' k.
          forward_tables-Kept AnyScan Held AnyScan-IsKept tt
            (λ found more _ l. join found more (inr l)) ts all' cs k
  forward_tables-Held (x ∷ ts) all (c, cs) (there h) =
      Gives-bind AnyScan Held _ (forward_tables ts)
        (if_kept (Gives AnyScan) (is_empty (table_families x.family)) _ _ (all, refl, tt)
          (forward_chains-Kept AnyScan AnyScan AnyScan-IsKept tt (λ found more _ _. tt) x x.chains
            all c c tt))
        λ all' _. forward_tables-Held ts all' cs h

  pub forwards-Held :
      (rs : Ruleset)
      → validate rs ≡ none
      → Any (TableLeads Leads) rs.tables
      → Gives Held (forwards rs)
  unfolding forwards
  forwards-Held rs h leads =
      forward_tables-Held rs.tables nothing_found ((validate_iff rs).0 h) leads
