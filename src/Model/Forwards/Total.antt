-- ===== src/Model/Forwards/Total.antt =====
-- internal/model/forwards.go over a document that `facts.Validate` accepts: the scan of a chain
-- returns, and keeps whatever every rewrite keeps.
use whyopen.Prelude.{
  ℕ, zero, suc, ◌≡◌, refl, ap, ◌∙◌, String, not, Option, none, some, List, [], ◌∷◌, All, All-append,
  Bool-cases, inl, inr, str_eq, Go, ◌>>=◌, deref, Gives, Gives-bind,
}
use whyopen.Facts.Types.{ExprKind, BitwiseExpr, NatExpr, VerdictExpr, Expr, Rule, Chain, Table}
use whyopen.Facts.Validate.Laws.{Promised, IsCarried, RuleIsCarried, ChainIsCarried, TableIsCarried}
use whyopen.Model.Forwards.Types.{Refusal, FwdMatch, FwdTarget, native_target, set_ports}
use whyopen.Model.Forwards.Exprs.{
  Scan, RuleState, FwdStep, next, stop, is_dport, refused, scan_bitwise, add_set_ports, rewrite_of,
  calls, scan_call, scan_find_chain, emit, scan_xt, scan_nat, scan_verdict, scan_expr, after_expr,
}
use whyopen.Model.Forwards.Fields.{
  IsUint16, IsMatch, ArePorts, set_ports-ArePorts, cmp_constraint-IsMatch, if_kept,
}
use whyopen.Model.Forwards.{rule_start, scan_exprs, scan_rules, scan_chain}

abbrev StateIsMatch : RuleState → Type 0
StateIsMatch st = IsMatch st.match

refused-IsMatch : (why : Refusal) (st : RuleState) → StateIsMatch st → StateIsMatch (refused why st)
refused-IsMatch why st h = record { proto = h.proto; ports = h.ports }

scan_bitwise-IsMatch :
    (b : BitwiseExpr) (st : RuleState) → StateIsMatch st → StateIsMatch (scan_bitwise b st)
unfolding scan_bitwise
scan_bitwise-IsMatch b st h =
    if_kept StateIsMatch (is_dport (st.regs b.source_register)) _ _
      (refused-IsMatch Refusal.masked st h) h

add_set_ports-IsMatch :
    (o : Option (List ℕ)) (st : RuleState)
    → ArePorts o
    → StateIsMatch st
    → StateIsMatch (add_set_ports o st)
unfolding add_set_ports
add_set_ports-IsMatch none st k h = refused-IsMatch Refusal.unreadable_set st h
add_set_ports-IsMatch (some ports) st k h = record {
  proto = h.proto;
  ports = All-append IsUint16 st.match.ports ports h.ports k;
}

-- What every rewrite keeps, whatever the rule that it stands in.
abbrev pub IsKept : (Scan → Type 0) → Type 0
IsKept Kept =
    (table : Table) (ch : Chain) (r : Rule) (t : FwdTarget) (m : FwdMatch) (s : Scan)
    → IsMatch m
    → Kept s
    → Kept (emit table ch r m t s)

module _ (Kept : Scan → Type 0) (keeps : IsKept Kept) where
  -- What a step leaves.
  abbrev StepIsSound : FwdStep → Type 0
  StepIsSound (next st) = StateIsMatch st
  StepIsSound (stop s) = Kept s

  abbrev pub SubIsTotal : (Chain → FwdMatch → Scan → Go Scan) → Type 0
  SubIsTotal sub =
      (ch : Chain) (m : FwdMatch) (s : Scan)
      → ChainIsCarried ch
      → IsMatch m
      → Kept s
      → Gives Kept (sub ch m s)

  module _ (sub : Chain → FwdMatch → Scan → Go Scan) (table : Table) (ch : Chain) (r : Rule)
      (total : SubIsTotal sub) (carried : TableIsCarried table) where
    scan_xt-IsSound :
        (o : Option FwdTarget) (st : RuleState) (s : Scan)
        → StateIsMatch st
        → Kept s
        → StepIsSound (scan_xt sub table ch r o st s)
    unfolding scan_xt
    scan_xt-IsSound none st s h k = h
    scan_xt-IsSound (some t) st s h k = keeps table ch r t st.match s h k

    scan_nat-IsSound :
        (n : NatExpr) (st : RuleState) (s : Scan)
        → StateIsMatch st
        → Kept s
        → StepIsSound (scan_nat sub table ch r n st s)
    unfolding scan_nat
    scan_nat-IsSound n st s h k =
        if_kept StepIsSound (not (str_eq n.type "dnat")) _ _ h
          (keeps table ch r (native_target n st.imm) st.match s h k)

    find-IsTotal :
        (name : String) (m : FwdMatch) (s : Scan) (chs : List Chain)
        → All ChainIsCarried chs
        → IsMatch m
        → Kept s
        → Gives Kept (scan_call sub (scan_find_chain name chs) m s)
    unfolding scan_call scan_find_chain
    find-IsTotal name m s [] c h k = (s, refl, k)
    find-IsTotal name m s (x ∷ chs) (c, cs) h k = elim (Bool-cases (str_eq x.name name)) [
      | inl q ↦ rw q (total x m s c h k)
      | inr q ↦ rw q (find-IsTotal name m s chs cs h k)
    ]

    scan_verdict-IsSound :
        (v : VerdictExpr) (st : RuleState) (s : Scan)
        → StateIsMatch st
        → Kept s
        → Gives StepIsSound (scan_verdict sub table ch r v st s)
    unfolding scan_verdict
    scan_verdict-IsSound v st s h k =
        Gives-bind Kept StepIsSound _ _
          (if_kept (Gives Kept) (calls v.kind) _ _
            (find-IsTotal v.chain st.match s table.chains carried h k) (s, refl, k))
          λ s' k'. (stop s', refl, k')

    deref-bind {ℓ} :
        {A : Type ℓ} (o : Option A) (x : A) (f : A → Go FwdStep)
        → o ≡ some x
        → Gives StepIsSound (f x)
        → Gives StepIsSound (deref o >>= f)
    deref-bind o x f p g = (g.0, ap (λ q. deref q >>= f) p ∙ g.1, g.2)

    scan_expr-IsSound :
        (k : ExprKind) (e : Expr) (st : RuleState) (s : Scan)
        → Promised k e
        → StateIsMatch st
        → Kept s
        → Gives StepIsSound (scan_expr sub table ch r k e st s)
    unfolding scan_expr
    scan_expr-IsSound ExprKind.payload e st s (x, p) h k = deref-bind e.payload x _ p (_, refl, h)
    scan_expr-IsSound ExprKind.meta e st s (x, p) h k = deref-bind e.meta x _ p (_, refl, h)
    scan_expr-IsSound ExprKind.ct e st s (x, p) h k = deref-bind e.ct x _ p (_, refl, h)
    scan_expr-IsSound ExprKind.fib e st s (x, p) h k = deref-bind e.fib x _ p (_, refl, h)
    scan_expr-IsSound ExprKind.bitwise e st s (x, p) h k =
        deref-bind e.bitwise x _ p (_, refl, scan_bitwise-IsMatch x st h)
    scan_expr-IsSound ExprKind.cmp e st s (x, p) h k =
        deref-bind e.cmp x _ p (_, refl, cmp_constraint-IsMatch st.match (st.regs x.register) x h)
    scan_expr-IsSound ExprKind.lookup e st s (x, p) h k = deref-bind e.lookup x _ p (
      _,
      refl,
      if_kept StateIsMatch (not (is_dport (st.regs x.source_register))) _ _ h
          (add_set_ports-IsMatch (set_ports table.sets x) st (set_ports-ArePorts table.sets x) h),
    )
    scan_expr-IsSound ExprKind.range e st s (x, p) h k = deref-bind e.range x _ p (
      _,
      refl,
      if_kept StateIsMatch (is_dport (st.regs x.register)) _ _ (refused-IsMatch Refusal.ranged st h)
          h,
    )
    scan_expr-IsSound ExprKind.immediate e st s (x, p) h k =
        deref-bind e.immediate x _ p (_, refl, h)
    scan_expr-IsSound ExprKind.nat e st s (x, p) h k =
        deref-bind e.nat x _ p (_, refl, scan_nat-IsSound x st s h k)
    scan_expr-IsSound ExprKind.xt e st s (x, p) h k =
        deref-bind e.xt x _ p (_, refl, scan_xt-IsSound (rewrite_of x x.dnat) st s h k)
    scan_expr-IsSound ExprKind.verdict e st s (x, p) h k =
        deref-bind e.verdict x _ p (scan_verdict-IsSound x st s h k)
    scan_expr-IsSound ExprKind.other e st s p h k = (_, refl, h)
    scan_expr-IsSound ExprKind.unknown e st s p h k = (_, refl, h)
    scan_expr-IsSound (ExprKind.unrecognised text) e st s p h k = (_, refl, h)

    after_expr-Kept :
        (rest : RuleState → Go Scan) (step : FwdStep)
        → StepIsSound step
        → ((st : RuleState) → StateIsMatch st → Gives Kept (rest st))
        → Gives Kept (after_expr rest step)
    after_expr-Kept rest (next st) h k = k st h
    after_expr-Kept rest (stop s) h k = (s, refl, h)

    pub scan_exprs-Kept :
        (es : List Expr) (st : RuleState) (s : Scan)
        → All IsCarried es
        → StateIsMatch st
        → Kept s
        → Gives Kept (scan_exprs sub table ch r es st s)
    unfolding scan_exprs
    scan_exprs-Kept [] st s c h k = (s, refl, k)
    scan_exprs-Kept (e ∷ es) st s (c, cs) h k =
        Gives-bind StepIsSound Kept _ _ (scan_expr-IsSound e.kind e st s c h k)
          λ step sound. after_expr-Kept _ step sound λ st' h'. scan_exprs-Kept es st' s cs h' k

  module _ (table : Table) (carried : TableIsCarried table) where
    pub scan_rules-Kept :
        (sub : Chain → FwdMatch → Scan → Go Scan) (ch : Chain) (m : FwdMatch) (rs : List Rule)
        (s : Scan)
        → SubIsTotal sub
        → All RuleIsCarried rs
        → IsMatch m
        → Kept s
        → Gives Kept (scan_rules sub table ch m rs s)
    unfolding scan_rules
    scan_rules-Kept sub ch m [] s total c h k = (s, refl, k)
    scan_rules-Kept sub ch m (r ∷ rs) s total (c, cs) h k =
        Gives-bind Kept Kept _ _
          (scan_exprs-Kept sub table ch r total carried r.exprs (rule_start m) s c h k)
          λ s' k'. scan_rules-Kept sub ch m rs s' total cs h k'

    -- The scan of a chain returns and keeps what every rewrite keeps, at every depth.
    pub scan_chain-IsTotal : (n : ℕ) → SubIsTotal (scan_chain n table)
    unfolding scan_chain
    scan_chain-IsTotal zero ch m s c h k = (s, refl, k)
    scan_chain-IsTotal (suc n) ch m s c h k =
        scan_rules-Kept (scan_chain n table) ch m ch.rules s (scan_chain-IsTotal n) c h k
