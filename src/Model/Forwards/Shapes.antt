-- ===== src/Model/Forwards/Shapes.antt =====
-- internal/model/forwards.go: rules that rewrite the destination, by their expressions, and what the scan makes
-- of them.
use whyopen.Prelude.{
  ℕ, ◌≡◌, ◌≢◌, refl, ap, ◌∙◌, String, true, none, some, List, [], ◌∷◌, ◌++◌, arith, ◌==◌,
  if◌then◌else◌, eq_iff, ok, Go,
}
use whyopen.Facts.Types.{
  ExprKind, CmpOp, MetaKey, PayloadBase, Expr, XtExpr, DnatInfo, Rule, Chain, Table,
}
use whyopen.Model.Match.Ports.{bare, load_payload, compare_to}
use whyopen.Model.Forwards.Types.{
  FwdMatch, FwdField, FwdTarget, port_from_hex, proto_from_hex, add_port_or_refuse, cmp_constraint,
  native_target, xt_target,
}
use whyopen.Model.Forwards.Exprs.{
  Scan, RuleState, set_field, meta_field, scan_xt, rewrite_of, after_expr, emit, scan_immediate,
}
use whyopen.Model.Forwards.{unconstrained, scan_exprs}

abbrev pub load_meta : MetaKey → ℕ → Expr
load_meta key register = record (bare ExprKind.meta) {
  meta = some (record { key = key; register = register });
}

abbrev pub xt_of : XtExpr → Expr
xt_of x = record (bare ExprKind.xt) { xt = some x }

abbrev pub immediate_to : ℕ → String → Expr
immediate_to register hex = record (bare ExprKind.immediate) {
  immediate = some (record { register = register; hex = hex });
}

abbrev pub nat_from : ℕ → ℕ → Expr
nat_from addr proto = record (bare ExprKind.nat) {
  nat = some (record { type = "dnat"; addr_register = addr; proto_register = proto });
}

-- Expressions that leave the port and the protocol open: counters, logs and limits, xt matches, and
-- tests of an interface, a mark or any other meta datum that is not the protocol.
pub data Passes : List Expr → Type 0 where
  done : Passes []
  transparent : {es : List Expr} → Passes es → Passes (bare ExprKind.other ∷ es)
  xt_match : {es : List Expr} (x : XtExpr) → x.dnat ≡ none → Passes es → Passes (xt_of x ∷ es)
  tested :
      {es : List Expr} (key : MetaKey) (register : ℕ) (op : CmpOp) (hex : String)
      → key ≢ MetaKey.l4proto
      → Passes es
      → Passes (
          load_meta key register
          ∷ compare_to (record { op = op; register = register; hex = hex })
          ∷ es)

-- Expressions that test the protocol and the destination port for equality.
abbrev pub tests_port : String → String → List Expr → List Expr
tests_port proto port es =
    load_meta MetaKey.l4proto 1
    ∷ compare_to (record { op = CmpOp.eq; register = 1; hex = proto })
    ∷ load_payload (record { dest_register = 1; base = PayloadBase.transport; offset = 2; len = 2 })
    ∷ compare_to (record { op = CmpOp.eq; register = 1; hex = port })
    ∷ es

-- Where `dnat to ADDRESS:PORT` sends the packet, and where `dnat to ADDRESS` does.
abbrev pub sent_to : String → String → FwdTarget
unfolding native_target
sent_to to to_port =
    native_target (record { type = "dnat"; addr_register = 1; proto_register = 2 })
      λ q. if q == 2 then some to_port else (if q == 1 then some to else none)

abbrev pub sent_to_addr : String → FwdTarget
unfolding native_target
sent_to_addr to =
    native_target (record { type = "dnat"; addr_register = 1; proto_register = 0 })
      λ q. if q == 1 then some to else none

-- Expressions that rewrite the destination to a target, and any that follow.
pub data Rewrites : List Expr → FwdTarget → Type 0 where
  to_addr_and_port :
      (to to_port : String) (es : List Expr)
      → Rewrites
          (immediate_to 1 to ∷ immediate_to 2 to_port ∷ nat_from 1 2 ∷ es)
          (sent_to to to_port)
  to_addr :
      (to : String) (es : List Expr)
      → Rewrites (immediate_to 1 to ∷ nat_from 1 0 ∷ es) (sent_to_addr to)
  by_xt :
      (x : XtExpr) (d : DnatInfo) (es : List Expr)
      → x.kind ≡ "target"
      → x.name ≡ "DNAT"
      → x.decoded ≡ true
      → x.dnat ≡ some d
      → Rewrites (xt_of x ∷ es) (xt_target d)

no_proto : (k : MetaKey) → k ≢ MetaKey.l4proto → meta_field k ≡ FwdField.other
no_proto MetaKey.l4proto h = absurd (h refl)
no_proto _ h = refl

same_register : (r : ℕ) → (r == r) ≡ true
same_register r = ground arith

own_register :
    (r : ℕ) (k : MetaKey) (f : FwdField)
    → k ≢ MetaKey.l4proto
    → (if r == r then meta_field k else f) ≡ FwdField.other
own_register r k f h = ap (λ b. if b then meta_field k else f) (same_register r) ∙ no_proto k h

rewrite_of_target :
    (x : XtExpr) (d : DnatInfo)
    → x.kind ≡ "target"
    → x.name ≡ "DNAT"
    → x.decoded ≡ true
    → x.dnat ≡ some d
    → rewrite_of x x.dnat ≡ some (xt_target d)
unfolding rewrite_of
rewrite_of_target x d k n dec h =
    ap (rewrite_of x) h ∙ ground (arith, k, n, dec, eq_iff x.kind "target", eq_iff x.name "DNAT")

module _ (sub : Chain → FwdMatch → Scan → Go Scan) (table : Table) (ch : Chain) (r : Rule) where
  -- The expressions take the match from `m` to `m'` and go on.
  abbrev pub Leaves : FwdMatch → FwdMatch → (List Expr → List Expr) → Type 0
  Leaves m m' put =
      (st : RuleState)
      → st.match ≡ m
      → (st' : RuleState) × (st'.match ≡ m')
        × ((es : List Expr) (s : Scan)
            → scan_exprs sub table ch r (put es) st s ≡ scan_exprs sub table ch r es st' s)

  pub Passes-Leaves : {g : List Expr} (m : FwdMatch) → Passes g → Leaves m m (λ es. g ++ es)
  unfolding scan_exprs rewrite_of scan_xt cmp_constraint
  Passes-Leaves m done st h = (st, h, λ es s. refl)
  Passes-Leaves m (transparent p) st h = Passes-Leaves m p st h
  Passes-Leaves m (xt_match {es} x k p) st h =
      let (st', e, go) = Passes-Leaves m p st h in
      (
        st',
        e,
        λ more s.
            ap
              (λ o.
                after_expr (λ st'. scan_exprs sub table ch r (es ++ more) st' s)
                  (scan_xt sub table ch r (rewrite_of x o) st s))
              k
            ∙ go more s,
      )
  Passes-Leaves m (tested key reg op hex k p) st h =
      let st1 : RuleState = record (set_field reg (meta_field key) st) {
        match =
            cmp_constraint st.match (if reg == reg then meta_field key else st.regs reg)
              (record { op = op; register = reg; hex = hex });
      } in
      Passes-Leaves m p st1 (
        ap (λ f. cmp_constraint st.match f (record { op = op; register = reg; hex = hex }))
          (own_register reg key (st.regs reg) k)
        ∙ h)

  pub tests_port-Leaves :
      (proto port : String) (p : ℕ)
      → port_from_hex port ≡ some p
      → Leaves unconstrained
          (record { proto = proto_from_hex proto; ports = p ∷ []; refuse = none })
          (tests_port proto port)
  unfolding scan_exprs add_port_or_refuse
  tests_port-Leaves proto port p h st k = (
    record (set_field 1 FwdField.dport (set_field 1 FwdField.l4proto st)) {
      match =
          add_port_or_refuse (record st.match { proto = proto_from_hex proto })
            (port_from_hex port);
    },
    ap (λ m. add_port_or_refuse (record m { proto = proto_from_hex proto }) (port_from_hex port)) k
        ∙ ap (add_port_or_refuse (record unconstrained { proto = proto_from_hex proto })) h,
    λ es s. refl,
  )

  pub scan_exprs-Rewrites :
      {es : List Expr} {t : FwdTarget} (st : RuleState) (s : Scan)
      → Rewrites es t
      → scan_exprs sub table ch r es st s ≡ ok (emit table ch r st.match t s)
  unfolding scan_exprs scan_immediate scan_xt
  scan_exprs-Rewrites st s (to_addr_and_port to to_port es) = refl
  scan_exprs-Rewrites st s (to_addr to es) = refl
  scan_exprs-Rewrites st s (by_xt x d es k n dec h) =
      ap
        (λ o.
          after_expr (λ st'. scan_exprs sub table ch r es st' s) (scan_xt sub table ch r o st s))
        (rewrite_of_target x d k n dec h)
