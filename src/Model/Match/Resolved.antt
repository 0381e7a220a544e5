-- ===== src/Model/Match/Resolved.antt =====
-- internal/model/match.go: a rule that is said to match was understood in full, and one that is
-- stepped over could not have decided anything.
use whyopen.Prelude.{
  ℕ, ◌+◌, ◌≡◌, refl, Bool, true, false, subst, true, Option, none, some, inl, inr, eq_iff, List, [],
  ◌∷◌, arith, ◌⊎◌, All, Go, panic, ok, ◌>>=◌, deref,
}
use whyopen.Facts.Types.{ExprKind, Expr, Rule, ElementSet, XtExpr, ActionKind}
use whyopen.Model.Packet.{Packet, Action, Outcome, match, skipped}
use whyopen.Model.Match.Exprs.{
  MatchState, Step, next, stop, eval_payload, eval_meta, eval_bitwise, eval_ct, eval_lookup,
  eval_cmp, eval_immediate, eval_nat, eval_fib, eval_range, eval_verdict,
}
use whyopen.Model.Match.Xt.{XtResult, xt_expr}
use whyopen.Model.Match.Rule.{
  is_match_kind, is_none_kind, xt_is_inert, skip_or_refuse, xt_step, bystander, bystanders,
  skippable_unresolved_match, eval_xt, eval_kind, after_step, match_exprs, match_rule,
}

-- A kind that the evaluator has a meaning for.
abbrev pub IsKnown : ExprKind → Type 0
IsKnown ExprKind.unknown = ⊥
IsKnown (ExprKind.unrecognised text) = ⊥
IsKnown _ = Unit

-- An xt expression that the evaluator resolves to no action: it gives no verdict and rewrites nothing.
abbrev pub IsInert : Packet → Expr → Type 0
IsInert pkt e =
    (x : XtExpr) × (out : Outcome) × (a : Action) × (e.xt ≡ some x)
    × (xt_expr pkt x ≡ some (out, a))
    × (a.kind ≡ ActionKind.none)

-- An expression, of this kind, that neither ends a rule nor rewrites the packet.
abbrev pub IsHarmless : Packet → ExprKind → Expr → Type 0
IsHarmless pkt ExprKind.payload e = Unit
IsHarmless pkt ExprKind.cmp e = Unit
IsHarmless pkt ExprKind.meta e = Unit
IsHarmless pkt ExprKind.bitwise e = Unit
IsHarmless pkt ExprKind.other e = Unit
IsHarmless pkt ExprKind.xt e = IsInert pkt e
IsHarmless pkt _ e = ⊥

-- An xt match that the evaluator cannot resolve.
abbrev pub IsUnresolved : Packet → ExprKind → Expr → Type 0
IsUnresolved pkt k e =
    (x : XtExpr) × (k ≡ ExprKind.xt) × (e.xt ≡ some x) × (x.kind ≡ "match") × (xt_expr pkt x ≡ none)

-- What a step says of its expression: the rule goes on past known kinds only, no expression makes
-- it match at once, and it is skipped only at an unresolved xt match among bystanders.
abbrev Justified : Packet → Rule → ℕ → ExprKind → Expr → Go Step → Type 0
Justified pkt r i k e panic = Unit
Justified pkt r i k e (ok (next st)) = IsKnown k
Justified pkt r i k e (ok (stop match)) = ⊥
Justified pkt r i k e (ok (stop skipped)) =
    IsUnresolved pkt k e × (bystanders pkt i 0 r.exprs ≡ ok true)
Justified pkt r i k e (ok (stop _)) = Unit

match_kind :
    (o : Option XtExpr) (x : XtExpr) → o ≡ some x → is_match_kind o ≡ true → x.kind ≡ "match"
unfolding is_match_kind
match_kind none x e h = cc
match_kind (some y) x e h = let k = (eq_iff y.kind "match").0 h in cc

skip-Justified :
    (pkt : Packet) (r : Rule) (i : ℕ) (e : Expr) (m : Go Bool)
    → (m ≡ ok true → IsUnresolved pkt ExprKind.xt e × (bystanders pkt i 0 r.exprs ≡ ok true))
    → Justified pkt r i ExprKind.xt e (m >>= λ skip. ok (skip_or_refuse skip))
unfolding skip_or_refuse
skip-Justified pkt r i e panic h = tt
skip-Justified pkt r i e (ok true) h = h refl
skip-Justified pkt r i e (ok false) h = tt

-- The rule is skipped for a match, and past bystanders only.
skippable_because :
    (pkt : Packet) (r : Rule) (i : ℕ) (e : Expr)
    → skippable_unresolved_match pkt r i e ≡ ok true
    → (is_match_kind e.xt ≡ true) × (bystanders pkt i 0 r.exprs ≡ ok true)
unfolding skippable_unresolved_match
skippable_because pkt r i e h = ground arith

eval_xt-Justified :
    (pkt : Packet) (r : Rule) (i : ℕ) (e : Expr) (x : XtExpr) (st : MatchState) (o : XtResult)
    → e.xt ≡ some x
    → xt_expr pkt x ≡ o
    → Justified pkt r i ExprKind.xt e (elim o [
      | none ↦ skippable_unresolved_match pkt r i e >>= λ skip. ok (skip_or_refuse skip)
      | some (out, a) ↦ ok (xt_step out a st)
    ])
unfolding xt_step
eval_xt-Justified pkt r i e x st none h k =
    skip-Justified pkt r i e (skippable_unresolved_match pkt r i e) λ q.
      let (kind, b) = skippable_because pkt r i e q in
      ((x, refl, h, match_kind e.xt x h kind, k), b)
eval_xt-Justified pkt r i e x st (some (out, a)) h k = ground arith

deref_xt-Justified :
    (pkt : Packet) (r : Rule) (i : ℕ) (e : Expr) (o : Option XtExpr) (st : MatchState)
    → e.xt ≡ o
    → Justified pkt r i ExprKind.xt e (deref o >>= λ x. eval_xt pkt r i e x st)
unfolding eval_xt
deref_xt-Justified pkt r i e none st h = tt
deref_xt-Justified pkt r i e (some x) st h = eval_xt-Justified pkt r i e x st _ h refl

eval_kind-Justified :
    (k : ExprKind) (pkt : Packet) (r : Rule) (sets : List ElementSet) (i : ℕ) (e : Expr)
    (st : MatchState)
    → Justified pkt r i k e (eval_kind k pkt r sets i e st)
unfolding eval_kind eval_payload eval_meta eval_bitwise eval_ct eval_lookup eval_cmp eval_immediate
    eval_nat eval_fib eval_range eval_verdict
eval_kind-Justified ExprKind.xt pkt r sets i e st = deref_xt-Justified pkt r i e e.xt st refl
eval_kind-Justified _ pkt r sets i e st = ground arith

-- The expression at position `idx` is an xt match that the evaluator cannot resolve.
abbrev pub UnresolvedAt : Packet → ℕ → ℕ → List Expr → Type 0
UnresolvedAt pkt idx i [] = ⊥
UnresolvedAt pkt idx i (e ∷ es) =
    ((i ≡ idx) × IsUnresolved pkt e.kind e) ⊎ UnresolvedAt pkt idx (i + 1) es

-- What the end of the loop says of the expressions that it read, from position `i` on.
abbrev Concluded : Packet → Rule → ℕ → List Expr → Go (Outcome × Action) → Type 0
Concluded pkt r i es panic = Unit
Concluded pkt r i es (ok (match, a)) = All (λ e. IsKnown e.kind) es
Concluded pkt r i es (ok (skipped, a)) =
    (idx : ℕ) × UnresolvedAt pkt idx i es × (bystanders pkt idx 0 r.exprs ≡ ok true)
Concluded pkt r i es (ok (_, a)) = Unit

Concluded-cons :
    (pkt : Packet) (r : Rule) (i : ℕ) (e : Expr) (es : List Expr) (m : Go (Outcome × Action))
    → IsKnown e.kind
    → Concluded pkt r (i + 1) es m
    → Concluded pkt r i (e ∷ es) m
Concluded-cons pkt r i e es panic k h = tt
Concluded-cons pkt r i e es (ok (match, a)) k h = (k, h)
Concluded-cons pkt r i e es (ok (skipped, a)) k (idx, at, b) = (idx, inr at, b)
Concluded-cons pkt r i e es (ok (_, a)) k h = tt

after_step-Concluded :
    (pkt : Packet) (r : Rule) (i : ℕ) (e : Expr) (es : List Expr) (st : MatchState)
    (rest : MatchState → Go (Outcome × Action)) (m : Go Step)
    → Justified pkt r i e.kind e m
    → ((st' : MatchState) → Concluded pkt r (i + 1) es (rest st'))
    → Concluded pkt r i (e ∷ es) (m >>= after_step rest st)
after_step-Concluded pkt r i e es st rest panic j h = tt
after_step-Concluded pkt r i e es st rest (ok (next st')) j h =
    Concluded-cons pkt r i e es (rest st') j (h st')
after_step-Concluded pkt r i e es st rest (ok (stop match)) j h = absurd j
after_step-Concluded pkt r i e es st rest (ok (stop skipped)) j h = (i, inl (refl, j.0), j.1)
after_step-Concluded pkt r i e es st rest (ok (stop _)) j h = tt

match_exprs-Concluded :
    (pkt : Packet) (r : Rule) (sets : List ElementSet) (i : ℕ) (es : List Expr) (st : MatchState)
    → Concluded pkt r i es (match_exprs pkt r sets i es st)
unfolding match_exprs
match_exprs-Concluded pkt r sets i [] st = tt
match_exprs-Concluded pkt r sets i (e ∷ es) st =
    after_step-Concluded pkt r i e es st _ (eval_kind e.kind pkt r sets i e st)
      (eval_kind-Justified e.kind pkt r sets i e st)
      λ st'. match_exprs-Concluded pkt r sets (i + 1) es st'

-- Every expression but the one at position `idx` is harmless.
abbrev pub HarmlessBut : Packet → ℕ → ℕ → List Expr → Type 0
HarmlessBut pkt idx i [] = Unit
HarmlessBut pkt idx i (e ∷ es) =
    ((i ≡ idx) ⊎ IsHarmless pkt e.kind e) × HarmlessBut pkt idx (i + 1) es

none_kind : (k : ActionKind) → is_none_kind k ≡ true → k ≡ ActionKind.none
none_kind ActionKind.none h = refl
none_kind _ h = ground arith

xt_is_inert-IsInert :
    (pkt : Packet) (e : Expr) (x : XtExpr) (o : XtResult)
    → e.xt ≡ some x
    → xt_expr pkt x ≡ o
    → xt_is_inert o ≡ true
    → IsInert pkt e
unfolding xt_is_inert
xt_is_inert-IsInert pkt e x none h q k = ground arith
xt_is_inert-IsInert pkt e x (some (out, a)) h q k = (x, out, a, h, q, none_kind a.kind k)

deref_xt-IsInert :
    (pkt : Packet) (e : Expr) (o : Option XtExpr)
    → e.xt ≡ o
    → (deref o >>= λ x. ok (xt_is_inert (xt_expr pkt x))) ≡ ok true
    → IsInert pkt e
deref_xt-IsInert pkt e none h k = cc
deref_xt-IsInert pkt e (some x) h k =
    xt_is_inert-IsInert pkt e x (xt_expr pkt x) h refl (ground arith)

bystander-IsHarmless :
    (pkt : Packet) (k : ExprKind) (e : Expr) → bystander pkt k e ≡ ok true → IsHarmless pkt k e
unfolding bystander
bystander-IsHarmless pkt ExprKind.payload e h = tt
bystander-IsHarmless pkt ExprKind.xt e h = deref_xt-IsInert pkt e e.xt refl h
bystander-IsHarmless pkt _ e h = ground arith

bystanders-HarmlessBut :
    (pkt : Packet) (idx i : ℕ) (es : List Expr)
    → bystanders pkt idx i es ≡ ok true
    → HarmlessBut pkt idx i es
unfolding bystanders
bystanders-HarmlessBut pkt idx i [] h = tt
bystanders-HarmlessBut pkt idx i (e ∷ es) h =
    ground (arith, bystander-IsHarmless pkt e.kind e, bystanders-HarmlessBut pkt idx (i + 1) es)

-- A rule that matches holds no expression that the evaluator does not know: neither one that the
-- collector had no decoder for nor a kind from a newer document.
pub match_rule-match-IsKnown :
    (pkt : Packet) (r : Rule) (sets : List ElementSet) (a : Action)
    → match_rule pkt r sets ≡ ok (match, a)
    → All (λ e. IsKnown e.kind) r.exprs
unfolding match_rule
match_rule-match-IsKnown pkt r sets a h =
    subst (Concluded pkt r 0 r.exprs) h (match_exprs-Concluded pkt r sets 0 r.exprs _)

-- A rule that is skipped has, at some position, an xt match that the evaluator cannot resolve, and
-- everything else in it is a load from the packet or its meta data, a comparison, a mask, a transparent
-- expression, or an xt expression that resolves to no action: no verdict, no rewrite by an xt target or
-- a nat expression, no set lookup, no expression that the evaluator does not know.
pub match_rule-skipped-HarmlessBut :
    (pkt : Packet) (r : Rule) (sets : List ElementSet) (a : Action)
    → match_rule pkt r sets ≡ ok (skipped, a)
    → (idx : ℕ) × UnresolvedAt pkt idx 0 r.exprs × HarmlessBut pkt idx 0 r.exprs
unfolding match_rule
match_rule-skipped-HarmlessBut pkt r sets a h =
    let (idx, at, b) =
      subst (Concluded pkt r 0 r.exprs) h (match_exprs-Concluded pkt r sets 0 r.exprs _) in
    (idx, at, bystanders-HarmlessBut pkt idx 0 r.exprs b)
