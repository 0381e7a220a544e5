-- ===== src/Model/Match/Rule.antt =====
-- internal/model/match.go, `MatchRule`: the xt expressions, which look at the whole rule, and the loop
-- over a rule's expressions. A nil object panics.
use whyopen.Prelude.{
  ℕ, ◌+◌, Bool, true, false, Option, none, some, List, [], ◌∷◌, ◌==◌, if◌then◌else◌, str_eq, Go, ok,
  ◌>>=◌, deref,
}
use whyopen.Facts.Types.{ExprKind, Expr, Rule, ElementSet, XtExpr, ActionKind}
use whyopen.Model.Packet.{Packet, Action, Outcome, match, no_match, unknown, skipped}
use whyopen.Model.Match.Xt.{XtResult, act_none, xt_expr}
use whyopen.Model.Match.Exprs.{
  MatchState, Step, next, stop, eval_payload, eval_meta, eval_bitwise, eval_ct, eval_lookup,
  eval_cmp, eval_immediate, eval_nat, eval_fib, eval_range, eval_verdict,
}

unfoldable pub is_match_kind : Option XtExpr → Bool
is_match_kind none = false
is_match_kind (some x) = str_eq x.kind "match"

abbrev pub is_none_kind : ActionKind → Bool
is_none_kind ActionKind.none = true
is_none_kind _ = false

-- An xt expression that resolves and has no action of its own.
unfoldable pub xt_is_inert : XtResult → Bool
xt_is_inert none = false
xt_is_inert (some (out, a)) = is_none_kind a.kind

-- Whether one of the other expressions lets the unresolved one be skipped.
unfoldable pub bystander : Packet → ExprKind → Expr → Go Bool
unfolding xt_is_inert
bystander pkt ExprKind.payload e = ok true
bystander pkt ExprKind.cmp e = ok true
bystander pkt ExprKind.meta e = ok true
bystander pkt ExprKind.bitwise e = ok true
bystander pkt ExprKind.other e = ok true
bystander pkt ExprKind.xt e = do x ← deref e.xt; ok (xt_is_inert (xt_expr pkt x))
bystander pkt _ e = ok false

-- The loop of `skippableUnresolvedMatch`, from position `i` on, past position `idx`.
unfoldable pub bystanders : Packet → ℕ → ℕ → List Expr → Go Bool
unfolding bystander
bystanders pkt idx i [] = ok true
bystanders pkt idx i (e ∷ es) = elim (i == idx) [
  | true ↦ bystanders pkt idx (i + 1) es
  | false ↦ bystander pkt e.kind e >>= λ fine. elim fine [
    | false ↦ ok false
    | true ↦ bystanders pkt idx (i + 1) es
  ]
]

-- `skippableUnresolvedMatch`; `e` is `r.Exprs[idx]`, on which the caller's loop stands.
unfoldable pub skippable_unresolved_match : Packet → Rule → ℕ → Expr → Go Bool
unfolding is_match_kind bystanders
skippable_unresolved_match pkt r idx e =
    if is_match_kind e.xt then bystanders pkt idx 0 r.exprs else ok false

unfoldable pub skip_or_refuse : Bool → Step
skip_or_refuse true = stop skipped
skip_or_refuse false = stop unknown

abbrev pub is_no_match : Outcome → Bool
is_no_match no_match = true
is_no_match _ = false

unfoldable pub xt_step : Outcome → Action → MatchState → Step
xt_step out a st =
    if is_no_match out
    then stop no_match
    else (if is_none_kind a.kind then next st else next (record st { act = a }))

unfoldable pub eval_xt : Packet → Rule → ℕ → Expr → XtExpr → MatchState → Go Step
unfolding skip_or_refuse xt_step
eval_xt pkt r i e x st = elim (xt_expr pkt x) [
  | none ↦ skippable_unresolved_match pkt r i e >>= λ skip. ok (skip_or_refuse skip)
  | some (out, a) ↦ ok (xt_step out a st)
]

-- The switch of `MatchRule`, at expression `i` of the rule.
unfoldable pub eval_kind :
    ExprKind → Packet → Rule → List ElementSet → ℕ → Expr → MatchState → Go Step
unfolding eval_payload eval_meta eval_bitwise eval_ct eval_lookup eval_cmp eval_immediate eval_nat
    eval_fib eval_range eval_xt eval_verdict
eval_kind ExprKind.payload pkt r sets i e st = do p ← deref e.payload; ok (eval_payload pkt p st)
eval_kind ExprKind.meta pkt r sets i e st = do m ← deref e.meta; ok (eval_meta pkt m st)
eval_kind ExprKind.bitwise pkt r sets i e st = do b ← deref e.bitwise; ok (eval_bitwise b st)
eval_kind ExprKind.ct pkt r sets i e st = do c ← deref e.ct; ok (eval_ct pkt c st)
eval_kind ExprKind.lookup pkt r sets i e st = do lk ← deref e.lookup; ok (eval_lookup lk sets st)
eval_kind ExprKind.cmp pkt r sets i e st = do c ← deref e.cmp; ok (eval_cmp c st)
eval_kind ExprKind.immediate pkt r sets i e st = do m ← deref e.immediate; ok (eval_immediate m st)
eval_kind ExprKind.nat pkt r sets i e st = do n ← deref e.nat; ok (eval_nat pkt n st)
eval_kind ExprKind.fib pkt r sets i e st = do f ← deref e.fib; ok (eval_fib pkt f st)
eval_kind ExprKind.range pkt r sets i e st = do g ← deref e.range; ok (eval_range g st)
eval_kind ExprKind.xt pkt r sets i e st = do x ← deref e.xt; eval_xt pkt r i e x st
eval_kind ExprKind.verdict pkt r sets i e st = do v ← deref e.verdict; ok (eval_verdict v st)
eval_kind ExprKind.other pkt r sets i e st = ok (next st)
eval_kind ExprKind.unknown pkt r sets i e st = ok (stop unknown)
eval_kind (ExprKind.unrecognised text) pkt r sets i e st = ok (stop unknown)

-- What the loop does after one expression. Every early return returns the current action.
abbrev pub after_step :
    (MatchState → Go (Outcome × Action)) → MatchState → Step → Go (Outcome × Action)
after_step rest st (stop out) = ok (out, st.act)
after_step rest st (next st') = rest st'

-- The loop of `MatchRule`, from expression `i` on.
unfoldable pub match_exprs :
    Packet → Rule → List ElementSet → ℕ → List Expr → MatchState → Go (Outcome × Action)
unfolding eval_kind
match_exprs pkt r sets i [] st = ok (match, st.act)
match_exprs pkt r sets i (e ∷ es) st =
    eval_kind e.kind pkt r sets i e st
    >>= after_step (λ st'. match_exprs pkt r sets (i + 1) es st') st

abbrev pub start : MatchState
start = record { regs = λ r. none; act = act_none }

unfoldable pub match_rule : Packet → Rule → List ElementSet → Go (Outcome × Action)
unfolding match_exprs
match_rule pkt r sets = match_exprs pkt r sets 0 r.exprs start
