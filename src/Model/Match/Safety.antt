-- ===== src/Model/Match/Safety.antt =====
-- internal/model/match.go over a document that `facts.Validate` accepts: no nil object is read.
use whyopen.Prelude.{ℕ, ◌+◌, ◌≢◌, List, [], ◌∷◌, arith, All, Go, panic, >>=-ne-panic}
use whyopen.Facts.Types.{ExprKind, Expr, Rule, ElementSet}
use whyopen.Facts.Validate.Laws.{IsCarried, Promised, RuleIsCarried}
use whyopen.Model.Packet.{Packet, Outcome, Action}
use whyopen.Model.Match.Exprs.{MatchState, Step, next, stop}
use whyopen.Model.Match.Rule.{
  bystander, bystanders, skippable_unresolved_match, eval_xt, eval_kind, after_step, match_exprs,
  match_rule,
}

bystander-ne-panic :
    (pkt : Packet) (k : ExprKind) (e : Expr) → Promised k e → bystander pkt k e ≢ panic
unfolding bystander
bystander-ne-panic pkt ExprKind.xt e h = ground arith
bystander-ne-panic pkt _ e h = ground arith

bystanders-ne-panic :
    (pkt : Packet) (idx i : ℕ) (es : List Expr) → All IsCarried es → bystanders pkt idx i es ≢ panic
unfolding bystanders
bystanders-ne-panic pkt idx i [] h = ground arith
bystanders-ne-panic pkt idx i (e ∷ es) h =
    ground (arith, bystander-ne-panic pkt e.kind e, bystanders-ne-panic pkt idx (i + 1) es)

eval_xt-ne-panic :
    (pkt : Packet) (r : Rule) (i : ℕ) (e : Expr) (x : _) (st : MatchState)
    → RuleIsCarried r
    → eval_xt pkt r i e x st ≢ panic
unfolding eval_xt skippable_unresolved_match
eval_xt-ne-panic pkt r i e x st h = ground (arith, bystanders-ne-panic pkt i 0 r.exprs)

eval_kind-ne-panic :
    (k : ExprKind) (pkt : Packet) (r : Rule) (sets : List ElementSet) (i : ℕ) (e : Expr)
    (st : MatchState)
    → Promised k e
    → RuleIsCarried r
    → eval_kind k pkt r sets i e st ≢ panic
unfolding eval_kind
eval_kind-ne-panic ExprKind.xt pkt r sets i e st (x, p) h =
    ground (arith, eval_xt-ne-panic pkt r i e x st)
eval_kind-ne-panic _ pkt r sets i e st p h = ground arith

after_step-ne-panic :
    (rest : MatchState → Go (Outcome × Action)) (st : MatchState) (s : Step)
    → ((st' : MatchState) → rest st' ≢ panic)
    → after_step rest st s ≢ panic
after_step-ne-panic rest st (stop out) h = ground arith
after_step-ne-panic rest st (next st') h = h st'

match_exprs-ne-panic :
    (pkt : Packet) (r : Rule) (sets : List ElementSet) (i : ℕ) (es : List Expr) (st : MatchState)
    → All IsCarried es
    → RuleIsCarried r
    → match_exprs pkt r sets i es st ≢ panic
unfolding match_exprs
match_exprs-ne-panic pkt r sets i [] st c h = ground arith
match_exprs-ne-panic pkt r sets i (e ∷ es) st (c, cs) h =
    >>=-ne-panic _ _ (eval_kind-ne-panic e.kind pkt r sets i e st c h)
      λ s _. after_step-ne-panic _ st s (λ st'. match_exprs-ne-panic pkt r sets (i + 1) es st' cs h)

-- `MatchRule` panics on no rule whose expressions carry the objects that their kinds name, whatever
-- the packet and the sets.
pub match_rule-ne-panic :
    (pkt : Packet) (r : Rule) (sets : List ElementSet)
    → RuleIsCarried r
    → match_rule pkt r sets ≢ panic
unfolding match_rule
match_rule-ne-panic pkt r sets h = match_exprs-ne-panic pkt r sets 0 r.exprs _ h h
