-- ===== src/Model/Traverse/Bases.antt =====
-- internal/model/traverse.go: how the walk of a base chain can end.
use whyopen.Prelude.{
  ℕ, zero, suc, ◌≡◌, refl, String, true, Option, none, some, List, [], ◌∷◌, arith, Go, ok, Ensures,
  Ensures-bind, Ensures-always, Ensures-ok,
}
use whyopen.Facts.Types.{ActionKind, Rule, Chain, ElementSet, Ruleset}
use whyopen.Model.Packet.{Packet, Outcome, Action, match}
use whyopen.Model.Match.Rule.{match_rule}
use whyopen.Model.Traverse.Types.{Reason, ResultKind, Result, Walker, AfterRule, done, continue}
use whyopen.Model.Traverse.Walk.{
  find_chain, call, verdict_step, rule_step, after_rule, walk_rules, walk_chain, base_policy_result,
  unwind, after_jump, after_goto, return_result, end_result,
}

-- A verdict that may leave a base chain.
abbrev pub IsFinal : ResultKind → Type 0
IsFinal ResultKind.accept = Unit
IsFinal ResultKind.drop = Unit
IsFinal ResultKind.unknown = Unit
IsFinal _ = ⊥

base_policy_result-IsFinal : (ch : Chain) (why : Reason) → IsFinal (base_policy_result ch why).kind
unfolding base_policy_result
base_policy_result-IsFinal ch why = ground arith

unwind-IsFinal : (table : String) (ch : Chain) → ch.base ≡ true → IsFinal (unwind table ch).kind
unfolding unwind
unwind-IsFinal table ch h = ground (arith, base_policy_result-IsFinal ch)

abbrev EndsFinal : AfterRule → Type 0
EndsFinal (done res w) = IsFinal res.kind
EndsFinal (continue w) = Unit

after_jump-EndsFinal :
    (table : String) (ch : Chain) (k : ResultKind) (res : Result) (w : Walker)
    → ch.base ≡ true
    → res.kind ≡ k
    → EndsFinal (after_jump table ch k res w)
unfolding after_jump
after_jump-EndsFinal table ch ResultKind.unwind res w h e = unwind-IsFinal table ch h
after_jump-EndsFinal table ch ResultKind.none res w h e = tt
after_jump-EndsFinal table ch _ res w h e = rw e tt

after_goto-EndsFinal :
    (table : String) (ch : Chain) (k : ResultKind) (res : Result) (w : Walker)
    → ch.base ≡ true
    → res.kind ≡ k
    → EndsFinal (after_goto table ch k res w)
unfolding after_goto
after_goto-EndsFinal table ch ResultKind.unwind res w h e = unwind-IsFinal table ch h
after_goto-EndsFinal table ch ResultKind.none res w h e = unwind-IsFinal table ch h
after_goto-EndsFinal table ch _ res w h e = rw e tt

module _ (rs : Ruleset) (family : String) (pkt : Packet) where
  call-EndsFinal :
      (sub : String → Chain → Walker → Go (Result × Walker)) (table : String) (o : Option Chain)
      (missing : Reason) (after : ResultKind → Result → Walker → AfterRule) (w : Walker)
      → ((res : Result) (v : Walker) → EndsFinal (after res.kind res v))
      → Ensures EndsFinal (call sub table o missing after w)
  call-EndsFinal sub table none missing after w h = tt
  call-EndsFinal sub table (some ch) missing after w h =
      Ensures-bind _ EndsFinal (sub table ch w) _ (Ensures-always _) λ m _. h m.0 m.1

  verdict_step-EndsFinal :
      (k : ActionKind) (sub : String → Chain → Walker → Go (Result × Walker)) (table : String)
      (ch : Chain) (r : Rule) (act : Action) (w : Walker)
      → ch.base ≡ true
      → Ensures EndsFinal (verdict_step rs family pkt k sub table ch r act w)
  unfolding verdict_step return_result
  verdict_step-EndsFinal ActionKind.jump sub table ch r act w h =
      call-EndsFinal sub table (find_chain family table act.chain rs.tables) _ _ w
        (λ res v. after_jump-EndsFinal table ch res.kind res v h refl)
  verdict_step-EndsFinal ActionKind.goto sub table ch r act w h =
      call-EndsFinal sub table (find_chain family table act.chain rs.tables) _ _ w
        (λ res v. after_goto-EndsFinal table ch res.kind res v h refl)
  verdict_step-EndsFinal ActionKind.return sub table ch r act w h =
      ground (arith, base_policy_result-IsFinal ch (Reason.return_hit_policy table ch.name))
  verdict_step-EndsFinal _ sub table ch r act w h = tt

  rule_step-EndsFinal :
      (out : Outcome) (sub : String → Chain → Walker → Go (Result × Walker)) (table : String)
      (ch : Chain) (r : Rule) (act : Action) (w : Walker)
      → ch.base ≡ true
      → Ensures EndsFinal (rule_step rs family pkt out sub table ch r act w)
  unfolding rule_step
  rule_step-EndsFinal match sub table ch r act w h =
      verdict_step-EndsFinal act.kind sub table ch r act _ h
  rule_step-EndsFinal _ sub table ch r act w h = tt

  abbrev ResultIsFinal : Result × Walker → Type 0
  ResultIsFinal m = IsFinal m.0.kind

  after_rule-IsFinal :
      (rest : Walker → Go (Result × Walker)) (next : AfterRule)
      → EndsFinal next
      → ((w : Walker) → Ensures ResultIsFinal (rest w))
      → Ensures ResultIsFinal (after_rule rest next)
  after_rule-IsFinal rest (done res w) h k = h
  after_rule-IsFinal rest (continue w) h k = k w

  walk_rules-IsFinal :
      (sub : String → Chain → Walker → Go (Result × Walker)) (table : String) (ch : Chain)
      (sets : List ElementSet) (rules : List Rule) (w : Walker)
      → ch.base ≡ true
      → Ensures ResultIsFinal (walk_rules rs family pkt sub table ch sets rules w)
  unfolding walk_rules end_result
  walk_rules-IsFinal sub table ch sets [] w h =
      ground (arith, base_policy_result-IsFinal ch (Reason.fell_through table ch.name))
  walk_rules-IsFinal sub table ch sets (r ∷ rules) w h =
      Ensures-bind _ ResultIsFinal (match_rule pkt r sets) _ (Ensures-always _) λ m _.
        Ensures-bind EndsFinal ResultIsFinal (rule_step rs family pkt m.0 sub table ch r m.1 w) _
          (rule_step-EndsFinal m.0 sub table ch r m.1 w h)
          λ next f. after_rule-IsFinal _ next f λ v. walk_rules-IsFinal sub table ch sets rules v h

  -- At any depth, a walk of a base chain that returns ends in accept, drop or unknown: the walker's
  -- own results for a fallthrough do not leave a base chain, so the default case of `Traverse` is
  -- never taken.
  pub walk_chain-IsFinal :
      (n : ℕ) (table : String) (ch : Chain) (w v : Walker) (res : Result)
      → ch.base ≡ true
      → walk_chain rs family pkt n table ch w ≡ ok (res, v)
      → IsFinal res.kind
  unfolding walk_chain
  walk_chain-IsFinal zero table ch w v res h e = ground arith
  walk_chain-IsFinal (suc n) table ch w v res h e =
      Ensures-ok ResultIsFinal _ (walk_rules-IsFinal _ table ch _ ch.rules w h) e
