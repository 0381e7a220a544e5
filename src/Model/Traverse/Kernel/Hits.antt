-- ===== src/Model/Traverse/Kernel/Hits.antt =====
-- internal/model/traverse.go: a hit once recorded stays in the path.
use whyopen.Prelude.{
  ℕ, zero, suc, ◌≡◌, refl, sym, subst, String, true, Option, none, some, List, [], ◌∷◌, ◌++◌, arith,
  Go, Ensures, Ensures-bind, Ensures-always, Ensures-map,
}
use whyopen.Facts.Types.{ActionKind, Rule, Chain, ElementSet, Ruleset}
use whyopen.Model.Packet.{Packet, Outcome, Action, match, no_match, unknown, skipped}
use whyopen.Model.Match.Rule.{match_rule}
use whyopen.Model.Traverse.Types.{
  Reason, ResultKind, Result, Hit, Walker, AfterRule, done, continue,
}
use whyopen.Model.Traverse.Walk.{
  find_chain, call, verdict_step, rule_step, after_rule, walk_rules, walk_chain, after_jump,
  after_goto, record_hit,
}
use whyopen.Model.Traverse.Kernel.{took_goto}

abbrev pub Sub : Type 0
Sub = String → Chain → Walker → Go (Result × Walker)

-- A walker that took a goto leaves only walkers that did.
abbrev pub KeptBy : Walker → Walker → Type 0
KeptBy w v = took_goto w.hits ≡ true → took_goto v.hits ≡ true

abbrev pub SubKeeps : Sub → Type 0
SubKeeps sub =
    (table : String) (ch : Chain) (w : Walker) → Ensures (λ m. KeptBy w m.1) (sub table ch w)

abbrev pub walker_of : AfterRule → Walker
walker_of (done res w) = w
walker_of (continue w) = w

took_goto-append : (xs ys : List Hit) → took_goto xs ≡ true → took_goto (xs ++ ys) ≡ true
took_goto-append [] ys h = ground arith
took_goto-append (x ∷ xs) ys h = ground (arith, took_goto-append xs ys)

after_jump-walker :
    (table : String) (ch : Chain) (k : ResultKind) (res : Result) (w : Walker)
    → walker_of (after_jump table ch k res w) ≡ w
unfolding after_jump
after_jump-walker table ch ResultKind.unwind res w = refl
after_jump-walker table ch ResultKind.none res w = refl
after_jump-walker table ch _ res w = refl

pub after_goto-walker :
    (table : String) (ch : Chain) (k : ResultKind) (res : Result) (w : Walker)
    → walker_of (after_goto table ch k res w) ≡ w
unfolding after_goto
after_goto-walker table ch ResultKind.unwind res w = refl
after_goto-walker table ch ResultKind.none res w = refl
after_goto-walker table ch _ res w = refl

call-KeptBy :
    (sub : Sub) (table : String) (o : Option Chain) (missing : Reason)
    (after : ResultKind → Result → Walker → AfterRule) (w : Walker)
    → SubKeeps sub
    → ((res : Result) (v : Walker) → walker_of (after res.kind res v) ≡ v)
    → Ensures (λ next. KeptBy w (walker_of next)) (call sub table o missing after w)
call-KeptBy sub table none missing after w s h = λ t. t
call-KeptBy sub table (some ch) missing after w s h =
    Ensures-bind (λ m. KeptBy w m.1) (λ next. KeptBy w (walker_of next)) (sub table ch w) _
      (s table ch w) λ m k. subst (KeptBy w) (sym (h m.0 m.1)) k

module _ (rs : Ruleset) (family : String) (pkt : Packet) where
  abbrev StepKeeps : Walker → Go AfterRule → Type 0
  StepKeeps w m = Ensures (λ next. KeptBy w (walker_of next)) m

  verdict_step-KeptBy :
      (k : ActionKind) (sub : Sub) (table : String) (ch : Chain) (r : Rule) (act : Action)
      (w : Walker)
      → SubKeeps sub
      → StepKeeps w (verdict_step rs family pkt k sub table ch r act w)
  unfolding verdict_step
  verdict_step-KeptBy ActionKind.jump sub table ch r act w s =
      call-KeptBy sub table (find_chain family table act.chain rs.tables) _ _ w s
        λ res v. after_jump-walker table ch res.kind res v
  verdict_step-KeptBy ActionKind.goto sub table ch r act w s =
      call-KeptBy sub table (find_chain family table act.chain rs.tables) _ _ w s
        λ res v. after_goto-walker table ch res.kind res v
  verdict_step-KeptBy _ sub table ch r act w s = λ t. t

  rule_step-KeptBy :
      (out : Outcome) (sub : Sub) (table : String) (ch : Chain) (r : Rule) (act : Action)
      (w : Walker)
      → SubKeeps sub
      → StepKeeps w (rule_step rs family pkt out sub table ch r act w)
  unfolding rule_step record_hit
  rule_step-KeptBy no_match sub table ch r act w s = λ t. t
  rule_step-KeptBy skipped sub table ch r act w s = λ t. took_goto-append w.hits _ t
  rule_step-KeptBy unknown sub table ch r act w s = λ t. took_goto-append w.hits _ t
  rule_step-KeptBy match sub table ch r act w s =
      Ensures-map {Q = λ next. KeptBy w (walker_of next)}
        (λ next k t. k (took_goto-append w.hits _ t)) _
        (verdict_step-KeptBy act.kind sub table ch r act _ s)

  after_rule-KeptBy :
      (w : Walker) (rest : Walker → Go (Result × Walker)) (next : AfterRule)
      → KeptBy w (walker_of next)
      → ((v : Walker) → Ensures (λ m. KeptBy v m.1) (rest v))
      → Ensures (λ m. KeptBy w m.1) (after_rule rest next)
  after_rule-KeptBy w rest (done res v) k h = k
  after_rule-KeptBy w rest (continue v) k h =
      Ensures-map {Q = λ m. KeptBy w m.1} (λ m j t. j (k t)) (rest v) (h v)

  pub walk_rules-KeptBy :
      (sub : Sub) (table : String) (ch : Chain) (sets : List ElementSet) (rules : List Rule)
      (w : Walker)
      → SubKeeps sub
      → Ensures (λ m. KeptBy w m.1) (walk_rules rs family pkt sub table ch sets rules w)
  unfolding walk_rules
  walk_rules-KeptBy sub table ch sets [] w s = λ t. t
  walk_rules-KeptBy sub table ch sets (r ∷ rules) w s =
      Ensures-bind _ (λ m. KeptBy w m.1) (match_rule pkt r sets) _ (Ensures-always _)
        λ m _.
          Ensures-bind (λ next. KeptBy w (walker_of next)) (λ m'. KeptBy w m'.1)
            (rule_step rs family pkt m.0 sub table ch r m.1 w) _
            (rule_step-KeptBy m.0 sub table ch r m.1 w s)
            λ next k.
              after_rule-KeptBy w _ next k λ v. walk_rules-KeptBy sub table ch sets rules v s

  pub walk_chain-KeptBy : (n : ℕ) → SubKeeps (walk_chain rs family pkt n)
  unfolding walk_chain
  walk_chain-KeptBy zero table ch w = λ t. t
  walk_chain-KeptBy (suc n) table ch w =
      walk_rules-KeptBy _ table ch _ ch.rules w (walk_chain-KeptBy n)
