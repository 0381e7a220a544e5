-- ===== src/Model/Traverse/Depth.antt =====
-- internal/model/traverse.go: what the bound on nesting does to a walk.
use whyopen.Prelude.{
  ℕ, zero, suc, ◌≤◌, ◌≡◌, refl, ap, sym, subst, ◌∙◌, String, Option, none, some, List, [], ◌∷◌,
  arith, ◌⊎◌, inl, inr, Go, panic, ok, ◌>>=◌,
}
use whyopen.Facts.Types.{ActionKind, Rule, Chain, ElementSet, Ruleset}
use whyopen.Model.Packet.{Packet, Outcome, Action, match}
use whyopen.Model.Match.Rule.{match_rule}
use whyopen.Model.Traverse.Types.{Reason, ResultKind, Result, Walker, AfterRule, done, continue}
use whyopen.Model.Traverse.Walk.{
  find_chain, table_sets, call, verdict_step, rule_step, after_rule, walk_rules, walk_chain,
  after_jump, after_goto, record_hit,
}

abbrev Sub : Type 0
Sub = String → Chain → Walker → Go (Result × Walker)

-- The walk ended in the refusal for nesting.
abbrev pub IsTooDeep : Go (Result × Walker) → Type 0
IsTooDeep panic = ⊥
IsTooDeep (ok (res, w)) = (res.kind ≡ ResultKind.unknown) × (res.reason ≡ Reason.too_deep)

abbrev StepIsTooDeep : Go AfterRule → Type 0
StepIsTooDeep panic = ⊥
StepIsTooDeep (ok (done res w)) = (res.kind ≡ ResultKind.unknown) × (res.reason ≡ Reason.too_deep)
StepIsTooDeep (ok (continue w)) = ⊥

abbrev Agrees : Go (Result × Walker) → Go (Result × Walker) → Type 0
Agrees m m' = (m' ≡ m) ⊎ IsTooDeep m

abbrev SubAgrees : Sub → Sub → Type 0
SubAgrees s s' = (table : String) (ch : Chain) (w : Walker) → Agrees (s table ch w) (s' table ch w)

-- What follows a call hands the refusal on.
abbrev HandsOn : (ResultKind → Result → Walker → AfterRule) → Type 0
HandsOn after = (res : Result) (w : Walker) → after ResultKind.unknown res w ≡ done res w

call_too_deep :
    (after : ResultKind → Result → Walker → AfterRule) (m : Go (Result × Walker))
    → HandsOn after
    → IsTooDeep m
    → StepIsTooDeep (m >>= λ p. ok (after p.0.kind p.0 p.1))
call_too_deep after panic h d = d
call_too_deep after (ok (res, w)) h (k, why) =
    subst (λ next. StepIsTooDeep (ok next)) (sym (ap (λ q. after q res w) k ∙ h res w)) (k, why)

step-IsTooDeep :
    (rest : Walker → Go (Result × Walker)) (m : Go AfterRule)
    → StepIsTooDeep m
    → IsTooDeep (m >>= λ next. after_rule rest next)
step-IsTooDeep rest panic d = d
step-IsTooDeep rest (ok (done res w)) d = d
step-IsTooDeep rest (ok (continue w)) d = absurd d

module _ (rs : Ruleset) (family : String) (pkt : Packet) where
  abbrev StepAgrees : Go AfterRule → Go AfterRule → Type 0
  StepAgrees m m' = (m' ≡ m) ⊎ StepIsTooDeep m

  call-Agrees :
      (s s' : Sub) (table : String) (o : Option Chain) (missing : Reason)
      (after : ResultKind → Result → Walker → AfterRule) (w : Walker)
      → SubAgrees s s'
      → HandsOn after
      → StepAgrees (call s table o missing after w) (call s' table o missing after w)
  call-Agrees s s' table none missing after w h k = inl refl
  call-Agrees s s' table (some ch) missing after w h k = elim (h table ch w) [
    | inl same ↦ inl (ap (λ m. m >>= λ p. ok (after p.0.kind p.0 p.1)) same)
    | inr deep ↦ inr (call_too_deep after (s table ch w) k deep)
  ]

  verdict_step-Agrees :
      (k : ActionKind) (s s' : Sub) (table : String) (ch : Chain) (r : Rule) (act : Action)
      (w : Walker)
      → SubAgrees s s'
      → StepAgrees
          (verdict_step rs family pkt k s table ch r act w)
          (verdict_step rs family pkt k s' table ch r act w)
  unfolding verdict_step
  verdict_step-Agrees ActionKind.jump s s' table ch r act w h =
      call-Agrees s s' table (find_chain family table act.chain rs.tables) _ (after_jump table ch) w
        h λ res v. refl
  verdict_step-Agrees ActionKind.goto s s' table ch r act w h =
      call-Agrees s s' table (find_chain family table act.chain rs.tables) _ (after_goto table ch) w
        h λ res v. refl
  verdict_step-Agrees _ s s' table ch r act w h = inl refl

  rule_step-Agrees :
      (out : Outcome) (s s' : Sub) (table : String) (ch : Chain) (r : Rule) (act : Action)
      (w : Walker)
      → SubAgrees s s'
      → StepAgrees
          (rule_step rs family pkt out s table ch r act w)
          (rule_step rs family pkt out s' table ch r act w)
  unfolding rule_step
  rule_step-Agrees match s s' table ch r act w h =
      verdict_step-Agrees act.kind s s' table ch r act _ h
  rule_step-Agrees _ s s' table ch r act w h = inl refl

  after_step-Agrees :
      (rest rest' : Walker → Go (Result × Walker)) (m m' : Go AfterRule)
      → ((w : Walker) → Agrees (rest w) (rest' w))
      → StepAgrees m m'
      → Agrees (m >>= after_rule rest) (m' >>= after_rule rest')
  after_step-Agrees rest rest' m m' h (inr deep) = inr (step-IsTooDeep rest m deep)
  after_step-Agrees rest rest' panic m' h (inl same) = inl (ap (λ n. n >>= after_rule rest') same)
  after_step-Agrees rest rest' (ok (done res w)) m' h (inl same) =
      inl (ap (λ n. n >>= after_rule rest') same)
  after_step-Agrees rest rest' (ok (continue w)) m' h (inl same) = elim (h w) [
    | inl e ↦ inl (ap (λ n. n >>= after_rule rest') same ∙ e)
    | inr deep ↦ inr deep
  ]

  matched-Agrees :
      (s s' : Sub) (table : String) (ch : Chain) (r : Rule) (w : Walker)
      (rest rest' : Walker → Go (Result × Walker)) (m : Go (Outcome × Action))
      → SubAgrees s s'
      → ((v : Walker) → Agrees (rest v) (rest' v))
      → Agrees
          (m >>= λ p. rule_step rs family pkt p.0 s table ch r p.1 w >>= after_rule rest)
          (m >>= λ p. rule_step rs family pkt p.0 s' table ch r p.1 w >>= after_rule rest')
  matched-Agrees s s' table ch r w rest rest' panic h k = inl refl
  matched-Agrees s s' table ch r w rest rest' (ok (out, act)) h k =
      after_step-Agrees rest rest' (rule_step rs family pkt out s table ch r act w) _ k
        (rule_step-Agrees out s s' table ch r act w h)

  walk_rules-Agrees :
      (s s' : Sub) (table : String) (ch : Chain) (sets : List ElementSet) (rules : List Rule)
      (w : Walker)
      → SubAgrees s s'
      → Agrees
          (walk_rules rs family pkt s table ch sets rules w)
          (walk_rules rs family pkt s' table ch sets rules w)
  unfolding walk_rules
  walk_rules-Agrees s s' table ch sets [] w h = inl refl
  walk_rules-Agrees s s' table ch sets (r ∷ rules) w h =
      matched-Agrees s s' table ch r w _ _ (match_rule pkt r sets) h
        λ v. walk_rules-Agrees s s' table ch sets rules v h

  -- A walk with more levels of nesting to spend is the same walk, unless the shorter one ended in
  -- the refusal for nesting: the bound never makes an accept or a drop.
  pub walk_chain-Agrees :
      (n k : ℕ) (table : String) (ch : Chain) (w : Walker)
      → n ≤ k
      → (walk_chain rs family pkt k table ch w ≡ walk_chain rs family pkt n table ch w)
        ⊎ IsTooDeep (walk_chain rs family pkt n table ch w)
  unfolding walk_chain
  walk_chain-Agrees zero k table ch w le = inr (refl, refl)
  walk_chain-Agrees (suc n) zero table ch w le = elim le [ ]
  walk_chain-Agrees (suc n) (suc k) table ch w le =
      walk_rules-Agrees _ _ table ch _ ch.rules w λ t c v. walk_chain-Agrees n k t c v (omega arith)

  jump-IsTooDeep :
      (sub : Sub) (table : String) (ch : Chain) (r : Rule) (act : Action) (w : Walker)
      → ((v : Walker) → IsTooDeep (sub table ch v))
      → act.kind ≡ ActionKind.jump
      → find_chain family table act.chain rs.tables ≡ some ch
      → StepIsTooDeep (rule_step rs family pkt match sub table ch r act w)
  unfolding rule_step verdict_step
  jump-IsTooDeep sub table ch r act w deep j f =
      let v = record_hit rs family pkt table ch r act.kind w in
      subst (λ k. StepIsTooDeep (verdict_step rs family pkt k sub table ch r act v)) (sym j)
        (subst
          (λ o.
            StepIsTooDeep
              (call sub table o (Reason.jump_to_unknown act.chain) (after_jump table ch) v))
          (sym f) (call_too_deep (after_jump table ch) (sub table ch v) (λ res u. refl) (deep v)))

  loop-IsTooDeep :
      (sub : Sub) (table : String) (ch : Chain) (sets : List ElementSet) (r : Rule)
      (rules : List Rule) (act : Action) (w : Walker)
      → ((v : Walker) → IsTooDeep (sub table ch v))
      → match_rule pkt r sets ≡ ok (match, act)
      → act.kind ≡ ActionKind.jump
      → find_chain family table act.chain rs.tables ≡ some ch
      → IsTooDeep (walk_rules rs family pkt sub table ch sets (r ∷ rules) w)
  unfolding walk_rules
  loop-IsTooDeep sub table ch sets r rules act w deep m j f = rw m (
      step-IsTooDeep _ (rule_step rs family pkt match sub table ch r act w)
        (jump-IsTooDeep sub table ch r act _ deep j f))

  -- A chain whose first rule always jumps to the chain itself is refused at every depth: the walk of
  -- such a loop ends, and never in accept or drop.
  pub walk_chain_loop :
      (n : ℕ) (table : String) (ch : Chain) (r : Rule) (rules : List Rule) (act : Action)
      (w : Walker)
      → ch.rules ≡ r ∷ rules
      → match_rule pkt r (table_sets family table rs.tables) ≡ ok (match, act)
      → act.kind ≡ ActionKind.jump
      → find_chain family table act.chain rs.tables ≡ some ch
      → IsTooDeep (walk_chain rs family pkt n table ch w)
  unfolding walk_chain
  walk_chain_loop zero table ch r rules act w e m j f = (refl, refl)
  walk_chain_loop (suc n) table ch r rules act w e m j f =
      subst
        (λ rls. IsTooDeep (
          walk_rules rs family pkt (walk_chain rs family pkt n) table ch
            (table_sets family table rs.tables) rls w))
        (sym e)
        (loop-IsTooDeep (walk_chain rs family pkt n) table ch _ r rules act w
          (λ v. walk_chain_loop n table ch r rules act v e m j f) m j f)
