-- ===== src/Model/Traverse/Kernel/Sound.antt =====
-- internal/model/traverse.go: a walk that took no goto is the walk with a call stack.
use whyopen.Prelude.{
  ℕ, zero, suc, ◌≡◌, refl, sym, subst, ap, String, false, List, [], ◌∷◌, arith, Go, ok, Ensures,
  Ensures-bind, Ensures-map, Ensures-ok, Ensures-self, Ensures-both, ◌⊎◌, inl, inr, Bool-cases,
}
use whyopen.Facts.Types.{ActionKind, Rule, Chain, Ruleset}
use whyopen.Model.Packet.{Packet, Outcome, Action, match, no_match, unknown, skipped}
use whyopen.Model.Match.Rule.{match_rule}
use whyopen.Model.Traverse.Types.{ResultKind, Result, Walker, AfterRule, done, continue}
use whyopen.Model.Traverse.Walk.{
  table_sets, verdict_step, rule_step, after_rule, walk_rules, walk_chain, record_hit,
  return_result, end_result,
}
use whyopen.Model.Traverse.Kernel.{
  is_goto, took_goto, Yields, recorded, fell, returned, passed, stepped_over, went_on, accepted,
  refused, rewrote, Runs, next, decided,
}
use whyopen.Model.Traverse.Kernel.Hits.{Sub, KeptBy, SubKeeps, walk_rules-KeptBy, walk_chain-KeptBy}
use whyopen.Model.Traverse.Kernel.Explains.{
  RunsTo, Explains, StepExplains, SubExplains, left-Explains, jump-StepExplains, goto-StepExplains,
  last_hit-took_goto, Explains-cons,
}

module _ (rs : Ruleset) (family : String) (pkt : Packet) (table : String) (base : Chain) where
  verdict_step-StepExplains :
      (k : ActionKind) (sub : Sub) (ch : Chain) (r : Rule) (rules : List Rule) (act : Action)
      (w : Walker)
      → act.kind ≡ k
      → Yields rs family pkt table r match act
      → SubKeeps sub
      → SubExplains rs family pkt table base sub
      → Ensures (StepExplains rs family pkt table base ch r rules w) (
          verdict_step rs family pkt k sub table ch r act
            (recorded rs family pkt table ch r act.kind w))
  unfolding verdict_step return_result record_hit
  verdict_step-StepExplains ActionKind.accept sub ch r rules act w e y s x =
      λ t fs. decided fs ch r rules w _ _ (accepted act y e)
  verdict_step-StepExplains ActionKind.drop sub ch r rules act w e y s x =
      λ t fs. decided fs ch r rules w _ _ (refused act y (inl e))
  verdict_step-StepExplains ActionKind.reject sub ch r rules act w e y s x =
      λ t fs. decided fs ch r rules w _ _ (refused act y (inr e))
  verdict_step-StepExplains ActionKind.dnat sub ch r rules act w e y s x =
      λ t fs. decided fs ch r rules w _ _ (rewrote act y e)
  verdict_step-StepExplains ActionKind.return sub ch r rules act w e y s x =
      λ t. left-Explains rs family pkt table base ch (r ∷ rules) w _ _ (returned r rules act w y e)
  verdict_step-StepExplains ActionKind.continue sub ch r rules act w e y s x =
      λ t fs k v run. next fs ch r rules w _ v k (went_on act y (inl e)) run
  verdict_step-StepExplains ActionKind.none sub ch r rules act w e y s x =
      λ t fs k v run. next fs ch r rules w _ v k (went_on act y (inr e)) run
  verdict_step-StepExplains ActionKind.jump sub ch r rules act w e y s x =
      jump-StepExplains rs family pkt table base sub ch _ r rules act w y e refl x
  verdict_step-StepExplains ActionKind.goto sub ch r rules act w e y s x =
      goto-StepExplains rs family pkt table base sub ch _ r rules act w _
        (last_hit-took_goto rs family pkt table base w.hits _ (ap is_goto e)) s
  verdict_step-StepExplains (ActionKind.unnamed text) sub ch r rules act w e y s x = λ t. tt

  rule_step-StepExplains :
      (out : Outcome) (sub : Sub) (ch : Chain) (r : Rule) (rules : List Rule) (act : Action)
      (w : Walker)
      → Yields rs family pkt table r out act
      → SubKeeps sub
      → SubExplains rs family pkt table base sub
      → Ensures
          (StepExplains rs family pkt table base ch r rules w)
          (rule_step rs family pkt out sub table ch r act w)
  unfolding rule_step
  rule_step-StepExplains no_match sub ch r rules act w y s x =
      λ t fs k v run. next fs ch r rules w _ v k (passed act y) run
  rule_step-StepExplains skipped sub ch r rules act w y s x =
      λ t fs k v run. next fs ch r rules w _ v k (stepped_over act y) run
  rule_step-StepExplains unknown sub ch r rules act w y s x = λ t. tt
  rule_step-StepExplains match sub ch r rules act w y s x =
      verdict_step-StepExplains act.kind sub ch r rules act w refl y s x

  abbrev WalkExplains : Chain → List Rule → Walker → Result × Walker → Type 0
  WalkExplains ch rules w m =
      took_goto m.1.hits ≡ false → Explains rs family pkt table base ch rules w m.0.kind m.1

  not_before : (u v : Walker) → KeptBy u v → took_goto v.hits ≡ false → took_goto u.hits ≡ false
  not_before u v k t = elim (Bool-cases (took_goto u.hits)) [
    | inl yes' ↦ absurd (ground (arith, k yes'))
    | inr no' ↦ no'
  ]

  after_rule-WalkExplains :
      (ch : Chain) (r : Rule) (rules : List Rule) (w : Walker)
      (rest : Walker → Go (Result × Walker)) (step : AfterRule)
      → StepExplains rs family pkt table base ch r rules w step
      → ((u : Walker) → Ensures (λ m. KeptBy u m.1 × WalkExplains ch rules u m) (rest u))
      → Ensures (WalkExplains ch (r ∷ rules) w) (after_rule rest step)
  after_rule-WalkExplains ch r rules w rest (done res v) h k = h
  after_rule-WalkExplains ch r rules w rest (continue u) h k =
      Ensures-map {Q = WalkExplains ch (r ∷ rules) w}
        (λ m j t.
          Explains-cons rs family pkt table base ch r rules w u m.1 m.0.kind
            (h (not_before u m.1 j.0 t)) (j.1 t))
        (rest u) (k u)

  walk_rules-WalkExplains :
      (sub : Sub) (ch : Chain) (rules : List Rule) (w : Walker)
      → SubKeeps sub
      → SubExplains rs family pkt table base sub
      → Ensures
          (WalkExplains ch rules w)
          (walk_rules rs family pkt sub table ch (table_sets family table rs.tables) rules w)
  unfolding walk_rules end_result
  walk_rules-WalkExplains sub ch [] w s x =
      λ t. left-Explains rs family pkt table base ch [] w w _ (fell w)
  walk_rules-WalkExplains sub ch (r ∷ rules) w s x =
      let sets = table_sets family table rs.tables in
      Ensures-bind (λ m. match_rule pkt r sets ≡ ok m) (WalkExplains ch (r ∷ rules) w)
        (match_rule pkt r sets) _ (Ensures-self _)
        λ m y.
          Ensures-bind (StepExplains rs family pkt table base ch r rules w)
            (WalkExplains ch (r ∷ rules) w) (rule_step rs family pkt m.0 sub table ch r m.1 w) _
            (rule_step-StepExplains m.0 sub ch r rules m.1 w y s x)
            λ step h. after_rule-WalkExplains ch r rules w _ step h λ u.
              Ensures-both _ _ (walk_rules rs family pkt sub table ch sets rules u)
                (walk_rules-KeptBy rs family pkt sub table ch sets rules u s)
                (walk_rules-WalkExplains sub ch rules u s x)

  walk_chain-WalkExplains :
      (n : ℕ) → SubExplains rs family pkt table base (walk_chain rs family pkt n)
  unfolding walk_chain
  walk_chain-WalkExplains zero ch w = λ t. tt
  walk_chain-WalkExplains (suc n) ch w =
      walk_rules-WalkExplains _ ch ch.rules w (walk_chain-KeptBy rs family pkt n)
        (walk_chain-WalkExplains n)

  -- The walk of a base chain that ends in accept or drop, and whose path took no goto, is the walk of
  -- nftables with its call stack: it ends in the same verdict after the same rules, with the same
  -- rewrite.
  pub walk_chain-Runs :
      (n : ℕ) (w v : Walker) (res : Result)
      → walk_chain rs family pkt n table base w ≡ ok (res, v)
      → took_goto v.hits ≡ false
      → (res.kind ≡ ResultKind.accept) ⊎ (res.kind ≡ ResultKind.drop)
      → Runs rs family pkt table base [] base base.rules w res.kind v
  walk_chain-Runs n w v res e t (inl a) =
      subst (λ k. RunsTo rs family pkt table base [] base base.rules w k v) (sym a)
        (subst (λ k. Explains rs family pkt table base base base.rules w k v) a
          (Ensures-ok (WalkExplains base base.rules w) _ (walk_chain-WalkExplains n base w) e t) [])
  walk_chain-Runs n w v res e t (inr d) =
      subst (λ k. RunsTo rs family pkt table base [] base base.rules w k v) (sym d)
        (subst (λ k. Explains rs family pkt table base base base.rules w k v) d
          (Ensures-ok (WalkExplains base base.rules w) _ (walk_chain-WalkExplains n base w) e t) [])
