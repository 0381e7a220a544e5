-- ===== src/Model/Traverse/Kernel/Explains.antt =====
-- internal/model/traverse.go: what one result of a walk without goto says of the walk with a call
-- stack.
use whyopen.Prelude.{
  ◌≡◌, refl, sym, subst, ap, ◌∙◌, String, Bool, true, false, Option, none, some, List, [], ◌∷◌,
  ◌++◌, arith, Ensures, Ensures-bind, if◌then◌else◌, inl, inr, Bool-cases,
}
use whyopen.Facts.Types.{ActionKind, Rule, Chain, Ruleset}
use whyopen.Model.Packet.{Packet, Action, match}
use whyopen.Model.Traverse.Types.{
  Reason, ResultKind, Result, quiet, Hit, Walker, AfterRule, done, continue,
}
use whyopen.Model.Traverse.Walk.{call, after_jump, after_goto, base_policy_result}
use whyopen.Model.Traverse.Kernel.{
  is_goto, took_goto, Frame, Yields, recorded, called, Leaves, Runs, jumped, resumed, settled,
}
use whyopen.Model.Traverse.Kernel.Hits.{Sub, SubKeeps, walker_of, after_goto-walker}

policy_kind :
    (ch : Chain) (why : Reason)
    → (base_policy_result ch why).kind ≡ (base_policy_result ch Reason.unsaid).kind
unfolding base_policy_result
policy_kind ch why = ground arith

module _ (rs : Ruleset) (family : String) (pkt : Packet) (table : String) (base : Chain) where
  abbrev pub RunsTo : List Frame → Chain → List Rule → Walker → ResultKind → Walker → Type 0
  RunsTo fs ch rules w k v = Runs rs family pkt table base fs ch rules w k v

  -- A chain that fell through hands over to whatever frame is on the stack.
  abbrev Resumes : Chain → List Rule → Walker → Walker → Type 0
  Resumes ch rules w v =
      (f : Frame) (fs : List Frame) (k : ResultKind) (u : Walker)
      → RunsTo fs f.chain f.rules v k u
      → RunsTo (f ∷ fs) ch rules w k u

  -- What a result of `walkChain` says of the walk with a stack.
  abbrev pub Explains : Chain → List Rule → Walker → ResultKind → Walker → Type 0
  Explains ch rules w ResultKind.accept v =
      (fs : List Frame) → RunsTo fs ch rules w ResultKind.accept v
  Explains ch rules w ResultKind.drop v = (fs : List Frame) → RunsTo fs ch rules w ResultKind.drop v
  Explains ch rules w ResultKind.none v = Resumes ch rules w v
  Explains ch rules w ResultKind.unwind v = ⊥
  Explains ch rules w ResultKind.unknown v = Unit

  -- The rest of the walk after one rule, under any stack.
  abbrev pub Continues : Chain → Rule → List Rule → Walker → Walker → Type 0
  Continues ch r rules w u =
      (fs : List Frame) (k : ResultKind) (v : Walker)
      → RunsTo fs ch rules u k v
      → RunsTo fs ch (r ∷ rules) w k v

  pub Explains-cons :
      (ch : Chain) (r : Rule) (rules : List Rule) (w u v : Walker) (k : ResultKind)
      → Continues ch r rules w u
      → Explains ch rules u k v
      → Explains ch (r ∷ rules) w k v
  Explains-cons ch r rules w u v ResultKind.accept c h = λ fs. c fs _ v (h fs)
  Explains-cons ch r rules w u v ResultKind.drop c h = λ fs. c fs _ v (h fs)
  Explains-cons ch r rules w u v ResultKind.none c h =
      λ f fs k x run. c (f ∷ fs) k x (h f fs k x run)
  Explains-cons ch r rules w u v ResultKind.unwind c h = h
  Explains-cons ch r rules w u v ResultKind.unknown c h = tt

  policy-Explains :
      (ch : Chain) (rules : List Rule) (w v : Walker) (k : ResultKind)
      → Leaves rs family pkt table ch rules w v
      → ch.base ≡ true
      → (base_policy_result ch Reason.unsaid).kind ≡ k
      → Explains ch rules w k v
  unfolding base_policy_result
  policy-Explains ch rules w v ResultKind.accept l b e =
      λ fs. subst (λ k. RunsTo fs ch rules w k v) e (settled fs ch rules w v l b)
  policy-Explains ch rules w v ResultKind.drop l b e =
      λ fs. subst (λ k. RunsTo fs ch rules w k v) e (settled fs ch rules w v l b)
  policy-Explains ch rules w v ResultKind.unknown l b e = tt
  policy-Explains ch rules w v ResultKind.none l b e = absurd (ground arith)
  policy-Explains ch rules w v ResultKind.unwind l b e = absurd (ground arith)

  pub left-Explains :
      (ch : Chain) (rules : List Rule) (w v : Walker) (why : Reason)
      → Leaves rs family pkt table ch rules w v
      → Explains ch rules w
          (if ch.base then base_policy_result ch why else quiet ResultKind.none).kind
          v
  left-Explains ch rules w v why l =
      let Left : Bool → Type 0 = λ b.
        Explains ch rules w (if b then base_policy_result ch why else quiet ResultKind.none).kind
          v in
      elim (Bool-cases ch.base) [
        | inl b ↦ subst Left (sym b) (policy-Explains ch rules w v _ l b (sym (policy_kind ch why)))
        | inr b ↦ subst Left (sym b) (λ f fs k u run. resumed f fs ch rules w v u k l b run)
      ]

  abbrev pub StepExplains : Chain → Rule → List Rule → Walker → AfterRule → Type 0
  StepExplains ch r rules w (done res v) =
      took_goto v.hits ≡ false → Explains ch (r ∷ rules) w res.kind v
  StepExplains ch r rules w (continue u) = took_goto u.hits ≡ false → Continues ch r rules w u

  abbrev pub SubExplains : Sub → Type 0
  SubExplains sub =
      (ch : Chain) (w : Walker)
      → Ensures (λ m. took_goto m.1.hits ≡ false → Explains ch ch.rules w m.0.kind m.1)
          (sub table ch w)

  after_jump-StepExplains :
      (ch target : Chain) (r : Rule) (rules : List Rule) (act : Action) (w v : Walker)
      (res : Result) (k : ResultKind)
      → Yields rs family pkt table r match act
      → act.kind ≡ ActionKind.jump
      → called rs family pkt table act ≡ some target
      → res.kind ≡ k
      → (took_goto v.hits ≡ false
          → Explains target target.rules (recorded rs family pkt table ch r act.kind w) k v)
      → StepExplains ch r rules w (after_jump table ch k res v)
  unfolding after_jump
  after_jump-StepExplains ch target r rules act w v res ResultKind.unwind y j f e h =
      λ t. absurd (h t)
  after_jump-StepExplains ch target r rules act w v res ResultKind.none y j f e h =
      λ t fs k u run. jumped fs ch target r rules act w u k y j f (h t _ fs k u run)
  after_jump-StepExplains ch target r rules act w v res ResultKind.accept y j f e h = λ t.
      subst (λ k. Explains ch (r ∷ rules) w k v) (sym e)
        λ fs. jumped fs ch target r rules act w v _ y j f (h t _)
  after_jump-StepExplains ch target r rules act w v res ResultKind.drop y j f e h = λ t.
      subst (λ k. Explains ch (r ∷ rules) w k v) (sym e)
        λ fs. jumped fs ch target r rules act w v _ y j f (h t _)
  after_jump-StepExplains ch target r rules act w v res ResultKind.unknown y j f e h =
      λ t. subst (λ k. Explains ch (r ∷ rules) w k v) (sym e) tt

  pub jump-StepExplains :
      (sub : Sub) (ch : Chain) (o : Option Chain) (r : Rule) (rules : List Rule) (act : Action)
      (w : Walker)
      → Yields rs family pkt table r match act
      → act.kind ≡ ActionKind.jump
      → called rs family pkt table act ≡ o
      → SubExplains sub
      → Ensures (StepExplains ch r rules w) (
          call sub table o
            (Reason.jump_to_unknown act.chain)
            (after_jump table ch)
            (recorded rs family pkt table ch r act.kind w))
  jump-StepExplains sub ch none r rules act w y j f s = λ t. tt
  jump-StepExplains sub ch (some target) r rules act w y j f s =
      Ensures-bind _ (StepExplains ch r rules w) (sub table target _) _ (s target _)
        λ m h. after_jump-StepExplains ch target r rules act w m.1 m.0 m.0.kind y j f refl h

  -- After a goto the path shows it.
  shown-StepExplains :
      (ch : Chain) (r : Rule) (rules : List Rule) (w : Walker) (step : AfterRule)
      → took_goto (walker_of step).hits ≡ true
      → StepExplains ch r rules w step
  shown-StepExplains ch r rules w (done res v) h = λ t. absurd (ground arith)
  shown-StepExplains ch r rules w (continue v) h = λ t. absurd (ground arith)

  pub goto-StepExplains :
      (sub : Sub) (ch : Chain) (o : Option Chain) (r : Rule) (rules : List Rule) (act : Action)
      (w u : Walker)
      → took_goto u.hits ≡ true
      → SubKeeps sub
      → Ensures
          (StepExplains ch r rules w)
          (call sub table o (Reason.goto_unknown act.chain) (after_goto table ch) u)
  goto-StepExplains sub ch none r rules act w u g s = λ t. tt
  goto-StepExplains sub ch (some target) r rules act w u g s =
      Ensures-bind _ (StepExplains ch r rules w) (sub table target u) _ (s table target u) λ m h.
        shown-StepExplains ch r rules w _
          (ap (λ x. took_goto x.hits) (after_goto-walker table ch m.0.kind m.0 m.1) ∙ h g)

  pub last_hit-took_goto :
      (xs : List Hit) (h : Hit) → is_goto h.action ≡ true → took_goto (xs ++ h ∷ []) ≡ true
  last_hit-took_goto [] h g = ground arith
  last_hit-took_goto (x ∷ xs) h g = ground (arith, last_hit-took_goto xs h g)
