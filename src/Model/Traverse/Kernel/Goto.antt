-- ===== src/Model/Traverse/Kernel/Goto.antt =====
-- internal/model/traverse.go: a goto below a jump, in the code and with the call stack of nftables.
use whyopen.Prelude.{
  ℕ, suc, ◌≡◌, sym, subst, ap, ◌∙◌, String, false, not, Option, some, List, [], ◌∷◌, arith, Go, ok,
  ◌>>=◌, if◌then◌else◌,
}
use whyopen.Facts.Types.{ActionKind, Rule, Chain, Ruleset}
use whyopen.Model.Packet.{Packet, Action, match}
use whyopen.Model.Traverse.Types.{Reason, ResultKind, Result, quiet, Walker, AfterRule}
use whyopen.Model.Traverse.Walk.{
  table_sets, call, verdict_step, rule_step, after_rule, walk_rules, walk_chain, after_jump,
  after_goto, base_policy_result, end_result, unwind,
}
use whyopen.Model.Traverse.Kernel.{
  Yields, recorded, called, Leaves, fell, Runs, jumped, went_to, resumed,
}
use whyopen.Model.Traverse.Kernel.Hits.{Sub}

module _ (rs : Ruleset) (family : String) (pkt : Packet) (table : String) where
  abbrev Walks : ℕ → Chain → Walker → Go (Result × Walker) → Type 0
  Walks n ch w m = walk_chain rs family pkt n table ch w ≡ m

  empty-Walks :
      (n : ℕ) (ch : Chain) (w : Walker)
      → ch.rules ≡ []
      → ch.base ≡ false
      → Walks (suc n) ch w (ok (quiet ResultKind.none, w))
  unfolding walk_chain walk_rules end_result
  empty-Walks n ch w e b =
      ap
        (λ rules.
          walk_rules rs family pkt (walk_chain rs family pkt n) table ch
            (table_sets family table rs.tables) rules w)
        e
      ∙ ground arith

  -- The walk of a chain after its first rule.
  abbrev after_first : ℕ → Chain → List Rule → AfterRule → Go (Result × Walker)
  after_first n ch rules = after_rule (
      walk_rules rs family pkt (walk_chain rs family pkt n) table ch
        (table_sets family table rs.tables) rules)

  -- The walk of a chain from its first rule, which matches.
  first-Walks :
      (n : ℕ) (ch : Chain) (r : Rule) (rules : List Rule) (act : Action) (k : ActionKind)
      (w : Walker)
      → ch.rules ≡ r ∷ rules
      → Yields rs family pkt table r match act
      → act.kind ≡ k
      → Walks (suc n) ch w (
          verdict_step rs family pkt k
            (walk_chain rs family pkt n)
            table
            ch
            r
            act
            (recorded rs family pkt table ch r act.kind w)
          >>= after_first n ch rules)
  unfolding walk_chain walk_rules rule_step
  first-Walks n ch r rules act k w e y j =
      let sub = walk_chain rs family pkt n in
      let sets = table_sets family table rs.tables in
      let rest = after_first n ch rules in
      ap (λ rls. walk_rules rs family pkt sub table ch sets rls w) e
      ∙ ap (λ m. m >>= λ p. rule_step rs family pkt p.0 sub table ch r p.1 w >>= rest) y
      ∙ ap
          (λ q.
            verdict_step rs family pkt q sub table ch r act
              (recorded rs family pkt table ch r act.kind w)
            >>= rest)
          j

  unwind_regular : (ch : Chain) → ch.base ≡ false → unwind table ch ≡ quiet ResultKind.unwind
  unfolding unwind
  unwind_regular ch b =
      ap
        (λ q.
          if not q
          then quiet ResultKind.unwind
          else base_policy_result ch (Reason.goto_fell_through table ch.name))
        b

  -- A call of a chain that is found, at the head of what follows it.
  call-found :
      (sub : Sub) (o : Option Chain) (target : Chain) (missing : Reason)
      (after : ResultKind → Result → Walker → AfterRule) (rest : AfterRule → Go (Result × Walker))
      (u v : Walker) (res : Result)
      → o ≡ some target
      → sub table target u ≡ ok (res, v)
      → (call sub table o missing after u >>= rest) ≡ rest (after res.kind res v)
  call-found sub o target missing after rest u v res f h =
      ap (λ q. call sub table q missing after u >>= rest) f
      ∙ ap (λ m. (m >>= λ p. ok (after p.0.kind p.0 p.1)) >>= rest) h

  goto-Walks :
      (n : ℕ) (ch target : Chain) (r : Rule) (rules : List Rule) (act : Action) (w : Walker)
      → ch.rules ≡ r ∷ rules
      → ch.base ≡ false
      → Yields rs family pkt table r match act
      → act.kind ≡ ActionKind.goto
      → called rs family pkt table act ≡ some target
      → target.rules ≡ []
      → target.base ≡ false
      → Walks
          (suc (suc n))
          ch
          w
          (ok (quiet ResultKind.unwind, recorded rs family pkt table ch r act.kind w))
  unfolding verdict_step after_goto
  goto-Walks n ch target r rules act w e b y j f empty regular =
      let u = recorded rs family pkt table ch r act.kind w in
      first-Walks (suc n) ch r rules act ActionKind.goto w e y j
      ∙ call-found (walk_chain rs family pkt (suc n)) _ target (Reason.goto_unknown act.chain)
          (after_goto table ch) (after_first (suc n) ch rules) u u _ f
          (empty-Walks n target u empty regular)
      ∙ ap (λ res. ok (res, u)) (unwind_regular ch b)

  -- Where a base chain starts with a jump to a chain that starts with a goto to an empty chain, the
  -- code gives the packet to the base chain's policy whatever rules follow the jump, while in nftables
  -- the walk resumes at those rules: however it ends there is how the whole walk ends.
  pub walk_chain-forgets_jump :
      (n : ℕ) (base ch target : Chain) (jump_rule goto_rule : Rule) (rest rules : List Rule)
      (jump_act goto_act : Action) (w v : Walker) (k : ResultKind)
      → base.rules ≡ jump_rule ∷ rest
      → Yields rs family pkt table jump_rule match jump_act
      → jump_act.kind ≡ ActionKind.jump
      → called rs family pkt table jump_act ≡ some ch
      → ch.rules ≡ goto_rule ∷ rules
      → ch.base ≡ false
      → Yields rs family pkt table goto_rule match goto_act
      → goto_act.kind ≡ ActionKind.goto
      → called rs family pkt table goto_act ≡ some target
      → target.rules ≡ []
      → target.base ≡ false
      → Runs rs family pkt table base [] base rest
          (recorded rs family pkt table ch goto_rule goto_act.kind
            (recorded rs family pkt table base jump_rule jump_act.kind w))
          k
          v
      → (walk_chain rs family pkt (suc (suc (suc n))) table base w
          ≡ ok (
            unwind table base,
            recorded rs family pkt table ch goto_rule goto_act.kind
                (recorded rs family pkt table base jump_rule jump_act.kind w),
          ))
        × Runs rs family pkt table base [] base base.rules w k v
  unfolding verdict_step after_jump
  walk_chain-forgets_jump n base ch target jr gr rest rules ja ga w v k e y j f e' b y' j' f' empty
        regular run =
      let u = recorded rs family pkt table base jr ja.kind w in
      let x = recorded rs family pkt table ch gr ga.kind u in
      (
        first-Walks (suc (suc n)) base jr rest ja ActionKind.jump w e y j
            ∙ call-found (walk_chain rs family pkt (suc (suc n))) _ ch
                (Reason.jump_to_unknown ja.chain) (after_jump table base)
                (after_first (suc (suc n)) base rest) u x _ f
                (goto-Walks n ch target gr rules ga u e' b y' j' f' empty regular),
        subst (λ rls. Runs rs family pkt table base [] base rls w k v) (sym e)
            (jumped [] base ch jr rest ja w v k y j f (
              subst
                (λ rls.
                  Runs rs family pkt table base (record { chain = base; rules = rest } ∷ []) ch rls
                    u k v)
                (sym e')
                (went_to _ ch target gr rules ga u v k y' j' f' (
                  resumed _ [] target target.rules x x v k
                    (subst (λ rls. Leaves rs family pkt table target rls x x) (sym empty) (fell x))
                    regular run)))),
      )
