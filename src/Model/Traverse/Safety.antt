-- ===== src/Model/Traverse/Safety.antt =====
-- internal/model/traverse.go over a document that `facts.Validate` accepts: no walk panics.
use whyopen.Prelude.{
  ℕ, zero, suc, ◌≡◌, ◌≢◌, String, Option, none, some, List, [], ◌∷◌, arith, All, Go, panic,
  >>=-ne-panic,
}
use whyopen.Facts.Types.{ActionKind, Rule, Chain, Table, ElementSet, Ruleset}
use whyopen.Facts.Validate.Laws.{
  RuleIsCarried, ChainIsCarried, TableIsCarried, DocumentIsCarried, validate_iff,
}
use whyopen.Model.Packet.{Packet, Outcome, Action, match}
use whyopen.Model.Match.Safety.{match_rule-ne-panic}
use whyopen.Model.Traverse.Types.{
  Reason, ResultKind, Result, Hit, Walker, AfterRule, done, continue,
}
use whyopen.Model.Traverse.Walk.{
  chain_named, find_chain, call, verdict_step, rule_step, after_rule, walk_rules, walk_chain,
  max_jump_depth,
}
use whyopen.Model.Traverse.{
  BaseChain, Gathered, bases, refused, gather_chains, gather, insert_base, sort_bases, walk_bases,
  traverse, after_base, or_walk, ingress_unmodelled,
}
use whyopen.Facts.Validate.{validate}

abbrev FoundIsCarried : Option Chain → Type 0
FoundIsCarried none = Unit
FoundIsCarried (some ch) = ChainIsCarried ch

chain_named-IsCarried :
    (name : String) (chs : List Chain)
    → All ChainIsCarried chs
    → FoundIsCarried (chain_named name chs)
unfolding chain_named
chain_named-IsCarried name [] h = tt
chain_named-IsCarried name (ch ∷ chs) h = ground (arith, chain_named-IsCarried name chs)

find_chain-IsCarried :
    (family table name : String) (ts : List Table)
    → All TableIsCarried ts
    → FoundIsCarried (find_chain family table name ts)
unfolding find_chain
find_chain-IsCarried family table name [] h = tt
find_chain-IsCarried family table name (t ∷ ts) h =
    ground (arith, chain_named-IsCarried name t.chains, find_chain-IsCarried family table name ts)

-- The walks of a lower level, as far as this level may call them.
abbrev SubIsSafe : (String → Chain → Walker → Go (Result × Walker)) → Type 0
SubIsSafe sub =
    (table : String) (ch : Chain) (w : Walker) → ChainIsCarried ch → sub table ch w ≢ panic

module _ (rs : Ruleset) (family : String) (pkt : Packet) (carried : DocumentIsCarried rs) where
  call-ne-panic :
      (sub : String → Chain → Walker → Go (Result × Walker)) (table : String) (o : Option Chain)
      (missing : _) (after : ResultKind → Result → Walker → AfterRule) (w : Walker)
      → SubIsSafe sub
      → FoundIsCarried o
      → call sub table o missing after w ≢ panic
  call-ne-panic sub table none missing after w safe h = ground arith
  call-ne-panic sub table (some ch) missing after w safe h =
      >>=-ne-panic _ _ (safe table ch w h) λ m _. ground arith

  verdict_step-ne-panic :
      (k : ActionKind) (sub : String → Chain → Walker → Go (Result × Walker)) (table : String)
      (ch : Chain) (r : Rule) (act : Action) (w : Walker)
      → SubIsSafe sub
      → verdict_step rs family pkt k sub table ch r act w ≢ panic
  unfolding verdict_step
  verdict_step-ne-panic ActionKind.jump sub table ch r act w safe =
      call-ne-panic sub table (find_chain family table act.chain rs.tables) _ _ w safe
        (find_chain-IsCarried family table act.chain rs.tables carried)
  verdict_step-ne-panic ActionKind.goto sub table ch r act w safe =
      call-ne-panic sub table (find_chain family table act.chain rs.tables) _ _ w safe
        (find_chain-IsCarried family table act.chain rs.tables carried)
  verdict_step-ne-panic _ sub table ch r act w safe = ground arith

  rule_step-ne-panic :
      (out : Outcome) (sub : String → Chain → Walker → Go (Result × Walker)) (table : String)
      (ch : Chain) (r : Rule) (act : Action) (w : Walker)
      → SubIsSafe sub
      → rule_step rs family pkt out sub table ch r act w ≢ panic
  unfolding rule_step
  rule_step-ne-panic match sub table ch r act w safe =
      verdict_step-ne-panic act.kind sub table ch r act _ safe
  rule_step-ne-panic _ sub table ch r act w safe = ground arith

  after_rule-ne-panic :
      (rest : Walker → Go (Result × Walker)) (next : AfterRule)
      → ((w : Walker) → rest w ≢ panic)
      → after_rule rest next ≢ panic
  after_rule-ne-panic rest (done res w) h = ground arith
  after_rule-ne-panic rest (continue w) h = h w

  walk_rules-ne-panic :
      (sub : String → Chain → Walker → Go (Result × Walker)) (table : String) (ch : Chain)
      (sets : List ElementSet) (rules : List Rule) (w : Walker)
      → SubIsSafe sub
      → All RuleIsCarried rules
      → walk_rules rs family pkt sub table ch sets rules w ≢ panic
  unfolding walk_rules
  walk_rules-ne-panic sub table ch sets [] w safe h = ground arith
  walk_rules-ne-panic sub table ch sets (r ∷ rules) w safe (c, h) =
      >>=-ne-panic _ _ (match_rule-ne-panic pkt r sets c) λ m _.
        >>=-ne-panic _ _ (rule_step-ne-panic m.0 sub table ch r m.1 w safe) λ next _.
          after_rule-ne-panic _ next λ w'. walk_rules-ne-panic sub table ch sets rules w' safe h

  walk_chain-ne-panic : (n : ℕ) → SubIsSafe (walk_chain rs family pkt n)
  unfolding walk_chain
  walk_chain-ne-panic zero table ch w h = ground arith
  walk_chain-ne-panic (suc n) table ch w h =
      walk_rules-ne-panic _ table ch _ ch.rules w (walk_chain-ne-panic n) h

abbrev BasesAreCarried : List BaseChain → Type 0
BasesAreCarried bs = All (λ b. ChainIsCarried b.chain) bs

abbrev GatheredIsCarried : Gathered → Type 0
GatheredIsCarried (refused why) = Unit
GatheredIsCarried (bases bs) = BasesAreCarried bs

gather_chains-IsCarried :
    (hook : String) (t : Table) (later : Gathered) (chs : List Chain)
    → GatheredIsCarried later
    → All ChainIsCarried chs
    → GatheredIsCarried (gather_chains hook t later chs)
unfolding gather_chains
gather_chains-IsCarried hook t later [] g h = g
gather_chains-IsCarried hook t later (ch ∷ chs) g h =
    ground (arith, gather_chains-IsCarried hook t later chs)

gather-IsCarried :
    (family hook : String) (ts : List Table)
    → All TableIsCarried ts
    → GatheredIsCarried (gather family hook ts)
unfolding gather
gather-IsCarried family hook [] h = tt
gather-IsCarried family hook (t ∷ ts) h = ground (
  arith,
  gather-IsCarried family hook ts,
  gather_chains-IsCarried hook t (gather family hook ts) t.chains,
)

insert_base-IsCarried :
    (b : BaseChain) (bs : List BaseChain)
    → ChainIsCarried b.chain
    → BasesAreCarried bs
    → BasesAreCarried (insert_base b bs)
unfolding insert_base
insert_base-IsCarried b [] c h = (c, tt)
insert_base-IsCarried b (d ∷ bs) c h = ground (arith, insert_base-IsCarried b bs)

sort_bases-IsCarried : (bs : List BaseChain) → BasesAreCarried bs → BasesAreCarried (sort_bases bs)
unfolding sort_bases
sort_bases-IsCarried [] h = tt
sort_bases-IsCarried (b ∷ bs) (c, h) =
    insert_base-IsCarried b (sort_bases bs) c (sort_bases-IsCarried bs h)

module _ (rs : Ruleset) (family : String) (pkt : Packet) where
  after_base-ne-panic :
      (k : ResultKind) (rest : Walker → Go (Result × List Hit)) (b : BaseChain) (res : Result)
      (w : Walker)
      → ((v : Walker) → rest v ≢ panic)
      → after_base rs family pkt k rest b res w ≢ panic
  unfolding after_base
  after_base-ne-panic ResultKind.accept rest b res w h = h w
  after_base-ne-panic _ rest b res w h = ground arith

  walk_bases-ne-panic :
      (bs : List BaseChain) (w : Walker)
      → DocumentIsCarried rs
      → BasesAreCarried bs
      → walk_bases rs family pkt bs w ≢ panic
  unfolding walk_bases
  walk_bases-ne-panic [] w carried h = ground arith
  walk_bases-ne-panic (b ∷ bs) w carried (c, h) =
      >>=-ne-panic _ _
        (walk_chain-ne-panic rs family pkt carried (suc max_jump_depth) b.table b.chain w c)
        λ m _. after_base-ne-panic m.0.kind _ b m.0 m.1 λ v. walk_bases-ne-panic bs v carried h

  or_walk-ne-panic :
      (o : Option Reason) (g : Gathered)
      → DocumentIsCarried rs
      → GatheredIsCarried g
      → or_walk rs family pkt o g ≢ panic
  unfolding or_walk
  or_walk-ne-panic (some why) g carried h = ground arith
  or_walk-ne-panic none (refused why) carried h = ground arith
  or_walk-ne-panic none (bases bs) carried h =
      walk_bases-ne-panic (sort_bases bs) _ carried (sort_bases-IsCarried bs h)

-- On a document that `Validate` accepts `Traverse` returns, whatever the family, the hook and the
-- packet: it neither panics nor reads a nil object on the way.
pub traverse-ne-panic :
    (rs : Ruleset) (family hook : String) (pkt : Packet)
    → validate rs ≡ none
    → traverse rs family hook pkt ≢ panic
unfolding traverse
traverse-ne-panic rs family hook pkt h =
    or_walk-ne-panic rs family pkt (ingress_unmodelled rs pkt) (gather family hook rs.tables)
      ((validate_iff rs).0 h) (gather-IsCarried family hook rs.tables ((validate_iff rs).0 h))
