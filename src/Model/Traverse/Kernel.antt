-- ===== src/Model/Traverse/Kernel.antt =====
-- internal/model/traverse.go against the walk of nftables itself, which keeps a call stack: a jump
-- pushes the place after it, a goto pushes nothing, and a chain that ends or returns resumes at the
-- place on the top of the stack, or applies the base chain's policy when the stack is empty.
pub mod Hits
pub mod Explains
pub mod Sound
pub mod Goto
use whyopen.Prelude.{◌≡◌, String, Bool, true, false, Option, some, ◌⊎◌, List, [], ◌∷◌, any, ok}
use whyopen.Facts.Types.{ActionKind, Rule, Chain, Ruleset}
use whyopen.Model.Packet.{Packet, Action, Outcome, match, no_match, skipped}
use whyopen.Model.Match.Rule.{match_rule}
use whyopen.Model.Traverse.Types.{Reason, ResultKind, Hit, Walker}
use whyopen.Model.Traverse.Walk.{
  find_chain, table_sets, record_hit, base_policy_result, skipped_action,
}

abbrev is_goto : ActionKind → Bool
is_goto ActionKind.goto = true
is_goto _ = false

-- Some rule on the path issued a goto.
abbrev pub took_goto : List Hit → Bool
took_goto hits = any (λ h. is_goto h.action) hits

-- A place to resume at.
pub record Frame : Type 0 where
  pub chain : Chain
  pub rules : List Rule

module _ (rs : Ruleset) (family : String) (pkt : Packet) (table : String) where
  abbrev pub Yields : Rule → Outcome → Action → Type 0
  Yields r out act = match_rule pkt r (table_sets family table rs.tables) ≡ ok (out, act)

  abbrev pub recorded : Chain → Rule → ActionKind → Walker → Walker
  recorded ch r k w = record_hit rs family pkt table ch r k w

  abbrev pub called : Action → Option Chain
  called act = find_chain family table act.chain rs.tables

  -- The rules are used up, or the next of them returns.
  pub data Leaves (ch : Chain) : List Rule → Walker → Walker → Type 0 where
    fell : (w : Walker) → Leaves ch [] w w
    returned :
        (r : Rule) (rules : List Rule) (act : Action) (w : Walker)
        → Yields r match act
        → act.kind ≡ ActionKind.return
        → Leaves ch (r ∷ rules) w (recorded ch r act.kind w)

  -- A rule that lets the walk go on: it does not match, it is stepped over, or it has no verdict.
  pub data GoesOn (ch : Chain) (r : Rule) (w : Walker) : Walker → Type 0 where
    passed : (act : Action) → Yields r no_match act → GoesOn ch r w w
    stepped_over :
        (act : Action) → Yields r skipped act → GoesOn ch r w (recorded ch r skipped_action w)
    went_on :
        (act : Action)
        → Yields r match act
        → (act.kind ≡ ActionKind.continue) ⊎ (act.kind ≡ ActionKind.none)
        → GoesOn ch r w (recorded ch r act.kind w)

  -- A rule that ends the walk.
  pub data Decides (ch : Chain) (r : Rule) (w : Walker) : ResultKind → Walker → Type 0 where
    accepted :
        (act : Action)
        → Yields r match act
        → act.kind ≡ ActionKind.accept
        → Decides ch r w ResultKind.accept (recorded ch r act.kind w)
    refused :
        (act : Action)
        → Yields r match act
        → (act.kind ≡ ActionKind.drop) ⊎ (act.kind ≡ ActionKind.reject)
        → Decides ch r w ResultKind.drop (recorded ch r act.kind w)
    rewrote :
        (act : Action)
        → Yields r match act
        → act.kind ≡ ActionKind.dnat
        → Decides ch r w ResultKind.accept (record (recorded ch r act.kind w) { dnat = act.dnat })

  -- From these rules of this chain, with this stack, the walk that began in `base` ends so. A base
  -- chain ends in its own policy wherever it stands; nft refuses a rule that jumps to one.
  pub data Runs (base : Chain)
      : List Frame → Chain → List Rule → Walker → ResultKind → Walker → Type 0 where
    next :
        (fs : List Frame) (ch : Chain) (r : Rule) (rules : List Rule) (w u v : Walker)
        (k : ResultKind)
        → GoesOn ch r w u
        → Runs base fs ch rules u k v
        → Runs base fs ch (r ∷ rules) w k v
    decided :
        (fs : List Frame) (ch : Chain) (r : Rule) (rules : List Rule) (w v : Walker)
        (k : ResultKind)
        → Decides ch r w k v
        → Runs base fs ch (r ∷ rules) w k v
    jumped :
        (fs : List Frame) (ch target : Chain) (r : Rule) (rules : List Rule) (act : Action)
        (w v : Walker) (k : ResultKind)
        → Yields r match act
        → act.kind ≡ ActionKind.jump
        → called act ≡ some target
        → Runs base
            (record { chain = ch; rules = rules } ∷ fs)
            target
            target.rules
            (recorded ch r act.kind w)
            k
            v
        → Runs base fs ch (r ∷ rules) w k v
    went_to :
        (fs : List Frame) (ch target : Chain) (r : Rule) (rules : List Rule) (act : Action)
        (w v : Walker) (k : ResultKind)
        → Yields r match act
        → act.kind ≡ ActionKind.goto
        → called act ≡ some target
        → Runs base fs target target.rules (recorded ch r act.kind w) k v
        → Runs base fs ch (r ∷ rules) w k v
    resumed :
        (f : Frame) (fs : List Frame) (ch : Chain) (rules : List Rule) (w u v : Walker)
        (k : ResultKind)
        → Leaves ch rules w u
        → ch.base ≡ false
        → Runs base fs f.chain f.rules u k v
        → Runs base (f ∷ fs) ch rules w k v
    settled :
        (fs : List Frame) (ch : Chain) (rules : List Rule) (w v : Walker)
        → Leaves ch rules w v
        → ch.base ≡ true
        → Runs base fs ch rules w (base_policy_result ch Reason.unsaid).kind v
    settled_after_goto :
        (ch : Chain) (rules : List Rule) (w v : Walker)
        → Leaves ch rules w v
        → ch.base ≡ false
        → Runs base [] ch rules w (base_policy_result base Reason.unsaid).kind v
