-- ===== src/Model/Traverse/Walk.antt =====
-- internal/model/traverse.go, `walkChain`: the rules of one chain, and the chains that they call.
-- Depth is counted down: the walk has `max_jump_depth + 1` levels at a base chain, and the level
-- past the last is the code's own refusal.
use whyopen.Prelude.{
  ℕ, zero, suc, String, Bool, ◌&&◌, ◌||◌, not, Option, none, some, List, [], ◌∷◌, ◌++◌,
  if◌then◌else◌, str_eq, Go, ok, ◌>>=◌,
}
use whyopen.Facts.Types.{ActionKind, Rule, Chain, Table, ElementSet, Ruleset}
use whyopen.Model.Packet.{Packet, Action, Outcome, match, no_match, unknown, skipped}
use whyopen.Model.Match.Rule.{match_rule}
use whyopen.Model.Traverse.Types.{
  Reason, ResultKind, Result, result, quiet, Walker, AfterRule, done, continue,
}

abbrev pub max_jump_depth : ℕ
max_jump_depth = 32

unfoldable pub base_policy_result : Chain → Reason → Result
base_policy_result ch reason =
    if str_eq ch.policy "accept"
    then quiet ResultKind.accept
    else (if str_eq ch.policy "drop"
        then result ResultKind.drop reason
        else result ResultKind.unknown (Reason.policy_unreadable ch.name ch.policy))

unfoldable pub unwind : String → Chain → Result
unfolding base_policy_result
unwind table ch =
    if not ch.base
    then quiet ResultKind.unwind
    else base_policy_result ch (Reason.goto_fell_through table ch.name)

abbrev done_quiet : ResultKind → Walker → AfterRule
done_quiet k w = done (quiet k) w

-- After a jump: a fallthrough resumes here, a goto's does not.
unfoldable pub after_jump : String → Chain → ResultKind → Result → Walker → AfterRule
unfolding unwind
after_jump table ch ResultKind.unwind res w = done (unwind table ch) w
after_jump table ch ResultKind.none res w = continue w
after_jump table ch _ res w = done res w

-- After a goto: nothing resumes here.
unfoldable pub after_goto : String → Chain → ResultKind → Result → Walker → AfterRule
unfolding unwind
after_goto table ch ResultKind.unwind res w = done (unwind table ch) w
after_goto table ch ResultKind.none res w = done (unwind table ch) w
after_goto table ch _ res w = done res w

unfoldable pub return_result : String → Chain → Result
unfolding base_policy_result
return_result table ch =
    if ch.base
    then base_policy_result ch (Reason.return_hit_policy table ch.name)
    else quiet ResultKind.none

unfoldable pub end_result : String → Chain → Result
unfolding base_policy_result
end_result table ch =
    if ch.base
    then base_policy_result ch (Reason.fell_through table ch.name)
    else quiet ResultKind.none

abbrev or_chain : Option Chain → Option Chain → Option Chain
or_chain none b = b
or_chain (some a) b = some a

unfoldable pub chain_named : String → List Chain → Option Chain
chain_named name [] = none
chain_named name (ch ∷ chs) = if str_eq ch.name name then some ch else chain_named name chs

-- Whether the walk of this family looks into a table under this name.
abbrev pub serves : String → String → Table → Bool
serves family table t = str_eq t.name table && (str_eq t.family family || str_eq t.family "inet")

unfoldable pub find_chain : String → String → String → List Table → Option Chain
unfolding chain_named
find_chain family table name [] = none
find_chain family table name (t ∷ ts) =
    let rest = find_chain family table name ts in
    if serves family table t then or_chain (chain_named name t.chains) rest else rest

unfoldable pub table_sets : String → String → List Table → List ElementSet
table_sets family table [] = []
table_sets family table (t ∷ ts) =
    if serves family table t then t.sets else table_sets family table ts

abbrev pub skipped_action : ActionKind
skipped_action = ActionKind.unnamed "skipped"

-- The walk of the called chain, if it is there.
abbrev pub call :
    (String → Chain → Walker → Go (Result × Walker))
    → String
    → Option Chain
    → Reason
    → (ResultKind → Result → Walker → AfterRule)
    → Walker
    → Go AfterRule
call sub table none missing after w = ok (done (result ResultKind.unknown missing) w)
call sub table (some target) missing after w =
    sub table target w >>= λ m. ok (after m.0.kind m.0 m.1)

abbrev pub after_rule : (Walker → Go (Result × Walker)) → AfterRule → Go (Result × Walker)
after_rule rest (done res w) = ok (res, w)
after_rule rest (continue w) = rest w

module _ (rs : Ruleset) (family : String) (pkt : Packet) where
  unfoldable pub record_hit : String → Chain → Rule → ActionKind → Walker → Walker
  record_hit table ch r action w = record w {
    hits =
        w.hits
        ++ (record {
          family = family;
          table = table;
          chain = ch.name;
          hook = ch.hook;
          priority = ch.priority;
          handle = r.handle;
          action = action;
          rule = r;
        }
            ∷ []);
  }

  -- The switch over the action of a rule that matched.
  unfoldable pub verdict_step :
      ActionKind
      → (String → Chain → Walker → Go (Result × Walker))
      → String
      → Chain
      → Rule
      → Action
      → Walker
      → Go AfterRule
  unfolding after_jump after_goto return_result find_chain
  verdict_step ActionKind.accept sub table ch r act w = ok (done_quiet ResultKind.accept w)
  verdict_step ActionKind.drop sub table ch r act w =
      ok (done (result ResultKind.drop (Reason.dropped_by table ch.name r.handle)) w)
  verdict_step ActionKind.reject sub table ch r act w =
      ok (done (result ResultKind.drop (Reason.rejected_by table ch.name r.handle)) w)
  verdict_step ActionKind.dnat sub table ch r act w =
      ok
        (done (record (quiet ResultKind.accept) { dnat = act.dnat }) (record w { dnat = act.dnat }))
  verdict_step ActionKind.return sub table ch r act w = ok (done (return_result table ch) w)
  verdict_step ActionKind.jump sub table ch r act w =
      call sub table (find_chain family table act.chain rs.tables)
        (Reason.jump_to_unknown act.chain) (after_jump table ch) w
  verdict_step ActionKind.goto sub table ch r act w =
      call sub table (find_chain family table act.chain rs.tables) (Reason.goto_unknown act.chain)
        (after_goto table ch) w
  verdict_step ActionKind.continue sub table ch r act w = ok (continue w)
  verdict_step ActionKind.none sub table ch r act w = ok (continue w)
  verdict_step (ActionKind.unnamed text) sub table ch r act w =
      ok (done (result ResultKind.unknown (Reason.unhandled_verdict act.kind)) w)

  -- The body of the loop over a chain's rules, once the rule is evaluated.
  unfoldable pub rule_step :
      Outcome
      → (String → Chain → Walker → Go (Result × Walker))
      → String
      → Chain
      → Rule
      → Action
      → Walker
      → Go AfterRule
  unfolding record_hit verdict_step
  rule_step no_match sub table ch r act w = ok (continue w)
  rule_step skipped sub table ch r act w = ok (continue (record_hit table ch r skipped_action w))
  rule_step unknown sub table ch r act w = ok (
      done (result ResultKind.unknown (Reason.unresolved_rule r.handle table ch.name))
        (record_hit table ch r act.kind w))
  rule_step match sub table ch r act w =
      verdict_step act.kind sub table ch r act (record_hit table ch r act.kind w)

  -- The loop over a chain's rules.
  unfoldable pub walk_rules :
      (String → Chain → Walker → Go (Result × Walker))
      → String
      → Chain
      → List ElementSet
      → List Rule
      → Walker
      → Go (Result × Walker)
  unfolding rule_step end_result
  walk_rules sub table ch sets [] w = ok (end_result table ch, w)
  walk_rules sub table ch sets (r ∷ rules) w = do
    (out, act) ← match_rule pkt r sets
    next ← rule_step out sub table ch r act w
    after_rule (walk_rules sub table ch sets rules) next

  unfoldable pub walk_chain : ℕ → String → Chain → Walker → Go (Result × Walker)
  unfolding walk_rules table_sets
  walk_chain zero table ch w = ok (result ResultKind.unknown Reason.too_deep, w)
  walk_chain (suc n) table ch w =
      walk_rules (walk_chain n) table ch (table_sets family table rs.tables) ch.rules w
