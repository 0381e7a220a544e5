-- ===== src/Examples/Calls.antt =====
-- internal/model/traverse.go on a base chain that jumps to a chain that goes on to an empty one.
use whyopen.Prelude.{
  Go, panic, here, hex_decode, ◌≡◌, refl, String, true, false, some, List, [], ◌∷◌, ok, pos,
}
use whyopen.Facts.Types.{ActionKind, Rule, Chain, Ruleset}
use whyopen.Model.Packet.{Action, match}
use whyopen.Model.Match.Xt.{act_none}
use whyopen.Model.Match.Rule.{match_rule}
use whyopen.Model.Match.Ports.{give_verdict}
use whyopen.Model.Traverse.Types.{ResultKind, Result, quiet, Hit, Walker}
use whyopen.Model.Traverse.Walk.{walk_chain, table_sets, find_chain, unwind}
use whyopen.Model.Traverse.Kernel.{Yields, called, recorded, Runs, decided, accepted}
use whyopen.Model.Traverse.Kernel.Goto.{walk_chain-forgets_jump}
use whyopen.Model.Match.Fields.{payload_bytes}
use whyopen.Model.Traverse.{traverse, ingress_unmodelled, gather, walk_bases, sort_bases}
use whyopen.Model.Traverse.Accept.{Accepted, traverse-Accepted}
use whyopen.Examples.{loaded_rules, filter_table, input_chain, to_ssh, to_accept, start_walker}

abbrev jump_to_a : Rule
jump_to_a = record {
  handle = 1;
  exprs = give_verdict (record { kind = ActionKind.jump; chain = "a" }) ∷ [];
}

abbrev accept_all : Rule
accept_all = record { handle = 2; exprs = give_verdict to_accept ∷ [] }

abbrev goto_b : Rule
goto_b = record {
  handle = 3;
  exprs = give_verdict (record { kind = ActionKind.goto; chain = "b" }) ∷ [];
}

abbrev input_base : Chain
input_base = record {
  name = "input";
  base = true;
  hook = "input";
  priority = pos 0;
  devices = [];
  policy = "drop";
  rules = jump_to_a ∷ accept_all ∷ [];
}

abbrev regular : String → List Rule → Chain
regular name rules = record {
  name = name;
  base = false;
  hook = "";
  priority = pos 0;
  devices = [];
  policy = "";
  rules = rules;
}

abbrev chain_a : Chain
chain_a = regular "a" (goto_b ∷ [])

abbrev chain_b : Chain
chain_b = regular "b" []

abbrev rules_read : Ruleset
rules_read = record {
  tables =
      record {
        family = "inet";
        name = "filter";
        chains = input_base ∷ chain_a ∷ chain_b ∷ [];
        sets = [];
      }
      ∷ [];
  read_failed = false;
}

abbrev verdict_to : ActionKind → String → Action
verdict_to kind chain = record act_none { kind = kind; chain = chain }

jump_matches :
    Yields rules_read "ip" to_ssh "filter" jump_to_a match (verdict_to ActionKind.jump "a")
unfolding match_rule table_sets
jump_matches = refl

goto_matches : Yields rules_read "ip" to_ssh "filter" goto_b match (verdict_to ActionKind.goto "b")
unfolding match_rule table_sets
goto_matches = refl

accept_matches :
    Yields rules_read "ip" to_ssh "filter" accept_all match (verdict_to ActionKind.accept "")
unfolding match_rule table_sets
accept_matches = refl

a_is_called : called rules_read "ip" to_ssh "filter" (verdict_to ActionKind.jump "a") ≡ some chain_a
unfolding find_chain
a_is_called = refl

b_is_called : called rules_read "ip" to_ssh "filter" (verdict_to ActionKind.goto "b") ≡ some chain_b
unfolding find_chain
b_is_called = refl

abbrev after_goto_b : Walker
after_goto_b =
    recorded rules_read "ip" to_ssh "filter" chain_a goto_b ActionKind.goto
      (recorded rules_read "ip" to_ssh "filter" input_base jump_to_a ActionKind.jump start_walker)

abbrev after_accept_all : Walker
after_accept_all =
    recorded rules_read "ip" to_ssh "filter" input_base accept_all ActionKind.accept after_goto_b

-- The rule after the jump accepts.
resumed_accepts :
    Runs rules_read "ip" to_ssh "filter" input_base [] input_base
      (accept_all ∷ [])
      after_goto_b
      ResultKind.accept
      after_accept_all
resumed_accepts =
    decided [] input_base accept_all [] after_goto_b after_accept_all ResultKind.accept
      (accepted (verdict_to ActionKind.accept "") accept_matches refl)

walk_chain-forgets_jump_example :
    (walk_chain rules_read "ip" to_ssh 33 "filter" input_base start_walker
      ≡ ok (unwind "filter" input_base, after_goto_b))
    × Runs rules_read "ip" to_ssh "filter" input_base [] input_base input_base.rules start_walker
        ResultKind.accept after_accept_all
walk_chain-forgets_jump_example =
    walk_chain-forgets_jump rules_read "ip" to_ssh "filter" 30 input_base chain_a chain_b jump_to_a
      goto_b (accept_all ∷ []) [] (verdict_to ActionKind.jump "a") (verdict_to ActionKind.goto "b")
      start_walker after_accept_all ResultKind.accept refl jump_matches refl a_is_called refl refl
      goto_matches refl b_is_called refl refl resumed_accepts

walked : Go (Result × List Hit) → Result × List Hit
walked panic = (quiet ResultKind.unknown, [])
walked (ok m) = m

abbrev hook_end : Result × List Hit
hook_end = walked (traverse loaded_rules "ip" "input" to_ssh)

hook_returns : traverse loaded_rules "ip" "input" to_ssh ≡ ok hook_end
unfolding traverse walked ingress_unmodelled gather walk_bases sort_bases walk_chain match_rule
    payload_bytes hex_decode
hook_returns = refl

hook_accepts : hook_end.0.kind ≡ ResultKind.accept
unfolding traverse walked ingress_unmodelled gather walk_bases sort_bases walk_chain match_rule
    payload_bytes hex_decode
hook_accepts = refl

traverse-Accepted_example : Accepted loaded_rules "ip" to_ssh "filter" input_chain
traverse-Accepted_example =
    traverse-Accepted loaded_rules "ip" "input" to_ssh hook_end.0 hook_end.1 filter_table
      input_chain hook_returns hook_accepts (here refl) refl (here refl) refl refl
