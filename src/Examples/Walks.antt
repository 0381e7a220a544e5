-- ===== src/Examples/Walks.antt =====
-- internal/model/traverse.go and evaluate.go on the concrete host.
use whyopen.Prelude.{
  Any, false, ◌≡◌, ◌≢◌, ◌⊎◌, inl, ◌↔◌, refl, arith, none, some, [], Go, panic, ok, hex_decode,
}
use whyopen.Facts.Types.{ActionKind}
use whyopen.Facts.Validate.{validate}
use whyopen.Facts.Validate.Laws.{DocumentIsCarried, validate_iff}
use whyopen.Model.Packet.{Action, match}
use whyopen.Netip.Parse.{parse_addr}
use whyopen.Model.Match.Fields.{payload_bytes}
use whyopen.Model.Evaluate.Lookups.{public_addrs, bind_covers}
use whyopen.Model.Match.Xt.{act_none}
use whyopen.Model.Match.Rule.{match_rule}
use whyopen.Model.Traverse.Types.{ResultKind, Result, Walker, quiet}
use whyopen.Model.Traverse.Walk.{walk_chain, table_sets, find_chain}
use whyopen.Model.Traverse.{traverse, ingress_unmodelled, gather, walk_bases, sort_bases}
use whyopen.Model.Traverse.Safety.{traverse-ne-panic}
use whyopen.Model.Traverse.Bases.{IsFinal, walk_chain-IsFinal}
use whyopen.Model.Traverse.Depth.{IsTooDeep, walk_chain-Agrees, walk_chain_loop}
use whyopen.Model.Traverse.Kernel.{took_goto, Runs}
use whyopen.Model.Traverse.Kernel.Sound.{walk_chain-Runs}
use whyopen.Model.Evaluate.Types.{VerdictResult, Verdict}
use whyopen.Model.Evaluate.{evaluate_one, evaluate_at_destination}
use whyopen.Model.Evaluate.Best.{AtIs, evaluate_one-strongest}
use whyopen.Model.Evaluate.Reach.{WayThrough, evaluate_at_destination-WayThrough}
use whyopen.Examples.{
  loaded_rules, input_chain, loop_chain, loop_rule, to_ssh, document, internet, socket_on, at_eth0,
  found, start_walker,
}

ruleset_validates : validate loaded_rules ≡ none
unfolding validate
ruleset_validates = refl

validate_iff_example : validate loaded_rules ≡ none ↔ DocumentIsCarried loaded_rules
validate_iff_example = validate_iff loaded_rules

traverse-ne-panic_example : traverse loaded_rules "ip" "input" to_ssh ≢ panic
traverse-ne-panic_example = traverse-ne-panic loaded_rules "ip" "input" to_ssh ruleset_validates

walked {ℓ} : {A : Type ℓ} → A → Go A → A
walked a panic = a
walked a (ok b) = b

-- The walk of the input chain, which accepts at its one rule.
abbrev input_end : Result × Walker
input_end =
    walked (quiet ResultKind.none, start_walker)
      (walk_chain loaded_rules "ip" to_ssh 33 "filter" input_chain start_walker)

input_accepts : input_end.0.kind ≡ ResultKind.accept
unfolding walk_chain walked match_rule payload_bytes hex_decode
input_accepts = refl

input_returns :
    walk_chain loaded_rules "ip" to_ssh 33 "filter" input_chain start_walker ≡ ok input_end
unfolding walk_chain walked match_rule payload_bytes hex_decode
input_returns = refl

input_took_no_goto : took_goto input_end.1.hits ≡ false
unfolding walk_chain walked match_rule payload_bytes hex_decode
input_took_no_goto = refl

walk_chain-IsFinal_example : IsFinal input_end.0.kind
walk_chain-IsFinal_example =
    walk_chain-IsFinal loaded_rules "ip" to_ssh 33 "filter" input_chain start_walker input_end.1
      input_end.0 refl input_returns

walk_chain-Agrees_example :
    (walk_chain loaded_rules "ip" to_ssh 33 "filter" input_chain start_walker
      ≡ walk_chain loaded_rules "ip" to_ssh 2 "filter" input_chain start_walker)
    ⊎ IsTooDeep (walk_chain loaded_rules "ip" to_ssh 2 "filter" input_chain start_walker)
walk_chain-Agrees_example =
    walk_chain-Agrees loaded_rules "ip" to_ssh 2 33 "filter" input_chain start_walker (omega arith)

walk_chain-Runs_example :
    Runs loaded_rules "ip" to_ssh "filter" input_chain [] input_chain input_chain.rules start_walker
      input_end.0.kind input_end.1
walk_chain-Runs_example =
    walk_chain-Runs loaded_rules "ip" to_ssh "filter" input_chain 33 start_walker input_end.1
      input_end.0 input_returns input_took_no_goto (inl input_accepts)

abbrev to_loop : Action
to_loop = record act_none { kind = ActionKind.jump; chain = "loop" }

loop_rule_jumps :
    match_rule to_ssh loop_rule (table_sets "ip" "filter" loaded_rules.tables) ≡ ok (match, to_loop)
unfolding match_rule table_sets
loop_rule_jumps = refl

loop_is_found : find_chain "ip" "filter" "loop" loaded_rules.tables ≡ some loop_chain
unfolding find_chain
loop_is_found = refl

walk_chain_loop_example :
    IsTooDeep (walk_chain loaded_rules "ip" to_ssh 33 "filter" loop_chain start_walker)
walk_chain_loop_example =
    walk_chain_loop loaded_rules "ip" to_ssh 33 "filter" loop_chain loop_rule [] to_loop
      start_walker refl loop_rule_jumps refl loop_is_found

abbrev ssh_verdict : Verdict
ssh_verdict =
    walked (found 22 VerdictResult.filtered)
      (evaluate_at_destination document internet (socket_on 22) "ip" at_eth0)

ssh_evaluates :
    evaluate_at_destination document internet (socket_on 22) "ip" at_eth0 ≡ ok ssh_verdict
unfolding evaluate_at_destination walked traverse ingress_unmodelled gather walk_bases sort_bases
    walk_chain match_rule payload_bytes hex_decode
ssh_evaluates = refl

ssh_is_reachable : ssh_verdict.result ≡ VerdictResult.reachable
unfolding evaluate_at_destination walked traverse ingress_unmodelled gather walk_bases sort_bases
    walk_chain match_rule payload_bytes hex_decode
ssh_is_reachable = refl

evaluate_at_destination-WayThrough_example :
    WayThrough document internet (socket_on 22) "ip" at_eth0
evaluate_at_destination-WayThrough_example =
    evaluate_at_destination-WayThrough document internet (socket_on 22) "ip" at_eth0 ssh_verdict
      ssh_evaluates ssh_is_reachable

abbrev ssh_stands : Verdict
ssh_stands =
    walked (found 22 VerdictResult.filtered) (evaluate_one document internet (socket_on 22) "ip")

ssh_evaluates_one : evaluate_one document internet (socket_on 22) "ip" ≡ ok ssh_stands
unfolding evaluate_one walked public_addrs parse_addr bind_covers evaluate_at_destination traverse
    ingress_unmodelled gather walk_bases sort_bases walk_chain match_rule payload_bytes hex_decode
ssh_evaluates_one = refl

evaluate_one-strongest_example :
    (ssh_stands.result ≡ VerdictResult.reachable
      ↔ Any
          (AtIs document internet (socket_on 22) "ip" VerdictResult.reachable)
          (public_addrs "ip" document.host.interfaces))
    × (ssh_stands.result ≡ VerdictResult.unknown ↔ (
        (public_addrs "ip" document.host.interfaces ≡ [])
        ⊎ (Any
              (AtIs document internet (socket_on 22) "ip" VerdictResult.unknown)
              (public_addrs "ip" document.host.interfaces)
            × (¬ Any
                (AtIs document internet (socket_on 22) "ip" VerdictResult.reachable)
                (public_addrs "ip" document.host.interfaces)))))
evaluate_one-strongest_example =
    evaluate_one-strongest document internet (socket_on 22) "ip" ssh_stands ssh_evaluates_one

-- From the address of the interface to the verdict: ssh is reachable, the next port is filtered.
evaluates_ssh :
    (walked
      (found 22 VerdictResult.unknown)
      (evaluate_one document internet (socket_on 22) "ip")).result
    ≡ VerdictResult.reachable
unfolding evaluate_one walked public_addrs parse_addr bind_covers evaluate_at_destination traverse
    ingress_unmodelled gather walk_bases sort_bases walk_chain match_rule payload_bytes hex_decode
evaluates_ssh = refl

evaluates_telnet :
    (walked
      (found 23 VerdictResult.unknown)
      (evaluate_one document internet (socket_on 23) "ip")).result
    ≡ VerdictResult.filtered
unfolding evaluate_one walked public_addrs parse_addr bind_covers evaluate_at_destination traverse
    ingress_unmodelled gather walk_bases sort_bases walk_chain match_rule payload_bytes hex_decode
evaluates_telnet = refl
