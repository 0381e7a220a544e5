-- ===== src/Examples/Reports.antt =====
-- internal/policy, internal/probe and cmd/whyopen on concrete verdicts.
use whyopen.Prelude.{
  ltb, ℕ, ◌≡◌, ◌↔◌, refl, true, some, List, [], ◌∷◌, select, map, any, ◌&&◌, ◌==◌,
}
use whyopen.Model.Evaluate.Types.{VerdictResult, Verdict, ProbeState}
use whyopen.Policy.Types.{Entry, Policy, holds}
use whyopen.Policy.Check.{check}
use whyopen.Policy.Check.Laws.{
  violates, is_unknown, is_dead, describe, seen_in, check-violations, check-unknown, check-stale,
}
use whyopen.Policy.Init.{init}
use whyopen.Policy.Init.Laws.{init-allow, check-init}
use whyopen.Probe.Reconcile.{Probed, reconcile}
use whyopen.Probe.Reconcile.Laws.Settled.{AreSettled, sharing, reconcile-AreSettled}
use whyopen.Probe.Reconcile.Laws.{names, OnePerPort, is_contradicted, reconcile-disagreements}
use whyopen.Cli.{ExitCode, check_exit_code}
use whyopen.Cli.Laws.{IsClean, check_exit_code-IsClean}
use whyopen.Examples.{found, document}

abbrev verdicts : List Verdict
verdicts =
    found 22 VerdictResult.reachable
    ∷ found 80 VerdictResult.filtered
    ∷ found 443 VerdictResult.reachable
    ∷ found 8080 VerdictResult.unknown
    ∷ []

abbrev tcp : ℕ → Entry
tcp port = record { port = port; proto = "tcp" }

abbrev strict : Policy
strict = record { allow = tcp 22 ∷ tcp 80 ∷ []; fail_on_unknown = true }

abbrev warnings : List Entry
warnings = []

abbrev probed_results : List Probed
probed_results =
    record { port = 22; proto = "tcp"; state = ProbeState.opened }
    ∷ record { port = 443; proto = "tcp"; state = ProbeState.filtered }
    ∷ []

check-violations_example :
    (check strict verdicts warnings).violations ≡ select (violates strict) verdicts
check-violations_example = check-violations strict verdicts warnings

violations_found : select (violates strict) verdicts ≡ found 443 VerdictResult.reachable ∷ []
unfolding holds
violations_found = refl

check-unknown_example : (check strict verdicts warnings).unknown ≡ select is_unknown verdicts
check-unknown_example = check-unknown strict verdicts warnings

check-stale_example :
    (check strict verdicts warnings).stale
    ≡ map (describe verdicts) (select (is_dead verdicts) strict.allow)
check-stale_example = check-stale strict verdicts warnings

init-allow_example :
    holds (init verdicts).0.allow (tcp 443) ≡ seen_in verdicts (tcp 443) VerdictResult.reachable
init-allow_example = init-allow verdicts (tcp 443)

check-init_example :
    ((check (init verdicts).0 verdicts warnings).violations ≡ [])
    × ((check (init verdicts).0 verdicts warnings).stale ≡ [])
check-init_example = check-init verdicts warnings

reconcile-AreSettled_example :
    AreSettled "ip" "203.0.113.10" probed_results
      (λ port. ltb 1 (sharing "ip" port verdicts))
      verdicts
      (reconcile verdicts probed_results "ip" "203.0.113.10").0
reconcile-AreSettled_example = reconcile-AreSettled verdicts probed_results "ip" "203.0.113.10"

reconcile-disagreements_example :
    OnePerPort (reconcile verdicts probed_results "ip" "203.0.113.10").1
    × ((port : ℕ)
        → names (reconcile verdicts probed_results "ip" "203.0.113.10").1 port
          ≡ any (λ v. is_contradicted "ip" probed_results v && v.endpoint.port == port) verdicts)
reconcile-disagreements_example =
    reconcile-disagreements verdicts probed_results "ip" "203.0.113.10"

check_exit_code-IsClean_example :
    check_exit_code document (some (check strict verdicts warnings)) ≡ ExitCode.ok
    ↔ IsClean document
        (select (violates strict) verdicts)
        true
        (select is_unknown verdicts)
        warnings
check_exit_code-IsClean_example = check_exit_code-IsClean document strict verdicts warnings
