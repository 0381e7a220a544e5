-- ===== src/Model/Evaluate/All.antt =====
-- internal/model/evaluate.go, `Evaluate`: every endpoint in every family that it serves, and the order
-- of the verdicts. The endpoints are an argument, in the order in which they come.
pub mod Laws
pub mod Covers
pub mod Complete
use whyopen.Prelude.{
  ℕ, String, Bool, true, false, ◌&&◌, ◌||◌, not, Option, none, List, [], ◌∷◌, ◌++◌, ◌==◌, ltb,
  if◌then◌else◌, any, str_eq, str_lt, Go, ok, ◌>>=◌,
}
use whyopen.Facts.Host.{Sysctls, Host, Facts}
use whyopen.Model.Evaluate.Types.{EndpointKind, Endpoint, VerdictResult, Why, Verdict}
use whyopen.Model.Evaluate.{Zone, verdict, evaluate_one}

abbrev is_socket : EndpointKind → Bool
is_socket EndpointKind.socket = true
is_socket _ = false

-- A socket bound to every IPv4 address.
abbrev is_wildcard_ipv4 : Endpoint → Bool
is_wildcard_ipv4 e = is_socket e.kind && str_eq e.family "ip" && str_eq e.bind_ip "0.0.0.0"

-- `wildcardIPv4[key]`, where the key is the protocol with the port.
unfoldable pub has_wildcard_ipv4 : List Endpoint → Endpoint → Bool
has_wildcard_ipv4 eps e =
    any (λ x. is_wildcard_ipv4 x && str_eq x.proto e.proto && x.port == e.port) eps

unfoldable pub families_for : Endpoint → Sysctls → List Endpoint → List String
unfolding has_wildcard_ipv4
families_for e sc eps =
    if is_socket e.kind
      && str_eq e.family "ip6"
      && (str_eq e.bind_ip "::" || str_eq e.bind_ip "[::]")
      && not sc.bind_v6_only
    then (if has_wildcard_ipv4 eps e then "ip6" ∷ [] else "ip" ∷ "ip6" ∷ [])
    else e.family ∷ []

abbrev kind_name : EndpointKind → String
kind_name EndpointKind.socket = "socket"
kind_name EndpointKind.publish = "publish"
kind_name EndpointKind.forward = "forward"

-- The order of the verdicts.
unfoldable pub verdict_lt : Verdict → Verdict → Bool
verdict_lt a b =
    if not (a.endpoint.port == b.endpoint.port)
    then ltb a.endpoint.port b.endpoint.port
    else (if not (str_eq a.family b.family)
        then str_lt a.family b.family
        else (if not (str_eq a.endpoint.proto b.endpoint.proto)
            then str_lt a.endpoint.proto b.endpoint.proto
            else (if not (str_eq a.endpoint.bind_ip b.endpoint.bind_ip)
                then str_lt a.endpoint.bind_ip b.endpoint.bind_ip
                else str_lt (kind_name a.endpoint.kind) (kind_name b.endpoint.kind))))

unfoldable pub insert_verdict : Verdict → List Verdict → List Verdict
unfolding verdict_lt
insert_verdict v [] = v ∷ []
insert_verdict v (x ∷ xs) = if verdict_lt x v then x ∷ insert_verdict v xs else v ∷ x ∷ xs

-- `sort.SliceStable`.
unfoldable pub sort_verdicts : List Verdict → List Verdict
unfolding insert_verdict
sort_verdicts [] = []
sort_verdicts (v ∷ vs) = insert_verdict v (sort_verdicts vs)

module _ (f : Facts) (zone : Zone) where
  -- Nothing is walked where the ruleset could not be read.
  unfoldable pub evaluate_family : Endpoint → String → Go Verdict
  unfolding verdict
  evaluate_family ep fam =
      if f.rules.read_failed
      then ok (verdict f zone ep fam VerdictResult.unknown Why.ruleset_unreadable [] none)
      else evaluate_one f zone ep fam

  unfoldable pub evaluate_families : Endpoint → List String → Go (List Verdict)
  unfolding evaluate_family
  evaluate_families ep [] = ok []
  evaluate_families ep (fam ∷ fams) =
      evaluate_family ep fam >>= λ v. evaluate_families ep fams >>= λ vs. ok (v ∷ vs)

  -- The loop over `todo`, of all the endpoints `eps`.
  unfoldable pub evaluate_endpoints : List Endpoint → List Endpoint → Go (List Verdict)
  unfolding evaluate_families families_for
  evaluate_endpoints eps [] = ok []
  evaluate_endpoints eps (ep ∷ todo) =
      evaluate_families ep (families_for ep f.host.sysctls eps) >>= λ vs.
      evaluate_endpoints eps todo >>= λ rest. ok (vs ++ rest)

  unfoldable pub evaluate : List Endpoint → Go (List Verdict)
  unfolding evaluate_endpoints sort_verdicts
  evaluate eps = evaluate_endpoints eps eps >>= λ vs. ok (sort_verdicts vs)
