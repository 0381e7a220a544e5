-- ===== src/Examples/Hosts.antt =====
-- internal/model/evaluate.go on the whole concrete host.
use whyopen.Prelude.{◌≡◌, ◌≢◌, refl, none, List, [], ◌∷◌, All, Go, panic, ok, hex_decode, true}
use whyopen.Facts.Host.{Facts}
use whyopen.Facts.Validate.{validate}
use whyopen.Netip.Parse.{parse_addr}
use whyopen.Model.Match.Fields.{payload_bytes}
use whyopen.Model.Match.Rule.{match_rule}
use whyopen.Model.Traverse.Walk.{walk_chain}
use whyopen.Model.Traverse.{traverse, ingress_unmodelled, gather, walk_bases, sort_bases}
use whyopen.Model.Evaluate.Types.{Endpoint, VerdictResult, Verdict}
use whyopen.Model.Evaluate.Lookups.{public_addrs, bind_covers}
use whyopen.Model.Evaluate.{evaluate_one, evaluate_at_destination}
use whyopen.Model.Evaluate.All.{evaluate}
use whyopen.Model.Evaluate.All.Laws.{evaluate-ne-panic, evaluate-AllUnknown}
use whyopen.Model.Evaluate.All.Complete.{Covered, evaluate-Covered}
use whyopen.Examples.{loaded_rules, document, internet, socket_on}

abbrev sockets_up : List Endpoint
sockets_up = socket_on 80 ∷ socket_on 22 ∷ []

document_validates : validate loaded_rules ≡ none
unfolding validate
document_validates = refl

evaluate-ne-panic_example : evaluate document internet sockets_up ≢ panic
evaluate-ne-panic_example = evaluate-ne-panic document internet document_validates sockets_up

abbrev unread_document : Facts
unread_document = record document { rules = record loaded_rules { read_failed = true } }

evaluate-AllUnknown_example :
    (vs : List Verdict) × (evaluate unread_document internet sockets_up ≡ ok vs)
    × All (λ v. v.result ≡ VerdictResult.unknown) vs
evaluate-AllUnknown_example = evaluate-AllUnknown unread_document internet refl sockets_up

listed {ℓ} : {A : Type ℓ} → Go (List A) → List A
listed panic = []
listed (ok vs) = vs

abbrev verdicts_given : List Verdict
verdicts_given = listed (evaluate document internet sockets_up)

verdicts_are_given : evaluate document internet sockets_up ≡ ok verdicts_given
unfolding evaluate listed evaluate_one public_addrs parse_addr bind_covers evaluate_at_destination
    traverse ingress_unmodelled gather walk_bases sort_bases walk_chain match_rule payload_bytes
    hex_decode
verdicts_are_given = refl

evaluate-Covered_example : Covered document.host.sysctls sockets_up sockets_up verdicts_given
evaluate-Covered_example =
    evaluate-Covered document internet sockets_up verdicts_given verdicts_are_given
