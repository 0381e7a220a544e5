-- ===== src/Examples/Policies.antt =====
-- internal/policy/policy.go on concrete documents.
use whyopen.Prelude.{ℕ, ◌≡◌, ◌↔◌, arith, refl, inl, String, true, some, [], ◌∷◌, All, pos}
use whyopen.Prelude.Fallible.{failed, returned}
use whyopen.Model.Evaluate.Types.{VerdictResult}
use whyopen.Policy.Types.{Entry, Policy, holds}
use whyopen.Policy.Init.{init}
use whyopen.Policy.Load.{Document, EntryError, entry_string, parse_entry, load}
use whyopen.Policy.Load.Laws.{IsLoaded, load-IsLoaded}
use whyopen.Policy.Load.RoundTrip.{document_of, load-document_of, load-init}
use whyopen.Policy.Load.Errors.{ZoneReads, load_returns_iff}
use whyopen.Examples.{found}

abbrev port : ℕ → String → Entry
port n proto = record { port = n; proto = proto }

-- An entry that stands twice, and the entries out of order.
abbrev file : Document
file = record {
  version = some (pos 1);
  zones = ("internet", "443/tcp" ∷ "53/udp" ∷ "22/tcp" ∷ "443/tcp" ∷ "53/tcp" ∷ []) ∷ [];
  fail_on_unknown = true;
}

abbrev file_policy : Policy
file_policy = record {
  allow = port 22 "tcp" ∷ port 53 "tcp" ∷ port 53 "udp" ∷ port 443 "tcp" ∷ [];
  fail_on_unknown = true;
}

file_loaded : load file ≡ returned file_policy
unfolding load holds
file_loaded = refl

load-IsLoaded_example : IsLoaded file file_policy
load-IsLoaded_example = load-IsLoaded file file_policy file_loaded

load_returns_iff_example :
    ((p : Policy) × (load file ≡ returned p))
    ↔ ((file.version ≡ some (pos 1)) × All ZoneReads file.zones)
load_returns_iff_example = load_returns_iff file

load-document_of_example : load (document_of file_policy) ≡ returned file_policy
load-document_of_example =
    load-document_of file_policy load-IsLoaded_example.valid load-IsLoaded_example.ascending

load-init_example :
    load (
      document_of
        (init (found 443 VerdictResult.reachable ∷ found 22 VerdictResult.reachable ∷ [])).0)
    ≡ returned (init (found 443 VerdictResult.reachable ∷ found 22 VerdictResult.reachable ∷ [])).0
load-init_example =
    load-init (found 443 VerdictResult.reachable ∷ found 22 VerdictResult.reachable ∷ [])
      ((omega arith, omega arith, inl refl), ((omega arith, omega arith, inl refl), tt))

no_slash_refused : parse_entry "22" ≡ failed EntryError.no_proto
unfolding parse_entry
no_slash_refused = refl

protocol_refused : parse_entry "22/sctp" ≡ failed EntryError.not_modelled
unfolding parse_entry
protocol_refused = refl

port_refused : parse_entry "65536/tcp" ≡ failed EntryError.no_port
unfolding parse_entry
port_refused = refl

entry_printed : entry_string (port 8080 "udp") ≡ "8080/udp"
unfolding entry_string
entry_printed = refl
