-- ===== src/Model/Evaluate/Types.antt =====
-- internal/model/evaluate.go: endpoints and verdicts. A reason is a value that names the sentence with
-- its parts; the wording is not modelled.
use whyopen.Prelude.{ℕ, String, Bool, Option, List}
use whyopen.Netip.{Addr}
use whyopen.Model.Packet.{Dnat}
use whyopen.Model.Traverse.Types.{Reason, Hit}

pub data EndpointKind : Type 0 where
  socket publish forward : EndpointKind

-- Who serves the endpoint; a forwarded port names its destination, zero for the port unchanged.
pub data Owner : Type 0 where
  named : String → Owner
  forwarded_to : Option Addr → ℕ → Owner

pub record Endpoint : Type 0 where
  pub kind : EndpointKind
  pub family : String
  pub proto : String
  pub bind_ip : String
  pub port : ℕ
  pub owner : Owner

pub data VerdictResult : Type 0 where
  reachable filtered unknown : VerdictResult

-- What a probe of an open, a refusing and a silent port finds, and one that failed to find out.
pub data ProbeState : Type 0 where
  opened closed filtered error : ProbeState

pub data Why : Type 0 where
  unsaid ruleset_unreadable : Why
  no_public_address : String → Why
  not_bound : String → Why
  walked : Reason → Why
  not_rewritten : Addr → ℕ → String → Why
  not_routed : Addr → Dnat → String → Bool → Why
  target_unlocated : Addr → Why
  via_dnat : Addr → Dnat → String → Why
  via_dnat_beyond_sight : Addr → Dnat → String → Why
  delivered_locally : Addr → Why
  probed : String → ℕ → ProbeState → Bool → Why
  probed_against : String → ℕ → ProbeState → Bool → VerdictResult → Why

pub record Verdict : Type 0 where
  pub endpoint : Endpoint
  pub family : String
  pub result : VerdictResult
  pub why : Why
  pub path : List Hit
  pub dnat : Option Dnat

abbrev pub result_eq : VerdictResult → VerdictResult → Bool
result_eq VerdictResult.reachable VerdictResult.reachable = Bool.true
result_eq VerdictResult.filtered VerdictResult.filtered = Bool.true
result_eq VerdictResult.unknown VerdictResult.unknown = Bool.true
result_eq _ _ = Bool.false
