-- ===== src/Probe/Reconcile.antt =====
-- internal/probe/reconcile.go: the probe is authoritative for TCP of the family that was probed.
pub mod Laws
use whyopen.Prelude.{
  ℕ, zero, suc, ◌+◌, String, Bool, true, false, ◌&&◌, ◌||◌, not, Option, none, some, List, [], ◌∷◌,
  ◌++◌, ◌==◌, ltb, if◌then◌else◌, any, str_eq,
}
use whyopen.Model.Evaluate.Types.{Verdict, VerdictResult, ProbeState, Why, result_eq}

-- `Result` of probe.go.
pub record Probed : Type 0 where
  pub port : ℕ
  pub proto : String
  pub state : ProbeState

-- The sentences of `diagnose`.
pub data Diagnosis : Type 0 where
  model_misses_something stopped_on_the_way they_disagree : Diagnosis

pub record Disagreement : Type 0 where
  pub port : ℕ
  pub proto : String
  pub family : String
  pub modelled : VerdictResult
  pub probed : ProbeState
  pub diagnosis : Diagnosis

abbrev pub is_error : ProbeState → Bool
is_error ProbeState.error = true
is_error _ = false

abbrev pub is_open : ProbeState → Bool
is_open ProbeState.opened = true
is_open _ = false

-- `byPort`: the last result of a port stands.
unfoldable pub by_port : List Probed → ℕ → Option ProbeState
by_port [] port = none
by_port (r ∷ rs) port =
    let later = by_port rs port in
    elim later [
      | some s ↦ some s
      | none ↦
          if str_eq r.proto "tcp" && not (is_error r.state) && r.port == port
          then some r.state
          else none
    ]

-- A TCP verdict of the family that was probed.
abbrev pub is_probed_kind : String → Verdict → Bool
is_probed_kind family v = str_eq v.endpoint.proto "tcp" && str_eq v.family family

-- `sockets`: how many verdicts share a port.
unfoldable pub sockets : String → List Verdict → ℕ → ℕ
sockets family [] port = 0
sockets family (v ∷ vs) port =
    let rest = sockets family vs port in
    if is_probed_kind family v && v.endpoint.port == port then suc rest else rest

unfoldable pub diagnose : VerdictResult → ProbeState → Diagnosis
diagnose modelled probed =
    if is_open probed
    then Diagnosis.model_misses_something
    else (if result_eq modelled VerdictResult.reachable
        then Diagnosis.stopped_on_the_way
        else Diagnosis.they_disagree)

-- What the probe says of the port.
abbrev pub answer : ProbeState → VerdictResult
answer s = if is_open s then VerdictResult.reachable else VerdictResult.filtered

-- The model had concluded something else.
abbrev pub contradicts : Verdict → ProbeState → Bool
contradicts v s =
    not (result_eq v.result VerdictResult.unknown) && not (result_eq v.result (answer s))

unfoldable pub disagreement : String → Verdict → ProbeState → Disagreement
unfolding diagnose
disagreement family v s = record {
  port = v.endpoint.port;
  proto = "tcp";
  family = family;
  modelled = v.result;
  probed = s;
  diagnosis = diagnose v.result s;
}

-- The verdict that the probe leaves.
unfoldable pub settled : String → ℕ → Verdict → ProbeState → Verdict
settled target shared v s = record v {
  result = answer s;
  why =
      if contradicts v s
      then Why.probed_against target v.endpoint.port s (ltb 1 shared) v.result
      else Why.probed target v.endpoint.port s (ltb 1 shared);
}

pub record Progress : Type 0 where
  pub out : List Verdict
  pub disagreements : List Disagreement
  pub seen : List ℕ

abbrev pub has_port : List ℕ → ℕ → Bool
has_port ports port = any (λ p. p == port) ports

-- The body of the loop, once the port's probe is looked up.
unfoldable pub fold_in : String → String → ℕ → Verdict → Option ProbeState → Progress → Progress
unfolding settled disagreement
fold_in family target shared v none st = record st { out = st.out ++ (v ∷ []) }
fold_in family target shared v (some s) st =
    if contradicts v s && not (has_port st.seen v.endpoint.port)
    then record {
      out = st.out ++ (settled target shared v s ∷ []);
      disagreements = st.disagreements ++ (disagreement family v s ∷ []);
      seen = v.endpoint.port ∷ st.seen;
    }
    else record st { out = st.out ++ (settled target shared v s ∷ []) }

-- A verdict of another kind is copied as it is.
abbrev pub probe_of : String → List Probed → Verdict → Option ProbeState
probe_of family rs v = if is_probed_kind family v then by_port rs v.endpoint.port else none

unfoldable pub fold_all :
    String → String → List Probed → (ℕ → ℕ) → List Verdict → Progress → Progress
unfolding fold_in by_port
fold_all family target rs shared [] st = st
fold_all family target rs shared (v ∷ vs) st =
    fold_all family target rs shared vs
      (fold_in family target (shared v.endpoint.port) v (probe_of family rs v) st)

abbrev pub untouched : Progress
untouched = record { out = []; disagreements = []; seen = [] }

unfoldable pub reconcile :
    List Verdict → List Probed → String → String → List Verdict × List Disagreement
unfolding fold_all sockets
reconcile vs rs family target =
    let st = fold_all family target rs (sockets family vs) vs untouched in
    (st.out, st.disagreements)
