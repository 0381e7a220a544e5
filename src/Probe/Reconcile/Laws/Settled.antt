-- ===== src/Probe/Reconcile/Laws/Settled.antt =====
-- internal/probe/reconcile.go: what the probe makes of each verdict.
use whyopen.Prelude.{
  ℕ, ◌+◌, ◌≡◌, ◌≢◌, ◌⊎◌, refl, sym, ap, subst, String, Bool, true, false, ◌&&◌, not, Option, none,
  some, List, [], ◌∷◌, arith, All, map, ◌==◌, ltb, if◌then◌else◌, str_eq, eq_iff, Bool-cases, inl,
  inr,
}
use whyopen.Model.Evaluate.Types.{Verdict, VerdictResult, ProbeState, Why, result_eq}
use whyopen.Probe.Reconcile.{
  Probed, sockets, by_port, is_error, is_probed_kind, answer, settled, reconcile,
}
use whyopen.Probe.Reconcile.Laws.{settle_by, settle, reconcile-settle}

-- A verdict that a probe of TCP in this family is about.
abbrev pub IsTcpOf : String → Verdict → Type 0
IsTcpOf family v = (v.endpoint.proto ≡ "tcp") × (v.family ≡ family)

-- A result that says something of the port: TCP, and no error.
abbrev pub IsConclusive : ℕ → Probed → Type 0
IsConclusive port r = (r.proto ≡ "tcp") × (r.state ≢ ProbeState.error) × (r.port ≡ port)

-- The last conclusive result for the port has this state.
abbrev pub LastState : ℕ → List Probed → ProbeState → Type 0
LastState port [] s = ⊥
LastState port (r ∷ rs) s =
    (IsConclusive port r × (r.state ≡ s) × All (λ q. ¬ IsConclusive port q) rs)
    ⊎ LastState port rs s

-- The verdict after the probe: the same, or with the result of the probe and a reason. The reason names
-- the old result where the model had decided otherwise, and says when several verdicts share the port.
pub data Settles (family target : String) (rs : List Probed) (several : Bool) (v w : Verdict)
    : Type 0 where
  left_alone :
      (¬ IsTcpOf family v) ⊎ All (λ r. ¬ IsConclusive v.endpoint.port r) rs
      → w ≡ v
      → Settles family target rs several v w
  found_open :
      IsTcpOf family v
      → LastState v.endpoint.port rs ProbeState.opened
      → w ≡ record v {
        result = VerdictResult.reachable;
        why = elim v.result [
          | VerdictResult.filtered ↦
              Why.probed_against target v.endpoint.port ProbeState.opened several
                VerdictResult.filtered
          | _ ↦ Why.probed target v.endpoint.port ProbeState.opened several
        ];
      }
      → Settles family target rs several v w
  found_shut :
      (s : ProbeState)
      → IsTcpOf family v
      → LastState v.endpoint.port rs s
      → s ≢ ProbeState.opened
      → w ≡ record v {
        result = VerdictResult.filtered;
        why = elim v.result [
          | VerdictResult.reachable ↦
              Why.probed_against target v.endpoint.port s several VerdictResult.reachable
          | _ ↦ Why.probed target v.endpoint.port s several
        ];
      }
      → Settles family target rs several v w

-- The verdicts of TCP in this family on a port.
abbrev pub sharing : String → ℕ → List Verdict → ℕ
sharing family port [] = 0
sharing family port (v ∷ vs) =
    (if str_eq v.endpoint.proto "tcp" && str_eq v.family family && v.endpoint.port == port
      then 1
      else 0)
    + sharing family port vs

-- One verdict after the other.
abbrev pub AreSettled :
    String → String → List Probed → (ℕ → Bool) → List Verdict → List Verdict → Type 0
AreSettled family target rs several [] [] = Unit
AreSettled family target rs several (v ∷ vs) (w ∷ ws) =
    Settles family target rs (several v.endpoint.port) v w
    × AreSettled family target rs several vs ws
AreSettled family target rs several _ _ = ⊥

abbrev PortSays : ℕ → List Probed → Option ProbeState → Type 0
PortSays port rs none = All (λ q. ¬ IsConclusive port q) rs
PortSays port rs (some s) = LastState port rs s

no_error : (s : ProbeState) → is_error s ≡ false → s ≢ ProbeState.error
no_error s h e = ground (arith, ap is_error e)

test-IsConclusive :
    (port : ℕ) (r : Probed)
    → (str_eq r.proto "tcp" && not (is_error r.state) && r.port == port) ≡ true
    → IsConclusive port r
test-IsConclusive port r h =
    ((eq_iff r.proto "tcp").0 (ground arith), no_error r.state (ground arith), ground arith)

error_state : (s : ProbeState) → is_error s ≡ true → s ≡ ProbeState.error
error_state ProbeState.error h = refl
error_state _ h = ground arith

not-IsConclusive :
    (port : ℕ) (r : Probed)
    → (str_eq r.proto "tcp" && not (is_error r.state) && r.port == port) ≡ false
    → ¬ IsConclusive port r
not-IsConclusive port r h (p, s, q) = elim (Bool-cases (is_error r.state)) [
  | inl e ↦ s (error_state r.state e)
  | inr e ↦ ground (arith, (eq_iff r.proto "tcp").1 p)
]

-- The last result of a list, after those that follow it.
later_or :
    (port : ℕ) (r : Probed) (rs : List Probed) (c : Bool)
    → (str_eq r.proto "tcp" && not (is_error r.state) && r.port == port) ≡ c
    → (later : Option ProbeState) → PortSays port rs later
    → PortSays port
        (r ∷ rs)
        (elim later [ some s ↦ some s | none ↦ if c then some r.state else none ])
later_or port r rs c h (some s) k = inr k
later_or port r rs true h none k = inl (test-IsConclusive port r h, refl, k)
later_or port r rs false h none k = (not-IsConclusive port r h, k)

by_port-PortSays : (port : ℕ) (rs : List Probed) → PortSays port rs (by_port rs port)
unfolding by_port
by_port-PortSays port [] = tt
by_port-PortSays port (r ∷ rs) =
    later_or port r rs _ refl (by_port rs port) (by_port-PortSays port rs)

sockets-sharing :
    (family : String) (vs : List Verdict) (port : ℕ)
    → sockets family vs port ≡ sharing family port vs
unfolding sockets
sockets-sharing family [] port = refl
sockets-sharing family (v ∷ vs) port = ground (arith, sockets-sharing family vs port)

-- The reason beside an open port, and beside one that is not.
why_open :
    (target : String) (port : ℕ) (several : Bool) (k : VerdictResult)
    → (if not (result_eq k VerdictResult.unknown) && not (result_eq k VerdictResult.reachable)
        then Why.probed_against target port ProbeState.opened several k
        else Why.probed target port ProbeState.opened several)
      ≡ elim k [
        | VerdictResult.filtered ↦
            Why.probed_against target port ProbeState.opened several VerdictResult.filtered
        | _ ↦ Why.probed target port ProbeState.opened several
      ]
why_open target port several VerdictResult.reachable = refl
why_open target port several VerdictResult.unknown = refl
why_open target port several VerdictResult.filtered = refl

why_shut :
    (target : String) (port : ℕ) (s : ProbeState) (several : Bool) (k : VerdictResult)
    → (if not (result_eq k VerdictResult.unknown) && not (result_eq k VerdictResult.filtered)
        then Why.probed_against target port s several k
        else Why.probed target port s several)
      ≡ elim k [
        | VerdictResult.reachable ↦ Why.probed_against target port s several VerdictResult.reachable
        | _ ↦ Why.probed target port s several
      ]
why_shut target port s several VerdictResult.reachable = refl
why_shut target port s several VerdictResult.unknown = refl
why_shut target port s several VerdictResult.filtered = refl

abbrev opened_only : ProbeState → Bool
opened_only ProbeState.opened = true
opened_only _ = false

module _ (family target : String) (rs : List Probed) where
  settle_shut :
      (n : ℕ) (v : Verdict) (s : ProbeState)
      → IsTcpOf family v
      → LastState v.endpoint.port rs s
      → opened_only s ≡ false
      → answer s ≡ VerdictResult.filtered
      → settled target n v s ≡ record v {
        result = VerdictResult.filtered;
        why = elim v.result [
          | VerdictResult.reachable ↦
              Why.probed_against target v.endpoint.port s (ltb 1 n) VerdictResult.reachable
          | _ ↦ Why.probed target v.endpoint.port s (ltb 1 n)
        ];
      }
      → Settles family target rs (ltb 1 n) v (settled target n v s)
  settle_shut n v s t h e _ q = found_shut s t h (λ k. ground (arith, ap opened_only k)) q

  settle_by-Settles :
      (n : ℕ) (v : Verdict) (o : Option ProbeState)
      → IsTcpOf family v
      → PortSays v.endpoint.port rs o
      → Settles family target rs (ltb 1 n) v (settle_by target n v o)
  unfolding settled
  settle_by-Settles n v none t h = left_alone (inr h) refl
  settle_by-Settles n v (some ProbeState.opened) t h = found_open t h (
      ap (λ y. record v { result = VerdictResult.reachable; why = y })
        (why_open target v.endpoint.port (ltb 1 n) v.result))
  settle_by-Settles n v (some s) t h = settle_shut n v s t h refl refl (
      ap (λ y. record v { result = VerdictResult.filtered; why = y })
        (why_shut target v.endpoint.port s (ltb 1 n) v.result))

  -- A verdict of another kind is left alone.
  settle_probed :
      (n : ℕ) (v : Verdict) (c : Bool)
      → is_probed_kind family v ≡ c
      → Settles family target rs
          (ltb 1 n)
          v
          (settle_by target n v (if c then by_port rs v.endpoint.port else none))
  settle_probed n v true h =
      settle_by-Settles n v (by_port rs v.endpoint.port)
        (
          (eq_iff v.endpoint.proto "tcp").0 (ground arith),
          (eq_iff v.family family).0 (ground arith),
        )
        (by_port-PortSays v.endpoint.port rs)
  settle_probed n v false h =
      left_alone
        (inl λ t.
          ground (arith, (eq_iff v.endpoint.proto "tcp").1 t.0, (eq_iff v.family family).1 t.1))
        refl

  map-AreSettled :
      (shared : ℕ → ℕ) (vs : List Verdict)
      → AreSettled family target rs
          (λ port. ltb 1 (shared port))
          vs
          (map (settle family target rs shared) vs)
  map-AreSettled shared [] = tt
  map-AreSettled shared (v ∷ vs) =
      (settle_probed (shared v.endpoint.port) v _ refl, map-AreSettled shared vs)

-- `Reconcile` keeps the verdicts in number and order. A verdict that is not TCP of the probed family, or
-- whose port has no conclusive result, is left as it is. Any other takes its result from the last
-- conclusive result for its port, reachable where that is open and filtered otherwise, and keeps all
-- else but its reason. The reason names the old result where that was the opposite one, and says whether
-- several TCP verdicts of the family share the port.
pub reconcile-AreSettled :
    (vs : List Verdict) (rs : List Probed) (family target : String)
    → AreSettled family target rs
        (λ port. ltb 1 (sharing family port vs))
        vs
        (reconcile vs rs family target).0
reconcile-AreSettled vs rs family target =
    subst (AreSettled family target rs (λ port. ltb 1 (sharing family port vs)) vs)
      (sym (reconcile-settle vs rs family target))
      (subst
        (λ (g : ℕ → ℕ).
          AreSettled family target rs (λ port. ltb 1 (g port)) vs
            (map (settle family target rs (sockets family vs)) vs))
        (λ i port. sockets-sharing family vs port i)
        (map-AreSettled family target rs (sockets family vs) vs))
