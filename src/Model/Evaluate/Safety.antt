-- ===== src/Model/Evaluate/Safety.antt =====
-- internal/model/evaluate.go over a document that `facts.Validate` accepts: no evaluation panics.
use whyopen.Prelude.{
  ◌≡◌, ◌≢◌, refl, String, true, Option, none, some, List, [], ◌∷◌, arith, panic, >>=-ne-panic,
  Bool-cases, inl, inr,
}
use whyopen.Facts.Validate.{validate}
use whyopen.Facts.Host.{Facts}
use whyopen.Model.Packet.{Packet, Dnat}
use whyopen.Model.Traverse.Types.{ResultKind, Result, Hit}
use whyopen.Model.Traverse.Safety.{traverse-ne-panic}
use whyopen.Model.Evaluate.Types.{Endpoint, Why}
use whyopen.Model.Evaluate.Lookups.{
  PubAddr, Routing, routed, stopped, forwarding, iface_for, bind_covers, public_addrs,
}
use whyopen.Model.Evaluate.{
  Zone, walk_last, forward_out, forward_on, after_dnat, after_accept, after_prerouting,
  evaluate_at_destination, evaluate_candidates, from_candidates, evaluate_one, probe_packet,
  rewritten, is_forward,
}

module _ (f : Facts) (zone : Zone) (ep : Endpoint) (family : String)
    (valid : validate f.rules ≡ none) where
  walk_last-ne-panic :
      (pkt : Packet) (hook : String) (path : List Hit) (dnat : Option Dnat) (how : Why)
      → walk_last f zone ep family pkt hook path dnat how ≢ panic
  unfolding walk_last
  walk_last-ne-panic pkt hook path dnat how =
      >>=-ne-panic _ _ (traverse-ne-panic f.rules family hook pkt valid) λ m _. ground arith

  forward_on-ne-panic :
      (c : PubAddr) (d : Dnat) (path : List Hit) (r : Routing) (out : Option String)
      → iface_for f.host.interfaces d.ip ≡ out
      → forward_on f zone ep family c d path r ≢ panic
  unfolding forward_on forward_out
  forward_on-ne-panic c d path (stopped both) out e = ground arith
  forward_on-ne-panic c d path routed none e = rw e (ground arith)
  forward_on-ne-panic c d path routed (some o) e =
      rw e (walk_last-ne-panic _ "forward" path (some d) _)

  after_dnat-ne-panic :
      (c : PubAddr) (d : Dnat) (path : List Hit) → after_dnat f zone ep family c d path ≢ panic
  unfolding after_dnat
  after_dnat-ne-panic c d path = ground (
    arith,
    walk_last-ne-panic (rewritten f zone ep family c d true) "input" path (some d)
        (Why.via_dnat c.ip d "input"),
    forward_on-ne-panic c d path (forwarding f.host c.iface family)
        (iface_for f.host.interfaces d.ip) refl,
  )

  after_accept-ne-panic :
      (c : PubAddr) (path : List Hit) (o : Option Dnat)
      → after_accept f zone ep family c path o ≢ panic
  unfolding after_accept
  after_accept-ne-panic c path (some d) = after_dnat-ne-panic c d path
  after_accept-ne-panic c path none = elim (Bool-cases (is_forward ep.kind)) [
    | inl yes' ↦ rw yes' (ground arith)
    | inr no' ↦ rw no' (walk_last-ne-panic _ "input" path none (Why.delivered_locally c.ip))
  ]

  after_prerouting-ne-panic :
      (k : ResultKind) (c : PubAddr) (pre : Result) (hits : List Hit)
      → after_prerouting f zone ep family k c pre hits ≢ panic
  unfolding after_prerouting
  after_prerouting-ne-panic ResultKind.unknown c pre hits = ground arith
  after_prerouting-ne-panic ResultKind.drop c pre hits = ground arith
  after_prerouting-ne-panic _ c pre hits = after_accept-ne-panic c hits pre.dnat

  evaluate_candidates-ne-panic :
      (cs : List PubAddr) → evaluate_candidates f zone ep family cs ≢ panic
  unfolding evaluate_candidates evaluate_at_destination
  evaluate_candidates-ne-panic [] = ground arith
  evaluate_candidates-ne-panic (c ∷ cs) = elim (Bool-cases (bind_covers ep.bind_ip c.ip)) [
    | inl covered ↦ rw covered (
        >>=-ne-panic _ _
          (>>=-ne-panic _ _
            (traverse-ne-panic f.rules family "prerouting" (probe_packet f zone ep family c) valid)
            λ m _. after_prerouting-ne-panic m.0.kind c m.0 m.1)
          λ v _. >>=-ne-panic _ _ (evaluate_candidates-ne-panic cs) λ vs _. ground arith)
    | inr other ↦ rw other (evaluate_candidates-ne-panic cs)
  ]

  from_candidates-ne-panic : (cs : List PubAddr) → from_candidates f zone ep family cs ≢ panic
  unfolding from_candidates
  from_candidates-ne-panic [] = ground arith
  from_candidates-ne-panic (c ∷ cs) =
      >>=-ne-panic _ _ (evaluate_candidates-ne-panic (c ∷ cs)) λ vs _. ground arith

  -- On a document that `Validate` accepts every endpoint gets a verdict, in every family and from
  -- every zone, bound to whatever address: the evaluation does not panic.
  pub evaluate_one-ne-panic : evaluate_one f zone ep family ≢ panic
  unfolding evaluate_one
  evaluate_one-ne-panic = from_candidates-ne-panic (public_addrs family f.host.interfaces)
