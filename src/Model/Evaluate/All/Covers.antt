-- ===== src/Model/Evaluate/All/Covers.antt =====
-- internal/model/evaluate.go: a verdict is about the endpoint and the family that it was asked for, and
-- none is missing.
use whyopen.Prelude.{
  ◌≡◌, refl, sym, subst, String, Bool, true, false, Option, none, some, List, [], ◌∷◌, All,
  if◌then◌else◌, Go, ok, Bool-cases, inl, inr, Ensures, Ensures-bind, Ensures-always,
}
use whyopen.Facts.Host.{Facts}
use whyopen.Model.Packet.{Packet, Dnat}
use whyopen.Model.Traverse.Types.{ResultKind, Result, Hit}
use whyopen.Model.Traverse.{traverse}
use whyopen.Model.Evaluate.Types.{Endpoint, VerdictResult, Why, Verdict}
use whyopen.Model.Evaluate.Lookups.{
  PubAddr, Routing, routed, stopped, is_local, iface_for, bind_covers, public_addrs,
}
use whyopen.Model.Evaluate.{
  Zone, verdict, finish, finish_kind, walk_last, forward_out, forward_on, after_dnat, after_accept,
  after_prerouting, evaluate_at_destination, evaluate_candidates, best_of, pick, from_candidates,
  evaluate_one, is_forward,
}
use whyopen.Model.Evaluate.All.{evaluate_family}

-- A verdict on this endpoint in this family.
abbrev pub IsAbout : Endpoint → String → Verdict → Type 0
IsAbout ep family v = (v.endpoint ≡ ep) × (v.family ≡ family)

module _ (f : Facts) (zone : Zone) (ep : Endpoint) (family : String) where
  abbrev About : Verdict → Type 0
  About v = IsAbout ep family v

  finish_kind-IsAbout :
      (k : ResultKind) (v : Verdict) (res : Result) (how : Why)
      → About v
      → About (finish_kind k v res how)
  unfolding finish_kind
  finish_kind-IsAbout ResultKind.accept v res how h = h
  finish_kind-IsAbout ResultKind.drop v res how h = h
  finish_kind-IsAbout _ v res how h = h

  walk_last-IsAbout :
      (pkt : Packet) (hook : String) (path : List Hit) (dnat : Option Dnat) (how : Why)
      → Ensures About (walk_last f zone ep family pkt hook path dnat how)
  unfolding walk_last verdict finish
  walk_last-IsAbout pkt hook path dnat how =
      Ensures-bind _ About (traverse f.rules family hook pkt) _ (Ensures-always _)
        λ m _. finish_kind-IsAbout m.0.kind _ m.0 how (refl, refl)

  forward_on-IsAbout :
      (c : PubAddr) (d : Dnat) (path : List Hit) (r : Routing) (out : Option String)
      → iface_for f.host.interfaces d.ip ≡ out
      → Ensures About (forward_on f zone ep family c d path r)
  unfolding forward_on forward_out verdict
  forward_on-IsAbout c d path (stopped both) out e = (refl, refl)
  forward_on-IsAbout c d path routed none e = rw e (refl, refl)
  forward_on-IsAbout c d path routed (some o) e =
      rw e (walk_last-IsAbout _ "forward" path (some d) _)

  after_dnat-IsAbout :
      (c : PubAddr) (d : Dnat) (path : List Hit)
      → Ensures About (after_dnat f zone ep family c d path)
  unfolding after_dnat
  after_dnat-IsAbout c d path = elim (Bool-cases (is_local f.host.interfaces d.ip)) [
    | inl l ↦ rw l (walk_last-IsAbout _ "input" path (some d) _)
    | inr l ↦ rw l (forward_on-IsAbout c d path _ _ refl)
  ]

  after_accept-IsAbout :
      (c : PubAddr) (path : List Hit) (o : Option Dnat)
      → Ensures About (after_accept f zone ep family c path o)
  unfolding after_accept verdict
  after_accept-IsAbout c path (some d) = after_dnat-IsAbout c d path
  after_accept-IsAbout c path none = elim (Bool-cases (is_forward ep.kind)) [
    | inl yes' ↦ rw yes' (refl, refl)
    | inr no' ↦ rw no' (walk_last-IsAbout _ "input" path none _)
  ]

  after_prerouting-IsAbout :
      (k : ResultKind) (c : PubAddr) (pre : Result) (hits : List Hit)
      → Ensures About (after_prerouting f zone ep family k c pre hits)
  unfolding after_prerouting verdict
  after_prerouting-IsAbout ResultKind.unknown c pre hits = (refl, refl)
  after_prerouting-IsAbout ResultKind.drop c pre hits = (refl, refl)
  after_prerouting-IsAbout _ c pre hits = after_accept-IsAbout c hits pre.dnat

  evaluate_at_destination-IsAbout :
      (c : PubAddr) → Ensures About (evaluate_at_destination f zone ep family c)
  unfolding evaluate_at_destination
  evaluate_at_destination-IsAbout c =
      Ensures-bind _ About (traverse f.rules family "prerouting" _) _ (Ensures-always _)
        λ m _. after_prerouting-IsAbout m.0.kind c m.0 m.1

  evaluate_candidates-IsAbout :
      (cs : List PubAddr) → Ensures (All About) (evaluate_candidates f zone ep family cs)
  unfolding evaluate_candidates
  evaluate_candidates-IsAbout [] = tt
  evaluate_candidates-IsAbout (c ∷ cs) = elim (Bool-cases (bind_covers ep.bind_ip c.ip)) [
    | inl yes' ↦ rw yes' (
        Ensures-bind About (All About) (evaluate_at_destination f zone ep family c) _
          (evaluate_at_destination-IsAbout c)
          λ v h.
            Ensures-bind (All About) (All About) (evaluate_candidates f zone ep family cs) _
              (evaluate_candidates-IsAbout cs) λ vs hs. (h, hs))
    | inr no' ↦ rw no' (evaluate_candidates-IsAbout cs)
  ]

  best_of-IsAbout :
      (vs : List Verdict) (v : Verdict) → About v → All About vs → About (best_of v vs)
  unfolding best_of
  best_of-IsAbout [] v h hs = h
  best_of-IsAbout (w ∷ ws) v h (k, ks) = best_of-IsAbout ws _ (either v w h k _) ks
    where
      either : (x y : Verdict) → About x → About y → (b : Bool) → About (if b then y else x)
      either x y p q true = q
      either x y p q false = p

  pick-IsAbout : (vs : List Verdict) → All About vs → About (pick f zone ep family vs)
  unfolding pick verdict
  pick-IsAbout [] h = (refl, refl)
  pick-IsAbout (v ∷ vs) (h, hs) = best_of-IsAbout vs v h hs

  from_candidates-IsAbout :
      (cs : List PubAddr) → Ensures About (from_candidates f zone ep family cs)
  unfolding from_candidates verdict
  from_candidates-IsAbout [] = (refl, refl)
  from_candidates-IsAbout (c ∷ cs) =
      Ensures-bind (All About) About (evaluate_candidates f zone ep family (c ∷ cs)) _
        (evaluate_candidates-IsAbout (c ∷ cs)) pick-IsAbout

  evaluate_one-IsAbout : Ensures About (evaluate_one f zone ep family)
  unfolding evaluate_one
  evaluate_one-IsAbout = from_candidates-IsAbout (public_addrs family f.host.interfaces)

  pub evaluate_family-IsAbout : Ensures (IsAbout ep family) (evaluate_family f zone ep family)
  unfolding evaluate_family verdict
  evaluate_family-IsAbout = elim (Bool-cases f.rules.read_failed) [
    | inl unread ↦
        subst (λ b. Ensures About (if b then unread_verdict else evaluate_one f zone ep family))
          (sym unread) (refl, refl)
    | inr known ↦
        subst (λ b. Ensures About (if b then unread_verdict else evaluate_one f zone ep family))
          (sym known) evaluate_one-IsAbout
  ]
    where
      unread_verdict : Go Verdict
      unread_verdict =
          ok (verdict f zone ep family VerdictResult.unknown Why.ruleset_unreadable [] none)
