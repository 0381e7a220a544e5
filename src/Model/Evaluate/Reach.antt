-- ===== src/Model/Evaluate/Reach.antt =====
-- internal/model/evaluate.go: what stands behind a reachable verdict.
use whyopen.Prelude.{
  ◌≡◌, ◌≢◌, refl, ap, arith, ℕ, Bool, str_eq, if◌then◌else◌, String, true, false, Option, none,
  some, List, ok, Ensures, Ensures-bind, Ensures-ok, Ensures-self, Ensures-map, Bool-cases, inl,
  inr,
}
use whyopen.Facts.Host.{Facts}
use whyopen.Netip.{Addr}
use whyopen.Model.Packet.{Packet, Dnat}
use whyopen.Model.Traverse.Types.{ResultKind, Result, Hit}
use whyopen.Model.Traverse.{traverse}
use whyopen.Model.Evaluate.Types.{EndpointKind, Endpoint, Why, VerdictResult, Verdict}
use whyopen.Model.Evaluate.Lookups.{
  route_dev_for, iface_index, PubAddr, Routing, routed, stopped, is_local, forwarding, iface_for,
}
use whyopen.Model.Evaluate.{
  Zone, walk_last, forward_out, forward_on, after_dnat, after_accept, after_prerouting,
  evaluate_at_destination, probe_packet, rewritten, is_forward, finish, finish_kind, verdict,
}

module _ (f : Facts) (zone : Zone) (ep : Endpoint) (family : String) (c : PubAddr) where
  -- The walk of a hook ended in accept.
  abbrev pub Accepts : String → Packet → Type 0
  Accepts hook pkt =
      (res : Result) × (hits : List Hit) × (traverse f.rules family hook pkt ≡ ok (res, hits))
      × (res.kind ≡ ResultKind.accept)

  -- A new connection from the zone, as it comes in at the interface of `c`: to this address and port,
  -- with what a rewrite and the routing have left in it.
  abbrev pub arriving : Addr → ℕ → Bool → Bool → String → ℕ → Packet
  arriving dst port local rewritten_yet out out_index = record {
    family = family;
    proto = ep.proto;
    src = if str_eq family "ip6" then zone.src6 else zone.src4;
    dst = dst;
    src_port = 41234;
    dst_port = port;
    in_iface = c.iface;
    out_iface = out;
    ct_state = "new";
    dst_is_local = local;
    dnat_applied = rewritten_yet;
    src_route_dev =
        route_dev_for f.host.routes (if str_eq family "ip6" then zone.src6 else zone.src4);
    in_iface_index = iface_index f.host.interfaces c.iface;
    out_iface_index = out_index;
  }

  -- The way in of a packet that prerouting left with this rewrite: to a socket here, after no
  -- rewrite or one to an address of the host; or through the host, out of the interface whose subnet
  -- holds the new destination, where the host routes.
  pub data WayIn : Option Dnat → Type 0 where
    local :
        ep.kind ≢ EndpointKind.forward
        → Accepts "input" (arriving c.ip ep.port true false "" 0)
        → WayIn none
    rewritten_here :
        (d : Dnat)
        → is_local f.host.interfaces d.ip ≡ true
        → Accepts "input" (arriving d.ip d.port true true "" 0)
        → WayIn (some d)
    through :
        (d : Dnat) (out : String)
        → is_local f.host.interfaces d.ip ≡ false
        → forwarding f.host c.iface family ≡ routed
        → iface_for f.host.interfaces d.ip ≡ some out
        → Accepts "forward"
            (arriving d.ip d.port false true out (iface_index f.host.interfaces out))
        → WayIn (some d)

  ne_forward : (k : EndpointKind) → is_forward k ≡ false → k ≢ EndpointKind.forward
  ne_forward k h e = ground (arith, h, ap is_forward e)

  abbrev Explained : Option Dnat → Verdict → Type 0
  Explained dnat v = v.result ≡ VerdictResult.reachable → WayIn dnat

  finish-accept :
      (k : ResultKind) (v : Verdict) (res : Result) (how : Why)
      → (finish_kind k v res how).result ≡ VerdictResult.reachable
      → k ≡ ResultKind.accept
  unfolding finish_kind
  finish-accept ResultKind.accept v res how e = refl
  finish-accept ResultKind.drop v res how e = cc
  finish-accept _ v res how e = cc

  walk_last-Explained :
      (pkt : Packet) (hook : String) (path : List Hit) (dnat back : Option Dnat) (how : Why)
      → (Accepts hook pkt → WayIn back)
      → Ensures (Explained back) (walk_last f zone ep family pkt hook path dnat how)
  unfolding walk_last verdict finish
  walk_last-Explained pkt hook path dnat back how k =
      Ensures-bind (λ m. traverse f.rules family hook pkt ≡ ok m) (Explained back)
        (traverse f.rules family hook pkt) _ (Ensures-self _)
        λ m e r. k (m.0, m.1, e, finish-accept m.0.kind _ m.0 how r)

  forward_on-Explained :
      (d : Dnat) (path : List Hit) (r : Routing) (out : Option String)
      → is_local f.host.interfaces d.ip ≡ false
      → forwarding f.host c.iface family ≡ r
      → iface_for f.host.interfaces d.ip ≡ out
      → Ensures (Explained (some d)) (forward_on f zone ep family c d path r)
  unfolding forward_on forward_out verdict rewritten probe_packet
  forward_on-Explained d path (stopped both) out l r e = cc
  forward_on-Explained d path routed none l r e = rw e cc
  forward_on-Explained d path routed (some o) l r e =
      rw e (walk_last-Explained _ "forward" path (some d) (some d) _ λ a. through d o l r e a)

  after_dnat-Explained :
      (d : Dnat) (path : List Hit)
      → Ensures (Explained (some d)) (after_dnat f zone ep family c d path)
  unfolding after_dnat rewritten probe_packet
  after_dnat-Explained d path = elim (Bool-cases (is_local f.host.interfaces d.ip)) [
    | inl l ↦
        rw l (walk_last-Explained _ "input" path (some d) (some d) _ λ a. rewritten_here d l a)
    | inr l ↦ rw l (forward_on-Explained d path _ _ l refl refl)
  ]

  after_accept-Explained :
      (path : List Hit) (o : Option Dnat)
      → Ensures (Explained o) (after_accept f zone ep family c path o)
  unfolding after_accept verdict probe_packet
  after_accept-Explained path (some d) = after_dnat-Explained d path
  after_accept-Explained path none = elim (Bool-cases (is_forward ep.kind)) [
    | inl yes' ↦ rw yes' cc
    | inr no' ↦
        rw no'
          (walk_last-Explained _ "input" path none none _ λ a. local (ne_forward ep.kind no') a)
  ]

  -- Prerouting let the packet by, neither dropping it nor giving up, with this rewrite.
  abbrev LetBy : Option Dnat → Type 0
  LetBy o =
      (pre : Result) × (hits : List Hit) × (traverse f.rules family "prerouting"
          (arriving c.ip ep.port true false "" 0)
        ≡ ok (pre, hits))
      × (pre.kind ≢ ResultKind.drop)
      × (pre.kind ≢ ResultKind.unknown)
      × (pre.dnat ≡ o)

  abbrev pub WayThrough : Type 0
  WayThrough = (o : Option Dnat) × LetBy o × WayIn o

  after_prerouting-WayThrough :
      (k : ResultKind) (pre : Result) (hits : List Hit)
      → pre.kind ≡ k
      → traverse f.rules family "prerouting" (probe_packet f zone ep family c) ≡ ok (pre, hits)
      → Ensures
          (λ v. v.result ≡ VerdictResult.reachable → WayThrough)
          (after_prerouting f zone ep family k c pre hits)
  unfolding after_prerouting verdict probe_packet
  after_prerouting-WayThrough ResultKind.unknown pre hits k t = cc
  after_prerouting-WayThrough ResultKind.drop pre hits k t = cc
  after_prerouting-WayThrough _ pre hits k t =
      Ensures-map {Q = λ v. v.result ≡ VerdictResult.reachable → WayThrough}
        (λ v h e. (pre.dnat, (pre, hits, t, cc, cc, refl), h e)) _
        (after_accept-Explained hits pre.dnat)

  -- What a reachable verdict at an address rests on: the walk of prerouting neither dropped the probe nor
  -- gave up. Then, for a socket or a published port that no rule rewrote, the walk of input ended in
  -- accept for the probe as it came; for a rewrite to an address of the host, the walk of input did for
  -- the packet with the new destination; for any other rewrite, the host routes between the interfaces,
  -- one of its subnets holds the new destination, and the walk of forward ended in accept for the packet
  -- with the new destination, leaving by that subnet's interface. An endpoint of the kind for forwarded
  -- ports that nothing rewrites is never reachable.
  pub evaluate_at_destination-WayThrough :
      (v : Verdict)
      → evaluate_at_destination f zone ep family c ≡ ok v
      → v.result ≡ VerdictResult.reachable
      → WayThrough
  unfolding evaluate_at_destination probe_packet
  evaluate_at_destination-WayThrough v e =
      Ensures-ok (λ x. x.result ≡ VerdictResult.reachable → WayThrough) _
        (Ensures-bind
          (λ m. traverse f.rules family "prerouting" (probe_packet f zone ep family c) ≡ ok m) _
          (traverse f.rules family "prerouting" (probe_packet f zone ep family c)) _
          (Ensures-self _) λ m t. after_prerouting-WayThrough m.0.kind m.0 m.1 refl t)
        e
