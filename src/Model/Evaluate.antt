-- ===== src/Model/Evaluate.antt =====
-- internal/model/evaluate.go: the verdict on one endpoint in one address family.
pub mod Types
pub mod Lookups
pub mod Best
pub mod Safety
pub mod Reach
pub mod All
pub mod Endpoints
use whyopen.Prelude.{
  ℕ, String, Bool, true, false, ◌&&◌, ◌||◌, not, Option, none, some, List, [], ◌∷◌, ◌++◌, ◌==◌, ltb,
  if◌then◌else◌, str_eq, Go, panic, ok, ◌>>=◌,
}
use whyopen.Facts.Types.{Ruleset}
use whyopen.Facts.Host.{Facts}
use whyopen.Netip.{Addr}
use whyopen.Model.Packet.{Packet, Dnat}
use whyopen.Model.Traverse.Types.{Reason, ResultKind, Result, Hit}
use whyopen.Model.Traverse.{traverse}
use Types.{EndpointKind, Endpoint, VerdictResult, Why, Verdict}
use Lookups.{
  PubAddr, route_dev_for, Routing, routed, stopped, forwarding, bind_covers, public_addrs, is_local,
  iface_index, iface_for,
}

-- Where the packet comes from.
pub record Zone : Type 0 where
  pub src4 : Addr
  pub src6 : Addr

unfoldable pub result_rank : VerdictResult → ℕ
result_rank VerdictResult.reachable = 2
result_rank VerdictResult.unknown = 1
result_rank VerdictResult.filtered = 0

abbrev is_forward : EndpointKind → Bool
is_forward EndpointKind.forward = true
is_forward _ = false

finish_kind : ResultKind → Verdict → Result → Why → Verdict
finish_kind ResultKind.accept v res how = record v { result = VerdictResult.reachable; why = how }
finish_kind ResultKind.drop v res how = record v {
  result = VerdictResult.filtered;
  why = Why.walked res.reason;
}
finish_kind _ v res how = record v { result = VerdictResult.unknown; why = Why.walked res.reason }

unfoldable pub finish : Verdict → Result → Why → Verdict
unfolding finish_kind
finish v res how = finish_kind res.kind v res how

module _ (f : Facts) (zone : Zone) (ep : Endpoint) (family : String) where
  abbrev zone_src : Addr
  zone_src = if str_eq family "ip6" then zone.src6 else zone.src4

  -- The probe, before any hook.
  unfoldable pub probe_packet : PubAddr → Packet
  probe_packet c = record {
    family = family;
    proto = ep.proto;
    src = zone_src;
    dst = c.ip;
    src_port = 41234;
    dst_port = ep.port;
    in_iface = c.iface;
    out_iface = "";
    ct_state = "new";
    dst_is_local = true;
    dnat_applied = false;
    src_route_dev = route_dev_for f.host.routes zone_src;
    in_iface_index = iface_index f.host.interfaces c.iface;
    out_iface_index = 0;
  }

  -- A verdict of this endpoint.
  unfoldable pub verdict : VerdictResult → Why → List Hit → Option Dnat → Verdict
  verdict result why path dnat = record {
    endpoint = ep;
    family = family;
    result = result;
    why = why;
    path = path;
    dnat = dnat;
  }

  -- The walk of the last hook, and the sentence for an accept there.
  walk_last : Packet → String → List Hit → Option Dnat → Why → Go Verdict
  unfolding verdict finish
  walk_last pkt hook path dnat how = do
    (res, hits) ← traverse f.rules family hook pkt
    ok (finish (verdict VerdictResult.unknown Why.unsaid (path ++ hits) dnat) res how)

  -- The packet as a rewrite leaves it.
  unfoldable pub rewritten : PubAddr → Dnat → Bool → Packet
  unfolding probe_packet
  rewritten c d local = record (probe_packet c) {
    dst = d.ip;
    dst_port = d.port;
    dst_is_local = local;
    dnat_applied = true;
  }

  -- The note that whyopen cannot see past a forward to another machine.
  abbrev beyond : PubAddr → Dnat → Why
  beyond c d =
      if is_forward ep.kind
      then Why.via_dnat_beyond_sight c.ip d "forward"
      else Why.via_dnat c.ip d "forward"

  -- Routed on by the host, out of the interface whose subnet holds the target.
  forward_out : PubAddr → Dnat → List Hit → Option String → Go Verdict
  unfolding walk_last rewritten
  forward_out c d path none =
      ok (verdict VerdictResult.unknown (Why.target_unlocated d.ip) path (some d))
  forward_out c d path (some out) =
      walk_last
        (record (rewritten c d false) {
          out_iface = out;
          out_iface_index = iface_index f.host.interfaces out;
        })
        "forward" path (some d) (beyond c d)

  forward_on : PubAddr → Dnat → List Hit → Routing → Go Verdict
  unfolding forward_out
  forward_on c d path (stopped both) =
      ok (verdict VerdictResult.filtered (Why.not_routed c.ip d c.iface both) path (some d))
  forward_on c d path routed = forward_out c d path (iface_for f.host.interfaces d.ip)

  after_dnat : PubAddr → Dnat → List Hit → Go Verdict
  unfolding walk_last rewritten forward_on
  after_dnat c d path =
      if is_local f.host.interfaces d.ip
      then walk_last (rewritten c d true) "input" path (some d) (Why.via_dnat c.ip d "input")
      else forward_on c d path (forwarding f.host c.iface family)

  after_accept : PubAddr → List Hit → Option Dnat → Go Verdict
  unfolding after_dnat walk_last
  after_accept c path (some d) = after_dnat c d path
  after_accept c path none =
      if is_forward ep.kind
      then ok (verdict VerdictResult.filtered (Why.not_rewritten c.ip ep.port ep.proto) path none)
      else walk_last (probe_packet c) "input" path none (Why.delivered_locally c.ip)

  after_prerouting : ResultKind → PubAddr → Result → List Hit → Go Verdict
  unfolding after_accept
  after_prerouting ResultKind.unknown c pre hits =
      ok (verdict VerdictResult.unknown (Why.walked pre.reason) hits none)
  after_prerouting ResultKind.drop c pre hits =
      ok (verdict VerdictResult.filtered (Why.walked pre.reason) hits none)
  after_prerouting _ c pre hits = after_accept c hits pre.dnat

  unfoldable pub evaluate_at_destination : PubAddr → Go Verdict
  unfolding after_prerouting
  evaluate_at_destination c = do
    (pre, hits) ← traverse f.rules family "prerouting" (probe_packet c)
    after_prerouting pre.kind c pre hits

  -- The verdicts at the addresses that the endpoint is bound to, in order.
  unfoldable pub evaluate_candidates : List PubAddr → Go (List Verdict)
  evaluate_candidates [] = ok []
  evaluate_candidates (c ∷ cs) =
      if bind_covers ep.bind_ip c.ip
      then (evaluate_at_destination c >>= λ v. evaluate_candidates cs >>= λ vs. ok (v ∷ vs))
      else evaluate_candidates cs

-- The first of the strongest results.
unfoldable pub best_of : Verdict → List Verdict → Verdict
unfolding result_rank
best_of best [] = best
best_of best (r ∷ rs) =
    best_of (if ltb (result_rank best.result) (result_rank r.result) then r else best) rs

module _ (f : Facts) (zone : Zone) (ep : Endpoint) (family : String) where
  unfoldable pub pick : List Verdict → Verdict
  unfolding verdict best_of
  pick [] = verdict f zone ep family VerdictResult.filtered (Why.not_bound ep.bind_ip) [] none
  pick (v ∷ vs) = best_of v vs

  unfoldable pub from_candidates : List PubAddr → Go Verdict
  unfolding verdict pick evaluate_candidates
  from_candidates [] =
      ok (verdict f zone ep family VerdictResult.unknown (Why.no_public_address family) [] none)
  from_candidates (c ∷ cs) = evaluate_candidates f zone ep family (c ∷ cs) >>= λ vs. ok (pick vs)

  unfoldable pub evaluate_one : Go Verdict
  unfolding from_candidates
  evaluate_one = from_candidates (public_addrs family f.host.interfaces)
