-- ===== src/Model/Match/Xt.antt =====
-- internal/model/match.go, `xtExpr`: the iptables-nft compatibility expressions. `none` is the third
-- result `false`: the expression could not be resolved.
use whyopen.Prelude.{
  ℕ, String, Bool, true, false, ◌&&◌, ◌||◌, not, Option, none, some, List, [], ◌∷◌, all, any,
  str_eq, if◌then◌else◌,
}
use whyopen.Facts.Types.{
  XtExpr, DnatInfo, ConntrackInfo, AddrTypeInfo, RecentInfo, RecentMode, ActionKind,
}
use whyopen.Netip.{Addr}
use whyopen.Netip.Parse.{parse_addr}
use whyopen.Model.Packet.{Packet, Action, Outcome, match, no_match}

abbrev pub XtResult : Type 0
XtResult = Option (Outcome × Action)

abbrev pub act_none : Action
act_none = record { kind = ActionKind.none; chain = ""; dnat = none }

abbrev pub act : ActionKind → Action
act k = record { kind = k; chain = ""; dnat = none }

-- `slices.Contains`.
abbrev pub contains : List String → String → Bool
contains xs s = any (λ x. str_eq x s) xs

abbrev pub decided : Bool → XtResult
decided hit = if hit then some (match, act_none) else some (no_match, act_none)

abbrev invert_if : Bool → Bool → Bool
invert_if inv hit = if inv then not hit else hit

rewrite_to : ℕ → Option Addr → XtResult
rewrite_to port none = none
rewrite_to port (some ip) = some (
  match,
  record act_none { kind = ActionKind.dnat; dnat = some (record { ip = ip; port = port }) },
)

xt_dnat : Bool → Option DnatInfo → XtResult
unfolding rewrite_to
xt_dnat decoded none = none
xt_dnat decoded (some d) = if decoded then rewrite_to d.min_port (parse_addr d.min_ip) else none

xt_target : XtExpr → XtResult
unfolding xt_dnat
xt_target x =
    if str_eq x.name "DNAT"
    then xt_dnat x.decoded x.dnat
    else (if str_eq x.name "REJECT"
        then some (match, act ActionKind.drop)
        else (if str_eq x.name "LOG"
            then some (match, act_none)
            else (if str_eq x.name "MASQUERADE"
                then some (match, act ActionKind.accept)
                else none)))

unfoldable pub xt_conntrack : Packet → Bool → Option ConntrackInfo → XtResult
xt_conntrack pkt decoded none = none
xt_conntrack pkt decoded (some c) =
    if decoded && c.matches_state
    then decided (invert_if c.invert (contains c.states pkt.ct_state))
    else none

abbrev pub address_types : List String
address_types = "unspec" ∷ "unicast" ∷ "local" ∷ "broadcast" ∷ "anycast" ∷ "multicast" ∷ []

unfoldable pub known_addr_types : List String → Bool
known_addr_types types = all (λ t. contains address_types t) types

abbrev pub is_empty : List String → Bool
is_empty [] = true
is_empty (x ∷ xs) = false

-- A role that nothing constrains holds.
abbrev pub role_hit : List String → Bool → String → Bool
role_hit types inv role = if is_empty types then true else invert_if inv (contains types role)

unfoldable pub xt_addrtype : Packet → Bool → Option AddrTypeInfo → XtResult
unfolding known_addr_types
xt_addrtype pkt decoded none = none
xt_addrtype pkt decoded (some a) =
    if not decoded
    then none
    else (if is_empty a.dest_types && is_empty a.source_types
        then none
        else (if not (known_addr_types a.dest_types) || not (known_addr_types a.source_types)
            then none
            else decided (
                role_hit a.dest_types a.invert_dest
                  (if pkt.dst_is_local then "local" else "unicast")
                && role_hit a.source_types a.invert_source "unicast")))

-- Whether a mode matches the first packet of a source that the list has never seen.
recent_hit : RecentMode → Option Bool
recent_hit RecentMode.set = some true
recent_hit RecentMode.check = some false
recent_hit RecentMode.rcheck = some false
recent_hit RecentMode.update = some false
recent_hit RecentMode.remove = some false
recent_hit (RecentMode.unnamed text) = none

recent_result : Bool → Option Bool → XtResult
recent_result inv none = none
recent_result inv (some hit) = decided (invert_if inv hit)

unfoldable pub xt_recent : Bool → Option RecentInfo → XtResult
unfolding recent_hit recent_result
xt_recent decoded none = none
xt_recent decoded (some r) = if decoded then recent_result r.invert (recent_hit r.mode) else none

xt_match : Packet → XtExpr → XtResult
unfolding xt_conntrack xt_addrtype xt_recent
xt_match pkt x =
    if str_eq x.name "conntrack"
    then xt_conntrack pkt x.decoded x.conntrack
    else (if str_eq x.name "addrtype"
        then xt_addrtype pkt x.decoded x.addr_type
        else (if str_eq x.name "recent"
            then xt_recent x.decoded x.recent
            else (if str_eq x.name "icmp"
                  || str_eq x.name "icmp6"
                  || str_eq x.name "rt"
                  || str_eq x.name "hl"
                then some (no_match, act_none)
                else none)))

unfoldable pub xt_expr : Packet → XtExpr → XtResult
unfolding xt_target xt_match
xt_expr pkt x = if str_eq x.kind "target" then xt_target x else xt_match pkt x
