-- ===== src/Collect/Redecode.antt =====
-- internal/collect/nftconv.go, `Redecode`: the xt payloads of a document decoded again from their raw
-- bytes. `xt.Unmarshal` is a parameter, of a name, a table family, a revision and the bytes.
pub mod Laws
use whyopen.Prelude.{
  ℕ, ◌+◌, String, Bool, true, false, ◌&&◌, Option, none, some, List, [], ◌∷◌, ◌==◌, if◌then◌else◌,
  Bytes, hex_decode, str_eq,
}
use whyopen.Facts.Types.{
  ExprKind, DnatInfo, ConntrackInfo, AddrTypeInfo, RecentMode, RecentInfo, XtExpr, Expr, Rule,
  Chain, Table, Ruleset,
}
use whyopen.Collect.Nft.{XtInfo}
use whyopen.Collect.Xt.{convert_xt}

abbrev pub bool_eq : Bool → Bool → Bool
bool_eq true b = b
bool_eq false true = false
bool_eq false false = true

abbrev pub list_eq {ℓ} : {A : Type ℓ} → (A → A → Bool) → List A → List A → Bool
list_eq eq [] [] = true
list_eq eq (x ∷ xs) (y ∷ ys) = eq x y && list_eq eq xs ys
list_eq eq _ _ = false

abbrev pub option_eq {ℓ} : {A : Type ℓ} → (A → A → Bool) → Option A → Option A → Bool
option_eq eq none none = true
option_eq eq (some x) (some y) = eq x y
option_eq eq _ _ = false

abbrev pub dnat_eq : DnatInfo → DnatInfo → Bool
dnat_eq a b =
    str_eq a.min_ip b.min_ip
    && str_eq a.max_ip b.max_ip
    && a.min_port == b.min_port
    && a.max_port == b.max_port

abbrev pub conntrack_eq : ConntrackInfo → ConntrackInfo → Bool
conntrack_eq a b =
    bool_eq a.matches_state b.matches_state
    && list_eq str_eq a.states b.states
    && bool_eq a.invert b.invert

abbrev pub addr_type_eq : AddrTypeInfo → AddrTypeInfo → Bool
addr_type_eq a b =
    list_eq str_eq a.dest_types b.dest_types
    && list_eq str_eq a.source_types b.source_types
    && bool_eq a.invert_dest b.invert_dest
    && bool_eq a.invert_source b.invert_source

abbrev pub mode_text : RecentMode → String
mode_text RecentMode.set = "set"
mode_text RecentMode.check = "check"
mode_text RecentMode.rcheck = "rcheck"
mode_text RecentMode.update = "update"
mode_text RecentMode.remove = "remove"
mode_text (RecentMode.unnamed text) = text

abbrev pub recent_eq : RecentInfo → RecentInfo → Bool
recent_eq a b =
    str_eq (mode_text a.mode) (mode_text b.mode)
    && a.seconds == b.seconds
    && a.hit_count == b.hit_count
    && bool_eq a.invert b.invert
    && list_eq ◌==◌ a.name b.name

-- `reflect.DeepEqual` of two payloads. A nil list and an empty one, which it tells apart, are one list here.
unfoldable pub xt_eq : XtExpr → XtExpr → Bool
xt_eq a b =
    str_eq a.kind b.kind
    && str_eq a.name b.name
    && a.rev == b.rev
    && str_eq a.raw b.raw
    && bool_eq a.decoded b.decoded
    && option_eq dnat_eq a.dnat b.dnat
    && option_eq conntrack_eq a.conntrack b.conntrack
    && option_eq addr_type_eq a.addr_type b.addr_type
    && option_eq recent_eq a.recent b.recent

-- `xtFamily`: the numbers NFPROTO_IPV6, NFPROTO_INET, NFPROTO_NETDEV and NFPROTO_IPV4.
abbrev pub xt_family : String → ℕ
xt_family family =
    if str_eq family "ip6"
    then 10
    else (if str_eq family "inet" then 1 else (if str_eq family "netdev" then 5 else 2))

abbrev pub redecode_from : Option XtExpr → XtExpr → XtExpr × Bool
redecode_from none x = (x, false)
redecode_from (some fresh) x = if xt_eq fresh x then (x, false) else (fresh, true)

abbrev pub count : Bool → ℕ
count true = 1
count false = 0

abbrev pub is_xt : ExprKind → Bool
is_xt ExprKind.xt = true
is_xt _ = false

module _ (unmarshal : String → ℕ → ℕ → Bytes → Option XtInfo) (ip_string : Bytes → String) where
  abbrev pub fresh_from : String → String → ℕ → String → Option XtInfo → Option XtExpr
  fresh_from kind name rev raw none = none
  fresh_from kind name rev raw (some info) =
      some (record (convert_xt ip_string kind name rev info) { raw = raw })

  abbrev pub unmarshal_raw : String → ℕ → ℕ → Option Bytes → Option XtInfo
  unmarshal_raw name family rev none = none
  unmarshal_raw name family rev (some raw) = unmarshal name family rev raw

  -- The payload that this build makes of the raw bytes, if it can.
  unfoldable pub fresh_xt : String → String → String → ℕ → String → Option XtExpr
  unfolding convert_xt hex_decode
  fresh_xt family kind name rev raw =
      if str_eq raw ""
      then none
      else fresh_from kind name rev raw (unmarshal_raw name (xt_family family) rev (hex_decode raw))

  -- `redecodeXt`: the payload, and whether it changed.
  unfoldable pub redecode_xt : String → XtExpr → XtExpr × Bool
  unfolding fresh_xt xt_eq
  redecode_xt family x = redecode_from (fresh_xt family x.kind x.name x.rev x.raw) x

  abbrev pub redecode_object : String → Expr → Option XtExpr → Expr × ℕ
  unfolding redecode_xt
  redecode_object family e none = (e, 0)
  redecode_object family e (some x) =
      (record e { xt = some (redecode_xt family x).0 }, count (redecode_xt family x).1)

  unfoldable pub redecode_expr : String → Expr → Expr × ℕ
  unfolding redecode_object
  redecode_expr family e = if is_xt e.kind then redecode_object family e e.xt else (e, 0)

  unfoldable pub redecode_exprs : String → List Expr → List Expr × ℕ
  unfolding redecode_expr
  redecode_exprs family [] = ([], 0)
  redecode_exprs family (e ∷ es) =
      let first = redecode_expr family e in
      let rest = redecode_exprs family es in (first.0 ∷ rest.0, first.1 + rest.1)

  unfoldable pub redecode_rules : String → List Rule → List Rule × ℕ
  unfolding redecode_exprs
  redecode_rules family [] = ([], 0)
  redecode_rules family (r ∷ rs) =
      let first = redecode_exprs family r.exprs in
      let rest = redecode_rules family rs in
      (record r { exprs = first.0 } ∷ rest.0, first.1 + rest.1)

  unfoldable pub redecode_chains : String → List Chain → List Chain × ℕ
  unfolding redecode_rules
  redecode_chains family [] = ([], 0)
  redecode_chains family (c ∷ cs) =
      let first = redecode_rules family c.rules in
      let rest = redecode_chains family cs in
      (record c { rules = first.0 } ∷ rest.0, first.1 + rest.1)

  unfoldable pub redecode_tables : List Table → List Table × ℕ
  unfolding redecode_chains
  redecode_tables [] = ([], 0)
  redecode_tables (t ∷ ts) =
      let first = redecode_chains t.family t.chains in
      let rest = redecode_tables ts in (record t { chains = first.0 } ∷ rest.0, first.1 + rest.1)

  -- `Redecode`: the ruleset, and how many payloads changed.
  unfoldable pub redecode : Ruleset → Ruleset × ℕ
  unfolding redecode_tables
  redecode rs = let out = redecode_tables rs.tables in (record rs { tables = out.0 }, out.1)
