-- ===== src/Collect/Convert.antt =====
-- internal/collect/nftconv.go, `ConvertExprs`: an expression of the library as one of the document.
pub mod Laws
use whyopen.Prelude.{
  ℕ, String, Bool, true, false, ◌&&◌, ◌||◌, not, Option, none, some, List, [], ◌∷◌, if◌then◌else◌,
  Bytes, map,
}
use whyopen.Prelude.Hex.{hex_encode}
use whyopen.Facts.Types.{ExprKind, CmpOp, MetaKey, PayloadBase, CtKey, FibQuery, ActionKind, Expr}
use whyopen.Collect.Nft.{
  NftBase, NftCmpOp, NftMetaKey, NftCtKey, NftVerdictKind, NftFib, NftExpr, XtInfo,
}
use whyopen.Collect.Xt.{convert_xt}

-- `payloadBaseName`.
abbrev pub payload_base_name : NftBase → PayloadBase
payload_base_name NftBase.ll_header = PayloadBase.unnamed "link"
payload_base_name NftBase.network_header = PayloadBase.network
payload_base_name NftBase.transport_header = PayloadBase.transport
payload_base_name NftBase.other = PayloadBase.unnamed "unknown"

-- `cmpOpName`.
abbrev pub cmp_op_name : NftCmpOp → CmpOp
cmp_op_name NftCmpOp.eq = CmpOp.eq
cmp_op_name NftCmpOp.neq = CmpOp.neq
cmp_op_name NftCmpOp.lt = CmpOp.lt
cmp_op_name NftCmpOp.lte = CmpOp.lte
cmp_op_name NftCmpOp.gt = CmpOp.gt
cmp_op_name NftCmpOp.gte = CmpOp.gte
cmp_op_name NftCmpOp.other = CmpOp.unnamed "unknown"

-- `metaKeyName`.
abbrev pub meta_key_name : NftMetaKey → MetaKey
meta_key_name NftMetaKey.skuid = MetaKey.skuid
meta_key_name NftMetaKey.skgid = MetaKey.skgid
meta_key_name NftMetaKey.iif = MetaKey.iif
meta_key_name NftMetaKey.oif = MetaKey.oif
meta_key_name NftMetaKey.iifname = MetaKey.iifname
meta_key_name NftMetaKey.oifname = MetaKey.oifname
meta_key_name NftMetaKey.l4proto = MetaKey.l4proto
meta_key_name NftMetaKey.nfproto = MetaKey.nfproto
meta_key_name NftMetaKey.other = MetaKey.unnamed "unknown"

-- `verdictKindName`.
abbrev pub verdict_kind_name : NftVerdictKind → ActionKind
verdict_kind_name NftVerdictKind.accept = ActionKind.accept
verdict_kind_name NftVerdictKind.drop = ActionKind.drop
verdict_kind_name NftVerdictKind.jump = ActionKind.jump
verdict_kind_name NftVerdictKind.goto = ActionKind.goto
verdict_kind_name NftVerdictKind.return = ActionKind.return
verdict_kind_name NftVerdictKind.continue = ActionKind.continue
verdict_kind_name NftVerdictKind.queue = ActionKind.unnamed "queue"
verdict_kind_name NftVerdictKind.other = ActionKind.unnamed "unknown"

-- `facts.Expr{Kind: kind}`.
abbrev pub of_kind : ExprKind → Expr
of_kind k = record {
  kind = k;
  payload = none;
  cmp = none;
  meta = none;
  bitwise = none;
  ct = none;
  lookup = none;
  range = none;
  fib = none;
  immediate = none;
  nat = none;
  verdict = none;
  xt = none;
}

-- `convertCt`: an expression that sets a value is not read.
unfoldable pub convert_ct : Bool → NftCtKey → ℕ → Expr
convert_ct true key register = of_kind ExprKind.unknown
convert_ct false NftCtKey.state register = record (of_kind ExprKind.ct) {
  ct = some (record { key = CtKey.state; register = register });
}
convert_ct false NftCtKey.status register = record (of_kind ExprKind.ct) {
  ct = some (record { key = CtKey.status; register = register });
}
convert_ct false NftCtKey.other register = of_kind ExprKind.unknown

-- `convertNAT`, of whether the type is that of a destination rewrite.
unfoldable pub convert_nat : Bool → ℕ → ℕ → Expr
convert_nat false addr proto = of_kind ExprKind.unknown
convert_nat true addr proto = record (of_kind ExprKind.nat) {
  nat = some (record { type = "dnat"; addr_register = addr; proto_register = proto });
}

abbrev fib_expr : FibQuery → String → Bool → NftFib → Expr
fib_expr query source iface v = record (of_kind ExprKind.fib) {
  fib =
      some
        (record { query = query; register = v.register; source = source; matches_iface = iface });
}

abbrev fib_result : String → NftFib → Expr
fib_result source v =
    if v.result_addrtype && not v.result_oif && not v.result_oifname
    then fib_expr FibQuery.addrtype source false v
    else (if v.result_oif && v.flag_present && not v.result_oifname && not v.result_addrtype
        then fib_expr FibQuery.oif_present source v.flag_iif v
        else of_kind ExprKind.unknown)

-- `convertFib`.
unfoldable pub convert_fib : NftFib → Expr
convert_fib v =
    if v.flag_saddr && not v.flag_daddr
    then fib_result "saddr" v
    else (if v.flag_daddr && not v.flag_saddr
        then fib_result "daddr" v
        else of_kind ExprKind.unknown)

module _ (ip_string : Bytes → String) where
  -- `convertExpr`.
  unfoldable pub convert_expr : NftExpr → Expr
  unfolding convert_ct convert_nat convert_fib convert_xt hex_encode
  convert_expr (NftExpr.payload register base offset len) = record (of_kind ExprKind.payload) {
    payload = some (record {
      dest_register = register;
      base = payload_base_name base;
      offset = offset;
      len = len;
    });
  }
  convert_expr (NftExpr.cmp op register bytes) = record (of_kind ExprKind.cmp) {
    cmp = some (record { op = cmp_op_name op; register = register; hex = hex_encode bytes });
  }
  convert_expr (NftExpr.meta key register) = record (of_kind ExprKind.meta) {
    meta = some (record { key = meta_key_name key; register = register });
  }
  convert_expr (NftExpr.bitwise source dest mask xor) = record (of_kind ExprKind.bitwise) {
    bitwise = some (record {
      source_register = source;
      dest_register = dest;
      mask = hex_encode mask;
      xor = hex_encode xor;
    });
  }
  convert_expr (NftExpr.ct sets key register) = convert_ct sets key register
  convert_expr (NftExpr.range op register low high) = record (of_kind ExprKind.range) {
    range = some (record {
      op = cmp_op_name op;
      register = register;
      from = hex_encode low;
      to = hex_encode high;
    });
  }
  convert_expr (NftExpr.immediate register bytes) = record (of_kind ExprKind.immediate) {
    immediate = some (record { register = register; hex = hex_encode bytes });
  }
  convert_expr (NftExpr.nat is_dest addr proto) = convert_nat is_dest addr proto
  convert_expr (NftExpr.fib v) = convert_fib v
  convert_expr (NftExpr.lookup register set id inv is_dest) = record (of_kind ExprKind.lookup) {
    lookup = some (record {
      source_register = register;
      set = set;
      set_id = id;
      invert = inv;
      is_dest_reg_set = is_dest;
    });
  }
  convert_expr (NftExpr.verdict kind chain) = record (of_kind ExprKind.verdict) {
    verdict = some (record { kind = verdict_kind_name kind; chain = chain });
  }
  convert_expr (NftExpr.match name rev info) = record (of_kind ExprKind.xt) {
    xt = some (convert_xt ip_string "match" name rev info);
  }
  convert_expr (NftExpr.target name rev info) = record (of_kind ExprKind.xt) {
    xt = some (convert_xt ip_string "target" name rev info);
  }
  convert_expr NftExpr.reject = record (of_kind ExprKind.verdict) {
    verdict = some (record { kind = ActionKind.reject; chain = "" });
  }
  convert_expr NftExpr.log = of_kind ExprKind.other
  convert_expr NftExpr.counter = of_kind ExprKind.other
  convert_expr NftExpr.limit = of_kind ExprKind.other
  convert_expr NftExpr.other = of_kind ExprKind.unknown

  -- `ConvertExprs`.
  unfoldable pub convert_exprs : List NftExpr → List Expr
  unfolding convert_expr
  convert_exprs es = map convert_expr es
