-- ===== src/Collect/Nft.antt =====
-- The values of github.com/google/nftables and its xt package that internal/collect/nftconv.go reads,
-- with the fields that it reads.
use whyopen.Prelude.{ℕ, String, Bool, Bytes, Option}

pub data NftBase : Type 0 where
  ll_header network_header transport_header other : NftBase

pub data NftCmpOp : Type 0 where
  eq neq lt lte gt gte other : NftCmpOp

pub data NftMetaKey : Type 0 where
  skuid skgid iif oif iifname oifname l4proto nfproto other : NftMetaKey

pub data NftCtKey : Type 0 where
  state status other : NftCtKey

pub data NftVerdictKind : Type 0 where
  accept drop jump goto return continue queue other : NftVerdictKind

pub record NftFib : Type 0 where
  pub register : ℕ
  pub flag_saddr : Bool
  pub flag_daddr : Bool
  pub flag_iif : Bool
  pub flag_present : Bool
  pub result_oif : Bool
  pub result_oifname : Bool
  pub result_addrtype : Bool

-- `net.IP` is nil or bytes.
pub record NatRange : Type 0 where
  pub min_ip : Option Bytes
  pub max_ip : Option Bytes
  pub min_port : ℕ
  pub max_port : ℕ

-- `xt.InfoAny`; the three revisions of conntrack have the same fields here.
pub data XtInfo : Type 0 where
  nat_range2 nat_range : NatRange → XtInfo
  conntrack : ℕ → ℕ → ℕ → XtInfo
  addr_type_v1 : ℕ → ℕ → ℕ → XtInfo
  addr_type : ℕ → ℕ → Bool → Bool → XtInfo
  unknown : Bytes → XtInfo
  other : XtInfo

-- `expr.Any`.
pub data NftExpr : Type 0 where
  payload : ℕ → NftBase → ℕ → ℕ → NftExpr
  cmp : NftCmpOp → ℕ → Bytes → NftExpr
  meta : NftMetaKey → ℕ → NftExpr
  bitwise : ℕ → ℕ → Bytes → Bytes → NftExpr
  ct : Bool → NftCtKey → ℕ → NftExpr
  range : NftCmpOp → ℕ → Bytes → Bytes → NftExpr
  immediate : ℕ → Bytes → NftExpr
  nat : Bool → ℕ → ℕ → NftExpr
  fib : NftFib → NftExpr
  lookup : ℕ → String → ℕ → Bool → Bool → NftExpr
  verdict : NftVerdictKind → String → NftExpr
  match : String → ℕ → XtInfo → NftExpr
  target : String → ℕ → XtInfo → NftExpr
  reject log counter limit other : NftExpr
