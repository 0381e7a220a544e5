-- ===== src/Facts/Types.antt =====
-- internal/facts/facts.go: the data types of the document.
use whyopen.Prelude.{ℕ, Bytes, String, Bool, Option, List, ℤ}

-- The `ExprKind` constants; any other text is `unrecognised`.
pub data ExprKind : Type 0 where
  payload cmp meta bitwise ct lookup range fib immediate nat verdict xt other unknown : ExprKind
  unrecognised : String → ExprKind

pub data CmpOp : Type 0 where
  eq neq lt lte gt gte : CmpOp
  unnamed : String → CmpOp

pub data MetaKey : Type 0 where
  iifname oifname iif oif l4proto nfproto skuid skgid : MetaKey
  unnamed : String → MetaKey

pub data PayloadBase : Type 0 where
  network transport : PayloadBase
  unnamed : String → PayloadBase

pub data CtKey : Type 0 where
  state status : CtKey
  unnamed : String → CtKey

pub data FibQuery : Type 0 where
  addrtype oif_present : FibQuery
  unnamed : String → FibQuery

pub data RecentMode : Type 0 where
  set check rcheck update remove : RecentMode
  unnamed : String → RecentMode

-- The verdict kinds of a `VerdictExpr`, which the evaluator's `Action` shares; `none` and `dnat` are
-- written by the evaluator alone, and `unnamed` holds every other text, `queue` among them.
pub data ActionKind : Type 0 where
  accept drop reject return jump goto continue dnat none : ActionKind
  unnamed : String → ActionKind

pub record ImmediateExpr : Type 0 where
  pub register : ℕ
  pub hex : String

pub record NatExpr : Type 0 where
  pub type : String
  pub addr_register : ℕ
  pub proto_register : ℕ

pub record FibExpr : Type 0 where
  pub query : FibQuery
  pub register : ℕ
  pub source : String
  pub matches_iface : Bool

pub record RangeExpr : Type 0 where
  pub op : CmpOp
  pub register : ℕ
  pub from : String
  pub to : String

pub record PayloadExpr : Type 0 where
  pub dest_register : ℕ
  pub base : PayloadBase
  pub offset : ℕ
  pub len : ℕ

pub record CmpExpr : Type 0 where
  pub op : CmpOp
  pub register : ℕ
  pub hex : String

pub record MetaExpr : Type 0 where
  pub key : MetaKey
  pub register : ℕ

pub record BitwiseExpr : Type 0 where
  pub source_register : ℕ
  pub dest_register : ℕ
  pub mask : String
  pub xor : String

pub record CtExpr : Type 0 where
  pub key : CtKey
  pub register : ℕ

pub record LookupExpr : Type 0 where
  pub source_register : ℕ
  pub set : String
  pub set_id : ℕ
  pub invert : Bool
  pub is_dest_reg_set : Bool

pub record VerdictExpr : Type 0 where
  pub kind : ActionKind
  pub chain : String

pub record DnatInfo : Type 0 where
  pub min_ip : String
  pub max_ip : String
  pub min_port : ℕ
  pub max_port : ℕ

pub record ConntrackInfo : Type 0 where
  pub matches_state : Bool
  pub states : List String
  pub invert : Bool

pub record AddrTypeInfo : Type 0 where
  pub dest_types : List String
  pub source_types : List String
  pub invert_dest : Bool
  pub invert_source : Bool

pub record RecentInfo : Type 0 where
  pub mode : RecentMode
  pub seconds : ℕ
  pub hit_count : ℕ
  pub invert : Bool
  pub name : Bytes

pub record XtExpr : Type 0 where
  pub kind : String
  pub name : String
  pub rev : ℕ
  pub raw : String
  pub decoded : Bool
  pub dnat : Option DnatInfo
  pub conntrack : Option ConntrackInfo
  pub addr_type : Option AddrTypeInfo
  pub recent : Option RecentInfo

pub record Expr : Type 0 where
  pub kind : ExprKind
  pub payload : Option PayloadExpr
  pub cmp : Option CmpExpr
  pub meta : Option MetaExpr
  pub bitwise : Option BitwiseExpr
  pub ct : Option CtExpr
  pub lookup : Option LookupExpr
  pub range : Option RangeExpr
  pub fib : Option FibExpr
  pub immediate : Option ImmediateExpr
  pub nat : Option NatExpr
  pub verdict : Option VerdictExpr
  pub xt : Option XtExpr

pub record Rule : Type 0 where
  pub handle : ℕ
  pub exprs : List Expr

pub record Chain : Type 0 where
  pub name : String
  pub base : Bool
  pub hook : String
  pub priority : ℤ
  pub devices : List String
  pub policy : String
  pub rules : List Rule

pub record SetElement : Type 0 where
  pub key : String
  pub val : String
  pub key_end : String
  pub interval_end : Bool

-- An nftables set.
pub record ElementSet : Type 0 where
  pub name : String
  pub id : ℕ
  pub interval : Bool
  pub is_map : Bool
  pub concatenation : Bool
  pub elements : List SetElement

pub record Table : Type 0 where
  pub family : String
  pub name : String
  pub chains : List Chain
  pub sets : List ElementSet

pub record Ruleset : Type 0 where
  pub tables : List Table
  pub read_failed : Bool
