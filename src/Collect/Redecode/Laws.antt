-- ===== src/Collect/Redecode/Laws.antt =====
-- internal/collect/nftconv.go, `Redecode`: a document that was decoded again is left alone by the next run.
use whyopen.Prelude.{
  ℕ, ◌≡◌, refl, ap, subst, String, Bool, true, false, ◌||◌, Option, none, some, List, [], ◌∷◌, ◌==◌,
  Bytes, hex_decode, arith, str_eq, eq_iff, Bool-cases, inl, inr,
}
use whyopen.Facts.Types.{
  DnatInfo, ConntrackInfo, AddrTypeInfo, RecentInfo, XtExpr, Expr, Rule, Chain, Table, Ruleset,
}
use whyopen.Prelude.Hex.{hex_encode}
use whyopen.Collect.Nft.{XtInfo}
use whyopen.Collect.Xt.{bare_xt, convert_xt, decode_xt_raw, decode_bytes, with_recent, recent_info}
use whyopen.Collect.Redecode.{
  mode_text, redecode_object, fresh_from, bool_eq, list_eq, option_eq, dnat_eq, conntrack_eq,
  addr_type_eq, recent_eq, xt_eq, redecode_from, is_xt, unmarshal_raw, xt_family, fresh_xt,
  redecode_xt, redecode_expr, redecode_exprs, redecode_rules, redecode_chains, redecode_tables,
  redecode,
}

bool_eq_refl : (b : Bool) → bool_eq b b ≡ true
bool_eq_refl true = refl
bool_eq_refl false = refl

list_eq_refl {ℓ} :
    {A : Type ℓ} (eq : A → A → Bool) (xs : List A)
    → ((a : A) → eq a a ≡ true)
    → list_eq eq xs xs ≡ true
list_eq_refl eq [] h = refl
list_eq_refl eq (x ∷ xs) h = ground (arith, h x, list_eq_refl eq xs h)

option_eq_refl {ℓ} :
    {A : Type ℓ} (eq : A → A → Bool) (o : Option A)
    → ((a : A) → eq a a ≡ true)
    → option_eq eq o o ≡ true
option_eq_refl eq none h = refl
option_eq_refl eq (some x) h = h x

str_eq_refl : (s : String) → str_eq s s ≡ true
str_eq_refl s = (eq_iff s s).1 refl

nat_eq_refl : (n : ℕ) → (n == n) ≡ true
nat_eq_refl n = ground arith

dnat_eq_refl : (a : DnatInfo) → dnat_eq a a ≡ true
dnat_eq_refl a = ground (arith, str_eq_refl a.min_ip, str_eq_refl a.max_ip)

conntrack_eq_refl : (a : ConntrackInfo) → conntrack_eq a a ≡ true
conntrack_eq_refl a = ground (
  arith,
  bool_eq_refl a.matches_state,
  list_eq_refl str_eq a.states str_eq_refl,
  bool_eq_refl a.invert,
)

addr_type_eq_refl : (a : AddrTypeInfo) → addr_type_eq a a ≡ true
addr_type_eq_refl a = ground (
  arith,
  list_eq_refl str_eq a.dest_types str_eq_refl,
  list_eq_refl str_eq a.source_types str_eq_refl,
  bool_eq_refl a.invert_dest,
  bool_eq_refl a.invert_source,
)

recent_eq_refl : (a : RecentInfo) → recent_eq a a ≡ true
recent_eq_refl a = ground (
  arith,
  str_eq_refl (mode_text a.mode),
  nat_eq_refl a.seconds,
  nat_eq_refl a.hit_count,
  bool_eq_refl a.invert,
  list_eq_refl ◌==◌ a.name nat_eq_refl,
)

xt_eq_refl : (x : XtExpr) → xt_eq x x ≡ true
unfolding xt_eq
xt_eq_refl x = ground (
  arith,
  str_eq_refl x.kind,
  str_eq_refl x.name,
  str_eq_refl x.raw,
  bool_eq_refl x.decoded,
  option_eq_refl dnat_eq x.dnat dnat_eq_refl,
  option_eq_refl conntrack_eq x.conntrack conntrack_eq_refl,
  option_eq_refl addr_type_eq x.addr_type addr_type_eq_refl,
  option_eq_refl recent_eq x.recent recent_eq_refl,
)

-- What a payload is of: its kind, name and revision.
abbrev AreOf : String → String → ℕ → XtExpr → Type 0
AreOf kind name rev x = (x.kind ≡ kind) × (x.name ≡ name) × (x.rev ≡ rev)

with_recent-AreOf :
    (kind name : String) (rev : ℕ) (x : XtExpr) (o : Option RecentInfo)
    → AreOf kind name rev x
    → AreOf kind name rev (with_recent x o)
with_recent-AreOf kind name rev x none h = h
with_recent-AreOf kind name rev x (some info) h = h

decode_bytes-AreOf :
    (kind name : String) (rev : ℕ) (x : XtExpr) (o : Option Bytes)
    → AreOf kind name rev x
    → AreOf kind name rev (decode_bytes x o)
unfolding decode_bytes
decode_bytes-AreOf kind name rev x none h = h
decode_bytes-AreOf kind name rev x (some raw) h = elim (Bool-cases (str_eq x.name "recent")) [
  | inl e ↦ rw e (with_recent-AreOf kind name rev x (recent_info x.rev raw) h)
  | inr e ↦ rw e h
]

decode_xt_raw-AreOf :
    (kind name : String) (rev : ℕ) (x : XtExpr)
    → AreOf kind name rev x
    → AreOf kind name rev (decode_xt_raw x)
unfolding decode_xt_raw
decode_xt_raw-AreOf kind name rev x h = elim (Bool-cases (x.decoded || str_eq x.raw "")) [
  | inl e ↦ rw e h
  | inr e ↦ rw e (decode_bytes-AreOf kind name rev x (hex_decode x.raw) h)
]

abbrev from_option : XtExpr → Option XtExpr → XtExpr
from_option y none = y
from_option y (some x) = x

-- Decoding what was decoded leaves it alone, where what is made of it is made again.
redecode_from_again :
    (f : XtExpr → Option XtExpr) (o : Option XtExpr) (x : XtExpr)
    → f x ≡ o
    → ((y : XtExpr) → o ≡ some y → f y ≡ some y)
    → redecode_from (f (redecode_from o x).0) (redecode_from o x).0 ≡ ((redecode_from o x).0, false)
redecode_from_again f none x h again = rw h refl
redecode_from_again f (some y) x h again = elim (Bool-cases (xt_eq y x)) [
  | inl e ↦ rw (e, h, e) refl
  | inr e ↦ rw (e, again y refl, xt_eq_refl y) refl
]

module _ (unmarshal : String → ℕ → ℕ → Bytes → Option XtInfo) (ip_string : Bytes → String) where
  convert_xt-AreOf :
      (kind name : String) (rev : ℕ) (i : XtInfo)
      → AreOf kind name rev (convert_xt ip_string kind name rev i)
  unfolding convert_xt
  convert_xt-AreOf kind name rev (XtInfo.nat_range2 r) = (refl, refl, refl)
  convert_xt-AreOf kind name rev (XtInfo.nat_range r) = (refl, refl, refl)
  convert_xt-AreOf kind name rev (XtInfo.conntrack f i s) = (refl, refl, refl)
  convert_xt-AreOf kind name rev (XtInfo.addr_type_v1 d s f) = (refl, refl, refl)
  convert_xt-AreOf kind name rev (XtInfo.addr_type d s a b) = (refl, refl, refl)
  convert_xt-AreOf kind name rev (XtInfo.unknown raw) =
      decode_xt_raw-AreOf kind name rev (record (bare_xt kind name rev) { raw = hex_encode raw })
        (refl, refl, refl)
  convert_xt-AreOf kind name rev XtInfo.other = (refl, refl, refl)

  -- A payload that was made anew is made again from its own fields.
  fresh_from_again :
      (kind name : String) (rev : ℕ) (raw : String) (o : Option XtInfo) (y : XtExpr)
      → fresh_from unmarshal ip_string kind name rev raw o ≡ some y
      → AreOf kind name rev y × (y.raw ≡ raw)
  fresh_from_again kind name rev raw none y e = cc
  fresh_from_again kind name rev raw (some i) y e =
      subst (λ z. AreOf kind name rev z × (z.raw ≡ raw)) (ap (from_option y) e)
        (convert_xt-AreOf kind name rev i, refl)

  fresh_xt-AreOf :
      (family kind name : String) (rev : ℕ) (raw : String) (y : XtExpr)
      → fresh_xt unmarshal ip_string family kind name rev raw ≡ some y
      → AreOf kind name rev y × (y.raw ≡ raw)
  unfolding fresh_xt
  fresh_xt-AreOf family kind name rev raw y = elim (Bool-cases (str_eq raw "")) [
    | inl k ↦ rw k (fresh_from_again kind name rev raw none y)
    | inr k ↦ rw k (
        fresh_from_again kind name rev raw
          (unmarshal_raw unmarshal ip_string name (xt_family family) rev (hex_decode raw)) y)
  ]

  fresh_xt_again :
      (family : String) (x y : XtExpr)
      → fresh_xt unmarshal ip_string family x.kind x.name x.rev x.raw ≡ some y
      → fresh_xt unmarshal ip_string family y.kind y.name y.rev y.raw ≡ some y
  fresh_xt_again family x y e =
      let ((k, n, r), w) = fresh_xt-AreOf family x.kind x.name x.rev x.raw y e in cc

  redecode_xt_again :
      (family : String) (x : XtExpr)
      → redecode_xt unmarshal ip_string family (redecode_xt unmarshal ip_string family x).0
        ≡ ((redecode_xt unmarshal ip_string family x).0, false)
  unfolding redecode_xt
  redecode_xt_again family x =
      redecode_from_again (λ y. fresh_xt unmarshal ip_string family y.kind y.name y.rev y.raw)
        (fresh_xt unmarshal ip_string family x.kind x.name x.rev x.raw) x refl
        (fresh_xt_again family x)

  redecode_object_again :
      (family : String) (e : Expr)
      → is_xt e.kind ≡ true
      → (o : Option XtExpr) → e.xt ≡ o
      → redecode_expr unmarshal ip_string family (redecode_object unmarshal ip_string family e o).0
        ≡ ((redecode_object unmarshal ip_string family e o).0, 0)
  unfolding redecode_expr redecode_object
  redecode_object_again family e k none q = simp (k, q)
  redecode_object_again family e k (some x) q = simp (k, redecode_xt_again family x)

  redecode_expr_again :
      (family : String) (e : Expr)
      → redecode_expr unmarshal ip_string family (redecode_expr unmarshal ip_string family e).0
        ≡ ((redecode_expr unmarshal ip_string family e).0, 0)
  unfolding redecode_expr
  redecode_expr_again family e = elim (Bool-cases (is_xt e.kind)) [
    | inl k ↦ rw k (redecode_object_again family e k e.xt refl)
    | inr k ↦ rw (k, k) refl
  ]

  redecode_exprs_again :
      (family : String) (xs : List Expr)
      → redecode_exprs unmarshal ip_string family (redecode_exprs unmarshal ip_string family xs).0
        ≡ ((redecode_exprs unmarshal ip_string family xs).0, 0)
  unfolding redecode_exprs
  redecode_exprs_again family [] = refl
  redecode_exprs_again family (x ∷ xs) =
      rw (redecode_expr_again family x, redecode_exprs_again family xs) refl

  redecode_rules_again :
      (family : String) (xs : List Rule)
      → redecode_rules unmarshal ip_string family (redecode_rules unmarshal ip_string family xs).0
        ≡ ((redecode_rules unmarshal ip_string family xs).0, 0)
  unfolding redecode_rules
  redecode_rules_again family [] = refl
  redecode_rules_again family (x ∷ xs) =
      rw (redecode_exprs_again family x.exprs, redecode_rules_again family xs) refl

  redecode_chains_again :
      (family : String) (xs : List Chain)
      → redecode_chains unmarshal ip_string family (redecode_chains unmarshal ip_string family xs).0
        ≡ ((redecode_chains unmarshal ip_string family xs).0, 0)
  unfolding redecode_chains
  redecode_chains_again family [] = refl
  redecode_chains_again family (x ∷ xs) =
      rw (redecode_rules_again family x.rules, redecode_chains_again family xs) refl

  redecode_tables_again :
      (xs : List Table)
      → redecode_tables unmarshal ip_string (redecode_tables unmarshal ip_string xs).0
        ≡ ((redecode_tables unmarshal ip_string xs).0, 0)
  unfolding redecode_tables
  redecode_tables_again [] = refl
  redecode_tables_again (x ∷ xs) =
      rw (redecode_chains_again x.family x.chains, redecode_tables_again xs) refl

  -- A document that Redecode has decoded again is left alone by the next run, which changes no payload, whatever xt.Unmarshal and the text of an address are.
  pub redecode_again :
      (rs : Ruleset)
      → redecode unmarshal ip_string (redecode unmarshal ip_string rs).0
        ≡ ((redecode unmarshal ip_string rs).0, 0)
  unfolding redecode
  redecode_again rs = rw (redecode_tables_again rs.tables) refl
