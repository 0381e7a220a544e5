-- ===== src/Collect/Convert/Laws.antt =====
-- internal/collect/nftconv.go: what the collector converts is well formed, and its operands are kept.
use whyopen.Prelude.{
  ℕ, ◌≡◌, refl, sym, subst, String, Bool, true, false, ◌&&◌, not, Option, none, some, List, [], ◌∷◌,
  ◌++◌, map, ap, ap₂, All, Bytes, hex_decode,
}
use whyopen.Prelude.Hex.Laws.{IsByte, hex_decode-hex_encode}
use whyopen.Facts.Types.{Expr, Rule, Chain, Table, Ruleset}
use whyopen.Facts.Validate.{validate}
use whyopen.Facts.Validate.Laws.{IsCarried, validate_iff}
use whyopen.Model.Forwards.Fields.{if_kept}
use whyopen.Collect.Nft.{NftCmpOp, NftCtKey, NftFib, NftExpr}
use whyopen.Collect.Convert.{
  convert_ct, convert_nat, fib_result, convert_fib, convert_expr, convert_exprs,
}

convert_ct-IsCarried : (sets : Bool) (key : NftCtKey) (r : ℕ) → IsCarried (convert_ct sets key r)
unfolding convert_ct
convert_ct-IsCarried true key r = tt
convert_ct-IsCarried false NftCtKey.state r = (_, refl)
convert_ct-IsCarried false NftCtKey.status r = (_, refl)
convert_ct-IsCarried false NftCtKey.other r = tt

convert_nat-IsCarried : (d : Bool) (a p : ℕ) → IsCarried (convert_nat d a p)
unfolding convert_nat
convert_nat-IsCarried false a p = tt
convert_nat-IsCarried true a p = (_, refl)

fib_result-IsCarried : (source : String) (v : NftFib) → IsCarried (fib_result source v)
fib_result-IsCarried source v =
    if_kept IsCarried (v.result_addrtype && not v.result_oif && not v.result_oifname) _ _ (_, refl)
      (if_kept IsCarried
        (v.result_oif && v.flag_present && not v.result_oifname && not v.result_addrtype) _ _
        (_, refl) tt)

convert_fib-IsCarried : (v : NftFib) → IsCarried (convert_fib v)
unfolding convert_fib
convert_fib-IsCarried v =
    if_kept IsCarried (v.flag_saddr && not v.flag_daddr) _ _ (fib_result-IsCarried "saddr" v)
      (if_kept IsCarried (v.flag_daddr && not v.flag_saddr) _ _ (fib_result-IsCarried "daddr" v) tt)

-- The hexadecimal texts that an expression carries.
abbrev operands : Expr → List String
operands e =
    elim e.cmp [ none ↦ [] | some c ↦ c.hex ∷ [] ]
    ++ (elim e.immediate [ none ↦ [] | some i ↦ i.hex ∷ [] ]
        ++ (elim e.range [ none ↦ [] | some g ↦ g.from ∷ g.to ∷ [] ]
            ++ elim e.bitwise [ none ↦ [] | some b ↦ b.mask ∷ b.xor ∷ [] ]))

abbrev read_all : List String → List (Option Bytes)
read_all ss = map hex_decode ss

module _ (ip_string : Bytes → String) where
  convert_expr-IsCarried : (e : NftExpr) → IsCarried (convert_expr ip_string e)
  unfolding convert_expr
  convert_expr-IsCarried (NftExpr.payload register base offset len) = (_, refl)
  convert_expr-IsCarried (NftExpr.cmp op register bytes) = (_, refl)
  convert_expr-IsCarried (NftExpr.meta key register) = (_, refl)
  convert_expr-IsCarried (NftExpr.bitwise source dest mask xor) = (_, refl)
  convert_expr-IsCarried (NftExpr.ct sets key register) = convert_ct-IsCarried sets key register
  convert_expr-IsCarried (NftExpr.range op register low high) = (_, refl)
  convert_expr-IsCarried (NftExpr.immediate register bytes) = (_, refl)
  convert_expr-IsCarried (NftExpr.nat is_dest addr proto) = convert_nat-IsCarried is_dest addr proto
  convert_expr-IsCarried (NftExpr.fib v) = convert_fib-IsCarried v
  convert_expr-IsCarried (NftExpr.lookup register set id inv is_dest) = (_, refl)
  convert_expr-IsCarried (NftExpr.verdict kind chain) = (_, refl)
  convert_expr-IsCarried (NftExpr.match name rev info) = (_, refl)
  convert_expr-IsCarried (NftExpr.target name rev info) = (_, refl)
  convert_expr-IsCarried NftExpr.reject = (_, refl)
  convert_expr-IsCarried NftExpr.log = tt
  convert_expr-IsCarried NftExpr.counter = tt
  convert_expr-IsCarried NftExpr.limit = tt
  convert_expr-IsCarried NftExpr.other = tt

  convert_exprs-IsCarried : (es : List NftExpr) → All IsCarried (convert_exprs ip_string es)
  unfolding convert_exprs
  convert_exprs-IsCarried [] = tt
  convert_exprs-IsCarried (e ∷ es) = (convert_expr-IsCarried e, convert_exprs-IsCarried es)

  -- A rule whose expressions were converted.
  abbrev pub IsConverted : Rule → Type 0
  IsConverted r = (es : List NftExpr) × (r.exprs ≡ convert_exprs ip_string es)

  converted_rules : (rs : List Rule) → All IsConverted rs → All (λ r. All IsCarried r.exprs) rs
  converted_rules [] h = tt
  converted_rules (r ∷ rs) (h, hs) =
      (subst (All IsCarried) (sym h.1) (convert_exprs-IsCarried h.0), converted_rules rs hs)

  converted_chains :
      (chs : List Chain)
      → All (λ c. All IsConverted c.rules) chs
      → All (λ c. All (λ r. All IsCarried r.exprs) c.rules) chs
  converted_chains [] h = tt
  converted_chains (c ∷ chs) (h, hs) = (converted_rules c.rules h, converted_chains chs hs)

  converted_tables :
      (ts : List Table)
      → All (λ t. All (λ c. All IsConverted c.rules) t.chains) ts
      → All (λ t. All (λ c. All (λ r. All IsCarried r.exprs) c.rules) t.chains) ts
  converted_tables [] h = tt
  converted_tables (t ∷ ts) (h, hs) = (converted_chains t.chains h, converted_tables ts hs)

  -- `facts.Validate` accepts every ruleset all of whose rules hold converted expressions, whatever the
  -- expressions were.
  pub validate-convert_exprs :
      (rs : Ruleset)
      → All (λ t. All (λ c. All IsConverted c.rules) t.chains) rs.tables
      → validate rs ≡ none
  validate-convert_exprs rs h = (validate_iff rs).1 (converted_tables rs.tables h)

  -- The operands of a comparison, a range, an immediate and a mask, read from the document, are the
  -- bytes that the kernel gave.
  hex_decode-convert_expr :
      (op : NftCmpOp) (r q : ℕ) (a b : Bytes)
      → All IsByte a
      → All IsByte b
      → (read_all (operands (convert_expr ip_string (NftExpr.cmp op r a))) ≡ some a ∷ [])
        × (read_all (operands (convert_expr ip_string (NftExpr.immediate r a))) ≡ some a ∷ [])
        × (read_all (operands (convert_expr ip_string (NftExpr.range op r a b)))
            ≡ some a ∷ some b ∷ [])
        × (read_all (operands (convert_expr ip_string (NftExpr.bitwise r q a b)))
            ≡ some a ∷ some b ∷ [])
  unfolding convert_expr
  hex_decode-convert_expr op r q a b ha hb =
      let one = ap (λ o. o ∷ []) (hex_decode-hex_encode a ha) in
      let two = ap₂ (λ o p. o ∷ p ∷ []) (hex_decode-hex_encode a ha) (hex_decode-hex_encode b hb) in
      (one, one, two, two)
