-- ===== src/Model/Forwards/Rows.antt =====
-- internal/model/forwards.go: what the rows of a scan are, by the rules that make them.
use whyopen.Prelude.{
  ℕ, ◌≡◌, refl, sym, subst, ap, ◌⊎◌, inl, inr, String, false, ◌||◌, not, Option, none, some, List,
  [], ◌∷◌, arith, All, All-append, Bool-cases, str_eq,
}
use whyopen.Facts.Types.{Table, Chain, Rule}
use whyopen.Netip.{is_valid, is4, is4_in6}
use whyopen.Model.Evaluate.Types.{EndpointKind, Endpoint}
use whyopen.Model.Match.Sets.{is_empty}
use whyopen.Model.Forwards.Types.{
  Refusal, FwdMatch, FwdTarget, table_families, families, fwd_protos,
}
use whyopen.Model.Forwards.Fields.{IsUint16, IsMatchProto, IsMatch, if_kept}
use whyopen.Model.Forwards.Exprs.{Scan, rows_of, rows_of_protos, rows_of_families, emit_ports, emit}

-- A row of the scan: a forwarded port of tcp or udp, in one family.
pub record IsRow (e : Endpoint) : Type 0 where
  pub kind : e.kind ≡ EndpointKind.forward
  pub family : (e.family ≡ "ip") ⊎ (e.family ≡ "ip6")
  pub proto : (e.proto ≡ "tcp") ⊎ (e.proto ≡ "udp")
  pub port : IsUint16 e.port
  pub bind_ip : e.bind_ip ≡ ""

abbrev Named : String → String → List String → Type 0
Named a b fs = All (λ f. (f ≡ a) ⊎ (f ≡ b)) fs

table_families-Named : (family : String) → Named "ip" "ip6" (table_families family)
unfolding table_families
table_families-Named family =
    let P = Named "ip" "ip6" in
    if_kept P (str_eq family "ip") _ _ (inl refl, tt)
      (if_kept P (str_eq family "ip6") _ _ (inr refl, tt)
        (if_kept P (str_eq family "inet") _ _ (inl refl, (inr refl, tt)) tt))

families-Named : (family : String) (t : FwdTarget) → Named "ip" "ip6" (families family t)
unfolding families
families-Named family t =
    let P = Named "ip" "ip6" in
    if_kept P (not (str_eq family "inet") || not (is_valid t.addr)) _ _
      (table_families-Named family)
      (if_kept P (is4 t.addr || is4_in6 t.addr) _ _ (inl refl, tt) (inr refl, tt))

fwd_protos-Named :
    (proto : String)
    → IsMatchProto proto
    → str_eq proto "other" ≡ false
    → Named "tcp" "udp" (fwd_protos proto)
unfolding fwd_protos
fwd_protos-Named proto (inl h) k =
    subst (λ p. Named "tcp" "udp" (fwd_protos p)) (sym h) (inl refl, (inr refl, tt))
fwd_protos-Named proto (inr (inl h)) k =
    if_kept (Named "tcp" "udp") (str_eq proto "") _ _ (inl refl, (inr refl, tt)) (inl h, tt)
fwd_protos-Named proto (inr (inr (inl h))) k =
    if_kept (Named "tcp" "udp") (str_eq proto "") _ _ (inl refl, (inr refl, tt)) (inr h, tt)
fwd_protos-Named proto (inr (inr (inr h))) k = ground (arith, ap (λ p. str_eq p "other") h)

module _ (t : FwdTarget) (family : String) (hf : (family ≡ "ip") ⊎ (family ≡ "ip6")) where
  rows_of-IsRow :
      (proto : String) (ports : List ℕ)
      → (proto ≡ "tcp") ⊎ (proto ≡ "udp")
      → All IsUint16 ports
      → All IsRow (rows_of t family proto ports)
  rows_of-IsRow proto [] hp h = tt
  rows_of-IsRow proto (p ∷ ports) hp (h, hs) = (
    record { kind = refl; family = hf; proto = hp; port = h; bind_ip = refl },
    rows_of-IsRow proto ports hp hs,
  )

  rows_of_protos-IsRow :
      (protos : List String) (ports : List ℕ)
      → Named "tcp" "udp" protos
      → All IsUint16 ports
      → All IsRow (rows_of_protos t family protos ports)
  rows_of_protos-IsRow [] ports hp h = tt
  rows_of_protos-IsRow (proto ∷ protos) ports (hp, hps) h =
      All-append IsRow (rows_of t family proto ports) _ (rows_of-IsRow proto ports hp h)
        (rows_of_protos-IsRow protos ports hps h)

rows_of_families-IsRow :
    (t : FwdTarget) (fams protos : List String) (ports : List ℕ)
    → Named "ip" "ip6" fams
    → Named "tcp" "udp" protos
    → All IsUint16 ports
    → All IsRow (rows_of_families t fams protos ports)
unfolding rows_of_families
rows_of_families-IsRow t [] protos ports hf hp h = tt
rows_of_families-IsRow t (f ∷ fams) protos ports (hf, hfs) hp h =
    All-append IsRow (rows_of_protos t f protos ports) _
      (rows_of_protos-IsRow t f hf protos ports hp h)
      (rows_of_families-IsRow t fams protos ports hfs hp h)

abbrev pub HasRows : Scan → Type 0
HasRows s = All IsRow s.eps

module _ (table : Table) (ch : Chain) (r : Rule) (t : FwdTarget) (m : FwdMatch) (s : Scan) where
  emit_ports-HasRows :
      (why : Option Refusal)
      → IsMatch m
      → str_eq m.proto "other" ≡ false
      → HasRows s
      → HasRows (emit_ports why table ch r m t s)
  unfolding emit_ports
  emit_ports-HasRows (some why) h k hs = hs
  emit_ports-HasRows none h k hs = if_kept HasRows (is_empty m.ports) _ _ hs (
      All-append IsRow s.eps _ hs (
        rows_of_families-IsRow t _ _ m.ports (families-Named table.family t)
          (fwd_protos-Named m.proto h.proto k) h.ports))

  -- What a rewrite adds are rows.
  pub emit-HasRows : IsMatch m → HasRows s → HasRows (emit table ch r m t s)
  unfolding emit
  emit-HasRows h hs = elim (Bool-cases (str_eq m.proto "other")) [
    | inl q ↦ rw q hs
    | inr q ↦ rw q (emit_ports-HasRows m.refuse h q hs)
  ]
