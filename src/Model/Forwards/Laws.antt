-- ===== src/Model/Forwards/Laws.antt =====
-- internal/model/forwards.go, `forwards`: on a document that `facts.Validate` accepts it returns, and it
-- gives each port once in a family.
use whyopen.Prelude.{
  suc, ◌≡◌, refl, false, ◌||◌, not, none, List, [], ◌∷◌, ◌++◌, arith, All, All-append, Bool-cases,
  inl, inr, str_eq, eq_iff, ok, Gives, Gives-bind,
}
use whyopen.Facts.Types.{Chain, Table, Ruleset}
use whyopen.Facts.Validate.{validate}
use whyopen.Facts.Validate.Laws.{ChainIsCarried, TableIsCarried, validate_iff}
use whyopen.Model.Evaluate.Types.{Endpoint}
use whyopen.Model.Match.Sets.{is_empty}
use whyopen.Model.Traverse.Walk.{max_jump_depth}
use whyopen.Model.Forwards.Types.{table_families}
use whyopen.Model.Forwards.Exprs.{Scan}
use whyopen.Model.Forwards.Fields.{IsMatch, if_kept}
use whyopen.Model.Forwards.Rows.{IsRow, HasRows, emit-HasRows}
use whyopen.Model.Forwards.Total.{IsKept, scan_chain-IsTotal}
use whyopen.Model.Forwards.{
  unconstrained, same_row, has_row, add_rows, keep_rows, nothing_found, forward_chains,
  forward_tables, forwards,
}

-- No two rows have one family, protocol and port.
abbrev pub AreDistinct : List Endpoint → Type 0
AreDistinct [] = Unit
AreDistinct (e ∷ es) = (has_row es e ≡ false) × AreDistinct es

pub record AreRows (eps : List Endpoint) : Type 0 where
  pub rows : All IsRow eps
  pub distinct : AreDistinct eps

same_row_sym : (a b : Endpoint) → same_row a b ≡ same_row b a
same_row_sym a b = ground (
  arith,
  eq_iff a.family b.family,
  eq_iff b.family a.family,
  eq_iff a.proto b.proto,
  eq_iff b.proto a.proto,
)

pub has_row-append :
    (xs ys : List Endpoint) (e : Endpoint) → has_row (xs ++ ys) e ≡ (has_row xs e || has_row ys e)
unfolding has_row
has_row-append [] ys e = refl
has_row-append (x ∷ xs) ys e = ground (arith, has_row-append xs ys e)

AreDistinct-append :
    (e : Endpoint) (xs : List Endpoint)
    → has_row xs e ≡ false
    → AreDistinct xs
    → AreDistinct (xs ++ (e ∷ []))
unfolding has_row
AreDistinct-append e [] h d = (refl, tt)
AreDistinct-append e (x ∷ xs) h (d, ds) = (
  ground (arith, has_row-append xs (e ∷ []) x, same_row_sym e x),
  AreDistinct-append e xs (ground arith) ds,
)

add_rows-AreRows : (es eps : List Endpoint) → All IsRow es → AreRows eps → AreRows (add_rows es eps)
unfolding add_rows
add_rows-AreRows [] eps h k = k
add_rows-AreRows (e ∷ es) eps (h, hs) k = elim (Bool-cases (has_row eps e)) [
  | inl q ↦ rw q (add_rows-AreRows es eps hs k)
  | inr q ↦ rw q (
      add_rows-AreRows es (eps ++ (e ∷ [])) hs (record {
        rows = All-append IsRow eps (e ∷ []) k.rows (h, tt);
        distinct = AreDistinct-append e eps q k.distinct;
      }))
]

abbrev ScanIsSound : Scan → Type 0
ScanIsSound s = AreRows s.eps

pub unconstrained-IsMatch : IsMatch unconstrained
unconstrained-IsMatch = record { proto = inl refl; ports = tt }

-- What the rows of one chain add to what was found before them keeps `Kept`.
module _ (Found Kept : Scan → Type 0) (keeps : IsKept Found) (first : Found nothing_found)
    (merge : (found all : Scan) → Found found → Kept all → Kept (keep_rows found all)) where
  pub forward_chains-Kept :
      (table : Table) (chs : List Chain) (all : Scan)
      → TableIsCarried table
      → All ChainIsCarried chs
      → Kept all
      → Gives Kept (forward_chains table chs all)
  unfolding forward_chains
  forward_chains-Kept table [] all t c h = (all, refl, h)
  forward_chains-Kept table (ch ∷ chs) all t (c, cs) h =
      Gives-bind Kept Kept _ _
        (if_kept (Gives Kept) (not ch.base || not (str_eq ch.hook "prerouting")) _ _ (all, refl, h)
          (Gives-bind Found Kept _ _
            (scan_chain-IsTotal Found keeps table t (suc max_jump_depth) ch unconstrained
              nothing_found c unconstrained-IsMatch first)
            λ found k. (keep_rows found all, refl, merge found all k h)))
        λ all' h'. forward_chains-Kept table chs all' t cs h'

  pub forward_tables-Kept :
      (ts : List Table) (all : Scan)
      → All TableIsCarried ts
      → Kept all
      → Gives Kept (forward_tables ts all)
  unfolding forward_tables
  forward_tables-Kept [] all t h = (all, refl, h)
  forward_tables-Kept (t ∷ ts) all (c, cs) h =
      Gives-bind Kept Kept _ _
        (if_kept (Gives Kept) (is_empty (table_families t.family)) _ _ (all, refl, h)
          (forward_chains-Kept t t.chains all c c h))
        λ all' h'. forward_tables-Kept ts all' cs h'

-- On a document that `facts.Validate` accepts, the scan for forwarded ports dereferences no nil pointer
-- and returns; each of its rows is a forward of tcp or udp in one family, with a port of sixteen bits and
-- no bind address, and no two of them have one family, protocol and port.
pub forwards-AreRows :
    (rs : Ruleset) → validate rs ≡ none → (s : Scan) × (forwards rs ≡ ok s) × AreRows s.eps
unfolding forwards
forwards-AreRows rs h =
    forward_tables-Kept HasRows ScanIsSound emit-HasRows tt
      (λ found all. add_rows-AreRows found.eps all.eps) rs.tables nothing_found
      ((validate_iff rs).0 h) (record { rows = tt; distinct = tt })
