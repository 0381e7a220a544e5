-- ===== src/Model/Forwards/Keeps.antt =====
-- internal/model/forwards.go: no rewrite that the scan meets takes a row away.
use whyopen.Prelude.{
  ◌≡◌, refl, ◌∙◌, true, ◌||◌, Option, none, some, List, [], ◌∷◌, ◌++◌, arith, Bool-cases, ◌⊎◌, inl,
  inr, str_eq, eq_iff,
}
use whyopen.Facts.Types.{Rule, Chain, Table}
use whyopen.Model.Evaluate.Types.{Endpoint}
use whyopen.Model.Match.Sets.{is_empty}
use whyopen.Model.Forwards.Types.{FwdMatch, FwdTarget, Refusal}
use whyopen.Model.Forwards.Exprs.{Scan, emit_ports, emit}
use whyopen.Model.Forwards.Fields.{if_kept}
use whyopen.Model.Forwards.Total.{IsKept}
use whyopen.Model.Forwards.Laws.{has_row-append}
use whyopen.Model.Forwards.{same_row, has_row, add_rows, keep_rows}

-- The scan holds a row for the port of `e`, in its family and protocol.
abbrev pub Holds : Endpoint → Scan → Type 0
Holds e s = has_row s.eps e ≡ true

has_row-left :
    (xs ys : List Endpoint) (e : Endpoint) → has_row xs e ≡ true → has_row (xs ++ ys) e ≡ true
has_row-left xs ys e h = ground (arith, has_row-append xs ys e)

pub has_row-right :
    (xs ys : List Endpoint) (e : Endpoint) → has_row ys e ≡ true → has_row (xs ++ ys) e ≡ true
has_row-right xs ys e h = ground (arith, has_row-append xs ys e)

emit_ports-Holds :
    (why : Option Refusal) (e : Endpoint) (table : Table) (ch : Chain) (r : Rule) (m : FwdMatch)
    (t : FwdTarget) (s : Scan)
    → Holds e s
    → Holds e (emit_ports why table ch r m t s)
unfolding emit_ports
emit_ports-Holds (some why) e table ch r m t s h = h
emit_ports-Holds none e table ch r m t s h =
    if_kept (Holds e) (is_empty m.ports) _ _ h (has_row-left s.eps _ e h)

-- No rewrite takes a row away.
pub emit-Holds : (e : Endpoint) → IsKept (Holds e)
unfolding emit
emit-Holds e table ch r t m s _ h =
    if_kept (Holds e) (str_eq m.proto "other") _ _ h
      (emit_ports-Holds m.refuse e table ch r m t s h)

same_row_refl : (e : Endpoint) → same_row e e ≡ true
same_row_refl e = ground (arith, eq_iff e.family e.family, eq_iff e.proto e.proto)

same_row-has_row :
    (e x : Endpoint) (eps : List Endpoint) → same_row e x ≡ true → has_row eps e ≡ has_row eps x
unfolding has_row
same_row-has_row e x [] h = refl
same_row-has_row e x (y ∷ eps) h =
    ground (arith, same_row-has_row e x eps h, eq_iff e.family x.family, eq_iff e.proto x.proto)

add_rows-has_row :
    (es eps : List Endpoint) (e : Endpoint)
    → has_row (add_rows es eps) e ≡ (has_row es e || has_row eps e)
unfolding add_rows has_row
add_rows-has_row [] eps e = refl
add_rows-has_row (x ∷ es) eps e = elim (Bool-cases (has_row eps x)) [
  | inl q ↦ rw q (add_rows-has_row es eps e ∙ ground (arith, same_row-has_row e x eps))
  | inr q ↦
      rw q (add_rows-has_row es (eps ++ (x ∷ [])) e ∙ ground (arith, has_row-append eps (x ∷ []) e))
]

pub keep_rows-Holds :
    (e : Endpoint) (found all : Scan)
    → (Holds e found) ⊎ (Holds e all)
    → Holds e (keep_rows found all)
keep_rows-Holds e found all (inl h) = ground (arith, add_rows-has_row found.eps all.eps e)
keep_rows-Holds e found all (inr h) = ground (arith, add_rows-has_row found.eps all.eps e)

-- Nothing is asked of a scan.
abbrev pub AnyScan : Scan → Type 0
AnyScan s = Unit

pub AnyScan-IsKept : IsKept AnyScan
AnyScan-IsKept table ch r t m s h k = tt
