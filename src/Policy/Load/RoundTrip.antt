-- ===== src/Policy/Load/RoundTrip.antt =====
-- internal/policy/policy.go: a policy whose entries are printed is loaded as it was.
use whyopen.Prelude.{
  ◌≡◌, refl, sym, ap, ◌∙◌, subst, some, List, [], ◌∷◌, ◌++◌, arith, All, map, append_nil,
  append_assoc, pos, eq_iff, false,
}
use whyopen.Prelude.Fallible.{returned, ◌>>=◌, wrap}
use whyopen.Model.Evaluate.Types.{Verdict, VerdictResult}
use whyopen.Policy.Types.{Entry, Policy, add_once, holds, sort_entries}
use whyopen.Policy.Types.Laws.{
  IsValid, IsAscending, IsDistinct, sort_entries_ascending, sort_entries-IsAscending,
  All-sort_entries, All-add_once, add_once-IsDistinct, IsAscending-IsDistinct, holds-append,
}
use whyopen.Policy.Check.{entry_of}
use whyopen.Policy.Init.{Seeds, sow, sow_all, init}
use whyopen.Policy.Load.{entry_string, Document, LoadError, load_allow, load_zones, load, zone_name}
use whyopen.Policy.Load.Laws.{parse_entry-entry_string}

-- The document that names the entries of a policy by their text.
abbrev pub document_of : Policy → Document
document_of p = record {
  version = some (pos 1);
  zones = (zone_name, map entry_string p.allow) ∷ [];
  fail_on_unknown = p.fail_on_unknown;
}

holds_before : (xs ys : List Entry) (y : Entry) → IsDistinct (xs ++ (y ∷ ys)) → holds xs y ≡ false
unfolding holds
holds_before [] ys y d = refl
holds_before (x ∷ xs) ys y (d, ds) = ground (
  arith,
  holds_before xs ys y ds,
  holds-append xs (y ∷ ys) x,
  eq_iff x.proto y.proto,
  eq_iff y.proto x.proto,
)

add_once_new : (e : Entry) (xs : List Entry) → holds xs e ≡ false → add_once e xs ≡ xs ++ (e ∷ [])
add_once_new e xs h = rw h refl

load_allow-entry_string :
    (xs allow : List Entry)
    → All IsValid xs
    → IsDistinct (allow ++ xs)
    → load_allow (map entry_string xs) allow ≡ returned (allow ++ xs)
unfolding load_allow
load_allow-entry_string [] allow h d = ap returned (sym (append_nil allow))
load_allow-entry_string (x ∷ xs) allow (h, hs) d =
    ap
      (λ m. wrap LoadError.bad_entry m >>= λ e. load_allow (map entry_string xs) (add_once e allow))
      (parse_entry-entry_string x h)
    ∙ ap (load_allow (map entry_string xs)) (add_once_new x allow (holds_before allow xs x d))
    ∙ load_allow-entry_string xs (allow ++ (x ∷ [])) hs
        (subst IsDistinct (sym (append_assoc allow (x ∷ []) xs)) d)
    ∙ ap returned (append_assoc allow (x ∷ []) xs)

-- A policy whose entries are valid and in ascending order is loaded as it was from the document that
-- names each of them by its text.
pub load-document_of :
    (p : Policy) → All IsValid p.allow → IsAscending p.allow → load (document_of p) ≡ returned p
unfolding load load_zones
load-document_of p h a =
    ap
      (λ m. m >>= load_zones [] >>= λ allow.
        returned (record { allow = sort_entries allow; fail_on_unknown = p.fail_on_unknown }))
      (load_allow-entry_string p.allow [] h (IsAscending-IsDistinct p.allow h a))
    ∙ ap (λ allow. returned (record { allow = allow; fail_on_unknown = p.fail_on_unknown }))
        (sort_entries_ascending p.allow h a)

sow_kept :
    (k : VerdictResult) (v : Verdict) (st : Seeds)
    → IsValid (entry_of v)
    → All IsValid st.allow × IsDistinct st.allow
    → All IsValid (sow k (entry_of v) st).allow × IsDistinct (sow k (entry_of v) st).allow
unfolding sow
sow_kept VerdictResult.reachable v st h (k, d) =
    (All-add_once IsValid (entry_of v) st.allow h k, add_once-IsDistinct (entry_of v) st.allow d)
sow_kept VerdictResult.unknown v st h k = k
sow_kept VerdictResult.filtered v st h k = k

sow_all_kept :
    (vs : List Verdict) (st : Seeds)
    → All (λ v. IsValid (entry_of v)) vs
    → All IsValid st.allow × IsDistinct st.allow
    → All IsValid (sow_all vs st).allow × IsDistinct (sow_all vs st).allow
unfolding sow_all
sow_all_kept [] st h k = k
sow_all_kept (v ∷ vs) st (h, hs) k = sow_all_kept vs _ hs (sow_kept v.result v st h k)

-- What `init` seeds from verdicts on ports from 1 to 65535 of tcp or udp is loaded as it was, from the
-- document that names its entries by their text.
pub load-init :
    (vs : List Verdict)
    → All (λ v. IsValid (entry_of v)) vs
    → load (document_of (init vs).0) ≡ returned (init vs).0
unfolding init
load-init vs h =
    let (valid, distinct) = sow_all_kept vs (record { allow = []; unknown = [] }) h (tt, tt) in
    load-document_of _ (All-sort_entries IsValid _ valid)
      (sort_entries-IsAscending _ valid distinct)
