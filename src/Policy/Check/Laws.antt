-- ===== src/Policy/Check/Laws.antt =====
-- internal/policy/check.go: what a policy run finds, and what it leaves out.
use whyopen.Prelude.{
  ◌≡◌, refl, sym, ap, ◌∙◌, Bool, ◌&&◌, ◌||◌, not, none, some, List, [], ◌∷◌, ◌++◌, arith, any,
  select, append_nil, append_assoc, select-cons, map, if◌then◌else◌,
}
use whyopen.Model.Evaluate.Types.{Verdict, VerdictResult, result_eq}
use whyopen.Policy.Types.{Entry, Policy, entry_eq, holds}
use whyopen.Policy.Check.{
  Stale, Progress, Seen, entry_of, see, judge, judge_all, stale_entries, nothing_yet, check,
}

-- A reachable port that the allow list does not name.
abbrev pub violates : Policy → Verdict → Bool
violates p v = result_eq v.result VerdictResult.reachable && not (holds p.allow (entry_of v))

abbrev pub is_unknown : Verdict → Bool
is_unknown v = result_eq v.result VerdictResult.unknown

-- Some verdict of the set has this entry and this result.
abbrev pub seen_in : List Verdict → Seen
seen_in vs e r = any (λ v. entry_eq (entry_of v) e && result_eq v.result r) vs

judge-violations :
    (k : VerdictResult) (p : Policy) (v : Verdict) (st : Progress)
    → v.result ≡ k
    → (judge k p v st).violations ≡ st.violations ++ select (violates p) (v ∷ [])
unfolding judge
judge-violations VerdictResult.reachable p v st h = ground (arith, append_nil st.violations)
judge-violations _ p v st h = ground (arith, append_nil st.violations)

judge-unknown :
    (k : VerdictResult) (p : Policy) (v : Verdict) (st : Progress)
    → v.result ≡ k
    → (judge k p v st).unknown ≡ st.unknown ++ select is_unknown (v ∷ [])
unfolding judge
judge-unknown VerdictResult.reachable p v st h = ground (arith, append_nil st.unknown)
judge-unknown _ p v st h = ground (arith, append_nil st.unknown)

judge-seen :
    (k : VerdictResult) (p : Policy) (v : Verdict) (st : Progress) → (judge k p v st).seen ≡ st.seen
unfolding judge
judge-seen VerdictResult.reachable p v st = ground arith
judge-seen _ p v st = refl

see_all : List Verdict → Seen → Seen
see_all [] seen = seen
see_all (v ∷ vs) seen = see_all vs (see seen (entry_of v) v.result)

-- Where one step appends a selection of one verdict, the loop appends that of all.
append_selected :
    (keep : Verdict → Bool) (v : Verdict) (vs before after whole : List Verdict)
    → after ≡ before ++ select keep (v ∷ [])
    → whole ≡ after ++ select keep vs
    → whole ≡ before ++ select keep (v ∷ vs)
append_selected keep v vs before after whole h k =
    k
    ∙ ap (λ l. l ++ select keep vs) h
    ∙ append_assoc before (select keep (v ∷ [])) (select keep vs)
    ∙ ap (λ l. before ++ l) (select-cons keep v vs)

judge_all-violations :
    (p : Policy) (vs : List Verdict) (st : Progress)
    → (judge_all p vs st).violations ≡ st.violations ++ select (violates p) vs
unfolding judge_all
judge_all-violations p [] st = sym (append_nil st.violations)
judge_all-violations p (v ∷ vs) st =
    append_selected (violates p) v vs st.violations _ _ (judge-violations v.result p v _ refl)
      (judge_all-violations p vs _)

judge_all-unknown :
    (p : Policy) (vs : List Verdict) (st : Progress)
    → (judge_all p vs st).unknown ≡ st.unknown ++ select is_unknown vs
unfolding judge_all
judge_all-unknown p [] st = sym (append_nil st.unknown)
judge_all-unknown p (v ∷ vs) st =
    append_selected is_unknown v vs st.unknown _ _ (judge-unknown v.result p v _ refl)
      (judge_all-unknown p vs _)

judge_all-seen :
    (p : Policy) (vs : List Verdict) (st : Progress) (e : Entry) (r : VerdictResult)
    → (judge_all p vs st).seen e r ≡ (seen_in vs e r || st.seen e r)
unfolding judge_all
judge_all-seen p [] st e r = refl
judge_all-seen p (v ∷ vs) st e r =
    judge_all-seen p vs (judge v.result p v _) e r
    ∙ ap (λ s. seen_in vs e r || s e r) (judge-seen v.result p v _)
    ∙ ground arith

-- What the report says of an entry that nothing reachable or undecided matched.
abbrev pub describe : List Verdict → Entry → Stale
describe vs e = record {
  entry = e;
  found = if seen_in vs e VerdictResult.filtered then some VerdictResult.filtered else none;
}

abbrev pub is_dead : List Verdict → Entry → Bool
is_dead vs e = not (seen_in vs e VerdictResult.reachable || seen_in vs e VerdictResult.unknown)

stale_entries-eq :
    (seen : Seen) (vs : List Verdict) (es : List Entry)
    → ((e : Entry) (r : VerdictResult) → seen e r ≡ seen_in vs e r)
    → stale_entries seen es ≡ map (describe vs) (select (is_dead vs) es)
unfolding stale_entries
stale_entries-eq seen vs [] h = refl
stale_entries-eq seen vs (e ∷ es) h = ground (
  arith,
  stale_entries-eq seen vs es h,
  h e VerdictResult.reachable,
  h e VerdictResult.unknown,
  h e VerdictResult.filtered,
)

module _ {W : Type 0} (p : Policy) (vs : List Verdict) (unreadable : List W) where
  -- The violations are the reachable verdicts whose port and protocol the allow list does not name,
  -- each of them once and in the order of the verdicts, whatever the others are.
  pub check-violations : (check p vs unreadable).violations ≡ select (violates p) vs
  unfolding check
  check-violations = judge_all-violations p vs nothing_yet

  -- The unknown verdicts are handed on, all of them and in order.
  pub check-unknown : (check p vs unreadable).unknown ≡ select is_unknown vs
  unfolding check
  check-unknown = judge_all-unknown p vs nothing_yet

  -- The stale entries are the allowed ones that no verdict of the whole set shows reachable or
  -- unknown, in the order of the allow list; each says whether a verdict shows it filtered.
  pub check-stale : (check p vs unreadable).stale ≡ map (describe vs) (select (is_dead vs) p.allow)
  unfolding check
  check-stale =
      stale_entries-eq (judge_all p vs nothing_yet).seen vs p.allow
        λ e r. judge_all-seen p vs nothing_yet e r ∙ ground arith
