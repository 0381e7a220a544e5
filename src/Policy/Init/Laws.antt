-- ===== src/Policy/Init/Laws.antt =====
-- internal/policy/init.go: a seeded policy, checked against the verdicts that it was seeded from.
use whyopen.Prelude.{
  ◌≡◌, refl, ap, ◌∙◌, Bool, true, false, ◌&&◌, ◌||◌, List, [], ◌∷◌, arith, select, All, map,
}
use whyopen.Model.Evaluate.Types.{Verdict, VerdictResult, result_eq}
use whyopen.Policy.Types.{Entry, Policy, entry_eq, holds}
use whyopen.Policy.Check.{entry_of, check}
use whyopen.Policy.Check.Laws.{violates, is_dead, describe, seen_in, check-violations, check-stale}
use whyopen.Policy.Types.Laws.{entry_eq_refl, holds-sort_entries, holds-add_once}
use whyopen.Policy.Init.{Seeds, sow, sow_all, init}

sow-allow :
    (k : VerdictResult) (v : Verdict) (st : Seeds) (e : Entry)
    → v.result ≡ k
    → holds (sow k (entry_of v) st).allow e ≡ (
        holds st.allow e || (entry_eq (entry_of v) e && result_eq v.result VerdictResult.reachable))
unfolding sow
sow-allow VerdictResult.reachable v st e h = ground (arith, holds-add_once (entry_of v) st.allow e)
sow-allow _ v st e h = ground arith

sow_all-allow :
    (vs : List Verdict) (st : Seeds) (e : Entry)
    → holds (sow_all vs st).allow e ≡ (holds st.allow e || seen_in vs e VerdictResult.reachable)
unfolding sow_all
sow_all-allow [] st e = ground arith
sow_all-allow (v ∷ vs) st e =
    ground
      (arith, sow_all-allow vs (sow v.result (entry_of v) st) e, sow-allow v.result v st e refl)

-- The allow list of `Init` holds an entry exactly when some verdict shows it reachable.
pub init-allow :
    (vs : List Verdict) (e : Entry)
    → holds (init vs).0.allow e ≡ seen_in vs e VerdictResult.reachable
unfolding init holds
init-allow vs e = holds-sort_entries _ e ∙ sow_all-allow vs _ e

select_none {ℓ} :
    {A : Type ℓ} (p : A → Bool) (xs : List A) → All (λ x. p x ≡ false) xs → select p xs ≡ []
select_none p [] h = refl
select_none p (x ∷ xs) h = ground (arith, select_none p xs)

All-violates_not :
    (p : Policy) (vs : List Verdict)
    → ((e : Entry) → seen_in vs e VerdictResult.reachable ≡ true → holds p.allow e ≡ true)
    → All (λ v. violates p v ≡ false) vs
All-violates_not p [] h = tt
All-violates_not p (v ∷ vs) h = (
  ground (arith, h (entry_of v), entry_eq_refl (entry_of v)),
  All-violates_not p vs λ e s. h e (ground arith),
)

All-holds :
    (es all : List Entry)
    → ((e : Entry) → holds es e ≡ true → holds all e ≡ true)
    → All (λ e. holds all e ≡ true) es
unfolding holds
All-holds [] all h = tt
All-holds (e ∷ es) all h =
    (h e (ground (arith, entry_eq_refl e)), All-holds es all λ x s. h x (ground arith))

All-dead_not :
    (vs : List Verdict) (es all : List Entry)
    → ((e : Entry) → holds all e ≡ seen_in vs e VerdictResult.reachable)
    → All (λ e. holds all e ≡ true) es
    → All (λ e. is_dead vs e ≡ false) es
All-dead_not vs [] all h k = tt
All-dead_not vs (e ∷ es) all h (k, ks) = (ground (arith, h e), All-dead_not vs es all h ks)

-- A policy seeded from a set of verdicts passes on that set: no verdict violates it and none of its
-- entries is stale, whatever warnings come with the run.
pub check-init :
    {W : Type 0} (vs : List Verdict) (unreadable : List W)
    → ((check (init vs).0 vs unreadable).violations ≡ [])
      × ((check (init vs).0 vs unreadable).stale ≡ [])
check-init vs unreadable =
    let p = (init vs).0 in
    (
      check-violations p vs unreadable
          ∙ select_none (violates p) vs (All-violates_not p vs λ e s. init-allow vs e ∙ s),
      check-stale p vs unreadable
          ∙ ap (map (describe vs)) (
              select_none (is_dead vs) p.allow (
                All-dead_not vs p.allow p.allow (init-allow vs)
                  (All-holds p.allow p.allow λ e h. h))),
    )
