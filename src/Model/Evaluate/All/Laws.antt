-- ===== src/Model/Evaluate/All/Laws.antt =====
-- internal/model/evaluate.go, `Evaluate`: it returns on every validated document, and says nothing but
-- unknown where the ruleset could not be read.
use whyopen.Prelude.{
  ◌≡◌, ◌≢◌, refl, ap, ◌∙◌, String, true, none, List, [], ◌∷◌, ◌++◌, arith, All, All-append,
  if◌then◌else◌, panic, ok, ◌>>=◌, >>=-ne-panic,
}
use whyopen.Facts.Validate.{validate}
use whyopen.Facts.Host.{Facts}
use whyopen.Model.Evaluate.Types.{Endpoint, VerdictResult, Why, Verdict}
use whyopen.Model.Evaluate.{Zone, verdict, evaluate_one}
use whyopen.Model.Evaluate.Safety.{evaluate_one-ne-panic}
use whyopen.Model.Evaluate.All.{
  families_for, insert_verdict, sort_verdicts, evaluate_family, evaluate_families,
  evaluate_endpoints, evaluate,
}

insert_verdict-All :
    (P : Verdict → Type 0) (v : Verdict) (vs : List Verdict)
    → P v
    → All P vs
    → All P (insert_verdict v vs)
unfolding insert_verdict
insert_verdict-All P v [] p h = (p, tt)
insert_verdict-All P v (x ∷ xs) p (q, h) = ground (arith, insert_verdict-All P v xs)

sort_verdicts-All : (P : Verdict → Type 0) (vs : List Verdict) → All P vs → All P (sort_verdicts vs)
unfolding sort_verdicts
sort_verdicts-All P [] h = tt
sort_verdicts-All P (v ∷ vs) (p, h) = insert_verdict-All P v _ p (sort_verdicts-All P vs h)

module _ (f : Facts) (zone : Zone) (valid : validate f.rules ≡ none) where
  evaluate_family-ne-panic : (ep : Endpoint) (fam : String) → evaluate_family f zone ep fam ≢ panic
  unfolding evaluate_family
  evaluate_family-ne-panic ep fam = ground (arith, evaluate_one-ne-panic f zone ep fam valid)

  evaluate_families-ne-panic :
      (ep : Endpoint) (fams : List String) → evaluate_families f zone ep fams ≢ panic
  unfolding evaluate_families
  evaluate_families-ne-panic ep [] = ground arith
  evaluate_families-ne-panic ep (fam ∷ fams) =
      >>=-ne-panic _ _ (evaluate_family-ne-panic ep fam)
        λ v _. >>=-ne-panic _ _ (evaluate_families-ne-panic ep fams) λ vs _. ground arith

  evaluate_endpoints-ne-panic :
      (eps todo : List Endpoint) → evaluate_endpoints f zone eps todo ≢ panic
  unfolding evaluate_endpoints
  evaluate_endpoints-ne-panic eps [] = ground arith
  evaluate_endpoints-ne-panic eps (ep ∷ todo) =
      >>=-ne-panic _ _ (evaluate_families-ne-panic ep (families_for ep f.host.sysctls eps)) λ vs _.
        >>=-ne-panic _ (λ rest. ok (vs ++ rest)) (evaluate_endpoints-ne-panic eps todo)
          λ rest _. ground arith

  -- On a document that `Validate` accepts `Evaluate` returns, whatever the endpoints.
  pub evaluate-ne-panic : (eps : List Endpoint) → evaluate f zone eps ≢ panic
  unfolding evaluate
  evaluate-ne-panic eps =
      >>=-ne-panic _ _ (evaluate_endpoints-ne-panic eps eps) λ vs _. ground arith

module _ (f : Facts) (zone : Zone) (unread : f.rules.read_failed ≡ true) where
  abbrev AllUnknown : List Verdict → Type 0
  AllUnknown vs = All (λ v. v.result ≡ VerdictResult.unknown) vs

  unread_verdict : Endpoint → String → Verdict
  unread_verdict ep fam = verdict f zone ep fam VerdictResult.unknown Why.ruleset_unreadable [] none

  evaluate_family-unread :
      (ep : Endpoint) (fam : String) → evaluate_family f zone ep fam ≡ ok (unread_verdict ep fam)
  unfolding evaluate_family unread_verdict
  evaluate_family-unread ep fam =
      ap (λ b. if b then ok (unread_verdict ep fam) else evaluate_one f zone ep fam) unread

  evaluate_families-AllUnknown :
      (ep : Endpoint) (fams : List String)
      → (vs : List Verdict) × (evaluate_families f zone ep fams ≡ ok vs) × AllUnknown vs
  unfolding evaluate_families unread_verdict verdict
  evaluate_families-AllUnknown ep [] = ([], refl, tt)
  evaluate_families-AllUnknown ep (fam ∷ fams) =
      let (vs, e, h) = evaluate_families-AllUnknown ep fams in
      let v = unread_verdict ep fam in
      (
        v ∷ vs,
        ap (λ m. m >>= λ x. evaluate_families f zone ep fams >>= λ xs. ok (x ∷ xs))
              (evaluate_family-unread ep fam)
            ∙ ap (λ m. m >>= λ xs. ok (v ∷ xs)) e,
        (refl, h),
      )

  evaluate_endpoints-AllUnknown :
      (eps todo : List Endpoint)
      → (vs : List Verdict) × (evaluate_endpoints f zone eps todo ≡ ok vs) × AllUnknown vs
  unfolding evaluate_endpoints
  evaluate_endpoints-AllUnknown eps [] = ([], refl, tt)
  evaluate_endpoints-AllUnknown eps (ep ∷ todo) =
      let (xs, d, g) = evaluate_families-AllUnknown ep (families_for ep f.host.sysctls eps) in
      let (ys, e, h) = evaluate_endpoints-AllUnknown eps todo in
      (
        xs ++ ys,
        ap (λ m. m >>= λ us. evaluate_endpoints f zone eps todo >>= λ rest. ok (us ++ rest)) d
            ∙ ap (λ m. m >>= λ rest. ok (xs ++ rest)) e,
        All-append _ xs ys g h,
      )

  -- Where the ruleset could not be read, `Evaluate` returns on any document and endpoints, and every
  -- verdict is unknown.
  pub evaluate-AllUnknown :
      (eps : List Endpoint)
      → (vs : List Verdict) × (evaluate f zone eps ≡ ok vs)
        × All (λ v. v.result ≡ VerdictResult.unknown) vs
  unfolding evaluate
  evaluate-AllUnknown eps =
      let (xs, e, h) = evaluate_endpoints-AllUnknown eps eps in
      (sort_verdicts xs, ap (λ m. m >>= λ vs. ok (sort_verdicts vs)) e, sort_verdicts-All _ xs h)
