-- ===== src/Model/Evaluate/All/Complete.antt =====
-- internal/model/evaluate.go, `Evaluate`: no endpoint and no family that it serves is left out.
use whyopen.Prelude.{
  ◌≡◌, String, Bool, true, false, List, [], ◌∷◌, ◌++◌, All, Any, here, there, if◌then◌else◌, ok,
  Ensures, Ensures-bind, Ensures-ok,
}
use whyopen.Facts.Host.{Sysctls, Facts}
use whyopen.Model.Evaluate.Types.{Endpoint, Verdict}
use whyopen.Model.Evaluate.{Zone}
use whyopen.Model.Evaluate.All.{
  families_for, verdict_lt, insert_verdict, sort_verdicts, evaluate_family, evaluate_families,
  evaluate_endpoints, evaluate,
}
use whyopen.Model.Evaluate.All.Covers.{IsAbout, evaluate_family-IsAbout}

Any-append_left {ℓ} : {A : Type ℓ} (P : A → Type ℓ) (xs ys : List A) → Any P xs → Any P (xs ++ ys)
Any-append_left P [] ys a = elim a [ ]
Any-append_left P (x ∷ xs) ys (here p) = here p
Any-append_left P (x ∷ xs) ys (there a) = there (Any-append_left P xs ys a)

Any-append_right {ℓ} : {A : Type ℓ} (P : A → Type ℓ) (xs ys : List A) → Any P ys → Any P (xs ++ ys)
Any-append_right P [] ys a = a
Any-append_right P (x ∷ xs) ys a = there (Any-append_right P xs ys a)

All-map {ℓ} :
    {A : Type ℓ} (P Q : A → Type ℓ) (xs : List A) → ((x : A) → P x → Q x) → All P xs → All Q xs
All-map P Q [] f h = tt
All-map P Q (x ∷ xs) f (p, h) = (f x p, All-map P Q xs f h)

insert_verdict-Any :
    (P : Verdict → Type 0) (v : Verdict) (vs : List Verdict)
    → Any P (v ∷ vs)
    → Any P (insert_verdict v vs)
unfolding insert_verdict
insert_verdict-Any P v [] a = a
insert_verdict-Any P v (x ∷ xs) a = below (verdict_lt x v) (λ c. insert_verdict-Any P v xs c) a
  where
    below :
        (b : Bool)
        → (Any P (v ∷ xs) → Any P (insert_verdict v xs))
        → Any P (v ∷ x ∷ xs)
        → Any P (if b then x ∷ insert_verdict v xs else v ∷ x ∷ xs)
    below false keep a = a
    below true keep (here p) = there (keep (here p))
    below true keep (there (here p)) = here p
    below true keep (there (there a)) = there (keep (there a))

sort_verdicts-Any : (P : Verdict → Type 0) (vs : List Verdict) → Any P vs → Any P (sort_verdicts vs)
unfolding sort_verdicts
sort_verdicts-Any P [] a = a
sort_verdicts-Any P (v ∷ vs) (here p) = insert_verdict-Any P v (sort_verdicts vs) (here p)
sort_verdicts-Any P (v ∷ vs) (there a) =
    insert_verdict-Any P v (sort_verdicts vs) (there (sort_verdicts-Any P vs a))

-- Every family of the endpoint has its verdict.
abbrev pub FamiliesCovered : Endpoint → List String → List Verdict → Type 0
FamiliesCovered ep fams vs = All (λ fam. Any (IsAbout ep fam) vs) fams

abbrev pub Covered : Sysctls → List Endpoint → List Endpoint → List Verdict → Type 0
Covered sc eps todo vs = All (λ ep. FamiliesCovered ep (families_for ep sc eps) vs) todo

module _ (f : Facts) (zone : Zone) where
  evaluate_families-FamiliesCovered :
      (ep : Endpoint) (fams : List String)
      → Ensures (FamiliesCovered ep fams) (evaluate_families f zone ep fams)
  unfolding evaluate_families
  evaluate_families-FamiliesCovered ep [] = tt
  evaluate_families-FamiliesCovered ep (fam ∷ fams) =
      Ensures-bind (IsAbout ep fam) (FamiliesCovered ep (fam ∷ fams))
        (evaluate_family f zone ep fam) _ (evaluate_family-IsAbout f zone ep fam)
        λ v h.
          Ensures-bind (FamiliesCovered ep fams) (FamiliesCovered ep (fam ∷ fams))
            (evaluate_families f zone ep fams) _ (evaluate_families-FamiliesCovered ep fams)
            λ vs hs. (here h, All-map _ _ fams (λ x a. there a) hs)

  evaluate_endpoints-Covered :
      (eps todo : List Endpoint)
      → Ensures (Covered f.host.sysctls eps todo) (evaluate_endpoints f zone eps todo)
  unfolding evaluate_endpoints
  evaluate_endpoints-Covered eps [] = tt
  evaluate_endpoints-Covered eps (ep ∷ todo) =
      let fams = families_for ep f.host.sysctls eps in
      Ensures-bind (FamiliesCovered ep fams) (Covered f.host.sysctls eps (ep ∷ todo))
        (evaluate_families f zone ep fams) _ (evaluate_families-FamiliesCovered ep fams)
        λ vs h.
          Ensures-bind (Covered f.host.sysctls eps todo) (Covered f.host.sysctls eps (ep ∷ todo))
            (evaluate_endpoints f zone eps todo) (λ rest. ok (vs ++ rest))
            (evaluate_endpoints-Covered eps todo)
            λ rest hs. (
              All-map _ _ fams (λ fam a. Any-append_left _ vs rest a) h,
              All-map _ _ todo
                  (λ x k.
                    All-map _ _ (families_for x f.host.sysctls eps)
                      (λ fam a. Any-append_right _ vs rest a) k)
                  hs,
            )

  -- Every endpoint has, in the result of `Evaluate`, a verdict in each family that `familiesFor` gives
  -- it, and that verdict names the endpoint and the family.
  pub evaluate-Covered :
      (eps : List Endpoint) (vs : List Verdict)
      → evaluate f zone eps ≡ ok vs
      → Covered f.host.sysctls eps eps vs
  unfolding evaluate
  evaluate-Covered eps vs e =
      Ensures-ok (Covered f.host.sysctls eps eps) _
        (Ensures-bind (Covered f.host.sysctls eps eps) (Covered f.host.sysctls eps eps)
          (evaluate_endpoints f zone eps eps) _ (evaluate_endpoints-Covered eps eps)
          λ xs h.
            All-map _ _ eps
              (λ x k.
                All-map _ _ (families_for x f.host.sysctls eps) (λ fam a. sort_verdicts-Any _ xs a)
                  k)
              h)
        e
