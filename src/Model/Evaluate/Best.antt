-- ===== src/Model/Evaluate/Best.antt =====
-- internal/model/evaluate.go, `evaluateOne`: which of the candidates' verdicts stands.
use whyopen.Prelude.{
  ℕ, ◌≤◌, ◌≡◌, refl, true, false, List, [], ◌∷◌, arith, ltb, All, Any, here, there, inl, inr,
  Bool-cases, subst, ap, sym, ok, ◌>>=◌, >>=-eq-ok, Ensures-ok, ◌↔◌, ◌⊎◌, ◌≢◌, ◌∙◌, String,
}
use whyopen.Facts.Host.{Facts}
use whyopen.Model.Evaluate.Types.{VerdictResult, Endpoint, Verdict}
use whyopen.Model.Evaluate.Lookups.{PubAddr, bind_covers, public_addrs}
use whyopen.Model.Evaluate.{
  Zone, result_rank, best_of, verdict, evaluate_at_destination, evaluate_candidates, pick,
  from_candidates, evaluate_one,
}

abbrev rank : Verdict → ℕ
rank v = result_rank v.result

rank_start-le : (v : Verdict) (vs : List Verdict) → rank v ≤ rank (best_of v vs)
unfolding best_of
rank_start-le v [] = omega arith
rank_start-le v (w ∷ ws) = ground (arith, rank_start-le v ws, rank_start-le w ws)

best_of-better :
    (v w : Verdict) (ws : List Verdict)
    → ltb (rank v) (rank w) ≡ true
    → best_of w ws ≡ best_of v (w ∷ ws)
unfolding best_of
best_of-better v w ws h = rw h refl

best_of-no_better :
    (v w : Verdict) (ws : List Verdict)
    → ltb (rank v) (rank w) ≡ false
    → best_of v ws ≡ best_of v (w ∷ ws)
unfolding best_of
best_of-no_better v w ws h = rw h refl

rank-le-best_of : (v : Verdict) (vs : List Verdict) → All (λ w. rank w ≤ rank (best_of v vs)) vs
rank-le-best_of v [] = tt
rank-le-best_of v (w ∷ ws) = elim (Bool-cases (ltb (rank v) (rank w))) [
  | inl better ↦
      subst (λ b. All (λ x. rank x ≤ rank b) (w ∷ ws)) (best_of-better v w ws better)
        (rank_start-le w ws, rank-le-best_of w ws)
  | inr as_good ↦
      subst (λ b. All (λ x. rank x ≤ rank b) (w ∷ ws)) (best_of-no_better v w ws as_good)
        (ground (arith, rank_start-le v ws), rank-le-best_of v ws)
]

skip_second {ℓ} :
    {A : Type ℓ} {P : A → Type ℓ} {x y : A} {xs : List A} → Any P (x ∷ xs) → Any P (x ∷ y ∷ xs)
skip_second (here p) = here p
skip_second (there a) = there (there a)

best_of-Any : (v : Verdict) (vs : List Verdict) → Any (λ w. w ≡ best_of v vs) (v ∷ vs)
unfolding best_of
best_of-Any v [] = here refl
best_of-Any v (w ∷ ws) = elim (Bool-cases (ltb (rank v) (rank w))) [
  | inl better ↦
      subst (λ b. Any (λ x. x ≡ b) (v ∷ w ∷ ws)) (best_of-better v w ws better)
        (there (best_of-Any w ws))
  | inr as_good ↦
      subst (λ b. Any (λ x. x ≡ b) (v ∷ w ∷ ws)) (best_of-no_better v w ws as_good)
        (skip_second (best_of-Any v ws))
]

best_of-strongest :
    (v : Verdict) (vs : List Verdict)
    → Any (λ w. w ≡ best_of v vs) (v ∷ vs)
      × All (λ w. result_rank w.result ≤ result_rank (best_of v vs).result) (v ∷ vs)
best_of-strongest v vs = (best_of-Any v vs, (rank_start-le v vs, rank-le-best_of v vs))

-- Some verdict has this result.
abbrev HasResult : VerdictResult → List Verdict → Type 0
HasResult r vs = Any (λ w. w.result ≡ r) vs

Any-map {ℓ κ μ} :
    {A : Type ℓ} {P : A → Type κ} {Q : A → Type μ}
    → ((a : A) → P a → Q a)
    → (xs : List A) → Any P xs
    → Any Q xs
Any-map f [] a = elim a [ ]
Any-map f (x ∷ xs) (here p) = here (f x p)
Any-map f (x ∷ xs) (there a) = there (Any-map f xs a)

Any-All {ℓ κ μ} :
    {A : Type ℓ} {P : A → Type κ} {Q : A → Type μ} (xs : List A)
    → Any P xs
    → All Q xs
    → (a : A) × P a × Q a
Any-All [] a h = elim a [ ]
Any-All (x ∷ xs) (here p) (q, qs) = (x, p, q)
Any-All (x ∷ xs) (there a) (q, qs) = Any-All xs a qs

-- Nothing beats reachable, and only reachable beats unknown.
reachable_tops :
    (a b : VerdictResult)
    → a ≡ VerdictResult.reachable
    → result_rank a ≤ result_rank b
    → b ≡ VerdictResult.reachable
unfolding result_rank
reachable_tops a VerdictResult.reachable h k = refl
reachable_tops a VerdictResult.unknown h k = absurd (ground (arith, ap result_rank h))
reachable_tops a VerdictResult.filtered h k = absurd (ground (arith, ap result_rank h))

unknown_tops :
    (a b : VerdictResult)
    → a ≡ VerdictResult.unknown
    → result_rank a ≤ result_rank b
    → b ≢ VerdictResult.reachable
    → b ≡ VerdictResult.unknown
unfolding result_rank
unknown_tops a VerdictResult.reachable h k n = absurd (n refl)
unknown_tops a VerdictResult.unknown h k n = refl
unknown_tops a VerdictResult.filtered h k n = absurd (ground (arith, ap result_rank h))

-- A verdict whose result is the strongest of these.
abbrev IsStrongest : Verdict → List Verdict → Type 0
IsStrongest v vs =
    (v.result ≡ VerdictResult.reachable ↔ HasResult VerdictResult.reachable vs)
    × (v.result ≡ VerdictResult.unknown
        ↔ (HasResult VerdictResult.unknown vs × (¬ HasResult VerdictResult.reachable vs)))

stands-IsStrongest :
    (b : Verdict) (vs : List Verdict)
    → Any (λ w. w ≡ b) vs
    → All (λ w. rank w ≤ rank b) vs
    → IsStrongest b vs
stands-IsStrongest b vs one top =
    let has : (r : VerdictResult) → b.result ≡ r → HasResult r vs =
      λ r h. Any-map (λ w e. ap (λ x. x.result) e ∙ h) vs one in
    let tops : HasResult VerdictResult.reachable vs → b.result ≡ VerdictResult.reachable =
      λ a. let (w, p, q) = Any-All vs a top in reachable_tops w.result b.result p q in
    (
      (has VerdictResult.reachable, tops),
      (
        λ h. (has VerdictResult.unknown h, λ a. ground (arith, tops a)),
        λ h.
            let (w, p, q) = Any-All vs h.0 top in
            unknown_tops w.result b.result p q λ e. h.1 (has VerdictResult.reachable e),
      ),
    )

module _ (f : Facts) (zone : Zone) (ep : Endpoint) (family : String) where
  -- The endpoint is bound to this address, and the verdict at it has this result.
  abbrev pub AtIs : VerdictResult → PubAddr → Type 0
  AtIs r c =
      (w : Verdict) × (bind_covers ep.bind_ip c.ip ≡ true)
      × (evaluate_at_destination f zone ep family c ≡ ok w)
      × (w.result ≡ r)

  pick-IsStrongest : (vs : List Verdict) → IsStrongest (pick f zone ep family vs) vs
  unfolding pick verdict
  pick-IsStrongest [] =
      ((λ h. ground arith, λ a. elim a [ ]), (λ h. ground arith, λ h. elim h.0 [ ]))
  pick-IsStrongest (v ∷ vs) =
      stands-IsStrongest (best_of v vs) (v ∷ vs) (best_of-strongest v vs).0
        (best_of-strongest v vs).1

  cons_bound :
      (r : VerdictResult) (c : PubAddr) (cs : List PubAddr) (w : Verdict) (ws : List Verdict)
      → bind_covers ep.bind_ip c.ip ≡ true
      → evaluate_at_destination f zone ep family c ≡ ok w
      → HasResult r ws ↔ Any (AtIs r) cs
      → HasResult r (w ∷ ws) ↔ Any (AtIs r) (c ∷ cs)
  cons_bound r c cs w ws bound e h = (
    λ a. elim a [ here p ↦ here (w, bound, e, p) | there q ↦ there (h.0 q) ],
    λ a. elim a [
      | here p ↦
          let (u, b, e', k) = p in here (Ensures-ok (λ x. x.result ≡ r) (ok u) k (sym e' ∙ e))
      | there q ↦ there (h.1 q)
    ],
  )

  cons_unbound :
      (r : VerdictResult) (c : PubAddr) (cs : List PubAddr) (vs : List Verdict)
      → bind_covers ep.bind_ip c.ip ≡ false
      → HasResult r vs ↔ Any (AtIs r) cs
      → HasResult r vs ↔ Any (AtIs r) (c ∷ cs)
  cons_unbound r c cs vs unbound h = (
    λ a. there (h.0 a),
    λ a. elim a [ here p ↦ let (u, b, e, k) = p in absurd (ground arith) | there q ↦ h.1 q ],
  )

  evaluate_candidates-bound :
      (c : PubAddr) (cs : List PubAddr)
      → bind_covers ep.bind_ip c.ip ≡ true
      → evaluate_candidates f zone ep family (c ∷ cs) ≡ (
          evaluate_at_destination f zone ep family c >>= λ v.
          evaluate_candidates f zone ep family cs >>= λ vs. ok (v ∷ vs))
  unfolding evaluate_candidates
  evaluate_candidates-bound c cs h = rw h refl

  evaluate_candidates-unbound :
      (c : PubAddr) (cs : List PubAddr)
      → bind_covers ep.bind_ip c.ip ≡ false
      → evaluate_candidates f zone ep family (c ∷ cs) ≡ evaluate_candidates f zone ep family cs
  unfolding evaluate_candidates
  evaluate_candidates-unbound c cs h = rw h refl

  -- The verdicts of the candidates are those at the addresses that the endpoint is bound to.
  evaluate_candidates-AtIs :
      (r : VerdictResult) (cs : List PubAddr) (vs : List Verdict)
      → evaluate_candidates f zone ep family cs ≡ ok vs
      → HasResult r vs ↔ Any (AtIs r) cs
  unfolding evaluate_candidates
  evaluate_candidates-AtIs r [] vs h =
      Ensures-ok (λ ws. HasResult r ws ↔ Any (AtIs r) []) (ok []) (λ a. elim a [ ], λ a. elim a [ ])
        h
  evaluate_candidates-AtIs r (c ∷ cs) vs h = elim (Bool-cases (bind_covers ep.bind_ip c.ip)) [
    | inl bound ↦
        let h' = sym (evaluate_candidates-bound c cs bound) ∙ h in
        let (w, e, k) = >>=-eq-ok (evaluate_at_destination f zone ep family c) _ h' in
        let (ws, e', k') = >>=-eq-ok (evaluate_candidates f zone ep family cs) _ k in
        Ensures-ok (λ us. HasResult r us ↔ Any (AtIs r) (c ∷ cs)) (ok (w ∷ ws))
          (cons_bound r c cs w ws bound e (evaluate_candidates-AtIs r cs ws e')) k'
    | inr unbound ↦
        cons_unbound r c cs vs unbound
          (evaluate_candidates-AtIs r cs vs (sym (evaluate_candidates-unbound c cs unbound) ∙ h))
  ]

  abbrev StandsFor : List PubAddr → Verdict → Type 0
  StandsFor cs v =
      (v.result ≡ VerdictResult.reachable ↔ Any (AtIs VerdictResult.reachable) cs)
      × (v.result ≡ VerdictResult.unknown ↔ (
          (cs ≡ [])
          ⊎ (Any (AtIs VerdictResult.unknown) cs × (¬ Any (AtIs VerdictResult.reachable) cs))))

  strongest-StandsFor :
      (c : PubAddr) (cs : List PubAddr) (vs : List Verdict) (v : Verdict)
      → ((r : VerdictResult) → HasResult r vs ↔ Any (AtIs r) (c ∷ cs))
      → IsStrongest v vs
      → StandsFor (c ∷ cs) v
  strongest-StandsFor c cs vs v same (reach, unk) = (
    (
      λ e. (same VerdictResult.reachable).0 (reach.0 e),
      λ a. reach.1 ((same VerdictResult.reachable).1 a),
    ),
    (
      λ e. inr (
        (same VerdictResult.unknown).0 (unk.0 e).0,
        λ a. (unk.0 e).1 ((same VerdictResult.reachable).1 a),
      ),
      λ o. elim o [
        | inl e ↦ absurd (ground arith)
        | inr k ↦
            unk.1
              ((same VerdictResult.unknown).1 k.0, λ a. k.1 ((same VerdictResult.reachable).0 a))
      ],
    ),
  )

  from_candidates-StandsFor :
      (cs : List PubAddr) (v : Verdict)
      → from_candidates f zone ep family cs ≡ ok v
      → StandsFor cs v
  unfolding from_candidates verdict
  from_candidates-StandsFor [] v h =
      Ensures-ok (StandsFor []) _ ((λ e. ground arith, λ a. elim a [ ]), (λ e. inl refl, λ o. refl))
        h
  from_candidates-StandsFor (c ∷ cs) v h =
      let (vs, e, k) = >>=-eq-ok (evaluate_candidates f zone ep family (c ∷ cs)) _ h in
      Ensures-ok (StandsFor (c ∷ cs)) (ok (pick f zone ep family vs))
        (strongest-StandsFor c cs vs (pick f zone ep family vs)
          (λ r. evaluate_candidates-AtIs r (c ∷ cs) vs e) (pick-IsStrongest vs))
        k

  -- An endpoint is reachable exactly when it is reachable at one of the public addresses that it is bound
  -- to. It is unknown exactly when the host has no public address of the family, or the endpoint is
  -- unknown at one that it is bound to and reachable at none. Otherwise it is filtered.
  pub evaluate_one-strongest :
      (v : Verdict)
      → evaluate_one f zone ep family ≡ ok v
      → (v.result ≡ VerdictResult.reachable
          ↔ Any (AtIs VerdictResult.reachable) (public_addrs family f.host.interfaces))
        × (v.result ≡ VerdictResult.unknown ↔ (
            (public_addrs family f.host.interfaces ≡ [])
            ⊎ (Any (AtIs VerdictResult.unknown) (public_addrs family f.host.interfaces)
                × (¬ Any (AtIs VerdictResult.reachable) (public_addrs family f.host.interfaces)))))
  unfolding evaluate_one
  evaluate_one-strongest v h = from_candidates-StandsFor (public_addrs family f.host.interfaces) v h
