-- ===== src/Model/Evaluate/Endpoints/Laws.antt =====
-- internal/model/evaluate.go, `endpoints`: which endpoint stands at a key, and that each is evaluated.
use whyopen.Prelude.{
  ◌≡◌, refl, sym, ap, subst, ◌∙◌, String, Bool, true, false, not, Option, none, some, List, [], ◌∷◌,
  ◌++◌, if◌then◌else◌, All, select, arith, Bool-cases, inl, inr, str_eq, eq_iff, Go-cases, ok,
  ◌>>=◌, map,
}
use whyopen.Facts.Host.{Facts}
use whyopen.Facts.Validate.{validate}
use whyopen.Model.Evaluate.Types.{Endpoint, Verdict}
use whyopen.Model.Evaluate.{Zone}
use whyopen.Model.Evaluate.All.{families_for, evaluate}
use whyopen.Model.Evaluate.All.Laws.{evaluate-ne-panic}
use whyopen.Model.Evaluate.All.Complete.{FamiliesCovered, evaluate-Covered}
use whyopen.Model.Forwards.{forwards}
use whyopen.Model.Forwards.Exprs.{Scan}
use whyopen.Model.Forwards.Fields.{if_kept}
use whyopen.Model.Forwards.Laws.{forwards-AreRows}
use whyopen.Model.Evaluate.Endpoints.{
  key, socket_endpoint, published, put, put_all, reported, put_forwards, own_endpoints, endpoints,
  evaluate_document,
}

-- The endpoint at a key.
abbrev pub at_key : String → List Endpoint → Option Endpoint
at_key k [] = none
at_key k (x ∷ xs) = if str_eq (key x) k then some x else at_key k xs

abbrev or_last : Option Endpoint → Option Endpoint → Option Endpoint
or_last none rest = rest
or_last (some a) rest = some a

-- The last of the endpoints with a key, which is the one that a map keeps.
abbrev pub last_at : String → List Endpoint → Option Endpoint
last_at k [] = none
last_at k (x ∷ xs) = or_last (last_at k xs) (if str_eq (key x) k then some x else none)

at_key-put :
    (k : String) (e : Endpoint) (eps : List Endpoint)
    → at_key k (put e eps) ≡ (if str_eq (key e) k then some e else at_key k eps)
unfolding put
at_key-put k e [] = refl
at_key-put k e (x ∷ xs) = elim (Bool-cases (str_eq (key x) (key e))) [
  | inl q ↦ rw q (ground (arith, q, eq_iff (key x) (key e), eq_iff (key x) k, eq_iff (key e) k))
  | inr q ↦ rw q (
      ground
        (arith, at_key-put k e xs, q, eq_iff (key x) (key e), eq_iff (key x) k, eq_iff (key e) k))
]

or_last_step :
    (o : Option Endpoint) (c : Bool) (e : Endpoint) (r q : Option Endpoint)
    → q ≡ (if c then some e else r)
    → or_last o q ≡ or_last (or_last o (if c then some e else none)) r
or_last_step (some a) c e r q h = refl
or_last_step none true e r q h = h
or_last_step none false e r q h = h

or_last_none : (o : Option Endpoint) → o ≡ or_last o none
or_last_none none = refl
or_last_none (some a) = refl

at_key-put_all :
    (k : String) (es eps : List Endpoint)
    → at_key k (put_all es eps) ≡ or_last (last_at k es) (at_key k eps)
unfolding put_all
at_key-put_all k [] eps = refl
at_key-put_all k (e ∷ es) eps =
    at_key-put_all k es (put e eps)
    ∙ or_last_step (last_at k es) (str_eq (key e) k) e (at_key k eps) _ (at_key-put k e eps)

put_forwards-select :
    (own es eps : List Endpoint)
    → put_forwards own es eps ≡ put_all (select (λ e. not (reported own e)) es) eps
unfolding put_forwards put_all
put_forwards-select own [] eps = refl
put_forwards-select own (e ∷ es) eps = elim (Bool-cases (reported own e)) [
  | inl q ↦ rw q (put_forwards-select own es eps)
  | inr q ↦ rw q (put_forwards-select own es (put e eps))
]

or_last_assoc : (a b c : Option Endpoint) → or_last (or_last a b) c ≡ or_last a (or_last b c)
or_last_assoc none b c = refl
or_last_assoc (some x) b c = refl

last_at-append :
    (k : String) (xs ys : List Endpoint)
    → last_at k (xs ++ ys) ≡ or_last (last_at k ys) (last_at k xs)
last_at-append k [] ys = or_last_none (last_at k ys)
last_at-append k (x ∷ xs) ys =
    ap (λ o. or_last o (if str_eq (key x) k then some x else none)) (last_at-append k xs ys)
    ∙ or_last_assoc (last_at k ys) (last_at k xs) _

-- Every endpoint that a document names, in the order in which they come: the sockets, the publishes, and
-- the forwarded ports that none of these reports.
abbrev pub named_endpoints : Facts → List Endpoint → List Endpoint
named_endpoints f rows =
    map socket_endpoint f.sockets
    ++ (published f.containers ++ select (λ e. not (reported (own_endpoints f) e)) rows)

at_key-own :
    (k : String) (f : Facts) (rows : List Endpoint)
    → at_key k (put_forwards (own_endpoints f) rows (own_endpoints f))
      ≡ last_at k (named_endpoints f rows)
unfolding own_endpoints
at_key-own k f rows =
    let fresh = select (λ e. not (reported (own_endpoints f) e)) rows in
    let sockets = map socket_endpoint f.sockets in
    ap (at_key k) (put_forwards-select (own_endpoints f) rows (own_endpoints f))
    ∙ at_key-put_all k fresh (own_endpoints f)
    ∙ ap (or_last (last_at k fresh)) (
        at_key-put_all k (published f.containers) (put_all sockets [])
        ∙ ap (or_last (last_at k (published f.containers)))
            (at_key-put_all k sockets [] ∙ sym (or_last_none (last_at k sockets))))
    ∙ sym (or_last_assoc (last_at k fresh) _ _)
    ∙ ap (λ o. or_last o (last_at k sockets))
        (sym (last_at-append k (published f.containers) fresh))
    ∙ sym (last_at-append k sockets (published f.containers ++ fresh))

-- No two endpoints have one key.
abbrev pub AreKeyed : List Endpoint → Type 0
AreKeyed [] = Unit
AreKeyed (x ∷ xs) = (at_key (key x) xs ≡ none) × AreKeyed xs

put-AreKeyed : (e : Endpoint) (eps : List Endpoint) → AreKeyed eps → AreKeyed (put e eps)
unfolding put
put-AreKeyed e [] h = (refl, tt)
put-AreKeyed e (x ∷ xs) (h, hs) = elim (Bool-cases (str_eq (key x) (key e))) [
  | inl q ↦ rw q (subst (λ k. at_key k xs ≡ none) ((eq_iff (key x) (key e)).0 q) h, hs)
  | inr q ↦ rw q (
    at_key-put (key x) e xs ∙ ground (arith, q, h, eq_iff (key x) (key e), eq_iff (key e) (key x)),
    put-AreKeyed e xs hs,
  )
]

put_all-AreKeyed : (es eps : List Endpoint) → AreKeyed eps → AreKeyed (put_all es eps)
unfolding put_all
put_all-AreKeyed [] eps h = h
put_all-AreKeyed (e ∷ es) eps h = put_all-AreKeyed es (put e eps) (put-AreKeyed e eps h)

own_endpoints-AreKeyed : (f : Facts) → AreKeyed (own_endpoints f)
unfolding own_endpoints
own_endpoints-AreKeyed f =
    put_all-AreKeyed (published f.containers) _
      (put_all-AreKeyed (map socket_endpoint f.sockets) [] tt)

-- What `endpoints` makes of a document, of which `rows` are the forwarded ports.
pub record IsMerged (f : Facts) (rows eps : List Endpoint) : Type 0 where
  pub keyed : AreKeyed eps
  pub latest : (k : String) → at_key k eps ≡ last_at k (named_endpoints f rows)

-- On a document that `facts.Validate` accepts, `endpoints` returns; no two of its endpoints have one key,
-- and at each key stands the last that the document names there, where the sockets come first, then the
-- publishes, then the forwarded ports on which neither of them has the protocol and the port.
pub endpoints-IsMerged :
    (f : Facts)
    → validate f.rules ≡ none
    → (s : Scan) × (eps : List Endpoint) × (forwards f.rules ≡ ok s)
      × (endpoints f ≡ ok eps)
      × IsMerged f s.eps eps
unfolding endpoints
endpoints-IsMerged f h =
    let (s, e, rows) = forwards-AreRows f.rules h in
    let own = own_endpoints f in
    (
      s,
      put_forwards own s.eps own,
      e,
      ap (λ m. m >>= λ fwd. ok (put_forwards own fwd.eps own)) e,
      record {
        keyed = subst AreKeyed (sym (put_forwards-select own s.eps own)) (
            put_all-AreKeyed (select (λ e. not (reported own e)) s.eps) own
              (own_endpoints-AreKeyed f));
        latest = λ k. at_key-own k f s.eps;
      },
    )

abbrev OfSome {κ} : (Endpoint → Type κ) → Option Endpoint → Type κ
OfSome P none = Unit
OfSome P (some e) = P e

at_key-OfSome {κ} :
    (P : Endpoint → Type κ) (k : String) (eps : List Endpoint) → All P eps → OfSome P (at_key k eps)
at_key-OfSome P k [] h = tt
at_key-OfSome P k (x ∷ xs) (h, hs) =
    if_kept (OfSome P) (str_eq (key x) k) _ _ h (at_key-OfSome P k xs hs)

-- On a document that `facts.Validate` accepts, `Evaluate` returns, and the last endpoint that the
-- document names at a key, a socket, a publish or a forwarded port that neither reports, has a verdict in
-- each family that it serves.
pub evaluate_document-Covered :
    (f : Facts) (zone : Zone)
    → validate f.rules ≡ none
    → (s : Scan) × (eps : List Endpoint) × (vs : List Verdict) × (forwards f.rules ≡ ok s)
      × (evaluate_document f zone ≡ ok vs)
      × ((k : String) (e : Endpoint)
          → last_at k (named_endpoints f s.eps) ≡ some e
          → FamiliesCovered e (families_for e f.host.sysctls eps) vs)
unfolding evaluate_document
evaluate_document-Covered f zone h =
    let (s, eps, scanned, listed, merged) = endpoints-IsMerged f h in
    elim (Go-cases (evaluate f zone eps)) [
      | inl q ↦ absurd (evaluate-ne-panic f zone h eps q)
      | inr (vs, q) ↦ (
        s,
        eps,
        vs,
        scanned,
        ap (λ m. m >>= λ eps. evaluate f zone eps) listed ∙ q,
        λ k e named.
            subst (OfSome (λ e. FamiliesCovered e (families_for e f.host.sysctls eps) vs))
              (merged.latest k ∙ named) (at_key-OfSome _ k eps (evaluate-Covered f zone eps vs q)),
      )
    ]
