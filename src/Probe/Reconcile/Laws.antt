-- ===== src/Probe/Reconcile/Laws.antt =====
-- internal/probe/reconcile.go: what the probe changes, and what it reports.
pub mod Settled
use whyopen.Prelude.{
  not, true, ℕ, ◌≡◌, refl, sym, ap, ◌∙◌, String, Bool, false, ◌&&◌, ◌||◌, Option, none, some, List,
  [], ◌∷◌, ◌++◌, arith, any, append_nil, append_assoc, map, ◌==◌,
}
use whyopen.Model.Evaluate.Types.{Verdict, VerdictResult, ProbeState, result_eq}
use whyopen.Probe.Reconcile.{
  Probed, answer, Disagreement, sockets, contradicts, disagreement, settled, Progress, has_port,
  fold_in, probe_of, fold_all, untouched, reconcile,
}

-- One verdict after the probe, on its own: it is left as it is, or its result is the probe's.
abbrev pub settle_by : String → ℕ → Verdict → Option ProbeState → Verdict
settle_by target shared v none = v
settle_by target shared v (some s) = settled target shared v s

abbrev pub settle : String → String → List Probed → (ℕ → ℕ) → Verdict → Verdict
settle family target rs shared v =
    settle_by target (shared v.endpoint.port) v (probe_of family rs v)

fold_in-out :
    (family target : String) (shared : ℕ) (v : Verdict) (o : Option ProbeState) (st : Progress)
    → (fold_in family target shared v o st).out ≡ st.out ++ (settle_by target shared v o ∷ [])
unfolding fold_in
fold_in-out family target shared v none st = refl
fold_in-out family target shared v (some s) st = ground arith

fold_all-out :
    (family target : String) (rs : List Probed) (shared : ℕ → ℕ) (vs : List Verdict) (st : Progress)
    → (fold_all family target rs shared vs st).out
      ≡ st.out ++ map (settle family target rs shared) vs
unfolding fold_all
fold_all-out family target rs shared [] st = sym (append_nil st.out)
fold_all-out family target rs shared (v ∷ vs) st =
    fold_all-out family target rs shared vs _
    ∙ ap (λ l. l ++ map (settle family target rs shared) vs)
        (fold_in-out family target (shared v.endpoint.port) v (probe_of family rs v) st)
    ∙ append_assoc st.out _ _

pub reconcile-settle :
    (vs : List Verdict) (rs : List Probed) (family target : String)
    → (reconcile vs rs family target).0 ≡ map (settle family target rs (sockets family vs)) vs
unfolding reconcile
reconcile-settle vs rs family target =
    fold_all-out family target rs (sockets family vs) vs untouched

-- Some disagreement of the list is about this port.
abbrev pub names : List Disagreement → ℕ → Bool
names ds port = any (λ d. d.port == port) ds

abbrev pub OnePerPort : List Disagreement → Type 0
OnePerPort [] = Unit
OnePerPort (d ∷ ds) = (names ds d.port ≡ false) × OnePerPort ds

names-append :
    (ds : List Disagreement) (d : Disagreement) (port : ℕ)
    → names (ds ++ (d ∷ [])) port ≡ (names ds port || d.port == port)
names-append [] d port = ground arith
names-append (x ∷ ds) d port = ground (arith, names-append ds d port)

OnePerPort-append :
    (ds : List Disagreement) (d : Disagreement)
    → OnePerPort ds
    → names ds d.port ≡ false
    → OnePerPort (ds ++ (d ∷ []))
OnePerPort-append [] d h k = (refl, tt)
OnePerPort-append (x ∷ ds) d (n, h) k =
    (ground (arith, names-append ds d x.port), OnePerPort-append ds d h (ground arith))

-- What holds of the reports between two verdicts.
record Reports (st : Progress) : Type 0 where
  same : (port : ℕ) → has_port st.seen port ≡ names st.disagreements port
  distinct : OnePerPort st.disagreements

fold_in-Reports :
    (family target : String) (shared : ℕ) (v : Verdict) (o : Option ProbeState) (st : Progress)
    → Reports st
    → Reports (fold_in family target shared v o st)
unfolding fold_in disagreement
fold_in-Reports family target shared v none st h = record { same = h.same; distinct = h.distinct }
fold_in-Reports family target shared v (some s) st h = record {
  same = λ port.
      ground (arith, h.same port, names-append st.disagreements (disagreement family v s) port);
  distinct = ground (
    arith,
    h.same v.endpoint.port,
    h.distinct,
    OnePerPort-append st.disagreements (disagreement family v s),
  );
}

fold_all-Reports :
    (family target : String) (rs : List Probed) (shared : ℕ → ℕ) (vs : List Verdict) (st : Progress)
    → Reports st
    → Reports (fold_all family target rs shared vs st)
unfolding fold_all
fold_all-Reports family target rs shared [] st h = h
fold_all-Reports family target rs shared (v ∷ vs) st h =
    fold_all-Reports family target rs shared vs _ (fold_in-Reports family target _ v _ st h)

-- The model decided one way and the probe found the other.
abbrev pub clashes : VerdictResult → ProbeState → Bool
clashes VerdictResult.unknown s = false
clashes VerdictResult.reachable ProbeState.opened = false
clashes VerdictResult.reachable s = true
clashes VerdictResult.filtered ProbeState.opened = true
clashes VerdictResult.filtered s = false

clashes_as :
    (r : VerdictResult) (s : ProbeState)
    → (not (result_eq r VerdictResult.unknown) && not (result_eq r (answer s))) ≡ clashes r s
clashes_as VerdictResult.unknown s = refl
clashes_as VerdictResult.reachable ProbeState.opened = refl
clashes_as VerdictResult.reachable _ = refl
clashes_as VerdictResult.filtered ProbeState.opened = refl
clashes_as VerdictResult.filtered _ = refl

abbrev contradicted : Verdict → Option ProbeState → Bool
contradicted v none = false
contradicted v (some s) = clashes v.result s

-- The probe of this verdict contradicts the model.
abbrev pub is_contradicted : String → List Probed → Verdict → Bool
is_contradicted family rs v = contradicted v (probe_of family rs v)

fold_in-names :
    (family target : String) (shared : ℕ) (v : Verdict) (o : Option ProbeState) (st : Progress)
    (port : ℕ)
    → Reports st
    → names (fold_in family target shared v o st).disagreements port
      ≡ (names st.disagreements port || (contradicted v o && v.endpoint.port == port))
unfolding fold_in disagreement
fold_in-names family target shared v none st port h = ground arith
fold_in-names family target shared v (some s) st port h = ground (
  arith,
  clashes_as v.result s,
  h.same v.endpoint.port,
  names-append st.disagreements (disagreement family v s) port,
)

fold_all-names :
    (family target : String) (rs : List Probed) (shared : ℕ → ℕ) (vs : List Verdict) (st : Progress)
    (port : ℕ)
    → Reports st
    → names (fold_all family target rs shared vs st).disagreements port ≡ (
        names st.disagreements port
        || any (λ v. is_contradicted family rs v && v.endpoint.port == port) vs)
unfolding fold_all
fold_all-names family target rs shared [] st port h = ground arith
fold_all-names family target rs shared (v ∷ vs) st port h =
    fold_all-names family target rs shared vs _ port (fold_in-Reports family target _ v _ st h)
    ∙ ap (λ b. b || any (λ v. is_contradicted family rs v && v.endpoint.port == port) vs)
        (fold_in-names family target _ v (probe_of family rs v) st port h)
    ∙ ground arith

untouched-Reports : Reports untouched
untouched-Reports = record { same = λ port. refl; distinct = tt }

-- The disagreements name each port at most once, and they name exactly the ports at which the probe
-- of some verdict contradicts a result that the model had decided.
pub reconcile-disagreements :
    (vs : List Verdict) (rs : List Probed) (family target : String)
    → OnePerPort (reconcile vs rs family target).1
      × ((port : ℕ)
          → names (reconcile vs rs family target).1 port
            ≡ any (λ v. is_contradicted family rs v && v.endpoint.port == port) vs)
unfolding reconcile
reconcile-disagreements vs rs family target = (
  (fold_all-Reports family target rs _ vs untouched untouched-Reports).distinct,
  λ port. fold_all-names family target rs _ vs untouched port untouched-Reports,
)
