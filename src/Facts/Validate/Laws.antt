-- ===== src/Facts/Validate/Laws.antt =====
-- internal/facts/validate.go: what a validated document promises.
use whyopen.Prelude.{ℕ, ◌+◌, ◌≡◌, refl, ◌↔◌, false, Option, none, some, List, [], ◌∷◌, arith, All}
use whyopen.Facts.Types.{ExprKind, Expr, Rule, Chain, Table, Ruleset}
use whyopen.Facts.Validate.{invalid, check_exprs, check_rules, check_chains, check_tables, validate}

abbrev pub IsPresent {ℓ} : {A : Type ℓ} → Option A → Type ℓ
IsPresent {A} o = (a : A) × (o ≡ some a)

-- The object that each kind promises, read off the fields' names.
abbrev pub Promised : ExprKind → Expr → Type 0
Promised ExprKind.payload e = IsPresent e.payload
Promised ExprKind.cmp e = IsPresent e.cmp
Promised ExprKind.meta e = IsPresent e.meta
Promised ExprKind.bitwise e = IsPresent e.bitwise
Promised ExprKind.ct e = IsPresent e.ct
Promised ExprKind.lookup e = IsPresent e.lookup
Promised ExprKind.range e = IsPresent e.range
Promised ExprKind.fib e = IsPresent e.fib
Promised ExprKind.immediate e = IsPresent e.immediate
Promised ExprKind.nat e = IsPresent e.nat
Promised ExprKind.verdict e = IsPresent e.verdict
Promised ExprKind.xt e = IsPresent e.xt
Promised ExprKind.other e = Unit
Promised ExprKind.unknown e = Unit
Promised (ExprKind.unrecognised text) e = Unit

-- The expression carries the object that its kind names.
abbrev pub IsCarried : Expr → Type 0
IsCarried e = Promised e.kind e

abbrev pub RuleIsCarried : Rule → Type 0
RuleIsCarried r = All IsCarried r.exprs

abbrev pub ChainIsCarried : Chain → Type 0
ChainIsCarried c = All RuleIsCarried c.rules

abbrev pub TableIsCarried : Table → Type 0
TableIsCarried t = All ChainIsCarried t.chains

-- Every expression of every rule of the document does.
abbrev pub DocumentIsCarried : Ruleset → Type 0
DocumentIsCarried rs = All TableIsCarried rs.tables

invalid_by_kind : (k : ExprKind) (e : Expr) → e.kind ≡ k → invalid e ≡ false ↔ Promised k e
unfolding invalid
invalid_by_kind ExprKind.payload e h = ground arith
invalid_by_kind _ e h = ground arith

invalid_iff : (e : Expr) → invalid e ≡ false ↔ IsCarried e
invalid_iff e = invalid_by_kind e.kind e refl

check_exprs_iff :
    (t : Table) (c : Chain) (r : Rule) (i : ℕ) (es : List Expr)
    → check_exprs t c r i es ≡ none ↔ All IsCarried es
unfolding check_exprs
check_exprs_iff t c r i [] = (λ h. tt, λ h. refl)
check_exprs_iff t c r i (e ∷ es) = ground (arith, invalid_iff e, check_exprs_iff t c r (i + 1) es)

check_rules_iff :
    (t : Table) (c : Chain) (rs : List Rule) → check_rules t c rs ≡ none ↔ All RuleIsCarried rs
unfolding check_rules
check_rules_iff t c [] = (λ h. tt, λ h. refl)
check_rules_iff t c (r ∷ rs) =
    ground (arith, check_exprs_iff t c r 0 r.exprs, check_rules_iff t c rs)

check_chains_iff : (t : Table) (cs : List Chain) → check_chains t cs ≡ none ↔ All ChainIsCarried cs
unfolding check_chains
check_chains_iff t [] = (λ h. tt, λ h. refl)
check_chains_iff t (c ∷ cs) = ground (arith, check_rules_iff t c c.rules, check_chains_iff t cs)

check_tables_iff : (ts : List Table) → check_tables ts ≡ none ↔ All TableIsCarried ts
unfolding check_tables
check_tables_iff [] = (λ h. tt, λ h. refl)
check_tables_iff (t ∷ ts) = ground (arith, check_chains_iff t t.chains, check_tables_iff ts)

-- `Validate` reports no problem exactly when every expression of every rule of every chain of every
-- table carries the object that its kind names.
pub validate_iff : (rs : Ruleset) → validate rs ≡ none ↔ DocumentIsCarried rs
unfolding validate
validate_iff rs = check_tables_iff rs.tables
