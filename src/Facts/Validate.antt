-- ===== src/Facts/Validate.antt =====
-- internal/facts/validate.go: the structural check of a document from outside the process. An error
-- is the place of the first bad expression; its wording is not modelled.
pub mod Laws
use whyopen.Prelude.{ℕ, zero, ◌+◌, String, Bool, true, false, Option, none, some, List, [], ◌∷◌}
use whyopen.Facts.Types.{ExprKind, Expr, Rule, Chain, Table, Ruleset}

-- `p == nil`.
abbrev pub is_nil {ℓ} : {A : Type ℓ} → Option A → Bool
is_nil none = true
is_nil (some a) = false

-- The switch of `Expr.validate`: whether the object that the kind promises is missing.
missing : ExprKind → Expr → Bool
missing ExprKind.payload e = is_nil e.payload
missing ExprKind.cmp e = is_nil e.cmp
missing ExprKind.meta e = is_nil e.meta
missing ExprKind.bitwise e = is_nil e.bitwise
missing ExprKind.ct e = is_nil e.ct
missing ExprKind.lookup e = is_nil e.lookup
missing ExprKind.range e = is_nil e.range
missing ExprKind.fib e = is_nil e.fib
missing ExprKind.immediate e = is_nil e.immediate
missing ExprKind.nat e = is_nil e.nat
missing ExprKind.verdict e = is_nil e.verdict
missing ExprKind.xt e = is_nil e.xt
missing ExprKind.other e = false
missing ExprKind.unknown e = false
missing (ExprKind.unrecognised text) e = false

-- The error of `Expr.validate`, or none.
unfoldable pub invalid : Expr → Bool
unfolding missing
invalid e = missing e.kind e

pub record Problem : Type 0 where
  pub table : String
  pub chain : String
  pub rule : ℕ
  pub expression : ℕ

-- What the loops find first, or what the code after them finds.
abbrev or_else {ℓ} : {A : Type ℓ} → Option A → Option A → Option A
or_else none rest = rest
or_else (some a) rest = some a

check_exprs : Table → Chain → Rule → ℕ → List Expr → Option Problem
unfolding invalid
check_exprs t c r i [] = none
check_exprs t c r i (e ∷ es) = elim (invalid e) [
  | true ↦ some (record { table = t.name; chain = c.name; rule = r.handle; expression = i })
  | false ↦ check_exprs t c r (i + 1) es
]

check_rules : Table → Chain → List Rule → Option Problem
check_rules t c [] = none
check_rules t c (r ∷ rs) = or_else (check_exprs t c r 0 r.exprs) (check_rules t c rs)

check_chains : Table → List Chain → Option Problem
check_chains t [] = none
check_chains t (c ∷ cs) = or_else (check_rules t c c.rules) (check_chains t cs)

check_tables : List Table → Option Problem
check_tables [] = none
check_tables (t ∷ ts) = or_else (check_chains t t.chains) (check_tables ts)

-- `Validate`, of the ruleset, which is all that it reads.
unfoldable pub validate : Ruleset → Option Problem
unfolding check_tables check_chains check_rules check_exprs
validate rs = check_tables rs.tables
