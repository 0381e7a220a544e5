-- ===== src/Cli.antt =====
-- cmd/whyopen/main.go: which verdicts `--explain` keeps, and how a run of `check` ends.
pub mod Laws
use whyopen.Prelude.{
  ℕ, String, Bool, true, false, ◌&&◌, ◌||◌, not, Option, none, some, List, [], ◌∷◌, ◌==◌,
  if◌then◌else◌,
}
use whyopen.Facts.Host.{Facts}
use whyopen.Model.Evaluate.Types.{Verdict}
use whyopen.Policy.Check.{Result}

pub data ExitCode : Type 0 where
  ok : ExitCode
  violation : ExitCode
  unknown : ExitCode
  error : ExitCode

-- `len(xs) > 0`.
abbrev is_nonempty {ℓ} : {A : Type ℓ} → List A → Bool
is_nonempty [] = false
is_nonempty (x ∷ xs) = true

unfoldable pub on_port : List Verdict → ℕ → List Verdict
on_port [] port = []
on_port (v ∷ vs) port =
    let rest = on_port vs port in if v.endpoint.port == port then v ∷ rest else rest

judge_result : {W : Type 0} → Option (Result W) → ExitCode
judge_result none = ExitCode.ok
judge_result (some res) =
    if is_nonempty res.violations
    then ExitCode.violation
    else (if res.fail_on_unknown && (is_nonempty res.unknown || is_nonempty res.unreadable)
        then ExitCode.unknown
        else ExitCode.ok)

unfoldable pub check_exit_code : {W : Type 0} → Facts → Option (Result W) → ExitCode
unfolding judge_result
check_exit_code f res = if f.rules.read_failed then ExitCode.error else judge_result res
