-- ===== src/Cli/Laws.antt =====
-- cmd/whyopen/main.go: what the exit code of `whyopen check -policy` says of the verdicts.
use whyopen.Prelude.{
  ◌≡◌, ◌⊎◌, inl, inr, Bool-cases, ◌↔◌, refl, subst, Bool, false, some, List, [], ◌∷◌, arith, select,
}
use whyopen.Facts.Host.{Facts}
use whyopen.Model.Evaluate.Types.{Verdict}
use whyopen.Policy.Types.{Policy}
use whyopen.Policy.Check.{Result, check}
use whyopen.Policy.Check.Laws.{violates, is_unknown, check-violations, check-unknown}
use whyopen.Cli.{ExitCode, check_exit_code, is_nonempty, judge_result}

is_nonempty-eq_false {ℓ} : {A : Type ℓ} (xs : List A) → is_nonempty xs ≡ false → xs ≡ []
is_nonempty-eq_false [] h = refl
is_nonempty-eq_false (x ∷ xs) h = ground arith

-- A run in which nothing was found.
abbrev pub IsClean : {W : Type 0} → Facts → List Verdict → Bool → List Verdict → List W → Type 0
IsClean f violations fail_on_unknown unknown unreadable =
    (f.rules.read_failed ≡ false)
    × (violations ≡ [])
    × ((fail_on_unknown ≡ false) ⊎ ((unknown ≡ []) × (unreadable ≡ [])))

check_exit_code_iff :
    {W : Type 0} (f : Facts) (res : Result W)
    → check_exit_code f (some res) ≡ ExitCode.ok
      ↔ IsClean f res.violations res.fail_on_unknown res.unknown res.unreadable
unfolding check_exit_code judge_result
check_exit_code_iff f res = (
  λ h. elim (Bool-cases res.fail_on_unknown) [
    | inl strict ↦ ground (
      arith,
      is_nonempty-eq_false res.violations,
      is_nonempty-eq_false res.unknown,
      is_nonempty-eq_false res.unreadable,
      strict,
    )
    | inr lax ↦ ground (arith, is_nonempty-eq_false res.violations, lax)
  ],
  λ h. ground arith,
)

-- `whyopen check -policy` exits with 0 exactly when the ruleset was read, no verdict violates the
-- policy, and, where the policy fails on unknowns, no verdict is unknown and there is no warning of
-- something that could not be read.
pub check_exit_code-IsClean :
    {W : Type 0} (f : Facts) (p : Policy) (vs : List Verdict) (unreadable : List W)
    → check_exit_code f (some (check p vs unreadable)) ≡ ExitCode.ok
      ↔ IsClean f (select (violates p) vs) p.fail_on_unknown (select is_unknown vs) unreadable
unfolding check
check_exit_code-IsClean f p vs unreadable =
    subst
      (λ vio.
        check_exit_code f (some (check p vs unreadable)) ≡ ExitCode.ok
        ↔ IsClean f vio p.fail_on_unknown (select is_unknown vs) unreadable)
      (check-violations p vs unreadable)
      (subst
        (λ unk.
          check_exit_code f (some (check p vs unreadable)) ≡ ExitCode.ok
          ↔ IsClean f (check p vs unreadable).violations p.fail_on_unknown unk unreadable)
        (check-unknown p vs unreadable) (check_exit_code_iff f (check p vs unreadable)))
