-- ===== src/Policy/Check.antt =====
-- internal/policy/check.go: which verdicts violate the policy, and which entries are stale.
pub mod Laws
use whyopen.Prelude.{
  ℕ, String, Bool, true, false, ◌&&◌, ◌||◌, not, Option, none, some, List, [], ◌∷◌, ◌++◌,
  if◌then◌else◌,
}
use whyopen.Model.Evaluate.Types.{Verdict, VerdictResult, Why, result_eq}
use whyopen.Policy.Types.{Entry, Policy, entry_eq, holds}

pub record Stale : Type 0 where
  pub entry : Entry
  pub found : Option VerdictResult

-- The warnings, which are handed on as they are.
pub record Result (W : Type 0) : Type 0 where
  pub violations : List Verdict
  pub stale : List Stale
  pub unknown : List Verdict
  pub unreadable : List W
  pub fail_on_unknown : Bool

abbrev pub entry_of : Verdict → Entry
entry_of v = record { port = v.endpoint.port; proto = v.endpoint.proto }

-- `seen`: what each port was seen doing.
abbrev pub Seen : Type 0
Seen = Entry → VerdictResult → Bool

abbrev pub see : Seen → Entry → VerdictResult → Seen
see seen e r e' r' = if entry_eq e e' && result_eq r r' then true else seen e' r'

pub record Progress : Type 0 where
  pub violations : List Verdict
  pub unknown : List Verdict
  pub seen : Seen

-- The switch over a verdict's result.
judge : VerdictResult → Policy → Verdict → Progress → Progress
judge VerdictResult.reachable p v st =
    if holds p.allow (entry_of v) then st else record st { violations = st.violations ++ (v ∷ []) }
judge VerdictResult.unknown p v st = record st { unknown = st.unknown ++ (v ∷ []) }
judge VerdictResult.filtered p v st = st

-- The loop over the verdicts.
unfoldable pub judge_all : Policy → List Verdict → Progress → Progress
unfolding judge
judge_all p [] st = st
judge_all p (v ∷ vs) st =
    judge_all p vs (judge v.result p v (record st { seen = see st.seen (entry_of v) v.result }))

-- The loop over the allowed entries.
unfoldable pub stale_entries : Seen → List Entry → List Stale
stale_entries seen [] = []
stale_entries seen (e ∷ es) =
    let rest = stale_entries seen es in
    if seen e VerdictResult.reachable || seen e VerdictResult.unknown
    then rest
    else record {
      entry = e;
      found = if seen e VerdictResult.filtered then some VerdictResult.filtered else none;
    }
      ∷ rest

abbrev pub nothing_yet : Progress
nothing_yet = record { violations = []; unknown = []; seen = λ e r. false }

unfoldable pub check : {W : Type 0} → Policy → List Verdict → List W → Result W
unfolding judge_all stale_entries
check p vs unreadable =
    let st = judge_all p vs nothing_yet in
    record {
      violations = st.violations;
      stale = stale_entries st.seen p.allow;
      unknown = st.unknown;
      unreadable = unreadable;
      fail_on_unknown = p.fail_on_unknown;
    }
