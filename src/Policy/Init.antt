-- ===== src/Policy/Init.antt =====
-- internal/policy/init.go, `Init`: a policy seeded from a verdict set.
pub mod Laws
use whyopen.Prelude.{Bool, true, false, not, List, [], ◌∷◌, ◌++◌, if◌then◌else◌}
use whyopen.Model.Evaluate.Types.{Verdict, VerdictResult}
use whyopen.Policy.Types.{Entry, Policy, add_once, sort_entries}
use whyopen.Policy.Check.{entry_of}

pub record Seeds : Type 0 where
  pub allow : List Entry
  pub unknown : List Entry

unfoldable pub sow : VerdictResult → Entry → Seeds → Seeds
sow VerdictResult.reachable e st = record st { allow = add_once e st.allow }
sow VerdictResult.unknown e st = record st { unknown = add_once e st.unknown }
sow VerdictResult.filtered e st = st

unfoldable pub sow_all : List Verdict → Seeds → Seeds
unfolding sow
sow_all [] st = st
sow_all (v ∷ vs) st = sow_all vs (sow v.result (entry_of v) st)

unfoldable pub init : List Verdict → Policy × List Entry
unfolding sow_all
init vs =
    let st = sow_all vs (record { allow = []; unknown = [] }) in
    (record { allow = sort_entries st.allow; fail_on_unknown = true }, sort_entries st.unknown)
