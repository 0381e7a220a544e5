-- ===== src/Model/Traverse/Types.antt =====
-- internal/model/traverse.go: what a walk returns and what it records.
use whyopen.Prelude.{ℕ, String, Option, List, ℤ}
use whyopen.Facts.Types.{ActionKind, Rule}
use whyopen.Model.Packet.{Dnat}

pub data Reason : Type 0 where
  unsaid too_deep : Reason
  on_ingress : String → String → List String → Reason
  hook_unrecognised : String → String → String → Reason
  unexpected_verdict : String → String → Reason
  policy_unreadable : String → String → Reason
  goto_fell_through : String → String → Reason
  return_hit_policy : String → String → Reason
  fell_through : String → String → Reason
  unresolved_rule : ℕ → String → String → Reason
  dropped_by rejected_by : String → String → ℕ → Reason
  jump_to_unknown goto_unknown : String → Reason
  unhandled_verdict : ActionKind → Reason

-- `none` and `unwind` are the walker's own: a regular chain, or a goto, that fell through.
pub data ResultKind : Type 0 where
  accept drop unknown none unwind : ResultKind

pub record Result : Type 0 where
  pub kind : ResultKind
  pub reason : Reason
  pub dnat : Option Dnat

abbrev pub result : ResultKind → Reason → Result
result k why = record { kind = k; reason = why; dnat = Option.none }

abbrev pub quiet : ResultKind → Result
quiet k = result k Reason.unsaid

pub record Hit : Type 0 where
  pub family : String
  pub table : String
  pub chain : String
  pub hook : String
  pub priority : ℤ
  pub handle : ℕ
  pub action : ActionKind
  pub rule : Rule

pub record Walker : Type 0 where
  pub hits : List Hit
  pub dnat : Option Dnat

-- What the walk of a chain does after one rule.
pub data AfterRule : Type 0 where
  done : Result → Walker → AfterRule
  continue : Walker → AfterRule
