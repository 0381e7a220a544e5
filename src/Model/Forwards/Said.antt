-- ===== src/Model/Forwards/Said.antt =====
-- internal/model/forwards.go, `ForwardNotes`: each message once, and one for a rewrite of every port.
use Prim.Native.String.{◌++◌ as ◌<>◌}
use whyopen.Prelude.{ℕ, zero, suc, ◌≡◌, String, false, none, List, [], ◌∷◌, ◌++◌, Any}
use whyopen.Prelude.Strconv.{decimal}
use whyopen.Facts.Host.{Warning}
use whyopen.Netip.{Addr, invalid}
use whyopen.Facts.Types.{Expr, Rule, Chain, Table}
use whyopen.Model.Forwards.Types.{FwdTarget}
use whyopen.Model.Forwards.Exprs.{Scan}
use whyopen.Model.Forwards.Shapes.{Passes, Rewrites}
use whyopen.Model.Forwards.Exprs.{FwdNote}
use whyopen.Model.Forwards.Notes.{is_said}

-- A rule that rewrites the destination of every port: a rewrite after nothing but passing expressions.
pub record RewritesAll (r : Rule) (t : FwdTarget) : Type 0 where
  pub before : List Expr
  pub rewrite : List Expr
  pub is_rule : r.exprs ≡ before ++ rewrite
  pub passes : Passes before
  pub is_rewrite : Rewrites rewrite t

-- Such a rule with this handle, in a chain and a table of these names.
pub record RewritesAllIn (family name chain : String) (handle : ℕ) (t : FwdTarget) (table : Table)
    (ch : Chain) (r : Rule) : Type 0 where
  pub is_family : table.family ≡ family
  pub is_table : table.name ≡ name
  pub is_chain : ch.name ≡ chain
  pub is_handle : r.handle ≡ handle
  pub rewrites : RewritesAll r t

abbrev open_note : String → String → String → ℕ → FwdTarget → FwdNote
open_note family name chain handle t = record {
  family = family;
  table = name;
  chain = chain;
  handle = handle;
  target = t;
  refuse = none;
}

-- The scan holds this note.
abbrev Noted : FwdNote → Scan → Type 0
Noted n s = Any (λ m. m ≡ n) s.notes

-- No two warnings have one message.
abbrev pub SaidOnce : List Warning → Type 0
SaidOnce [] = Unit
SaidOnce (w ∷ ws) = (is_said ws w.message ≡ false) × SaidOnce ws

-- Where a rewrite sends the packet, in words.
abbrev pub place : (Addr → String) → Addr → ℕ → String
place addr_string invalid port = "an address whyopen could not resolve"
place addr_string a zero = addr_string a
place addr_string a (suc p) = addr_string a <> (":" <> decimal (suc p) "")

-- The message on a rewrite of every port.
abbrev pub open_text : (Addr → String) → String → String → String → ℕ → FwdTarget → String
open_text addr_string family name chain handle t =
    family
    <> (" "
        <> (name
            <> ("/"
                <> (chain
                    <> (" rule "
                        <> decimal handle (
                            " rewrites the destination to "
                            <> (place addr_string t.addr t.port
                                <> " with no port constraint at all, so it forwards every port; whyopen reports one port per row and cannot list them")))))))
