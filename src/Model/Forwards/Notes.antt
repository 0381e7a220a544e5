-- ===== src/Model/Forwards/Notes.antt =====
-- internal/model/forwards.go, `ForwardNotes`: the rewrites whose ports no row names, as text. What
-- `netip.Addr.String` writes is a parameter.
use Prim.Native.String.{◌++◌ as ◌<>◌}
use whyopen.Prelude.{
  ◌≡◌, refl, ◌∙◌, String, Bool, true, ◌||◌, not, Option, none, some, List, [], ◌∷◌, ◌++◌, ◌==◌,
  if◌then◌else◌, any, Bool-cases, inl, inr, arith, str_eq, eq_iff, Go, ok, ◌>>=◌,
}
use whyopen.Prelude.Strconv.{decimal}
use whyopen.Facts.Types.{CmpOp, Ruleset}
use whyopen.Facts.Host.{Warning}
use whyopen.Netip.{Addr, is_valid}
use whyopen.Model.Forwards.Types.{Refusal, FwdTarget}
use whyopen.Model.Forwards.Exprs.{FwdNote}
use whyopen.Model.Forwards.{forwards}

abbrev op_text : CmpOp → String
op_text CmpOp.eq = "eq"
op_text CmpOp.neq = "neq"
op_text CmpOp.lt = "lt"
op_text CmpOp.lte = "lte"
op_text CmpOp.gt = "gt"
op_text CmpOp.gte = "gte"
op_text (CmpOp.unnamed text) = text

abbrev refusal_text : Refusal → String
refusal_text Refusal.masked = "its destination port is compared through a bitmask"
refusal_text Refusal.ranged = "its destination port is matched against a range"
refusal_text Refusal.unreadable_set =
    "its destination ports come from a set whyopen cannot read as a flat list of ports"
refusal_text Refusal.not_a_port =
    "its destination port is compared against something that is not a port"
refusal_text (Refusal.port_compared op) =
    "its destination port is matched with "
    <> (op_text op <> " rather than an equality, which is a range")
refusal_text (Refusal.proto_compared op) =
    "its transport protocol is matched with "
    <> (op_text op
        <> " rather than an equality, so which protocols it forwards is not decidable from the rule")

abbrev why_text : Option Refusal → String
why_text none =
    " with no port constraint at all, so it forwards every port; whyopen reports one port per row and cannot list them"
why_text (some why) =
    ", but "
    <> (refusal_text why
        <> ", so whyopen cannot name the ports it forwards and no row above covers them")

-- A list of warnings holds one with the message.
unfoldable pub is_said : List Warning → String → Bool
is_said ws message = any (λ w. str_eq w.message message) ws

abbrev pub said_by : String → Warning
said_by message = record { source = "forwarded-ports"; message = message }

pub is_said-append :
    (ws more : List Warning) (m : String)
    → is_said (ws ++ more) m ≡ (is_said ws m || is_said more m)
unfolding is_said
is_said-append [] more m = refl
is_said-append (w ∷ ws) more m = ground (arith, is_said-append ws more m)

said_before :
    (ws : List Warning) (t m : String) (x : Bool)
    → is_said ws t ≡ true
    → (x || is_said ws m) ≡ ((str_eq t m || x) || is_said ws m)
said_before ws t m x h = ground (arith, h, eq_iff t m)

said_now :
    (ws : List Warning) (t m : String) (x : Bool)
    → (x || is_said (ws ++ (said_by t ∷ [])) m) ≡ ((str_eq t m || x) || is_said ws m)
unfolding is_said
said_now ws t m x = ground (arith, is_said-append ws (said_by t ∷ []) m)

module _ (addr_string : Addr → String) where
  -- `dest`.
  unfoldable pub dest : FwdTarget → String
  unfolding decimal
  dest t =
      if not (is_valid t.addr)
      then "an address whyopen could not resolve"
      else (if t.port == 0
          then addr_string t.addr
          else addr_string t.addr <> (":" <> decimal t.port ""))

  -- The message of `emit`.
  unfoldable pub note_text : FwdNote → String
  unfolding dest decimal
  note_text n =
      n.family
      <> (" "
          <> (n.table
              <> ("/"
                  <> (n.chain
                      <> (" rule "
                          <> decimal n.handle (
                              " rewrites the destination to "
                              <> (dest n.target <> why_text n.refuse)))))))

  -- The loop over the notes: a message is given out once.
  unfoldable pub say_once : List FwdNote → List Warning → List Warning
  unfolding note_text is_said
  say_once [] ws = ws
  say_once (n ∷ ns) ws =
      say_once ns (if is_said ws (note_text n) then ws else ws ++ (said_by (note_text n) ∷ []))

  -- `ForwardNotes`.
  unfoldable pub forward_notes : Ruleset → Go (List Warning)
  unfolding say_once forwards
  forward_notes rs = forwards rs >>= λ s. ok (say_once s.notes [])

  pub is_said-say_once :
      (ns : List FwdNote) (ws : List Warning) (m : String)
      → is_said (say_once ns ws) m ≡ (any (λ n. str_eq (note_text n) m) ns || is_said ws m)
  unfolding say_once is_said
  is_said-say_once [] ws m = refl
  is_said-say_once (n ∷ ns) ws m = elim (Bool-cases (is_said ws (note_text n))) [
    | inl q ↦ rw q (is_said-say_once ns ws m ∙ said_before ws (note_text n) m _ q)
    | inr q ↦
        rw q (
          is_said-say_once ns (ws ++ (said_by (note_text n) ∷ [])) m
          ∙ said_now ws (note_text n) m _)
  ]
