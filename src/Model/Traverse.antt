-- ===== src/Model/Traverse.antt =====
-- internal/model/traverse.go: the packet pushed through the base chains of one hook. The walker's
-- state, the rules that it reached and the rewrite that it applied, is passed along. A reason is a
-- value that names the sentence with its parts; the wording is not modelled.
pub mod Types
pub mod Walk
pub mod Safety
pub mod Bases
pub mod Depth
pub mod Accept
pub mod Kernel
use whyopen.Prelude.{
  ℕ, zero, suc, ◌+◌, String, Bool, true, false, ◌&&◌, ◌||◌, not, Option, none, some, List, [], ◌∷◌,
  ◌++◌, ◌==◌, ltb, if◌then◌else◌, any, str_eq, str_lt, Go, panic, ok, ◌>>=◌, ℤ, compare_ℤ, is_eq,
  is_lt,
}
use whyopen.Facts.Types.{ActionKind, Rule, Chain, Table, Ruleset}
use whyopen.Model.Packet.{Packet, Dnat}
use Types.{Reason, Result, ResultKind, Hit, Walker, result, quiet}
use Walk.{walk_chain, max_jump_depth}

-- A chain with no devices recorded is read as seeing everything.
unfoldable pub chain_sees_iface : List String → String → Bool
chain_sees_iface [] iface = true
chain_sees_iface (d ∷ ds) iface = str_eq iface "" || any (λ x. str_eq x iface) (d ∷ ds)

ingress_chain : Table → Packet → List Chain → Option Reason
ingress_chain t pkt [] = none
ingress_chain t pkt (ch ∷ chs) =
    if ch.base && str_eq ch.hook "ingress" && chain_sees_iface ch.devices pkt.in_iface
    then some (Reason.on_ingress t.name ch.name ch.devices)
    else ingress_chain t pkt chs

abbrev or_else : Option Reason → Option Reason → Option Reason
or_else none b = b
or_else (some a) b = some a

ingress_table : Packet → List Table → Option Reason
ingress_table pkt [] = none
ingress_table pkt (t ∷ ts) = or_else (ingress_chain t pkt t.chains) (ingress_table pkt ts)

-- The reason why an ingress chain leaves the verdict open, if one does.
unfoldable pub ingress_unmodelled : Ruleset → Packet → Option Reason
unfolding ingress_table ingress_chain chain_sees_iface
ingress_unmodelled rs pkt = ingress_table pkt rs.tables

abbrev known_hooks : List String
known_hooks =
    "ingress" ∷ "egress" ∷ "prerouting" ∷ "input" ∷ "forward" ∷ "output" ∷ "postrouting" ∷ []

unfoldable pub is_known_hook : String → Bool
is_known_hook hook = any (λ h. str_eq h hook) known_hooks

pub record BaseChain : Type 0 where
  pub table : String
  pub chain : Chain

-- The base chains gathered so far, or the reason that ends the gathering.
pub data Gathered : Type 0 where
  bases : List BaseChain → Gathered
  refused : Reason → Gathered

abbrev add_base : BaseChain → Gathered → Gathered
add_base b (bases bs) = bases (b ∷ bs)
add_base b (refused r) = refused r

-- The loop over one table's chains, followed by what the later tables give.
unfoldable pub gather_chains : String → Table → Gathered → List Chain → Gathered
unfolding is_known_hook
gather_chains hook t later [] = later
gather_chains hook t later (ch ∷ chs) =
    let rest = gather_chains hook t later chs in
    if not ch.base
    then rest
    else (if not (is_known_hook ch.hook)
        then refused (Reason.hook_unrecognised t.name ch.name ch.hook)
        else (if str_eq ch.hook hook
            then add_base (record { table = t.name; chain = ch }) rest
            else rest))

unfoldable pub gather : String → String → List Table → Gathered
unfolding gather_chains
gather family hook [] = bases []
gather family hook (t ∷ ts) =
    let rest = gather family hook ts in
    if not (str_eq t.family family) && not (str_eq t.family "inet")
    then rest
    else gather_chains hook t rest t.chains

-- The order of the walk: ascending priority, then the names of table and chain.
unfoldable pub precedes : BaseChain → BaseChain → Bool
precedes a b =
    if not (is_eq (compare_ℤ a.chain.priority b.chain.priority))
    then is_lt (compare_ℤ a.chain.priority b.chain.priority)
    else (if not (str_eq a.table b.table)
        then str_lt a.table b.table
        else str_lt a.chain.name b.chain.name)

-- `sort.SliceStable`.
unfoldable pub insert_base : BaseChain → List BaseChain → List BaseChain
unfolding precedes
insert_base b [] = b ∷ []
insert_base b (c ∷ cs) = if precedes c b then c ∷ insert_base b cs else b ∷ c ∷ cs

unfoldable pub sort_bases : List BaseChain → List BaseChain
unfolding insert_base
sort_bases [] = []
sort_bases (b ∷ bs) = insert_base b (sort_bases bs)

module _ (rs : Ruleset) (family : String) (pkt : Packet) where
  -- What the walk of a hook does after one base chain.
  after_base :
      ResultKind
      → (Walker → Go (Result × List Hit))
      → BaseChain
      → Result
      → Walker
      → Go (Result × List Hit)
  after_base ResultKind.drop rest b res w = ok (res, w.hits)
  after_base ResultKind.unknown rest b res w = ok (res, w.hits)
  after_base ResultKind.accept rest b res w = rest w
  after_base _ rest b res w =
      ok (result ResultKind.unknown (Reason.unexpected_verdict b.table b.chain.name), w.hits)

  unfoldable pub walk_bases : List BaseChain → Walker → Go (Result × List Hit)
  unfolding after_base
  walk_bases [] w = ok (record (quiet ResultKind.accept) { dnat = w.dnat }, w.hits)
  walk_bases (b ∷ bs) w = do
    (res, w') ← walk_chain rs family pkt (suc max_jump_depth) b.table b.chain w
    after_base res.kind (walk_bases bs) b res w'

  walk_gathered : Gathered → Go (Result × List Hit)
  walk_gathered (refused why) = ok (result ResultKind.unknown why, [])
  walk_gathered (bases bs) = walk_bases (sort_bases bs) (record { hits = []; dnat = none })

  or_walk : Option Reason → Gathered → Go (Result × List Hit)
  unfolding walk_gathered
  or_walk (some why) g = ok (result ResultKind.unknown why, [])
  or_walk none g = walk_gathered g

-- `Traverse`.
unfoldable pub traverse : Ruleset → String → String → Packet → Go (Result × List Hit)
unfolding or_walk
traverse rs family hook pkt =
    or_walk rs family pkt (ingress_unmodelled rs pkt) (gather family hook rs.tables)
