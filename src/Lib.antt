-- ===== src/Lib.antt =====
-- whyopen reads a host's nftables ruleset, its listening sockets and its addresses, and says which
-- ports can be reached from the internet and why. This library models the part that decides.
--
-- internal/facts is the document: tables, chains, rules and their expressions, and the host around
-- them. Facts/Types and Facts/Host hold its types; Facts/Validate is `facts.Validate`, which refuses a
-- document in which an expression lacks the object that its kind names. A pointer is an Option, and a
-- text field with a closed vocabulary is a data type with one more constructor for any other text.
-- The register data and the operands stay hexadecimal text, as in the document.
--
-- internal/model/packet.go and match.go evaluate one rule against a synthetic packet. Model/Packet is
-- the packet, the action and the outcome. Model/Match/Fields builds what a load puts in a register,
-- Model/Match/Sets is `lookupMatch` with `intervalMatch`, Model/Match/Xt is `xtExpr`, Model/Match/Exprs
-- has one function for each case of the switch in `MatchRule`, and Model/Match/Rule is `MatchRule` with
-- `skippableUnresolvedMatch`. The registers and the action are passed along in a MatchState. A nil
-- pointer that is dereferenced is the value `panic` of Prelude/Crash. binary.NativeEndian is read as
-- little-endian, the order of the architectures that are released.
--
-- internal/model/traverse.go pushes the packet through the base chains of a hook. Model/Traverse/Walk is
-- `walkChain` and Model/Traverse is `Traverse`; the walker's hits and rewrite are passed along in a
-- Walker. `walk_chain` recurses on the levels of nesting that are left: `Traverse` gives a base chain
-- `max_jump_depth + 1` of them, and where the code refuses at a depth past `maxJumpDepth` none is left,
-- so that the model gives up exactly where the code does.
--
-- Model/Traverse/Kernel is the reference for it, the walk of nftables with a call stack, as a relation.
--
-- internal/model/evaluate.go turns walks into a verdict. Model/Evaluate/Lookups is what it looks up on
-- the host, Model/Evaluate is `evaluateAtDestination` and `evaluateOne`, and Model/Evaluate/All is
-- the loop of `Evaluate` with `familiesFor` and the order of the verdicts, over a list of endpoints.
-- Model/Evaluate/Endpoints is `endpoints`, which merges sockets, publishes and forwarded ports, and
-- `Evaluate` over it. Netip is net/netip of the standard library as far as the program uses it, with
-- `ParseAddr` in Netip/Parse. A reason is a value that names the sentence and its parts; the wording is
-- not modelled.
--
-- internal/model/forwards.go scans the ruleset for ports that are forwarded to another machine.
-- Model/Forwards/Types is what it reads off one expression, Model/Forwards/Exprs is `rule` with `emit`,
-- Model/Forwards is `walkChain` and `forwards`, and Model/Forwards/Notes is `ForwardNotes` with its text.
-- The scan recurses on the levels of nesting that are left, as many as `maxJumpDepth` allows.
--
-- internal/policy compares verdicts with a policy: Policy/Types has its entries, Policy/Load is `Load`
-- of a document that the YAML library has decoded, Policy/Check is `Check` and Policy/Init is `Init`.
-- Probe/Ports is `ParsePorts` of internal/probe/probe.go. An error of a Go function is the value `failed`
-- of Prelude/Fallible, and Prelude/Strconv is strconv and strings as far as the program uses them. internal/probe/reconcile.go folds the results of a probe into the verdicts:
-- Probe/Reconcile. cmd/whyopen/main.go ends the run with an exit code: Cli. The warnings that `Check`
-- hands on are a parameter of its model, and so is the text of an address in a note.
--
-- internal/collect/nftconv.go makes the document's expressions of the kernel's. Collect/Nft has the
-- values of the netlink library as far as they are read, Collect/Xt the payloads of xt matches and
-- targets, Collect/Convert is `ConvertExprs`, and Collect/Redecode is `Redecode`. What net.IP.String
-- writes and what xt.Unmarshal reads are parameters. A mask is a number and a bit of it a power of two.
-- The note of an expression and the family of a rewrite are left out: no decision reads them.
--
-- Collect/Sockets is `Sockets` with `ParseProcNet` of internal/collect/sockets.go: the lines of a table and
-- the owners of the sockets, which the operating system gives, are arguments.
--
-- Not modelled: the rest of the collector (internal/collect), which reads netlink, /proc and Docker; the reports
-- (internal/report); the network side of the probe; the YAML and JSON forms; and the parsing of flags.
--
-- A module named for a part holds the definitions; the modules below it named Laws, Safety, Order,
-- Interval, Resolved, Match/Ports, Bases, Depth, Accept, Hits, Explains, Sound, Goto, Best, Reach, Covers,
-- Complete, RoundTrip, Errors, Sorted, Fields, Rows, Total, Keeps, Meets, Shapes, Said, Settled and Names hold the theorems,
-- and Examples runs them on a concrete host.
pub mod Prelude
pub mod Facts
pub mod Netip
pub mod Model
pub mod Policy
pub mod Probe
pub mod Cli
pub mod Collect
pub mod Examples
