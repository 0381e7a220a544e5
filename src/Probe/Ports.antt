-- ===== src/Probe/Ports.antt =====
-- internal/probe/probe.go, `ParsePorts`: the ports that a run probes, from a text like 22,80,8000-8100.
pub mod Laws
pub mod Sorted
use whyopen.Prelude.{
  ℕ, zero, suc, ◌+◌, ◌-◌, String, Bool, false, ◌||◌, Option, none, some, List, [], ◌∷◌, ◌++◌, ◌==◌,
  ltb, if◌then◌else◌, length, str_eq,
}
use whyopen.Prelude.Strconv.{cut, split, trim_space, parse_uint16}
use whyopen.Prelude.Fallible.{Fallible, failed, returned, ◌>>=◌, wrap}

-- `maxPorts`.
abbrev pub max_ports : ℕ
max_ports = 4096

pub data PortError : Type 0 where
  not_a_port : PortError
  port_zero : PortError

pub data PortsError : Type 0 where
  no_ports : PortsError
  bad_part : PortError → PortsError
  ends_below : PortsError
  range_too_wide : PortsError
  too_many : PortsError

port_or_error : Option ℕ → Fallible PortError ℕ
port_or_error none = failed PortError.not_a_port
port_or_error (some n) = if n == 0 then failed PortError.port_zero else returned n

-- `parsePort`.
unfoldable pub parse_port : String → Fallible PortError ℕ
unfolding port_or_error trim_space parse_uint16
parse_port s = port_or_error (parse_uint16 (trim_space s))

unfoldable pub has : List ℕ → ℕ → Bool
has [] p = false
has (x ∷ xs) p = x == p || has xs p

-- `add`: the set of the ports that are there stands beside the list.
unfoldable pub add_port : ℕ → List ℕ → List ℕ
unfolding has
add_port p out = if has out p then out else out ++ (p ∷ [])

-- The loop over a range, of as many ports as the number says.
unfoldable pub add_range : ℕ → ℕ → List ℕ → List ℕ
unfolding add_port
add_range zero p out = out
add_range (suc n) p out = add_range n (p + 1) (add_port p out)

unfoldable pub check_range : ℕ → ℕ → Fallible PortsError (Unit {0})
check_range start end =
    if ltb end start
    then failed PortsError.ends_below
    else (if ltb max_ports (end - start + 1) then failed PortsError.range_too_wide else returned tt)

-- What stands after the dash, if one is there.
unfoldable pub add_to_end : ℕ → Option String → List ℕ → Fallible PortsError (List ℕ)
unfolding parse_port add_range check_range
add_to_end start none out = returned (add_port start out)
add_to_end start (some hi) out = do
  end ← wrap PortsError.bad_part (parse_port hi)
  _ ← check_range start end
  returned (add_range (end - start + 1) start out)

-- One part of the text, without the space around it.
unfoldable pub add_part : String × Option String → List ℕ → Fallible PortsError (List ℕ)
unfolding add_to_end parse_port
add_part (lo, hi) out = do start ← wrap PortsError.bad_part (parse_port lo); add_to_end start hi out

-- The loop over the parts.
unfoldable pub add_parts : List String → List ℕ → Fallible PortsError (List ℕ)
unfolding add_part cut trim_space
add_parts [] out = returned out
add_parts (part ∷ parts) out = do
  more ← add_part (cut b'-' (trim_space part)) out
  add_parts parts more

unfoldable pub insert_port : ℕ → List ℕ → List ℕ
insert_port p [] = p ∷ []
insert_port p (x ∷ xs) = if ltb x p then x ∷ insert_port p xs else p ∷ x ∷ xs

-- `sort.Slice` by the number.
unfoldable pub sort_ports : List ℕ → List ℕ
unfolding insert_port
sort_ports [] = []
sort_ports (p ∷ ps) = insert_port p (sort_ports ps)

check_text : String → Fallible PortsError (Unit {0})
unfolding trim_space
check_text spec = if str_eq (trim_space spec) "" then failed PortsError.no_ports else returned tt

check_number : List ℕ → Fallible PortsError (Unit {0})
check_number out = if ltb max_ports (length out) then failed PortsError.too_many else returned tt

-- `ParsePorts`.
unfoldable pub parse_ports : String → Fallible PortsError (List ℕ)
unfolding check_text split add_parts check_number sort_ports
parse_ports spec = do
  _ ← check_text spec
  out ← add_parts (split b',' spec) []
  _ ← check_number out
  returned (sort_ports out)
