-- ===== src/Examples/Ports.antt =====
-- internal/probe/probe.go, `ParsePorts`, on concrete texts.
use whyopen.Prelude.{◌≡◌, refl, [], ◌∷◌, List, ℕ}
use whyopen.Prelude.Fallible.{failed, returned}
use whyopen.Probe.Ports.{PortError, PortsError, parse_ports}
use whyopen.Probe.Ports.Sorted.{IsPortList, parse_ports-IsPortList}

abbrev some_ports : List ℕ
some_ports = 22 ∷ 80 ∷ 8000 ∷ 8001 ∷ 8002 ∷ []

ports_parsed : parse_ports "80, 8000-8002,22 ,8001" ≡ returned some_ports
unfolding parse_ports
ports_parsed = refl

parse_ports-IsPortList_example : IsPortList "80, 8000-8002,22 ,8001" some_ports
parse_ports-IsPortList_example =
    parse_ports-IsPortList "80, 8000-8002,22 ,8001" some_ports ports_parsed

blank_refused : parse_ports " " ≡ failed PortsError.no_ports
unfolding parse_ports
blank_refused = refl

zero_refused : parse_ports "22,0" ≡ failed (PortsError.bad_part PortError.port_zero)
unfolding parse_ports
zero_refused = refl

backwards_refused : parse_ports "90-80" ≡ failed PortsError.ends_below
unfolding parse_ports
backwards_refused = refl

wide_refused : parse_ports "1-4097" ≡ failed PortsError.range_too_wide
unfolding parse_ports
wide_refused = refl

open_range_refused : parse_ports "80-" ≡ failed (PortsError.bad_part PortError.not_a_port)
unfolding parse_ports
open_range_refused = refl
