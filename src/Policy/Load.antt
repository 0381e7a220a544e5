-- ===== src/Policy/Load.antt =====
-- internal/policy/policy.go: the text of an entry, and `Load` over the document that the YAML parser
-- has decoded in its strict mode. The zones stand in the order in which the map gives them out, and a
-- value of the allow list is the text that `fmt.Sprint` makes of it.
pub mod Laws
pub mod RoundTrip
pub mod Errors
use whyopen.Prelude.{
  ℕ, String, Bool, ◌&&◌, not, Option, none, some, List, [], ◌∷◌, ◌==◌, if◌then◌else◌, str_eq, ℤ,
  pos, compare_ℤ, is_eq,
}
use whyopen.Prelude.Strconv.{decimal, cut, parse_uint16}
use whyopen.Prelude.Fallible.{Fallible, failed, returned, ◌>>=◌, wrap}
use whyopen.Policy.Types.{Entry, Policy, add_once, sort_entries}

-- `Entry.String`.
unfoldable pub entry_string : Entry → String
unfolding decimal
entry_string e = decimal e.port (String.◌∷◌ "/" e.proto)

pub data EntryError : Type 0 where
  no_proto : EntryError
  not_modelled : EntryError
  no_port : EntryError

-- The port of an entry whose protocol is one that the program models.
unfoldable pub entry_at : Option ℕ → String → Fallible EntryError Entry
entry_at none proto = failed EntryError.no_port
entry_at (some n) proto =
    if n == 0 then failed EntryError.no_port else returned (record { port = n; proto = proto })

unfoldable pub entry_of_parts : String × Option String → Fallible EntryError Entry
unfolding entry_at parse_uint16
entry_of_parts (port, none) = failed EntryError.no_proto
entry_of_parts (port, some proto) =
    if not (str_eq proto "tcp") && not (str_eq proto "udp")
    then failed EntryError.not_modelled
    else entry_at (parse_uint16 port) proto

-- `parseEntry`.
unfoldable pub parse_entry : String → Fallible EntryError Entry
unfolding entry_of_parts cut
parse_entry s = entry_of_parts (cut b'/' s)

-- `document`: a version key may be missing.
pub record Document : Type 0 where
  pub version : Option ℤ
  pub zones : List (String × List String)
  pub fail_on_unknown : Bool

pub data LoadError : Type 0 where
  no_version : LoadError
  other_version : LoadError
  other_zone : LoadError
  bad_entry : EntryError → LoadError

-- `Version`.
abbrev schema_version : ℤ
schema_version = pos 1

-- `zoneName`.
abbrev pub zone_name : String
zone_name = "internet"

-- The loop over the entries of a zone.
unfoldable pub load_allow : List String → List Entry → Fallible LoadError (List Entry)
unfolding parse_entry
load_allow [] allow = returned allow
load_allow (raw ∷ raws) allow =
    wrap LoadError.bad_entry (parse_entry raw) >>= λ e. load_allow raws (add_once e allow)

unfoldable pub load_zone_name : String → Fallible LoadError (Unit {0})
load_zone_name name =
    if not (str_eq name zone_name) then failed LoadError.other_zone else returned tt

-- The loop over the zones.
unfoldable pub load_zones :
    List (String × List String) → List Entry → Fallible LoadError (List Entry)
unfolding load_zone_name load_allow
load_zones [] allow = returned allow
load_zones (z ∷ zones) allow = do
  _ ← load_zone_name z.0
  more ← load_allow z.1 allow
  load_zones zones more

unfoldable pub load_version : Option ℤ → Fallible LoadError (Unit {0})
load_version none = failed LoadError.no_version
load_version (some v) =
    if not (is_eq (compare_ℤ v schema_version)) then failed LoadError.other_version else returned tt

unfoldable pub load : Document → Fallible LoadError Policy
unfolding load_version load_zones sort_entries
load doc = do
  _ ← load_version doc.version
  allow ← load_zones doc.zones []
  returned (record { allow = sort_entries allow; fail_on_unknown = doc.fail_on_unknown })
