-- ===== src/Collect/Sockets.antt =====
-- internal/collect/sockets.go: the tables of sockets under /proc/net. The lines of a table, which the
-- operating system gives, are an argument, and so are the owners that /proc names for an inode. What
-- `netip.Addr.String` writes is a parameter.
pub mod Laws
use whyopen.Prelude.{
  ℕ, String, Bool, true, false, ◌&&◌, ◌||◌, not, Option, none, some, List, [], ◌∷◌, ◌++◌, ◌==◌, ltb,
  if◌then◌else◌, length, drop, map, Bytes, hex_decode, str_eq, ℤ, pos,
}
use whyopen.Prelude.Strconv.{cut, fields, has_suffix, Parsed, parse_uint, parsed_value}
use whyopen.Prelude.Fallible.{Fallible, failed, returned, ◌>>=◌, wrap}
use whyopen.Facts.Host.{Socket}
use whyopen.Netip.{Addr, addr_from_slice}

pub data AddrError : Type 0 where
  no_port_separator : AddrError
  bad_hex : AddrError
  bad_length : ℕ → AddrError
  bad_bytes : AddrError
  bad_port : AddrError

-- Each group of four bytes in reverse.
unfoldable pub swap_groups : Bytes → Bytes
swap_groups (a ∷ b ∷ c ∷ d ∷ rest) = d ∷ c ∷ b ∷ a ∷ swap_groups rest
swap_groups short = short

abbrev pub host_bytes : Option Bytes → Fallible AddrError Bytes
host_bytes none = failed AddrError.bad_hex
host_bytes (some raw) =
    if length raw == 4 || length raw == 16
    then returned raw
    else failed (AddrError.bad_length (length raw))

abbrev pub addr_of_slice : Option Addr → Fallible AddrError Addr
addr_of_slice none = failed AddrError.bad_bytes
addr_of_slice (some a) = returned a

abbrev pub with_port : Addr → Parsed → Fallible AddrError (Addr × ℕ)
with_port a (Parsed.value n) = returned (a, n)
with_port a _ = failed AddrError.bad_port

abbrev pub addr_and_port : String × Option String → Fallible AddrError (Addr × ℕ)
addr_and_port (host, none) = failed AddrError.no_port_separator
addr_and_port (host, some port) = host_bytes (hex_decode host) >>= λ raw.
    addr_of_slice (addr_from_slice (swap_groups raw)) >>= λ a.
    with_port a (parse_uint 16 65535 port)

-- `parseHexAddr`.
unfoldable pub parse_hex_addr : String → Fallible AddrError (Addr × ℕ)
unfolding swap_groups cut hex_decode parse_uint
parse_hex_addr s = addr_and_port (cut b':' s)

-- `fields[n]`, of a line with enough of them.
abbrev pub field : ℕ → List String → String
field n fs = elim (drop n fs) [ [] ↦ "" | ◌∷◌ x xs ↦ x ]

-- Whether a line is passed over: too few columns, a TCP socket that does not listen, a UDP socket that
-- is connected.
unfoldable pub passed_over : String → List String → Bool
unfolding has_suffix
passed_over proto fs =
    ltb (length fs) 10
    || str_eq proto "tcp" && not (str_eq (field 3 fs) "0A")
    || str_eq proto "udp" && not (has_suffix (field 2 fs) ":0000")

-- What stops the reading of a table: a local address, or an error of the reader.
pub data ProcError : Type 0 where
  bad_address : String → AddrError → ProcError
  not_read : ProcError

module _ (addr_string : Addr → String) (family proto : String) where
  unfoldable pub socket_at : List String → Addr × ℕ → Socket
  unfolding parse_uint
  socket_at fs (a, port) = record {
    family = family;
    proto = proto;
    bind_ip = addr_string a;
    port = port;
    inode = parsed_value 0xffffffff (parse_uint 10 0xffffffff (field 9 fs));
    uid = parsed_value 0xffffffff (parse_uint 10 0xffffffff (field 7 fs));
    pid = pos 0;
    process = "";
    unit = "";
    container = "";
  }

  unfoldable pub line_socket : List String → Fallible ProcError Socket
  unfolding parse_hex_addr socket_at
  line_socket fs = wrap (ProcError.bad_address (field 1 fs)) (parse_hex_addr (field 1 fs)) >>= λ at.
      returned (socket_at fs at)

  unfoldable pub add_line :
      List String → Fallible ProcError (List Socket) → Fallible ProcError (List Socket)
  unfolding line_socket passed_over
  add_line fs rest =
      if passed_over proto fs
      then rest
      else line_socket fs >>= λ s. rest >>= λ ss. returned (s ∷ ss)

  -- The lines after the header; `read` says whether the reader came to the end.
  unfoldable pub parse_lines : Bool → List String → Fallible ProcError (List Socket)
  unfolding add_line fields
  parse_lines true [] = returned []
  parse_lines false [] = failed ProcError.not_read
  parse_lines read (l ∷ ls) = let rest = parse_lines read ls in add_line (fields l) rest

  -- `ParseProcNet`.
  unfoldable pub parse_proc_net : Bool → List String → Fallible ProcError (List Socket)
  unfolding parse_lines
  parse_proc_net read [] = parse_lines read []
  parse_proc_net read (header ∷ ls) = parse_lines read ls

pub record SocketOwner : Type 0 where
  pub pid : ℤ
  pub comm : String
  pub unit : String
  pub container : String

abbrev owned_by : Socket → Option SocketOwner → Socket
owned_by s none = s
owned_by s (some o) = record s {
  pid = o.pid;
  process = o.comm;
  unit = o.unit;
  container = o.container;
}

-- A table that could not be opened or parsed.
pub data TableWarning : Type 0 where
  not_opened : String → TableWarning
  not_parsed : String → ProcError → TableWarning

-- The tables that `Sockets` reads: the file, the family and the protocol.
abbrev pub socket_tables : List (String × String × String)
socket_tables =
    ("net/tcp", "ip", "tcp")
    ∷ ("net/tcp6", "ip6", "tcp")
    ∷ ("net/udp", "ip", "udp")
    ∷ ("net/udp6", "ip6", "udp")
    ∷ []

-- What the opening of a file gives: nothing, or its lines with whether the reader came to the end.
abbrev pub Opened : Type 0
Opened = Option (Bool × List String)

abbrev pub add_socks :
    String
    → Fallible ProcError (List Socket)
    → List Socket × List TableWarning
    → List Socket × List TableWarning
add_socks file (failed e) (socks, warns) = (socks, TableWarning.not_parsed file e ∷ warns)
add_socks file (returned more) (socks, warns) = (more ++ socks, warns)

module _ (addr_string : Addr → String) (open_file : String → Opened) where
  unfoldable pub add_table :
      String × String × String
      → Opened
      → List Socket × List TableWarning
      → List Socket × List TableWarning
  unfolding parse_proc_net
  add_table (file, family, proto) none (socks, warns) =
      (socks, TableWarning.not_opened file ∷ warns)
  add_table (file, family, proto) (some (read, lines)) rest =
      add_socks file (parse_proc_net addr_string family proto read lines) rest

  -- The sockets of the tables in order, with the warnings in order.
  unfoldable pub read_tables : List (String × String × String) → List Socket × List TableWarning
  unfolding add_table
  read_tables [] = ([], [])
  read_tables ((file, family, proto) ∷ ts) =
      add_table (file, family, proto) (open_file file) (read_tables ts)

  -- `Sockets`, without the warnings that come with the owners.
  unfoldable pub all_sockets : (ℕ → Option SocketOwner) → List Socket × List TableWarning
  unfolding read_tables
  all_sockets owners =
      let read = read_tables socket_tables in
      (map (λ s. owned_by s (owners s.inode)) read.0, read.1)
