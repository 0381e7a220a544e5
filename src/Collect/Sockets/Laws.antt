-- ===== src/Collect/Sockets/Laws.antt =====
-- internal/collect/sockets.go: the sockets that a table lists are those of the document.
use whyopen.Prelude.{
  ℕ, ◌≡◌, refl, inl, inr, arith, String, Bool, true, ◌&&◌, not, some, List, [], ◌∷◌, ◌==◌,
  if◌then◌else◌, Bytes, hex_decode, str_eq, pos, Bool-cases,
}
use whyopen.Prelude.Strconv.{cut, fields, has_suffix, Parsed, parse_uint}
use whyopen.Prelude.Fallible.{returned}
use whyopen.Facts.Host.{Socket}
use whyopen.Netip.{Addr, addr_from_slice}
use whyopen.Collect.Sockets.{
  swap_groups, host_bytes, parse_hex_addr, passed_over, line_socket, socket_at, add_line,
  parse_lines, parse_proc_net,
}

-- An address of four or sixteen bytes.
pub data IsAddr : Addr → Bytes → Type 0 where
  is_v4 : (a b c d : ℕ) → IsAddr (Addr.v4 (a ∷ b ∷ c ∷ d ∷ [])) (d ∷ c ∷ b ∷ a ∷ [])
  is_v6 :
      (a b c d e f g h i j k l m n o p : ℕ)
      → IsAddr
          (Addr.v6 (a ∷ b ∷ c ∷ d ∷ e ∷ f ∷ g ∷ h ∷ i ∷ j ∷ k ∷ l ∷ m ∷ n ∷ o ∷ p ∷ []) [])
          (d ∷ c ∷ b ∷ a ∷ h ∷ g ∷ f ∷ e ∷ l ∷ k ∷ j ∷ i ∷ p ∷ o ∷ n ∷ m ∷ [])

-- A socket as the kernel knows it.
pub record KernelSocket : Type 0 where
  pub address : Addr
  pub port : ℕ
  pub remote_port : ℕ
  pub listening : Bool
  pub uid : ℕ
  pub inode : ℕ

-- The text of an address and a port: the bytes of each group of four in reverse, in hexadecimal, and
-- the port in hexadecimal.
pub record AddrText (text : String) (address : Addr) (port : ℕ) : Type 0 where
  pub host : String
  pub port_text : String
  pub memory : Bytes
  pub is_cut : cut b':' text ≡ (host, some port_text)
  pub is_hex : hex_decode host ≡ some memory
  pub is_addr : IsAddr address memory
  pub is_port : parse_uint 16 65535 port_text ≡ Parsed.value port

-- A line of a table shows an entry.
pub record Shows (line : String) (e : KernelSocket) : Type 0 where
  pub slot : String
  pub local : String
  pub remote : String
  pub state : String
  pub queues : String
  pub timer : String
  pub retransmits : String
  pub uid_text : String
  pub timeout : String
  pub inode_text : String
  pub others : List String
  pub is_line :
      fields line
      ≡ slot ∷ local ∷ remote ∷ state ∷ queues ∷ timer ∷ retransmits ∷ uid_text ∷ timeout
        ∷ inode_text ∷ others
  pub is_local : AddrText local e.address e.port
  pub is_remote : has_suffix remote ":0000" ≡ (e.remote_port == 0)
  pub is_state : str_eq state "0A" ≡ e.listening
  pub is_uid : parse_uint 10 0xffffffff uid_text ≡ Parsed.value e.uid
  pub is_inode : parse_uint 10 0xffffffff inode_text ≡ Parsed.value e.inode

-- The lines show the entries, one each.
abbrev pub AllShow : List String → List KernelSocket → Type 0
AllShow [] [] = Unit
AllShow (l ∷ ls) (e ∷ es) = Shows l e × AllShow ls es
AllShow _ _ = ⊥

-- What can be reached by a packet that nobody expects: a listener of TCP, a UDP socket with no peer.
abbrev pub is_open : String → KernelSocket → Bool
is_open proto e =
    not (str_eq proto "tcp" && not e.listening)
    && not (str_eq proto "udp" && not (e.remote_port == 0))

swap_groups-IsAddr :
    (a : Addr) (memory : Bytes) → IsAddr a memory → addr_from_slice (swap_groups memory) ≡ some a
unfolding swap_groups
swap_groups-IsAddr a m (is_v4 _ _ _ _) = refl
swap_groups-IsAddr a m (is_v6 _ _ _ _ _ _ _ _ _ _ _ _ _ _ _ _) = refl

host_bytes-IsAddr :
    (a : Addr) (memory : Bytes) → IsAddr a memory → host_bytes (some memory) ≡ returned memory
host_bytes-IsAddr a m (is_v4 _ _ _ _) = refl
host_bytes-IsAddr a m (is_v6 _ _ _ _ _ _ _ _ _ _ _ _ _ _ _ _) = refl

parse_hex_addr-AddrText :
    (text : String) (a : Addr) (port : ℕ)
    → AddrText text a port
    → parse_hex_addr text ≡ returned (a, port)
unfolding parse_hex_addr
parse_hex_addr-AddrText text a port h =
    rw
      (
        h.is_cut,
        h.is_hex,
        host_bytes-IsAddr a h.memory h.is_addr,
        swap_groups-IsAddr a h.memory h.is_addr,
        h.is_port,
      )
      refl

module _ (addr_string : Addr → String) (family proto : String) where
  -- What the document holds for an entry.
  abbrev pub socket_of : KernelSocket → Socket
  socket_of e = record {
    family = family;
    proto = proto;
    bind_ip = addr_string e.address;
    port = e.port;
    inode = e.inode;
    uid = e.uid;
    pid = pos 0;
    process = "";
    unit = "";
    container = "";
  }

  abbrev pub listed : List KernelSocket → List Socket
  listed [] = []
  listed (e ∷ es) = if is_open proto e then socket_of e ∷ listed es else listed es

  passed_over-Shows :
      (l : String) (e : KernelSocket)
      → Shows l e
      → passed_over proto (fields l) ≡ not (is_open proto e)
  unfolding passed_over
  passed_over-Shows l e h = rw (h.is_line, h.is_remote, h.is_state) (ground arith)

  line_socket-Shows :
      (l : String) (e : KernelSocket)
      → Shows l e
      → line_socket addr_string family proto (fields l) ≡ returned (socket_of e)
  unfolding socket_at line_socket
  line_socket-Shows l e h =
      rw
        (
          h.is_line,
          parse_hex_addr-AddrText h.local e.address e.port h.is_local,
          h.is_uid,
          h.is_inode,
        )
        refl

  parse_lines-listed :
      (ls : List String) (es : List KernelSocket)
      → AllShow ls es
      → parse_lines addr_string family proto true ls ≡ returned (listed es)
  unfolding parse_lines add_line
  parse_lines-listed [] [] h = refl
  parse_lines-listed [] (e ∷ es) h = absurd h
  parse_lines-listed (l ∷ ls) [] h = absurd h
  parse_lines-listed (l ∷ ls) (e ∷ es) (h, hs) =
      rw (parse_lines-listed ls es hs, passed_over-Shows l e h, line_socket-Shows l e h)
        (elim (Bool-cases (is_open proto e)) [ inl q ↦ rw q refl | inr q ↦ rw q refl ])

  -- A table whose lines after the header show the entries of the kernel, and which is read to its end, is
  -- parsed without an error, to the sockets of those entries that take packets from anyone, in order:
  -- listeners of TCP and UDP sockets without a peer.
  pub parse_proc_net-listed :
      (header : String) (ls : List String) (es : List KernelSocket)
      → AllShow ls es
      → parse_proc_net addr_string family proto true (header ∷ ls) ≡ returned (listed es)
  unfolding parse_proc_net
  parse_proc_net-listed header ls es h = parse_lines-listed ls es h
