-- ===== src/Examples/Tables.antt =====
-- internal/collect/sockets.go on a table of /proc/net.
use whyopen.Prelude.{◌≡◌, refl, String, true, false, [], ◌∷◌, hex_decode}
use whyopen.Prelude.Strconv.{cut, fields, has_suffix, parse_uint}
use whyopen.Prelude.Fallible.{returned}
use whyopen.Netip.{Addr}
use whyopen.Collect.Sockets.{parse_proc_net}
use whyopen.Collect.Sockets.Laws.{is_v4, KernelSocket, Shows, listed, parse_proc_net-listed}

abbrev no_text : Addr → String
no_text a = ""

abbrev ssh_line : String
ssh_line = "0: 00000000:0016 00000000:0000 0A 00000000:00000000 00:00000000 00000000 0 0 4711 1"

-- sshd listens on port 22 of every address.
abbrev ssh_entry : KernelSocket
ssh_entry = record {
  address = Addr.v4 (0 ∷ 0 ∷ 0 ∷ 0 ∷ []);
  port = 22;
  remote_port = 0;
  listening = true;
  uid = 0;
  inode = 4711;
}

abbrev peer_line : String
peer_line = "1: 0100007F:0016 0100007F:C350 01 00000000:00000000 00:00000000 00000000 1000 0 4712 1"

-- A connection to it from the host itself.
abbrev peer_entry : KernelSocket
peer_entry = record {
  address = Addr.v4 (127 ∷ 0 ∷ 0 ∷ 1 ∷ []);
  port = 22;
  remote_port = 50000;
  listening = false;
  uid = 1000;
  inode = 4712;
}

ssh-Shows : Shows ssh_line ssh_entry
unfolding fields has_suffix cut parse_uint hex_decode
ssh-Shows = record {
  slot = "0:";
  local = "00000000:0016";
  remote = "00000000:0000";
  state = "0A";
  queues = "00000000:00000000";
  timer = "00:00000000";
  retransmits = "00000000";
  uid_text = "0";
  timeout = "0";
  inode_text = "4711";
  others = "1" ∷ [];
  is_line = refl;
  is_local = record {
    host = "00000000";
    port_text = "0016";
    memory = 0 ∷ 0 ∷ 0 ∷ 0 ∷ [];
    is_cut = refl;
    is_hex = refl;
    is_addr = is_v4 0 0 0 0;
    is_port = refl;
  };
  is_remote = refl;
  is_state = refl;
  is_uid = refl;
  is_inode = refl;
}

peer-Shows : Shows peer_line peer_entry
unfolding fields has_suffix cut parse_uint hex_decode
peer-Shows = record {
  slot = "1:";
  local = "0100007F:0016";
  remote = "0100007F:C350";
  state = "01";
  queues = "00000000:00000000";
  timer = "00:00000000";
  retransmits = "00000000";
  uid_text = "1000";
  timeout = "0";
  inode_text = "4712";
  others = "1" ∷ [];
  is_line = refl;
  is_local = record {
    host = "0100007F";
    port_text = "0016";
    memory = 1 ∷ 0 ∷ 0 ∷ 127 ∷ [];
    is_cut = refl;
    is_hex = refl;
    is_addr = is_v4 127 0 0 1;
    is_port = refl;
  };
  is_remote = refl;
  is_state = refl;
  is_uid = refl;
  is_inode = refl;
}

parse_proc_net-listed_example :
    parse_proc_net no_text "ip" "tcp" true ("sl" ∷ ssh_line ∷ peer_line ∷ [])
    ≡ returned (listed no_text "ip" "tcp" (ssh_entry ∷ peer_entry ∷ []))
parse_proc_net-listed_example =
    parse_proc_net-listed no_text "ip" "tcp" "sl" (ssh_line ∷ peer_line ∷ [])
      (ssh_entry ∷ peer_entry ∷ []) (ssh-Shows, (peer-Shows, tt))
