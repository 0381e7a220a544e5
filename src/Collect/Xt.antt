-- ===== src/Collect/Xt.antt =====
-- internal/collect/nftconv.go: the payloads of xt matches and targets. A mask is a number, and a bit of
-- it is a power of two. What `net.IP.String` writes is a parameter.
pub mod Laws
use whyopen.Prelude.{
  ℕ, ◌+◌, ◌-◌, ◌*◌, ◌/◌, ◌%◌, String, Bool, true, false, ◌&&◌, ◌||◌, not, Option, none, some, List,
  [], ◌∷◌, ◌==◌, if◌then◌else◌, length, take, drop, Bytes, hex_decode, str_eq,
}
use whyopen.Prelude.Hex.{hex_encode}
use whyopen.Facts.Types.{DnatInfo, ConntrackInfo, AddrTypeInfo, RecentInfo, RecentMode, XtExpr}
use whyopen.Collect.Nft.{NatRange, XtInfo}

-- `mask&bit != 0`.
abbrev pub has_bit : ℕ → ℕ → Bool
has_bit mask bit = mask / bit % 2 == 1

-- `ctStateNames`.
abbrev pub ct_state_names : List (ℕ × String)
ct_state_names = (0x1, "invalid") ∷ (0x2, "established") ∷ (0x4, "related") ∷ (0x8, "new") ∷ []

-- `addrTypeNames`.
abbrev pub addr_type_names : List (ℕ × String)
addr_type_names =
    (0x1, "unspec")
    ∷ (0x2, "unicast")
    ∷ (0x4, "local")
    ∷ (0x8, "broadcast")
    ∷ (0x10, "anycast")
    ∷ (0x20, "multicast")
    ∷ []

-- The names of the bits that are set, in the order of the table.
unfoldable pub names_of : ℕ → List (ℕ × String) → List String
names_of mask [] = []
names_of mask ((bit, name) ∷ bits) =
    if has_bit mask bit then name ∷ names_of mask bits else names_of mask bits

-- `named`: the bits of the table that are set, each of them once.
unfoldable pub named_bits : ℕ → List (ℕ × String) → ℕ
named_bits mask [] = 0
named_bits mask ((bit, name) ∷ bits) =
    if has_bit mask bit then bit + named_bits mask bits else named_bits mask bits

-- The bits of `matchFlags` other than the flag for the state, 0x1, and its alias, 0x2000.
abbrev pub other_flags : ℕ → ℕ
other_flags flags =
    flags - (if has_bit flags 0x1 then 0x1 else 0) - (if has_bit flags 0x2000 then 0x2000 else 0)

-- `conntrack`.
unfoldable pub conntrack : ℕ → ℕ → ℕ → ConntrackInfo × Bool
unfolding names_of
conntrack match_flags invert_flags state_mask = (
  record {
    matches_state = has_bit match_flags 0x1;
    states = if has_bit match_flags 0x1 then names_of state_mask ct_state_names else [];
    invert = has_bit invert_flags 0x1;
  },
  other_flags match_flags == 0,
)

-- `addrTypes`.
unfoldable pub addr_types : ℕ → List String × Bool
unfolding names_of named_bits
addr_types mask = (names_of mask addr_type_names, named_bits mask addr_type_names == mask)

-- `recentModeName`.
abbrev recent_mode_name : ℕ → Option RecentMode
recent_mode_name b =
    if b == 0x2
    then some RecentMode.set
    else (if b == 0x4
        then some RecentMode.update
        else (if b == 0x1
            then some RecentMode.rcheck
            else (if b == 0x8 then some RecentMode.remove else none)))

-- The byte at an offset that the length of the payload covers.
abbrev byte_at : ℕ → Bytes → ℕ
byte_at n b = elim (drop n b) [ [] ↦ 0 | ◌∷◌ x xs ↦ x ]

-- `binary.LittleEndian.Uint32`.
abbrev uint32_at : ℕ → Bytes → ℕ
uint32_at n b =
    byte_at n b + byte_at (n + 1) b * 256 + byte_at (n + 2) b * 65536 + byte_at (n + 3) b * 16777216

-- The bytes before the first zero, or all.
abbrev until_zero : Bytes → Bytes
until_zero [] = []
until_zero (b ∷ bs) = let rest = until_zero bs in if b == 0 then [] else b ∷ rest

abbrev recent_in_mode : Bytes → Option RecentMode → Option RecentInfo
recent_in_mode raw none = none
recent_in_mode raw (some mode) = some (record {
  mode = mode;
  seconds = uint32_at 0 raw;
  hit_count = uint32_at 4 raw;
  invert = not (byte_at 9 raw == 0);
  name = until_zero (take 200 (drop 10 raw));
})

-- `recentInfo`.
unfoldable pub recent_info : ℕ → Bytes → Option RecentInfo
recent_info rev raw =
    if not (rev == 1) || not (length raw == 232)
    then none
    else recent_in_mode raw (recent_mode_name (byte_at 8 raw))

-- `&facts.XtExpr{Kind: kind, Name: name, Rev: rev}`.
abbrev pub bare_xt : String → String → ℕ → XtExpr
bare_xt kind name rev = record {
  kind = kind;
  name = name;
  rev = rev;
  raw = "";
  decoded = false;
  dnat = none;
  conntrack = none;
  addr_type = none;
  recent = none;
}

abbrev pub with_recent : XtExpr → Option RecentInfo → XtExpr
with_recent x none = x
with_recent x (some info) = record x { recent = some info; decoded = true }

unfoldable pub decode_bytes : XtExpr → Option Bytes → XtExpr
unfolding recent_info
decode_bytes x none = x
decode_bytes x (some raw) =
    if str_eq x.name "recent" then with_recent x (recent_info x.rev raw) else x

-- `decodeXtRaw`.
unfoldable pub decode_xt_raw : XtExpr → XtExpr
unfolding decode_bytes hex_decode
decode_xt_raw x = if x.decoded || str_eq x.raw "" then x else decode_bytes x (hex_decode x.raw)

module _ (ip_string : Bytes → String) where
  -- `ipString`.
  abbrev ip_text : Option Bytes → String
  ip_text none = ""
  ip_text (some ip) = ip_string ip

  -- `natRange`.
  unfoldable pub nat_range : NatRange → DnatInfo
  nat_range r = record {
    min_ip = ip_text r.min_ip;
    max_ip = ip_text r.max_ip;
    min_port = r.min_port;
    max_port = r.max_port;
  }

  -- `convertXt`.
  unfoldable pub convert_xt : String → String → ℕ → XtInfo → XtExpr
  unfolding nat_range conntrack addr_types decode_xt_raw hex_encode
  convert_xt kind name rev (XtInfo.nat_range2 r) = record (bare_xt kind name rev) {
    decoded = true;
    dnat = some (nat_range r);
  }
  convert_xt kind name rev (XtInfo.nat_range r) = record (bare_xt kind name rev) {
    decoded = true;
    dnat = some (nat_range r);
  }
  convert_xt kind name rev (XtInfo.conntrack match_flags invert_flags state_mask) =
      let (info, decoded) = conntrack match_flags invert_flags state_mask in
      record (bare_xt kind name rev) { conntrack = some info; decoded = decoded }
  convert_xt kind name rev (XtInfo.addr_type_v1 dest source flags) =
      record (bare_xt kind name rev) {
        decoded =
            not (has_bit flags 0x4)
            && not (has_bit flags 0x8)
            && (addr_types dest).1
            && (addr_types source).1;
        addr_type = some (record {
          dest_types = (addr_types dest).0;
          source_types = (addr_types source).0;
          invert_dest = has_bit flags 0x2;
          invert_source = has_bit flags 0x1;
        });
      }
  convert_xt kind name rev (XtInfo.addr_type dest source invert_dest invert_source) =
      record (bare_xt kind name rev) {
        decoded = (addr_types dest).1 && (addr_types source).1;
        addr_type = some (record {
          dest_types = (addr_types dest).0;
          source_types = (addr_types source).0;
          invert_dest = invert_dest;
          invert_source = invert_source;
        });
      }
  convert_xt kind name rev (XtInfo.unknown raw) =
      decode_xt_raw (record (bare_xt kind name rev) { raw = hex_encode raw })
  convert_xt kind name rev XtInfo.other = bare_xt kind name rev
