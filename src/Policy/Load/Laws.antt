-- ===== src/Policy/Load/Laws.antt =====
-- internal/policy/policy.go: what a loaded policy is, and that what is printed is loaded again.
use whyopen.Prelude.{
  ℕ, ◌≤◌, ◌≡◌, refl, ap, ◌∙◌, inl, inr, String, Bool, false, ◌&&◌, ◌||◌, not, Option, none, some,
  List, [], ◌∷◌, arith, All, any, Bool-cases, str_eq, eq_iff, ◌==◌,
}
use whyopen.Prelude.Strconv.{decimal, cut, parse_uint16}
use whyopen.Prelude.Strconv.Laws.{parse_uint16-decimal, parse_uint16_max, cut-decimal}
use whyopen.Prelude.Fallible.{
  failed, returned, wrap, Returns, Returns-returned, Returns-bind, Returns-wrap, Returns-both,
  Returns-map, Returns-self, Returns-always,
}
use whyopen.Policy.Types.{Entry, Policy, add_once, holds, entry_eq}
use whyopen.Policy.Types.Laws.{
  IsProto, IsValid, IsAscending, IsDistinct, sort_entries-IsAscending, All-add_once,
  add_once-IsDistinct, All-sort_entries, holds-sort_entries, holds-add_once,
}
use whyopen.Policy.Load.{
  entry_string, entry_at, entry_of_parts, parse_entry, Document, LoadError, load_allow, load_zones,
  load, load_zone_name, load_version,
}

entry_at-IsValid :
    (o : Option ℕ) (proto : String)
    → IsProto proto
    → ((n : ℕ) → o ≡ some n → n ≤ 65535)
    → Returns IsValid (entry_at o proto)
unfolding entry_at
entry_at-IsValid none proto h k = tt
entry_at-IsValid (some n) proto h k = elim (Bool-cases (n == 0)) [
  | inl q ↦ rw q tt
  | inr q ↦ rw q (ground arith, k n refl, h)
]

IsProto-known : (p : String) → (not (str_eq p "tcp") && not (str_eq p "udp")) ≡ false → IsProto p
IsProto-known p h = ground (arith, eq_iff p "tcp", eq_iff p "udp")

entry_of_parts-IsValid : (parts : String × Option String) → Returns IsValid (entry_of_parts parts)
unfolding entry_of_parts
entry_of_parts-IsValid (port, none) = tt
entry_of_parts-IsValid (port, some proto) =
    elim (Bool-cases (not (str_eq proto "tcp") && not (str_eq proto "udp"))) [
      | inl q ↦ rw q tt
      | inr q ↦ rw q (
          entry_at-IsValid (parse_uint16 port) proto (IsProto-known proto q)
            (parse_uint16_max port))
    ]

parse_entry-IsValid : (s : String) → Returns IsValid (parse_entry s)
unfolding parse_entry
parse_entry-IsValid s = entry_of_parts-IsValid (cut b'/' s)

entry_of_parts-decimal :
    (e : Entry) → IsValid e → entry_of_parts (decimal e.port "", some e.proto) ≡ returned e
unfolding entry_of_parts entry_at
entry_of_parts-decimal e (low, high, inl p) =
    rw (parse_uint16-decimal e.port high, p) (ground (arith, p))
entry_of_parts-decimal e (low, high, inr p) =
    rw (parse_uint16-decimal e.port high, p) (ground (arith, p))

-- The print of a valid entry is read back as the same entry.
pub parse_entry-entry_string : (e : Entry) → IsValid e → parse_entry (entry_string e) ≡ returned e
unfolding parse_entry entry_string cut entry_of_parts entry_at
parse_entry-entry_string e h =
    ap entry_of_parts (cut-decimal b'/' e.port (String.◌∷◌ "/" e.proto) (omega arith))
    ∙ entry_of_parts-decimal e h

-- Whether a text of the file is the entry `e`.
abbrev pub reads_as : Entry → String → Bool
reads_as e raw = elim (parse_entry raw) [ failed x ↦ false | returned x ↦ entry_eq x e ]

reads_as_parsed :
    (e x : Entry) (raw : String) → parse_entry raw ≡ returned x → reads_as e raw ≡ entry_eq x e
reads_as_parsed e x raw h = rw (h, reads_as) refl

-- The list so far, after texts of which `adds` says what they name.
abbrev Loaded : (Entry → Bool) → List Entry → List Entry → Type 0
Loaded adds allow more =
    All IsValid more × IsDistinct more × ((e : Entry) → holds more e ≡ (holds allow e || adds e))

load_allow-Loaded :
    (raws : List String) (allow : List Entry)
    → All IsValid allow
    → IsDistinct allow
    → Returns (Loaded (λ e. any (reads_as e) raws) allow) (load_allow raws allow)
unfolding load_allow
load_allow-Loaded [] allow h d = (h, d, λ e. ground arith)
load_allow-Loaded (raw ∷ raws) allow h d =
    Returns-bind _ (wrap LoadError.bad_entry (parse_entry raw))
      (λ x. load_allow raws (add_once x allow)) (λ x. IsValid x × (parse_entry raw ≡ returned x))
      (Returns-wrap _ LoadError.bad_entry (parse_entry raw) (
        Returns-both _ _ (parse_entry raw) (parse_entry-IsValid raw)
          (Returns-self (parse_entry raw))))
      λ x p.
        Returns-map _ _ (load_allow raws (add_once x allow))
          (λ more l. (
            l.0,
            l.1,
            λ e. ground (arith, l.2 e, holds-add_once x allow e, reads_as_parsed e x raw p.1),
          ))
          (load_allow-Loaded raws (add_once x allow) (All-add_once IsValid x allow p.0 h)
            (add_once-IsDistinct x allow d))

-- Whether some text of a zone is the entry `e`.
abbrev pub zone_names : Entry → String × List String → Bool
zone_names e z = any (reads_as e) z.1

load_zones-Loaded :
    (zones : List (String × List String)) (allow : List Entry)
    → All IsValid allow
    → IsDistinct allow
    → Returns (Loaded (λ e. any (zone_names e) zones) allow) (load_zones zones allow)
unfolding load_zones
load_zones-Loaded [] allow h d = (h, d, λ e. ground arith)
load_zones-Loaded (z ∷ zones) allow h d =
    Returns-bind _ (load_zone_name z.0) _ (λ u. Unit {0}) (Returns-always (load_zone_name z.0))
      λ u q.
        Returns-bind _ (load_allow z.1 allow) (load_zones zones) _ (load_allow-Loaded z.1 allow h d)
          λ more l.
            Returns-map _ _ (load_zones zones more)
              (λ all k. (k.0, k.1, λ e. ground (arith, k.2 e, l.2 e)))
              (load_zones-Loaded zones more l.0 l.1)

-- What a policy holds that was read from a document.
pub record IsLoaded (doc : Document) (p : Policy) : Type 0 where
  pub valid : All IsValid p.allow
  pub ascending : IsAscending p.allow
  pub names : (e : Entry) → holds p.allow e ≡ any (zone_names e) doc.zones
  pub flag : p.fail_on_unknown ≡ doc.fail_on_unknown

load-Loaded : (doc : Document) → Returns (IsLoaded doc) (load doc)
unfolding load holds
load-Loaded doc =
    Returns-bind _ (load_version doc.version) _ (λ u. Unit {0})
      (Returns-always (load_version doc.version))
      λ u q.
        Returns-bind _ (load_zones doc.zones []) _ _ (load_zones-Loaded doc.zones [] tt tt)
          λ allow l. record {
            valid = All-sort_entries IsValid allow l.0;
            ascending = sort_entries-IsAscending allow l.0 l.1;
            names = λ e. holds-sort_entries allow e ∙ l.2 e;
            flag = refl;
          }

-- A policy that was loaded holds valid entries only, ports from 1 to 65535 of tcp or udp, in strictly
-- ascending order; it holds an entry exactly when some text of some zone reads as that entry; its flag
-- is that of the document.
pub load-IsLoaded : (doc : Document) (p : Policy) → load doc ≡ returned p → IsLoaded doc p
load-IsLoaded doc p h = Returns-returned (IsLoaded doc) (load doc) p (load-Loaded doc) h
