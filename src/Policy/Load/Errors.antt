-- ===== src/Policy/Load/Errors.antt =====
-- internal/policy/policy.go: which documents `Load` refuses.
use whyopen.Prelude.{
  ◌≡◌, refl, ap, ◌∙◌, ◌↔◌, String, not, Option, none, some, List, [], ◌∷◌, arith, All, ℤ, pos,
  negsuc, str_eq, eq_iff, ◌==◌,
}
use whyopen.Prelude.Fallible.{
  returned, ◌>>=◌, wrap, Returns, Returns-returned, Returns-bind, Returns-wrap, Returns-map,
  Returns-self, Returns-guard,
}
use whyopen.Policy.Types.{Entry, Policy, add_once, sort_entries}
use whyopen.Policy.Load.{
  parse_entry, Document, LoadError, load_allow, load_zones, load, zone_name, load_zone_name,
  load_version,
}

-- A text that is a port and a protocol.
abbrev pub Reads : String → Type 0
Reads raw = (e : Entry) × (parse_entry raw ≡ returned e)

-- A zone that the program models, all of whose texts are read.
abbrev pub ZoneReads : String × List String → Type 0
ZoneReads z = (z.0 ≡ zone_name) × All Reads z.1

load_allow-All :
    (raws : List String) (allow : List Entry)
    → Returns (λ more. All Reads raws) (load_allow raws allow)
unfolding load_allow
load_allow-All [] allow = tt
load_allow-All (raw ∷ raws) allow =
    Returns-bind _ (wrap LoadError.bad_entry (parse_entry raw))
      (λ x. load_allow raws (add_once x allow)) (λ x. parse_entry raw ≡ returned x)
      (Returns-wrap _ LoadError.bad_entry (parse_entry raw) (Returns-self (parse_entry raw)))
      λ x q.
        Returns-map _ _ (load_allow raws (add_once x allow)) (λ more l. ((x, q), l))
          (load_allow-All raws (add_once x allow))

zone_known : (name : String) → Returns (λ u. name ≡ zone_name) (load_zone_name name)
unfolding load_zone_name
zone_known name =
    Returns-guard _ (not (str_eq name zone_name)) _ λ q. ground (arith, eq_iff name zone_name)

version_known : (v : Option ℤ) → Returns (λ u. v ≡ some (pos 1)) (load_version v)
unfolding load_version
version_known none = tt
version_known (some (pos n)) =
    Returns-guard _ (not (n == 1)) _ λ q. ap (λ m. some (pos m)) (ground arith)
version_known (some (negsuc n)) = tt

load_zones-All :
    (zones : List (String × List String)) (allow : List Entry)
    → Returns (λ more. All ZoneReads zones) (load_zones zones allow)
unfolding load_zones
load_zones-All [] allow = tt
load_zones-All (z ∷ zones) allow =
    Returns-bind _ (load_zone_name z.0) _ _ (zone_known z.0) λ u known.
      Returns-bind _ (load_allow z.1 allow) (load_zones zones) _ (load_allow-All z.1 allow)
        λ more reads.
          Returns-map _ _ (load_zones zones more) (λ all rest. ((known, reads), rest))
            (load_zones-All zones more)

load_allow_returns :
    (raws : List String) (allow : List Entry)
    → All Reads raws
    → (more : List Entry) × (load_allow raws allow ≡ returned more)
unfolding load_allow
load_allow_returns [] allow h = (allow, refl)
load_allow_returns (raw ∷ raws) allow ((x, q), hs) =
    let rest = load_allow_returns raws (add_once x allow) hs in
    (
      rest.0,
      ap (λ m. wrap LoadError.bad_entry m >>= λ e. load_allow raws (add_once e allow)) q ∙ rest.1,
    )

load_zones_returns :
    (zones : List (String × List String)) (allow : List Entry)
    → All ZoneReads zones
    → (more : List Entry) × (load_zones zones allow ≡ returned more)
unfolding load_zones load_zone_name
load_zones_returns [] allow h = (allow, refl)
load_zones_returns (z ∷ zones) allow ((known, reads), hs) =
    let first = load_allow_returns z.1 allow reads in
    let rest = load_zones_returns zones first.0 hs in
    (
      rest.0,
      ap (λ name. load_zone_name name >>= λ _. load_allow z.1 allow >>= load_zones zones) known
          ∙ ap (λ m. m >>= load_zones zones) first.1
          ∙ rest.1,
    )

load-Reads :
    (doc : Document)
    → Returns (λ p. (doc.version ≡ some (pos 1)) × All ZoneReads doc.zones) (load doc)
unfolding load
load-Reads doc =
    Returns-bind _ (load_version doc.version) _ _ (version_known doc.version) λ u known.
      Returns-bind _ (load_zones doc.zones []) _ _ (load_zones-All doc.zones [])
        λ allow reads. (known, reads)

-- `Load` returns a policy exactly when the version key is there and is 1, every zone is the one that the
-- program models, and every text of its allow list reads as an entry; every other document is refused.
pub load_returns_iff :
    (doc : Document)
    → ((p : Policy) × (load doc ≡ returned p))
      ↔ ((doc.version ≡ some (pos 1)) × All ZoneReads doc.zones)
unfolding load load_version
load_returns_iff doc = (
  λ (p, h). Returns-returned _ (load doc) p (load-Reads doc) h,
  λ (version, reads).
      let all = load_zones_returns doc.zones [] reads in
      (
        record { allow = sort_entries all.0; fail_on_unknown = doc.fail_on_unknown },
        ap (λ v. load (record doc { version = v })) version
            ∙ ap
                (λ m. m >>= λ allow.
                  returned
                    (record { allow = sort_entries allow; fail_on_unknown = doc.fail_on_unknown }))
                all.1,
      ),
)
