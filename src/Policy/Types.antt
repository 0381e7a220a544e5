-- ===== src/Policy/Types.antt =====
-- internal/policy/policy.go: entries, their text and their order.
pub mod Laws
use whyopen.Prelude.{
  ℕ, String, Bool, false, ◌&&◌, ◌||◌, not, List, [], ◌∷◌, ◌++◌, ◌==◌, ltb, if◌then◌else◌, str_eq,
  str_lt,
}

pub record Entry : Type 0 where
  pub port : ℕ
  pub proto : String

pub record Policy : Type 0 where
  pub allow : List Entry
  pub fail_on_unknown : Bool

abbrev pub entry_eq : Entry → Entry → Bool
entry_eq a b = a.port == b.port && str_eq a.proto b.proto

-- A `map[Entry]bool` that holds true at the listed entries.
unfoldable pub holds : List Entry → Entry → Bool
holds [] e = false
holds (x ∷ xs) e = entry_eq x e || holds xs e

unfoldable pub entry_lt : Entry → Entry → Bool
entry_lt a b = if not (a.port == b.port) then ltb a.port b.port else str_lt a.proto b.proto

unfoldable pub insert_entry : Entry → List Entry → List Entry
unfolding entry_lt
insert_entry e [] = e ∷ []
insert_entry e (x ∷ xs) = if entry_lt x e then x ∷ insert_entry e xs else e ∷ x ∷ xs

-- `sortEntries`; entries that the order does not tell apart are equal.
unfoldable pub sort_entries : List Entry → List Entry
unfolding insert_entry
sort_entries [] = []
sort_entries (e ∷ es) = insert_entry e (sort_entries es)

-- An entry is added once: a set of those that are there already is kept beside the list.
abbrev pub add_once : Entry → List Entry → List Entry
add_once e es = if holds es e then es else es ++ (e ∷ [])
