-- ===== src/Policy/Types/Laws.antt =====
-- The order on entries is that of a number, and sorting a list without repetition gives an ascending one.
use whyopen.Prelude.{
  ℕ, ◌+◌, ◌*◌, ◌≤◌, ◌≡◌, refl, ap, ◌∙◌, ◌⊎◌, inl, inr, String, true, false, ◌&&◌, ◌||◌, List, [],
  ◌∷◌, ◌++◌, arith, Bool-cases, All, All-append, not, ltb, str_eq, eq_iff, str_lt, if◌then◌else◌,
}
use whyopen.Policy.Types.{Entry, entry_eq, entry_lt, holds, insert_entry, sort_entries, add_once}

pub entry_eq→≡ : (a b : Entry) → entry_eq a b ≡ true → a ≡ b
entry_eq→≡ a b h = ground (arith, eq_iff a.proto b.proto)

pub entry_eq_refl : (a : Entry) → entry_eq a a ≡ true
entry_eq_refl a = ground (arith, eq_iff a.proto a.proto)

pub holds-append :
    (xs ys : List Entry) (e : Entry) → holds (xs ++ ys) e ≡ (holds xs e || holds ys e)
unfolding holds
holds-append [] ys e = refl
holds-append (x ∷ xs) ys e = ground (arith, holds-append xs ys e)

pub holds-insert_entry :
    (x : Entry) (xs : List Entry) (e : Entry)
    → holds (insert_entry x xs) e ≡ (entry_eq x e || holds xs e)
unfolding holds insert_entry
holds-insert_entry x [] e = refl
holds-insert_entry x (y ∷ ys) e = ground (arith, holds-insert_entry x ys e)

pub holds-sort_entries : (xs : List Entry) (e : Entry) → holds (sort_entries xs) e ≡ holds xs e
unfolding holds sort_entries
holds-sort_entries [] e = refl
holds-sort_entries (x ∷ xs) e =
    holds-insert_entry x (sort_entries xs) e ∙ ap (λ b. entry_eq x e || b) (holds-sort_entries xs e)

pub holds-add_once :
    (x : Entry) (xs : List Entry) (e : Entry)
    → holds (add_once x xs) e ≡ (holds xs e || entry_eq x e)
unfolding holds
holds-add_once x xs e = ground (arith, holds-append xs (x ∷ []) e, entry_eq→≡ x e)

abbrev pub IsProto : String → Type 0
IsProto p = (p ≡ "tcp") ⊎ (p ≡ "udp")

-- A port of tcp or udp that a policy may name.
abbrev pub IsValid : Entry → Type 0
IsValid e = (1 ≤ e.port) × (e.port ≤ 65535) × IsProto e.proto

-- Every entry stands before all that follow it.
abbrev pub IsAscending : List Entry → Type 0
IsAscending [] = Unit
IsAscending (x ∷ xs) = All (λ y. entry_lt x y ≡ true) xs × IsAscending xs

-- No entry stands twice.
abbrev pub IsDistinct : List Entry → Type 0
IsDistinct [] = Unit
IsDistinct (x ∷ xs) = (holds xs x ≡ false) × IsDistinct xs

-- The number that the order compares, of a valid entry.
abbrev rank : Entry → ℕ
rank e = e.port * 2 + (if str_eq e.proto "udp" then 1 else 0)

-- tcp stands before udp.
str_lt-proto :
    (p q : String) → IsProto p → IsProto q → str_lt p q ≡ (str_eq q "udp" && not (str_eq p "udp"))
str_lt-proto p q (inl h) (inl k) = rw (h, k) refl
str_lt-proto p q (inl h) (inr k) = rw (h, k) refl
str_lt-proto p q (inr h) (inl k) = rw (h, k) refl
str_lt-proto p q (inr h) (inr k) = rw (h, k) refl

str_eq-proto :
    (p q : String) → IsProto p → IsProto q → (str_eq p "udp" ≡ str_eq q "udp") → str_eq p q ≡ true
str_eq-proto p q (inl h) (inl k) e = rw (h, k) refl
str_eq-proto p q (inl h) (inr k) e =
    ground (arith, ap (λ s. str_eq s "udp") h, ap (λ s. str_eq s "udp") k)
str_eq-proto p q (inr h) (inl k) e =
    ground (arith, ap (λ s. str_eq s "udp") h, ap (λ s. str_eq s "udp") k)
str_eq-proto p q (inr h) (inr k) e = rw (h, k) refl

entry_lt-rank : (a b : Entry) → IsValid a → IsValid b → entry_lt a b ≡ ltb (rank a) (rank b)
unfolding entry_lt
entry_lt-rank a b h k = ground (arith, str_lt-proto a.proto b.proto h.2 k.2)

entry_eq-rank : (a b : Entry) → IsValid a → IsValid b → rank a ≡ rank b → entry_eq a b ≡ true
entry_eq-rank a b h k e = ground (arith, str_eq-proto a.proto b.proto h.2 k.2)

All-insert_entry {κ} :
    (P : Entry → Type κ) (e : Entry) (xs : List Entry) → P e → All P xs → All P (insert_entry e xs)
unfolding insert_entry
All-insert_entry P e [] h k = (h, tt)
All-insert_entry P e (x ∷ xs) h (k, ks) = elim (Bool-cases (entry_lt x e)) [
  | inl q ↦ rw q (k, All-insert_entry P e xs h ks)
  | inr q ↦ rw q (h, (k, ks))
]

pub All-sort_entries {κ} :
    (P : Entry → Type κ) (xs : List Entry) → All P xs → All P (sort_entries xs)
unfolding sort_entries
All-sort_entries P [] h = tt
All-sort_entries P (x ∷ xs) (h, hs) = All-insert_entry P x _ h (All-sort_entries P xs hs)

-- What stands after an entry stands after every entry before it.
All-after :
    (a b : Entry) (xs : List Entry)
    → IsValid a
    → IsValid b
    → entry_lt a b ≡ true
    → All IsValid xs
    → All (λ y. entry_lt b y ≡ true) xs
    → All (λ y. entry_lt a y ≡ true) xs
All-after a b [] ha hb h hx k = tt
All-after a b (x ∷ xs) ha hb h (hx, hxs) (k, ks) = (
  ground (arith, entry_lt-rank a b ha hb, entry_lt-rank b x hb hx, entry_lt-rank a x ha hx),
  All-after a b xs ha hb h hxs ks,
)

insert_entry-IsAscending :
    (e : Entry) (xs : List Entry)
    → IsValid e
    → All IsValid xs
    → holds xs e ≡ false
    → IsAscending xs
    → IsAscending (insert_entry e xs)
unfolding insert_entry holds
insert_entry-IsAscending e [] he hx new h = (tt, tt)
insert_entry-IsAscending e (x ∷ xs) he (hx, hxs) new (h, hs) = elim (Bool-cases (entry_lt x e)) [
  | inl q ↦ rw q (
    All-insert_entry (λ y. entry_lt x y ≡ true) e xs q h,
    insert_entry-IsAscending e xs he hxs (ground arith) hs,
  )
  | inr q ↦
      let before : entry_lt e x ≡ true =
        ground (arith, entry_lt-rank x e hx he, entry_lt-rank e x he hx, entry_eq-rank x e hx he) in
      rw q ((before, All-after e x xs he hx before hxs h), (h, hs))
]

-- Sorting valid entries of which none stands twice gives an ascending list.
pub sort_entries-IsAscending :
    (xs : List Entry) → All IsValid xs → IsDistinct xs → IsAscending (sort_entries xs)
unfolding sort_entries
sort_entries-IsAscending [] h d = tt
sort_entries-IsAscending (x ∷ xs) (h, hs) (d, ds) =
    insert_entry-IsAscending x (sort_entries xs) h (All-sort_entries IsValid xs hs)
      (holds-sort_entries xs x ∙ d) (sort_entries-IsAscending xs hs ds)

entry_lt_asym : (a b : Entry) → IsValid a → IsValid b → entry_lt a b ≡ true → entry_lt b a ≡ false
entry_lt_asym a b h k lt = ground (arith, entry_lt-rank a b h k, entry_lt-rank b a k h)

insert_entry_first :
    (e : Entry) (xs : List Entry)
    → IsValid e
    → All IsValid xs
    → All (λ y. entry_lt e y ≡ true) xs
    → insert_entry e xs ≡ e ∷ xs
unfolding insert_entry
insert_entry_first e [] h hx k = refl
insert_entry_first e (x ∷ xs) h (hx, hxs) (k, ks) = rw (entry_lt_asym e x h hx k) refl

-- An ascending list is sorted already.
pub sort_entries_ascending :
    (xs : List Entry) → All IsValid xs → IsAscending xs → sort_entries xs ≡ xs
unfolding sort_entries
sort_entries_ascending [] h a = refl
sort_entries_ascending (x ∷ xs) (h, hs) (a, a_s) =
    ap (insert_entry x) (sort_entries_ascending xs hs a_s) ∙ insert_entry_first x xs h hs a

IsDistinct-append :
    (e : Entry) (xs : List Entry) → holds xs e ≡ false → IsDistinct xs → IsDistinct (xs ++ (e ∷ []))
unfolding holds
IsDistinct-append e [] h d = (refl, tt)
IsDistinct-append e (x ∷ xs) h (d, ds) = (
  ground (arith, holds-append xs (e ∷ []) x, eq_iff e.proto x.proto, eq_iff x.proto e.proto),
  IsDistinct-append e xs (ground arith) ds,
)

-- A list grown by entries that are not there yet has none twice.
pub add_once-IsDistinct : (e : Entry) (xs : List Entry) → IsDistinct xs → IsDistinct (add_once e xs)
add_once-IsDistinct e xs d = elim (Bool-cases (holds xs e)) [
  | inl q ↦ rw q d
  | inr q ↦ rw q (IsDistinct-append e xs q d)
]

pub All-add_once {κ} :
    (P : Entry → Type κ) (e : Entry) (xs : List Entry) → P e → All P xs → All P (add_once e xs)
All-add_once P e xs h k = elim (Bool-cases (holds xs e)) [
  | inl q ↦ rw q k
  | inr q ↦ rw q (All-append P xs (e ∷ []) k (h, tt))
]

-- An entry before every entry of a list is none of them.
pub holds_after :
    (e : Entry) (xs : List Entry)
    → IsValid e
    → All IsValid xs
    → All (λ y. entry_lt e y ≡ true) xs
    → holds xs e ≡ false
unfolding holds entry_lt
holds_after e [] he hx h = refl
holds_after e (x ∷ xs) he (hx, hxs) (h, hs) =
    ground (arith, holds_after e xs he hxs hs, entry_lt_asym e x he hx h, entry_eq→≡ x e)

pub IsAscending-IsDistinct : (xs : List Entry) → All IsValid xs → IsAscending xs → IsDistinct xs
IsAscending-IsDistinct [] h a = tt
IsAscending-IsDistinct (x ∷ xs) (h, hs) (a, a_s) =
    (holds_after x xs h hs a, IsAscending-IsDistinct xs hs a_s)
