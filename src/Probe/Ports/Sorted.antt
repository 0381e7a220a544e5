-- ===== src/Probe/Ports/Sorted.antt =====
-- internal/probe/probe.go: sorting ports that stand once each, and the list that `ParsePorts` returns.
use whyopen.Prelude.{
  ℕ, suc, ◌≤◌, ◌<◌, ◌≡◌, refl, ap, ◌∙◌, String, false, ◌||◌, Option, List, [], ◌∷◌, arith, ◌==◌,
  ltb, length, All, any, Bool-cases, inl, inr,
}
use whyopen.Prelude.Strconv.{cut, split, trim_space}
use whyopen.Prelude.Fallible.{
  returned, wrap, Returns, Returns-returned, Returns-bind, Returns-map, Returns-always,
  Returns-guard,
}
use whyopen.Probe.Ports.{
  max_ports, PortsError, parse_port, has, add_to_end, add_part, add_parts, insert_port, sort_ports,
  check_text, check_number, parse_ports,
}
use whyopen.Probe.Ports.Laws.{
  IsPort, IsAscending, IsDistinct, Grown, covers_part, covers, parse_port_known, add_to_end-Grown,
}

add_part-Grown :
    (part : String × Option String) (out : List ℕ)
    → All IsPort out
    → IsDistinct out
    → Returns (Grown (λ p. covers_part p part) out) (add_part part out)
unfolding add_part
add_part-Grown (lo, hi) out h d =
    Returns-bind _ (wrap PortsError.bad_part (parse_port lo)) _ _ (parse_port_known lo)
      λ start known.
        Returns-map _ _ (add_to_end start hi out)
          (λ more g. (g.0, g.1, λ p. rw (covers_part, known.1) (g.2 p)))
          (add_to_end-Grown start hi out known.0 h d)

add_parts-Grown :
    (parts : List String) (out : List ℕ)
    → All IsPort out
    → IsDistinct out
    → Returns (Grown (λ p. any (covers p) parts) out) (add_parts parts out)
unfolding add_parts
add_parts-Grown [] out h d = (h, d, λ p. ground arith)
add_parts-Grown (part ∷ parts) out h d =
    Returns-bind _ (add_part (cut b'-' (trim_space part)) out) _ _
      (add_part-Grown (cut b'-' (trim_space part)) out h d)
      λ more g.
        Returns-map _ _ (add_parts parts more)
          (λ all k. (k.0, k.1, λ p. ground (arith, k.2 p, g.2 p)))
          (add_parts-Grown parts more g.0 g.1)

module _ (p : ℕ) where
  has-insert_port : (xs : List ℕ) (q : ℕ) → has (insert_port p xs) q ≡ (p == q || has xs q)
  unfolding has insert_port
  has-insert_port [] q = refl
  has-insert_port (x ∷ xs) q = ground (arith, has-insert_port xs q)

  length-insert_port : (xs : List ℕ) → length (insert_port p xs) ≡ suc (length xs)
  unfolding insert_port
  length-insert_port [] = refl
  length-insert_port (x ∷ xs) = ground (arith, length-insert_port xs)

  All-insert_port {κ} : (P : ℕ → Type κ) (xs : List ℕ) → P p → All P xs → All P (insert_port p xs)
  unfolding insert_port
  All-insert_port P [] h k = (h, tt)
  All-insert_port P (x ∷ xs) h (k, ks) = elim (Bool-cases (ltb x p)) [
    | inl q ↦ rw q (k, All-insert_port P xs h ks)
    | inr q ↦ rw q (h, (k, ks))
  ]

  All-above : (b : ℕ) (xs : List ℕ) → p < b → All (λ y. b < y) xs → All (λ y. p < y) xs
  All-above b [] h k = tt
  All-above b (x ∷ xs) h (k, ks) = (omega arith, All-above b xs h ks)

  insert_port-IsAscending :
      (xs : List ℕ) → has xs p ≡ false → IsAscending xs → IsAscending (insert_port p xs)
  unfolding insert_port has
  insert_port-IsAscending [] new h = (tt, tt)
  insert_port-IsAscending (x ∷ xs) new (h, hs) = elim (Bool-cases (ltb x p)) [
    | inl q ↦ rw q (
      All-insert_port (λ y. x < y) xs (ground arith) h,
      insert_port-IsAscending xs (ground arith) hs,
    )
    | inr q ↦ let before : p < x = ground arith in rw q ((before, All-above x xs before h), (h, hs))
  ]

has-sort_ports : (xs : List ℕ) (q : ℕ) → has (sort_ports xs) q ≡ has xs q
unfolding has sort_ports
has-sort_ports [] q = refl
has-sort_ports (x ∷ xs) q =
    has-insert_port x (sort_ports xs) q ∙ ap (λ b. x == q || b) (has-sort_ports xs q)

length-sort_ports : (xs : List ℕ) → length (sort_ports xs) ≡ length xs
unfolding sort_ports
length-sort_ports [] = refl
length-sort_ports (x ∷ xs) = length-insert_port x (sort_ports xs) ∙ ap suc (length-sort_ports xs)

All-sort_ports {κ} : (P : ℕ → Type κ) (xs : List ℕ) → All P xs → All P (sort_ports xs)
unfolding sort_ports
All-sort_ports P [] h = tt
All-sort_ports P (x ∷ xs) (h, hs) = All-insert_port x P (sort_ports xs) h (All-sort_ports P xs hs)

sort_ports-IsAscending : (xs : List ℕ) → IsDistinct xs → IsAscending (sort_ports xs)
unfolding sort_ports
sort_ports-IsAscending [] d = tt
sort_ports-IsAscending (x ∷ xs) (d, ds) =
    insert_port-IsAscending x (sort_ports xs) (has-sort_ports xs x ∙ d)
      (sort_ports-IsAscending xs ds)

-- The list that a text of ports stands for.
pub record IsPortList (spec : String) (ports : List ℕ) : Type 0 where
  pub bounded : All IsPort ports
  pub few : length ports ≤ max_ports
  pub ascending : IsAscending ports
  pub covered : (p : ℕ) → has ports p ≡ any (covers p) (split b',' spec)

parse_ports_list : (spec : String) → Returns (IsPortList spec) (parse_ports spec)
unfolding parse_ports check_number has
parse_ports_list spec =
    Returns-bind _ (check_text spec) _ _ (Returns-always (check_text spec)) λ u _.
      Returns-bind _ (add_parts (split b',' spec) []) _ _
        (add_parts-Grown (split b',' spec) [] tt tt)
        λ out g.
          Returns-bind _ (check_number out) _ _
            (Returns-guard _ (ltb max_ports (length out)) _ λ q. q)
            λ u q. record {
              bounded = All-sort_ports IsPort out g.0;
              few = ground (arith, length-sort_ports out);
              ascending = sort_ports-IsAscending out g.1;
              covered = λ p. has-sort_ports out p ∙ g.2 p;
            }

-- What `ParsePorts` returns is at most 4096 ports, each from 1 to 65535, in strictly ascending order,
-- and a port is among them exactly when some part of the text names it, alone or within a range.
pub parse_ports-IsPortList :
    (spec : String) (ports : List ℕ) → parse_ports spec ≡ returned ports → IsPortList spec ports
parse_ports-IsPortList spec ports h =
    Returns-returned (IsPortList spec) (parse_ports spec) ports (parse_ports_list spec) h
