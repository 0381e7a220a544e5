-- ===== src/Probe/Ports/Laws.antt =====
-- internal/probe/probe.go, `ParsePorts`: what it returns is bounded, ascending, and what the text names.
use whyopen.Prelude.{
  ℕ, zero, suc, ◌+◌, ◌-◌, ◌≤◌, ◌<◌, ◌≡◌, refl, ◌∙◌, String, Bool, false, ◌&&◌, ◌||◌, Option, none,
  some, List, [], ◌∷◌, ◌++◌, arith, ◌==◌, ltb, leb, All, All-append, Bool-cases, inl, inr,
}
use whyopen.Prelude.Strconv.{cut, trim_space, parse_uint16}
use whyopen.Prelude.Strconv.Laws.{parse_uint16_max}
use whyopen.Prelude.Fallible.{
  failed, returned, wrap, Returns, Returns-bind, Returns-wrap, Returns-both, Returns-self,
  Returns-guard,
}
use whyopen.Probe.Ports.{
  max_ports, PortsError, port_or_error, parse_port, has, add_port, add_range, check_range,
  add_to_end,
}

abbrev pub IsPort : ℕ → Type 0
IsPort p = (1 ≤ p) × (p ≤ 65535)

-- Every port stands before all that follow it.
abbrev pub IsAscending : List ℕ → Type 0
IsAscending [] = Unit
IsAscending (x ∷ xs) = All (λ y. x < y) xs × IsAscending xs

abbrev pub IsDistinct : List ℕ → Type 0
IsDistinct [] = Unit
IsDistinct (x ∷ xs) = (has xs x ≡ false) × IsDistinct xs

has-append : (xs ys : List ℕ) (p : ℕ) → has (xs ++ ys) p ≡ (has xs p || has ys p)
unfolding has
has-append [] ys p = refl
has-append (x ∷ xs) ys p = ground (arith, has-append xs ys p)

has-add_port : (x : ℕ) (xs : List ℕ) (p : ℕ) → has (add_port x xs) p ≡ (has xs p || x == p)
unfolding add_port has
has-add_port x xs p = ground (arith, has-append xs (x ∷ []) p)

IsDistinct-append :
    (p : ℕ) (xs : List ℕ) → has xs p ≡ false → IsDistinct xs → IsDistinct (xs ++ (p ∷ []))
unfolding has
IsDistinct-append p [] h d = (refl, tt)
IsDistinct-append p (x ∷ xs) h (d, ds) =
    (ground (arith, has-append xs (p ∷ []) x), IsDistinct-append p xs (ground arith) ds)

-- What the list of ports so far is: ports, none twice, and those that it had with those that `adds` says.
abbrev pub Grown : (ℕ → Bool) → List ℕ → List ℕ → Type 0
Grown adds out more =
    All IsPort more × IsDistinct more × ((p : ℕ) → has more p ≡ (has out p || adds p))

add_port-Grown :
    (x : ℕ) (out : List ℕ)
    → IsPort x
    → All IsPort out
    → IsDistinct out
    → Grown (λ p. x == p) out (add_port x out)
unfolding add_port has
add_port-Grown x out hx h d = elim (Bool-cases (has out x)) [
  | inl q ↦ rw q (h, d, λ p. ground arith)
  | inr q ↦ rw q (
    All-append IsPort out (x ∷ []) h (hx, tt),
    IsDistinct-append x out q d,
    λ p. has-append out (x ∷ []) p ∙ ground arith,
  )
]

add_range-Grown :
    (n x : ℕ) (out : List ℕ)
    → 1 ≤ x
    → x + n ≤ 65536
    → All IsPort out
    → IsDistinct out
    → Grown (λ p. leb x p && ltb p (x + n)) out (add_range n x out)
unfolding add_range
add_range-Grown zero x out low high h d = (h, d, λ p. ground arith)
add_range-Grown (suc n) x out low high h d =
    let (h', d', m) = add_port-Grown x out (low, omega arith) h d in
    let (h'', d'', k) =
      add_range-Grown n (x + 1) (add_port x out) (omega arith) (omega arith) h' d' in
    (h'', d'', λ p. ground (arith, m p, k p))

port_or_error-IsPort :
    (o : Option ℕ) → ((n : ℕ) → o ≡ some n → n ≤ 65535) → Returns IsPort (port_or_error o)
unfolding port_or_error
port_or_error-IsPort none h = tt
port_or_error-IsPort (some n) h = elim (Bool-cases (n == 0)) [
  | inl q ↦ rw q tt
  | inr q ↦ rw q (ground arith, h n refl)
]

parse_port-IsPort : (s : String) → Returns IsPort (parse_port s)
unfolding parse_port
parse_port-IsPort s =
    port_or_error-IsPort (parse_uint16 (trim_space s)) (parse_uint16_max (trim_space s))

pub parse_port_known :
    (s : String)
    → Returns
        (λ p. IsPort p × (parse_port s ≡ returned p))
        (wrap PortsError.bad_part (parse_port s))
parse_port_known s =
    Returns-wrap _ PortsError.bad_part (parse_port s)
      (Returns-both _ _ (parse_port s) (parse_port-IsPort s) (Returns-self (parse_port s)))

check_range-ordered : (start end : ℕ) → Returns (λ u. start ≤ end) (check_range start end)
unfolding check_range
check_range-ordered start end = elim (Bool-cases (ltb end start)) [
  | inl q ↦ rw q tt
  | inr q ↦ rw q (Returns-guard _ (ltb max_ports (end - start + 1)) _ λ _. ground arith)
]

-- Whether a part of the text names the port `p`, of which the first port is `start`.
abbrev pub covers_to : ℕ → ℕ → Option String → Bool
covers_to p start none = start == p
covers_to p start (some hi) = elim (parse_port hi) [
  | failed e ↦ false
  | returned end ↦ leb start p && leb p end
]

-- Whether a part of the text, a port or two ports around a dash, names the port `p`.
abbrev pub covers_part : ℕ → String × Option String → Bool
covers_part p part = elim (parse_port part.0) [
  | failed e ↦ false
  | returned start ↦ covers_to p start part.1
]

abbrev pub covers : ℕ → String → Bool
covers p part = covers_part p (cut b'-' (trim_space part))

pub add_to_end-Grown :
    (start : ℕ) (hi : Option String) (out : List ℕ)
    → IsPort start
    → All IsPort out
    → IsDistinct out
    → Returns (Grown (λ p. covers_to p start hi) out) (add_to_end start hi out)
unfolding add_to_end
add_to_end-Grown start none out hs h d = add_port-Grown start out hs h d
add_to_end-Grown start (some hi) out hs h d =
    Returns-bind _ (wrap PortsError.bad_part (parse_port hi)) _ _ (parse_port_known hi) λ end known.
      Returns-bind _ (check_range start end) _ _ (check_range-ordered start end) λ u ordered.
        let (h', d', m) = add_range-Grown (end - start + 1) start out hs.0 (omega arith) h d in
        (h', d', λ p. rw (covers_to, known.1) (ground (arith, m p)))
