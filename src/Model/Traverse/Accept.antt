-- ===== src/Model/Traverse/Accept.antt =====
-- internal/model/traverse.go, `Traverse`: an accept of a hook is an accept of each of its base chains.
use whyopen.Prelude.{
  suc, ◌≡◌, refl, sym, subst, ap, String, Bool, true, false, ◌&&◌, ◌||◌, not, Option, none, some,
  List, [], ◌∷◌, arith, All, Any, here, there, if◌then◌else◌, str_eq, Go, ok, Ensures, Ensures-bind,
  Ensures-self, Ensures-map, Ensures-ok,
}
use whyopen.Facts.Types.{Chain, Table, Ruleset}
use whyopen.Model.Packet.{Packet}
use whyopen.Model.Traverse.Types.{Reason, ResultKind, Result, Hit, Walker}
use whyopen.Model.Traverse.Walk.{walk_chain, max_jump_depth}
use whyopen.Model.Traverse.{
  BaseChain, Gathered, bases, refused, add_base, gather_chains, gather, insert_base, sort_bases,
  after_base, walk_bases, walk_gathered, or_walk, traverse, ingress_unmodelled, is_known_hook,
  precedes,
}

insert_base-All :
    (P : BaseChain → Type 0) (b : BaseChain) (bs : List BaseChain)
    → All P (insert_base b bs)
    → P b × All P bs
unfolding insert_base
insert_base-All P b [] h = h
insert_base-All P b (c ∷ cs) h = split (precedes c b) (λ k. insert_base-All P b cs k) h
  where
    split :
        (t : Bool)
        → (All P (insert_base b cs) → P b × All P cs)
        → All P (if t then c ∷ insert_base b cs else b ∷ c ∷ cs)
        → P b × All P (c ∷ cs)
    split true rest h = ((rest h.1).0, (h.0, (rest h.1).1))
    split false rest h = h

sort_bases-All : (P : BaseChain → Type 0) (bs : List BaseChain) → All P (sort_bases bs) → All P bs
unfolding sort_bases
sort_bases-All P [] h = tt
sort_bases-All P (b ∷ bs) h =
    let k = insert_base-All P b (sort_bases bs) h in (k.0, sort_bases-All P bs k.1)

module _ (rs : Ruleset) (family : String) (pkt : Packet) where
  -- A walk of this chain from the top ended in accept.
  abbrev pub Accepted : String → Chain → Type 0
  Accepted table ch =
      (w : Walker) × (v : Walker) × (res : Result) × (walk_chain rs family pkt (suc max_jump_depth)
          table ch w
        ≡ ok (res, v))
      × (res.kind ≡ ResultKind.accept)

  abbrev AcceptedBase : BaseChain → Type 0
  AcceptedBase b = Accepted b.table b.chain

  after_base-Accepted :
      (k : ResultKind) (rest : Walker → Go (Result × List Hit)) (b : BaseChain)
      (bs : List BaseChain) (res : Result) (w v : Walker)
      → res.kind ≡ k
      → walk_chain rs family pkt (suc max_jump_depth) b.table b.chain w ≡ ok (res, v)
      → Ensures (λ m. m.0.kind ≡ ResultKind.accept → All AcceptedBase bs) (rest v)
      → Ensures
          (λ m. m.0.kind ≡ ResultKind.accept → All AcceptedBase (b ∷ bs))
          (after_base rs family pkt k rest b res v)
  unfolding after_base
  after_base-Accepted ResultKind.accept rest b bs res w v e walk h =
      Ensures-map {Q = λ m. m.0.kind ≡ ResultKind.accept → All AcceptedBase (b ∷ bs)}
        (λ m k a. ((w, v, res, walk, e), k a)) (rest v) h
  after_base-Accepted ResultKind.drop rest b bs res w v e walk h = λ a. absurd (ground arith)
  after_base-Accepted ResultKind.unknown rest b bs res w v e walk h = λ a. absurd (ground arith)
  after_base-Accepted _ rest b bs res w v e walk h = λ a. absurd (ground arith)

  walk_bases-Accepted :
      (bs : List BaseChain) (w : Walker)
      → Ensures
          (λ m. m.0.kind ≡ ResultKind.accept → All AcceptedBase bs)
          (walk_bases rs family pkt bs w)
  unfolding walk_bases
  walk_bases-Accepted [] w = λ a. tt
  walk_bases-Accepted (b ∷ bs) w =
      Ensures-bind (λ m. walk_chain rs family pkt (suc max_jump_depth) b.table b.chain w ≡ ok m) _
        (walk_chain rs family pkt (suc max_jump_depth) b.table b.chain w) _ (Ensures-self _)
        λ m e.
          after_base-Accepted m.0.kind (walk_bases rs family pkt bs) b bs m.0 w m.1 refl e
            (walk_bases-Accepted bs m.1)

abbrev gathered : Gathered → List BaseChain
gathered (bases bs) = bs
gathered (refused why) = []

abbrev at_chain : Table → Chain → BaseChain
at_chain t ch = record { table = t.name; chain = ch }

-- One chain of the loop: what holds of all that is gathered holds of it, if it is gathered, and of
-- all that comes later.
gather_chain-All :
    (P : BaseChain → Type 0) (b k h : Bool) (rest : Gathered) (new : BaseChain) (why : Reason)
    (bs : List BaseChain)
    → (if not b
        then rest
        else (if not k then refused why else (if h then add_base new rest else rest)))
      ≡ bases bs
    → All P bs
    → (b ≡ true → h ≡ true → P new) × ((ls : List BaseChain) × (rest ≡ bases ls) × All P ls)
gather_chain-All P false k h rest new why bs e p = (λ x y. absurd (ground arith), (bs, e, p))
gather_chain-All P true false h rest new why bs e p = absurd (ground arith)
gather_chain-All P true true false rest new why bs e p = (λ x y. absurd (ground arith), (bs, e, p))
gather_chain-All P true true true (refused r) new why bs e p = absurd (ground arith)
gather_chain-All P true true true (bases ls) new why bs e p =
    let q : All P (new ∷ ls) = subst (All P) (sym (ap gathered e)) p in
    (λ x y. q.0, (ls, refl, q.1))

module _ (P : BaseChain → Type 0) (hook : String) where
  -- Every base chain on the hook has the property.
  abbrev OnHook : Table → List Chain → Type 0
  OnHook t chs = All (λ ch. ch.base ≡ true → str_eq ch.hook hook ≡ true → P (at_chain t ch)) chs

  gather_chains-OnHook :
      (t : Table) (later : Gathered) (chs : List Chain) (bs : List BaseChain)
      → gather_chains hook t later chs ≡ bases bs
      → All P bs
      → OnHook t chs × ((ls : List BaseChain) × (later ≡ bases ls) × All P ls)
  unfolding gather_chains
  gather_chains-OnHook t later [] bs e p = (tt, (bs, e, p))
  gather_chains-OnHook t later (ch ∷ chs) bs e p =
      let (here_holds, (ls, f, q)) =
        gather_chain-All P ch.base (is_known_hook ch.hook) (str_eq ch.hook hook)
          (gather_chains hook t later chs) (at_chain t ch) _ bs e p in
      let (rest_holds, more) = gather_chains-OnHook t later chs ls f q in
      ((here_holds, rest_holds), more)

  abbrev Serves : String → Table → Type 0
  Serves family t = (str_eq t.family family || str_eq t.family "inet") ≡ true

  abbrev OnHookIn : String → List Table → Type 0
  OnHookIn family ts = All (λ t. Serves family t → OnHook t t.chains) ts

  gather_table-OnHook :
      (own inet : Bool) (t : Table) (later : Gathered) (Later : Type 0) (bs : List BaseChain)
      → ((ls : List BaseChain) → later ≡ bases ls → All P ls → Later)
      → (if not own && not inet then later else gather_chains hook t later t.chains) ≡ bases bs
      → All P bs
      → ((own || inet) ≡ true → OnHook t t.chains) × Later
  gather_table-OnHook false false t later Later bs k e p = (λ s. absurd (ground arith), k bs e p)
  gather_table-OnHook true inet t later Later bs k e p =
      let (h, (ls, f, q)) = gather_chains-OnHook t later t.chains bs e p in (λ s. h, k ls f q)
  gather_table-OnHook false true t later Later bs k e p =
      let (h, (ls, f, q)) = gather_chains-OnHook t later t.chains bs e p in (λ s. h, k ls f q)

  gather-OnHook :
      (family : String) (ts : List Table) (bs : List BaseChain)
      → gather family hook ts ≡ bases bs
      → All P bs
      → OnHookIn family ts
  unfolding gather
  gather-OnHook family [] bs e p = tt
  gather-OnHook family (t ∷ ts) bs e p =
      gather_table-OnHook (str_eq t.family family) (str_eq t.family "inet") t
        (gather family hook ts) (OnHookIn family ts) bs (λ ls f q. gather-OnHook family ts ls f q) e
        p

All-Any {ℓ} :
    {A : Type ℓ} (P : A → Type 0) (a : A) (xs : List A) → All P xs → Any (λ x. x ≡ a) xs → P a
All-Any P a [] h i = elim i [ ]
All-Any P a (x ∷ xs) (p, h) (here e) = subst P e p
All-Any P a (x ∷ xs) (p, h) (there i) = All-Any P a xs h i

module _ (rs : Ruleset) (family hook : String) (pkt : Packet) where
  or_walk-Accepted :
      (o : Option Reason) (g : Gathered)
      → gather family hook rs.tables ≡ g
      → Ensures
          (λ m.
            m.0.kind ≡ ResultKind.accept
            → OnHookIn (AcceptedBase rs family pkt) hook family rs.tables)
          (or_walk rs family pkt o g)
  unfolding or_walk walk_gathered
  or_walk-Accepted (some why) g e = λ a. absurd (ground arith)
  or_walk-Accepted none (refused why) e = λ a. absurd (ground arith)
  or_walk-Accepted none (bases bs) e =
      Ensures-map
        {Q = λ m.
          m.0.kind ≡ ResultKind.accept
          → OnHookIn (AcceptedBase rs family pkt) hook family rs.tables}
        (λ m h a.
          gather-OnHook (AcceptedBase rs family pkt) hook family rs.tables bs e
            (sort_bases-All (AcceptedBase rs family pkt) bs (h a)))
        (walk_bases rs family pkt (sort_bases bs) _)
        (walk_bases-Accepted rs family pkt (sort_bases bs) _)

  -- Where `Traverse` ends a hook in accept, the walk of every base chain on that hook, in every table
  -- of the family or of inet, ended in accept: an accept in one does not skip another.
  pub traverse-Accepted :
      (res : Result) (hits : List Hit) (t : Table) (ch : Chain)
      → traverse rs family hook pkt ≡ ok (res, hits)
      → res.kind ≡ ResultKind.accept
      → Any (λ x. x ≡ t) rs.tables
      → (str_eq t.family family || str_eq t.family "inet") ≡ true
      → Any (λ x. x ≡ ch) t.chains
      → ch.base ≡ true
      → str_eq ch.hook hook ≡ true
      → Accepted rs family pkt t.name ch
  unfolding traverse
  traverse-Accepted res hits t ch e a in_tables serves in_chains b h =
      let P = AcceptedBase rs family pkt in
      let all =
        Ensures-ok (λ m. m.0.kind ≡ ResultKind.accept → OnHookIn P hook family rs.tables) _
          (or_walk-Accepted (ingress_unmodelled rs pkt) (gather family hook rs.tables) refl) e a in
      All-Any (λ c. c.base ≡ true → str_eq c.hook hook ≡ true → P (at_chain t c)) ch t.chains
        (All-Any (λ u. Serves P hook family u → OnHook P hook u u.chains) t rs.tables all in_tables
          serves)
        in_chains b h
