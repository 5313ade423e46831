-- ===== src/Steque/Cells.antt =====
-- What a queue stands for: the address and item of each node, from front to back.
use cs8803_introduction_to_o.Common.{
  ℕ, ◌≡◌, refl, sym, ap, ◌∙◌, ◌≢◌, Bool, true, false, ◌||◌, Option, none, some, List, [], ◌∷◌, ◌++◌,
  arith, ◌==◌, length, map, ok,
}
use cs8803_introduction_to_o.Steque.{Node, node, null, Steque, update, load, set_next}

abbrev pub Cells : Type 0
Cells = List (ℕ × ℕ)

-- The abstract queue: the items, front first.
abbrev pub items : Cells → List ℕ
items xs = map (λ c. c.1) xs

abbrev pub has : ℕ → Cells → Bool
has a [] = false
has a ((p, v) ∷ xs) = (a == p) || has a xs

-- The first address, or `stop` if there is none; the last one, or `d`.
abbrev first : Cells → ℕ → ℕ
first [] stop = stop
first ((p, v) ∷ xs) stop = p

abbrev pub last : Cells → ℕ → ℕ
last [] d = d
last ((p, v) ∷ xs) d = last xs p

-- The nodes `xs` are distinct, and their links lead through them to `stop`.
abbrev pub Linked : (ℕ → Option Node) → ℕ → Cells → Type 0
Linked h stop [] = Unit {0}
Linked h stop ((p, v) ∷ xs) =
    (p ≢ null) × (h p ≡ some (node v (first xs stop))) × (has p xs ≡ false) × Linked h stop xs

pub record IsSteque (s : Steque) (xs : Cells) : Type 0 where
  pub linked : Linked s.nodes null xs
  pub at_front : s.front ≡ first xs null
  pub at_back : s.back ≡ last xs null
  pub counted : s.size ≡ length xs

module _ (h : ℕ → Option Node) where
  -- A write outside the chain leaves it alone.
  pub Linked-update :
      (p : ℕ) (c : Option Node) (stop : ℕ) (xs : Cells)
      → has p xs ≡ false
      → Linked h stop xs
      → Linked (update h p c) stop xs
  Linked-update p c stop [] out l = tt
  Linked-update p c stop ((q, v) ∷ xs) out l =
      (l.0, ground arith, l.2, Linked-update p c stop xs (ground arith) l.3)

  -- An address with no node is on no chain.
  pub Linked-fresh : (p stop : ℕ) (xs : Cells) → Linked h stop xs → h p ≡ none → has p xs ≡ false
  Linked-fresh p stop [] l e = refl
  Linked-fresh p stop ((q, v) ∷ xs) l e = ground (arith, Linked-fresh p stop xs l.3 e)

-- The item of the last node, or `d`.
abbrev pub last_item : Cells → ℕ → ℕ
last_item [] d = d
last_item ((p, v) ∷ xs) d = last_item xs v

pub has-last : (r z : ℕ) (xs : Cells) → has (last xs r) ((r, z) ∷ xs) ≡ true
has-last r z [] = ground arith
has-last r z ((a, b) ∷ xs) = ground (arith, has-last a b xs)

has-append : (p : ℕ) (xs ys : Cells) → has p (xs ++ ys) ≡ (has p xs || has p ys)
has-append p [] ys = refl
has-append p ((q, v) ∷ xs) ys = ground (arith, has-append p xs ys)

pub update-ne : (h : ℕ → Option Node) {p a : ℕ} (c : Option Node) → p ≢ a → update h p c a ≡ h a
update-ne h c ne = ground arith

pub update_self : (h : ℕ → Option Node) (p : ℕ) (c : Option Node) → update h p c p ≡ c
update_self h p c = ground arith

pub ne_of_has : {a b : ℕ} (xs : Cells) → has a xs ≡ false → has b xs ≡ true → a ≢ b
ne_of_has xs out isin e = cc (ap (λ t. has t xs) e)

first-append : (xs ys : Cells) (stop : ℕ) → first (xs ++ ys) stop ≡ first xs (first ys stop)
first-append [] ys stop = refl
first-append ((p, v) ∷ xs) ys stop = refl

module _ (h : ℕ → Option Node) where
  pub last-node :
      (stop q v : ℕ) (xs : Cells)
      → Linked h stop ((q, v) ∷ xs)
      → (last xs q ≢ null) × (h (last xs q) ≡ some (node (last_item xs v) stop))
  last-node stop q v [] l = (l.0, l.1)
  last-node stop q v ((r, z) ∷ xs) l = last-node stop r z xs l.3

  -- The last link is redirected.
  pub Linked-retarget :
      (stop p q v : ℕ) (xs : Cells)
      → Linked h stop ((q, v) ∷ xs)
      → Linked (update h (last xs q) (some (node (last_item xs v) p))) p ((q, v) ∷ xs)
  Linked-retarget stop p q v [] l = (l.0, ground arith, refl, tt)
  Linked-retarget stop p q v ((r, z) ∷ xs) l = (
    l.0,
    update-ne h _ (λ e. ne_of_has ((r, z) ∷ xs) l.2 (has-last r z xs) (sym e)) ∙ l.1,
    l.2,
    Linked-retarget stop p r z xs l.3,
  )

  -- A node joins the end of the chain that leads to it.
  pub Linked-snoc :
      (stop p w : ℕ) (xs : Cells)
      → Linked h p xs
      → has p xs ≡ false
      → p ≢ null
      → h p ≡ some (node w stop)
      → Linked h stop (xs ++ (p, w) ∷ [])
  Linked-snoc stop p w [] l out np e = (np, e, refl, tt)
  Linked-snoc stop p w ((q, v) ∷ xs) l out np e = (
    l.0,
    rw first-append l.1,
    ground (arith, has-append q xs ((p, w) ∷ [])),
    Linked-snoc stop p w xs l.3 (ground arith) np e,
  )

pub last-append : (xs : Cells) (p w d : ℕ) → last (xs ++ (p, w) ∷ []) d ≡ p
last-append [] p w d = refl
last-append ((q, v) ∷ xs) p w d = last-append xs p w q

pub last-ne-null :
    (h : ℕ → Option Node) (stop q v : ℕ) (xs : Cells)
    → Linked h stop ((q, v) ∷ xs)
    → last xs q ≢ null
last-ne-null h stop q v xs l = (last-node h stop q v xs l).0

-- Reads and writes of a node that is there.
module _ (s : Steque) (p : ℕ) (n : Node) (np : p ≢ null) (at : s.nodes p ≡ some n) where
  pub load-ok : load p s ≡ ok n
  unfolding load
  load-ok = ground arith

  pub set_next-ok :
      (q : ℕ) → set_next p q s ≡ ok (record s { nodes = update s.nodes p (some (node n.item q)) })
  unfolding set_next
  set_next-ok q = ground arith
