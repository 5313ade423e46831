-- ===== src/Getfile/Content/Search.antt =====
-- `content_get` on a sorted table.
use cs8803_introduction_to_o.Common.{
  ℕ, zero, suc, ◌+◌, ◌-◌, ◌/◌, ◌≤◌, ◌<◌, ◌≡◌, refl, sym, ap, ◌∙◌, ◌≢◌, ◌⊎◌, inl, inr, some, List,
  [], ◌∷◌, arith, ltb, Bool-cases, ltb→lt, ltb_false→le, length, get_elem?, ok, ℤ, pos,
}
use cs8803_introduction_to_o.CString.{Order, less, equal, greater, strcmp}
use cs8803_introduction_to_o.Socket.{minus_one}
use cs8803_introduction_to_o.Getfile.Content.{Item, itemcmp, search_loop, content_get}
use cs8803_introduction_to_o.Getfile.Content.Compare.{
  strcmp-eq, strcmp_self, strcmp_less_trans, strcmp_greater_trans,
}

-- No item stands in front of a smaller one.
abbrev pub IsSorted : List Item → Type 0
IsSorted items =
    (i j : ℕ) (a b : Item)
    → i ≤ j
    → get_elem? items i ≡ some a
    → get_elem? items j ≡ some b
    → itemcmp a b ≢ greater

-- The item at `i` has another key.
abbrev Misses : List Item → List ℕ → ℕ → Type 0
Misses items key i = (a : Item) → get_elem? items i ≡ some a → a.key ≢ key

-- A descriptor of the key, or the key is at no place.
abbrev Finds : List Item → List ℕ → ℤ → Type 0
Finds items key r =
    ((i : ℕ) × (a : Item) × (get_elem? items i ≡ some a) × (a.key ≡ key) × (r ≡ pos a.fildes))
    ⊎ ((r ≡ minus_one) × ((i : ℕ) → Misses items key i))

get_elem?-some :
    (items : List Item) (i : ℕ) → i < length items → (a : Item) × (get_elem? items i ≡ some a)
get_elem?-some [] i h = absurd (omega arith)
get_elem?-some (x ∷ items) zero h = (x, refl)
get_elem?-some (x ∷ items) (suc i) h = get_elem?-some items i (omega arith)

get_elem?-lt :
    (items : List Item) (i : ℕ) {a : Item} → get_elem? items i ≡ some a → i < length items
get_elem?-lt [] i h = cc
get_elem?-lt (x ∷ items) zero h = omega arith
get_elem?-lt (x ∷ items) (suc i) h = omega (arith, get_elem?-lt items i h)

Order-cases : (o : Order) → (o ≡ less) ⊎ (o ≡ equal) ⊎ (o ≡ greater)
Order-cases less = inl refl
Order-cases equal = inr (inl refl)
Order-cases greater = inr (inr refl)

module _ (items : List Item) (key : List ℕ) (sorted : IsSorted items) where
  above_less :
      (mid : ℕ) (m : Item)
      → get_elem? items mid ≡ some m
      → strcmp key m.key ≡ less
      → (i : ℕ) → mid ≤ i
      → Misses items key i
  unfolding itemcmp
  above_less mid m at lt i le a at_i same =
      let before = strcmp_less_trans key m.key a.key lt (sorted mid i m a le at at_i) in
      less≢equal (sym before ∙ ap (strcmp key) same ∙ strcmp_self key)
    where
      less≢equal : less ≢ equal
      less≢equal e = cc

  below_greater :
      (mid : ℕ) (m : Item)
      → get_elem? items mid ≡ some m
      → strcmp key m.key ≡ greater
      → (i : ℕ) → i ≤ mid
      → Misses items key i
  unfolding itemcmp
  below_greater mid m at gt i le a at_i same =
      let after = strcmp_greater_trans key m.key a.key gt (sorted i mid a m le at_i at) in
      greater≢equal (sym after ∙ ap (strcmp key) same ∙ strcmp_self key)
    where
      greater≢equal : greater ≢ equal
      greater≢equal e = cc

  -- Everything outside [lo, top) misses the key; enough fuel is left.
  search_loop-Finds :
      (fuel lo top : ℕ)
      → top - lo < fuel
      → top ≤ length items
      → ((i : ℕ) → i < lo → Misses items key i)
      → ((i : ℕ) → top ≤ i → Misses items key i)
      → (r : ℤ) × (search_loop fuel items key lo top ≡ ok r) × Finds items key r
  unfolding search_loop
  search_loop-Finds zero lo top enough inside below above = absurd (omega arith)
  search_loop-Finds (suc fuel) lo top enough inside below above = elim (Bool-cases (ltb lo top)) [
    | inr empty ↦ (
      minus_one,
      rw empty refl,
      inr (
        refl,
        λ i. elim (Bool-cases (ltb i lo)) [
          | inl lt ↦ below i (ltb→lt i lo lt)
          | inr ge ↦ above i (omega (arith, ltb_false→le i lo ge, ltb_false→le lo top empty))
        ],
      ),
    )
    | inl more ↦
        let lt : lo < top = ltb→lt lo top more in
        let mid = lo + (top - 1 - lo) / 2 in
        let (m, at) = get_elem?-some items mid (omega arith) in
        elim (Order-cases (strcmp key m.key)) [
          | inl before ↦
              let (r, run, finds) =
                search_loop-Finds fuel lo mid (omega arith) (omega arith) below
                  (λ i le. above_less mid m at before i le) in
              (r, rw (more, at, before) run, finds)
          | inr (inl here) ↦ (
            pos m.fildes,
            rw (more, at, here) refl,
            inl (mid, m, at, sym (strcmp-eq key m.key here), refl),
          )
          | inr (inr after) ↦
              let (r, run, finds) =
                search_loop-Finds fuel (mid + 1) top (omega arith) inside
                  (λ i le. below_greater mid m at after i (omega arith)) above in
              (r, rw (more, at, after) run, finds)
        ]
  ]

-- content_get on a table sorted by key returns: the descriptor of an item with the key, or -1 when
-- no item has it.
pub content_get-Finds :
    (items : List Item) (key : List ℕ)
    → IsSorted items
    → (r : ℤ) × (content_get items (some key) ≡ ok r) × Finds items key r
unfolding content_get
content_get-Finds items key sorted =
    search_loop-Finds items key sorted (length items + 1) 0 (length items) (omega arith)
      (omega arith) (λ i h. absurd (omega arith))
      (λ i h a at. absurd (omega (arith, get_elem?-lt items i at)))
