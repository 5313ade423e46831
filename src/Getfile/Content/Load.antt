-- ===== src/Getfile/Content/Load.antt =====
-- `content_init` of proj1/getfile/content.c, and `content_get` on the table that it makes.
use cs8803_introduction_to_o.Common.{
  ℕ, ◌-◌, ◌*◌, ◌<◌, ◌≡◌, refl, sym, ap, ◌∙◌, ◌↔◌, ◌⊎◌, ◌≢◌, inl, inr, Option, some, List, [], ◌∷◌,
  ◌++◌, arith, ◌==◌, Bool-cases, lt→leb, length, length-append, get_elem?, ok, ℤ, pos,
}
use mathlib.Core.List.{append_assoc, append-nil}
use cs8803_introduction_to_o.Socket.{minus_one}
use cs8803_introduction_to_o.Getfile.Content.{
  Item, max_keylen, fgets_lines, read_item, load_items, content_init, content_get,
}
use cs8803_introduction_to_o.Getfile.Content.Search.{IsSorted, content_get-Finds}

-- The lines are well formed, their files can be opened, and these are their items.
abbrev pub Reads : (List ℕ → Option ℕ) → List (List ℕ) → List Item → Type 0
Reads open_file [] [] = Unit {0}
Reads open_file [] (a ∷ items) = ⊥
Reads open_file (line ∷ lines) [] = ⊥
Reads open_file (line ∷ lines) (a ∷ items) =
    (read_item open_file line ≡ ok a) × Reads open_file lines items

-- The allocation grows in time for every line.
load_items-Reads :
    (open_file : List ℕ → Option ℕ) (lines : List (List ℕ)) (capacity : ℕ)
    (before items : List Item)
    → Reads open_file lines items
    → length before < capacity
    → load_items open_file lines capacity before ≡ ok (before ++ items)
unfolding load_items
load_items-Reads open_file [] capacity before [] reads room = ap ok (sym (append-nil before))
load_items-Reads open_file [] capacity before (a ∷ items) reads room = absurd reads
load_items-Reads open_file (line ∷ lines) capacity before [] reads room = absurd reads
load_items-Reads open_file (line ∷ lines) capacity before (a ∷ items) reads room =
    rw (lt→leb capacity (length before) room, reads.0)
      (elim (Bool-cases (length (before ++ a ∷ []) == capacity)) [
        | inl full ↦ rw full (
            load_items-Reads open_file lines (capacity * 2) (before ++ a ∷ []) items reads.1
              (omega (arith, length-append before (a ∷ [])))
            ∙ ap ok (append_assoc before (a ∷ []) items))
        | inr space ↦ rw space (
            load_items-Reads open_file lines capacity (before ++ a ∷ []) items reads.1
              (ground (arith, length-append before (a ∷ [])))
            ∙ ap ok (append_assoc before (a ∷ []) items))
      ])

-- The item stands somewhere in the list.
abbrev In : Item → List Item → Type 0
In a items = (i : ℕ) × (get_elem? items i ≡ some a)

-- A descriptor that some item has with the key, or no item has the key.
abbrev pub Answers : List Item → List ℕ → ℤ → Type 0
Answers items key r =
    ((a : Item) × In a items × (a.key ≡ key) × (r ≡ pos a.fildes))
    ⊎ ((r ≡ minus_one) × ((a : Item) → In a items → a.key ≢ key))

-- content_init on a file list whose lines are well formed and name files that can be opened, with a
-- qsort that sorts and keeps the items: the table is loaded, and content_get on it returns for every
-- key: the descriptor of an item with that key, or -1 if no line has the key.
pub content_init-content_get :
    (open_file : List ℕ → Option ℕ) (qsort : List Item → List Item) (bytes : List ℕ)
    (items : List Item) (key : List ℕ)
    → Reads open_file (fgets_lines (max_keylen - 1) [] bytes) items
    → IsSorted (qsort items)
    → ((a : Item) → In a (qsort items) ↔ In a items)
    → (table : List Item) × (r : ℤ) × (content_init open_file qsort (some bytes) ≡ ok table)
      × (content_get table (some key) ≡ ok r)
      × Answers items key r
unfolding content_init
content_init-content_get open_file qsort bytes items key reads sorted keeps =
    let (r, run, finds) = content_get-Finds (qsort items) key sorted in
    (
      qsort items,
      r,
      rw
          (load_items-Reads open_file (fgets_lines (max_keylen - 1) [] bytes) 16 [] items reads
            (omega arith))
          refl,
      run,
      elim finds [
        | inl (i, a, at, same, result) ↦ inl (a, (keeps a).0 (i, at), same, result)
        | inr (result, misses) ↦
            inr (result, λ a isin. let (i, at) = (keeps a).1 isin in misses i a at)
      ],
    )
