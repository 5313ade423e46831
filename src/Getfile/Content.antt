-- ===== src/Getfile/Content.antt =====
-- The content table of proj1/getfile/content.c: it is read from a file, sorted by key and searched
-- by halving. `open` and `qsort` are parameters.
pub mod Compare
pub mod Search
pub mod Load
use cs8803_introduction_to_o.Common.{
  ℕ, zero, suc, ◌+◌, ◌-◌, ◌*◌, ◌/◌, Bool, true, false, Option, none, some, List, [], ◌∷◌, ◌++◌,
  ◌==◌, ltb, leb, if◌then◌else◌, length, get_elem?, Outcome, ok, fault, exited, starved, ◌>>=◌, ℤ,
  pos,
}
use cs8803_introduction_to_o.CString.{codes, c_str, is_delim, Order, less, equal, greater, strcmp}
use cs8803_introduction_to_o.Socket.{minus_one}

-- `item_t`; a key has at most 255 bytes.
pub record Item : Type 0 where
  pub fildes : ℕ
  pub key : List ℕ

-- `_itemcmp`
unfoldable pub itemcmp : Item → Item → Order
itemcmp a b = strcmp a.key b.key

abbrev pub max_keylen : ℕ
max_keylen = 256

-- What the calls of `fgets` return: lines with their ends, cut at `MAX_KEYLEN - 1` bytes. `room` is
-- what the current call may still read.
unfoldable pub fgets_lines : (room : ℕ) → (line : List ℕ) → List ℕ → List (List ℕ)
fgets_lines room [] [] = []
fgets_lines room (c ∷ line) [] = (c ∷ line) ∷ []
fgets_lines room line (c ∷ bytes) =
    let full = (line ++ c ∷ []) ∷ fgets_lines (max_keylen - 1) [] bytes in
    let more = fgets_lines (room - 1) (line ++ c ∷ []) bytes in
    if c == b'\n' then full else if leb room 1 then full else more

-- `key[strlen(key) - 1] = '\0'`
unfoldable pub chop : List ℕ → Outcome (List ℕ)
chop [] = fault
chop (c ∷ []) = ok []
chop (c ∷ d ∷ m) = do m' ← chop (d ∷ m); ok (c ∷ m')

-- `strsep`: the text up to a delimiter, and the text behind it, or NULL if there was none.
unfoldable pub strsep : List ℕ → List ℕ → List ℕ × Option (List ℕ)
strsep ds [] = ([], none)
strsep ds (c ∷ m) =
    let (t, rest) = strsep ds m in if is_delim ds c then ([], some m) else (c ∷ t, rest)

module _ (open_file : List ℕ → Option ℕ) where
  -- The descriptor of the path of a line; `open(NULL, ...)` fails like any other failing `open`.
  unfoldable pub open_path : Option (List ℕ) → Outcome ℕ
  open_path none = exited 1
  open_path (some m) = elim (open_file (strsep (codes " \t") m).0) [
    | none ↦ exited 1
    | some fildes ↦ ok fildes
  ]

  unfoldable pub read_item : (line : List ℕ) → Outcome Item
  unfolding open_path
  read_item line = do
    text ← chop (c_str line)
    let parts = strsep (codes " \t") text
    fildes ← open_path parts.1
    ok (record { fildes = fildes; key = parts.0 })

  -- The loop of `content_init`; a write past the allocation faults.
  pub load_items : List (List ℕ) → (capacity : ℕ) → (items : List Item) → Outcome (List Item)
  unfolding read_item
  load_items [] capacity items = ok items
  load_items (line ∷ lines) capacity items =
      let next = load_items lines in
      if leb capacity (length items) then fault else do
        item ← read_item line
        let items' = items ++ item ∷ []
        next (if length items' == capacity then capacity * 2 else capacity) items'

  -- `content_init` on the bytes of the file list, if that can be opened.
  unfoldable pub content_init :
      (qsort : List Item → List Item) → Option (List ℕ) → Outcome (List Item)
  unfolding load_items fgets_lines
  content_init qsort none = exited 1
  content_init qsort (some bytes) = do
    items ← load_items (fgets_lines (max_keylen - 1) [] bytes) 16 []
    ok (qsort items)

-- The loop of `content_get`, on fuel. `top` is `hi + 1`, since `hi` may be -1.
pub search_loop : ℕ → List Item → (key : List ℕ) → (lo top : ℕ) → Outcome ℤ
search_loop zero items key lo top = starved
search_loop (suc fuel) items key lo top =
    let mid = lo + (top - 1 - lo) / 2 in
    let lower = search_loop fuel items key lo mid in
    let upper = search_loop fuel items key (mid + 1) top in
    if ltb lo top
    then elim (get_elem? items mid) [
      | none ↦ fault
      | some item ↦ elim (strcmp key item.key) [
        | less ↦ lower
        | greater ↦ upper
        | equal ↦ ok (pos item.fildes)
      ]
    ]
    else ok minus_one

-- `content_get`; `strcmp` on a NULL key faults.
pub content_get : List Item → Option (List ℕ) → Outcome ℤ
unfolding search_loop
content_get [] none = ok minus_one
content_get (item ∷ items) none = fault
content_get items (some key) = search_loop (length items + 1) items key 0 (length items)

-- `content_destroy`: the descriptors that are closed.
unfoldable content_destroy : List Item → List ℕ
content_destroy [] = []
content_destroy (item ∷ items) = item.fildes ∷ content_destroy items
