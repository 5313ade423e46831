-- ===== src/Examples/Table.antt =====
-- The table of contents and the workload, on a list of two files.
use cs8803_introduction_to_o.Common.{zero, suc, ◌≡◌, refl, some, List, [], ◌∷◌, arith, ok, ℤ}
use cs8803_introduction_to_o.CString.{codes, strcmp}
use cs8803_introduction_to_o.Getfile.Content.{
  Item, itemcmp, content_init, content_get, read_item, strsep, chop, open_path, fgets_lines,
}
use cs8803_introduction_to_o.Getfile.Content.Search.{IsSorted}
use cs8803_introduction_to_o.Getfile.Content.Load.{Reads, Answers, content_init-content_get}

abbrev item_a : Item
item_a = record { fildes = 3; key = codes "/a" }

abbrev item_b : Item
item_b = record { fildes = 3; key = codes "/b" }

abbrev table : List Item
table = item_a ∷ item_b ∷ []

table-IsSorted : IsSorted table
unfolding itemcmp strcmp
table-IsSorted zero zero a b le at_i at_j e = ground arith
table-IsSorted zero (suc zero) a b le at_i at_j e = ground arith
table-IsSorted zero (suc (suc j)) a b le at_i at_j e = cc
table-IsSorted (suc zero) zero a b le at_i at_j e = absurd (omega arith)
table-IsSorted (suc zero) (suc zero) a b le at_i at_j e = ground arith
table-IsSorted (suc zero) (suc (suc j)) a b le at_i at_j e = cc
table-IsSorted (suc (suc i)) j a b le at_i at_j e = cc

reads : Reads (λ path. some 3) (fgets_lines 255 [] (codes "/a x\n/b y\n")) table
unfolding fgets_lines read_item strsep chop open_path
reads = (refl, (refl, tt))

-- The list is sorted as it stands, so a sort may leave it as it is.
content_init-content_get_example :
    (loaded : List Item) × (r : ℤ) × (content_init
        (λ path. some 3)
        (λ items. items)
        (some (codes "/a x\n/b y\n"))
      ≡ ok loaded)
    × (content_get loaded (some (codes "/b")) ≡ ok r)
    × Answers table (codes "/b") r
content_init-content_get_example =
    content_init-content_get (λ path. some 3) (λ items. items) (codes "/a x\n/b y\n") table
      (codes "/b") reads table-IsSorted (λ a. ((λ h. h), λ h. h))
