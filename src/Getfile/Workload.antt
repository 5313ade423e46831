-- ===== src/Getfile/Workload.antt =====
-- The list of paths to request, proj1/getfile/workload.c. The mode is `WORKLOAD_SEQ` and nothing
-- changes it, so the branch that draws at random is dead code.
pub mod Rotation
use cs8803_introduction_to_o.Common.{
  ℕ, suc, zero, ◌+◌, ◌%◌, ◌^◌, Bool, true, false, ◌||◌, Option, none, some, List, [], ◌∷◌, ◌++◌,
  ◌==◌, ltb, leb, if◌then◌else◌, length, get_elem?, Outcome, ok, fault, ◌>>=◌, u16_mod, map,
}
use cs8803_introduction_to_o.CString.{is_space}

-- The words of a text, as `fscanf` with "%s" reads them; `word` is the one under way.
unfoldable pub words : (word : List ℕ) → List ℕ → List (List ℕ)
words [] [] = []
words (c ∷ word) [] = (c ∷ word) ∷ []
words word (c ∷ bytes) =
    let cut = words [] bytes in
    let more = words (word ++ c ∷ []) bytes in
    if is_space c then (elim word [ [] ↦ cut | w ∷ ws ↦ (w ∷ ws) ∷ cut ]) else more

-- gWorkloadPathArray, gUniqueWorkloadPaths and counter.
pub record Workload : Type 0 where
  pub paths : List (List ℕ)
  pub unique : ℕ
  pub counter : ℕ

abbrev pub array_size : ℕ
array_size = 100

-- The loop of `workload_init`: a word that does not fit `temp_buf` and a path too many for the array
-- are written out of bounds.
pub store_paths : List (List ℕ) → (stored : List (List ℕ)) → Outcome (List (List ℕ))
store_paths [] stored = ok stored
store_paths (w ∷ ws) stored =
    let rest = store_paths ws (stored ++ w ∷ []) in
    if leb 256 (length w) then fault else if leb array_size (length stored) then fault else rest

-- `workload_init` on the bytes of the file, if it can be opened; `none` is EXIT_FAILURE.
pub init : Option (List ℕ) → Workload → Outcome (Option Workload)
unfolding store_paths words
init none w = ok none
init (some bytes) w = do
  paths ← store_paths (words [] bytes) []
  ok (some (record w { paths = paths; unique = length paths % u16_mod }))

unfoldable pub num_unique_paths : Workload → ℕ
num_unique_paths w = w.unique

-- `workload_get_path`: the counter is an `int`, and its overflow is undefined; so is `% 0`.
pub get_path : Workload → Outcome (List ℕ × Workload)
get_path w =
    let counter = w.counter + 1 in
    if leb (2 ^ 31) counter
    then fault
    else if w.unique == 0
    then fault
    else elim (get_elem? w.paths (counter % w.unique)) [
      | none ↦ fault
      | some path ↦ ok (path, record w { counter = counter })
    ]
