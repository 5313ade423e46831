-- ===== src/Getfile/Workload/Rotation.antt =====
-- Runs of the calls of proj1/getfile/workload.c.
use native.Mathlib.Nat.{mod-lt}
use cs8803_introduction_to_o.Common.{
  ℕ, zero, suc, ◌+◌, ◌%◌, ◌^◌, ◌≤◌, ◌<◌, ◌≡◌, refl, sym, ap, ◌∙◌, List, [], ◌∷◌, ◌++◌, arith, some,
  lt→leb, ne→==, length, length-append, get_elem?, Outcome, ok, ◌>>=◌, u16_mod,
}
use mathlib.Core.Path.{subst₂}
use mathlib.Core.List.{append_assoc, append-nil}
use cs8803_introduction_to_o.Getfile.Workload.{
  Workload, array_size, words, store_paths, init, get_path,
}

-- Some paths, and their number.
pub record IsLoaded (w : Workload) : Type 0 where
  pub some_path : 0 < length w.paths
  pub counted : w.unique ≡ length w.paths

-- All words fit the buffer.
abbrev pub Short : List (List ℕ) → Type 0
Short [] = Unit {0}
Short (w ∷ ws) = (length w < 256) × Short ws

store_paths-Short :
    (ws stored : List (List ℕ))
    → Short ws
    → length stored + length ws ≤ array_size
    → store_paths ws stored ≡ ok (stored ++ ws)
unfolding store_paths
store_paths-Short [] stored short room = ap ok (sym (append-nil stored))
store_paths-Short (w ∷ ws) stored short room =
    rw (lt→leb 256 (length w) short.0, lt→leb array_size (length stored) (omega arith))
      (store_paths-Short ws (stored ++ w ∷ []) short.1
          (omega (arith, length-append stored (w ∷ [])))
        ∙ ap ok (append_assoc stored (w ∷ []) ws))

-- workload_init on a file of one to a hundred words, each shorter than 256 bytes, stores them in
-- their order with their number and leaves the counter.
pub init-IsLoaded :
    (bytes : List ℕ) (w : Workload)
    → Short (words [] bytes)
    → length (words [] bytes) ≤ array_size
    → 0 < length (words [] bytes)
    → (w' : Workload) × (init (some bytes) w ≡ ok (some w'))
      × (w'.paths ≡ words [] bytes)
      × (w'.counter ≡ w.counter)
      × IsLoaded w'
unfolding init
init-IsLoaded bytes w short room nonempty = (
  record w { paths = words [] bytes; unique = length (words [] bytes) % u16_mod },
  rw (store_paths-Short (words [] bytes) [] short (omega arith)) refl,
  refl,
  refl,
  record { some_path = nonempty; counted = omega arith },
)

pub get_elem?-some :
    (paths : List (List ℕ)) (i : ℕ) → i < length paths → (p : List ℕ) × (get_elem? paths i ≡ some p)
get_elem?-some [] i h = absurd (omega arith)
get_elem?-some (x ∷ paths) zero h = (x, refl)
get_elem?-some (x ∷ paths) (suc i) h = get_elem?-some paths i (omega arith)

-- Every call returns the next path, and starts again behind the last one.
pub get_path-next :
    (w : Workload)
    → IsLoaded w
    → w.counter + 1 < 2 ^ 31
    → (p : List ℕ) × (w' : Workload) × (get_path w ≡ ok (p, w'))
      × (get_elem? w.paths ((w.counter + 1) % length w.paths) ≡ some p)
      × (w'.counter ≡ w.counter + 1)
      × (w'.paths ≡ w.paths)
      × IsLoaded w'
unfolding get_path
get_path-next w loaded small =
    let n = length w.paths in
    let (p, at) =
      get_elem?-some w.paths ((w.counter + 1) % n) (mod-lt (w.counter + 1) loaded.some_path) in
    (
      p,
      record w { counter = w.counter + 1 },
      rw
          (
            lt→leb (2 ^ 31) (w.counter + 1) small,
            loaded.counted,
            ne→== n 0 (omega (arith, loaded.some_path)),
            at,
          )
          (ap (λ u. ok (p, record { paths = w.paths; unique = u; counter = w.counter + 1 }))
            loaded.counted),
      at,
      refl,
      refl,
      record { some_path = loaded.some_path; counted = loaded.counted },
    )

-- A run of `m` calls.
abbrev get_paths : ℕ → Workload → Outcome (List (List ℕ) × Workload)
get_paths zero w = ok ([], w)
get_paths (suc m) w = do (p, w₁) ← get_path w; (ps, w₂) ← get_paths m w₁; ok (p ∷ ps, w₂)

-- The paths of `m` calls behind the counter's value.
abbrev Turns : (paths : List (List ℕ)) → (counter : ℕ) → List (List ℕ) → Type 0
Turns paths counter [] = Unit {0}
Turns paths counter (p ∷ ps) =
    (get_elem? paths ((counter + 1) % length paths) ≡ some p) × Turns paths (counter + 1) ps

-- On a loaded workload, m calls of workload_get_path that keep the counter below 2^31 return m
-- paths: each is the one at the next value of the counter modulo their number, so they come round
-- and round, and the counter is m higher.
get_paths-Turns :
    (m : ℕ) (w : Workload)
    → IsLoaded w
    → w.counter + m < 2 ^ 31
    → (ps : List (List ℕ)) × (w' : Workload) × (get_paths m w ≡ ok (ps, w'))
      × (length ps ≡ m)
      × Turns w.paths w.counter ps
      × (w'.counter ≡ w.counter + m)
get_paths-Turns zero w loaded small = ([], w, refl, refl, tt, omega arith)
get_paths-Turns (suc m) w loaded small =
    let (p, w₁, run, at, next, same, loaded₁) = get_path-next w loaded (omega arith) in
    let (ps, w₂, rest, count, turns, last) = get_paths-Turns m w₁ loaded₁ (omega (arith, next)) in
    (
      p ∷ ps,
      w₂,
      rw (run, rest) refl,
      ap suc count,
      (at, subst₂ (λ paths counter. Turns paths counter ps) same next turns),
      omega (arith, next, last),
    )
