-- ===== src/Proxy/Opening.antt =====
-- What `cache_worker` of proj3/simplecached.c does with a request before the length: it looks up the file
-- and maps the segment. The cache and the segments' names belong to the system: they are parameters.
use cs8803_introduction_to_o.Common.{
  ℕ, ◌≡◌, ◌⊎◌, Bool, Option, none, some, List, [], ◌∷◌, if◌then◌else◌, Outcome, ok, exited, starved,
  ◌>>=◌,
}
use cs8803_introduction_to_o.Proxy.Shared.{Segment}
use cs8803_introduction_to_o.Proxy.Requests.{Message}

-- The loop around `shm_open`, with the segments that have a name at each of its trials.
open_segment : (fldes : List ℕ) → List (List ℕ → Option Segment) → Outcome Segment
open_segment fldes [] = starved
open_segment fldes (shm ∷ later) = elim (shm fldes) [
  | some mem ↦ ok mem
  | none ↦ open_segment fldes later
]

-- The file, if the cache has it, and the segment. The size that `ftruncate` sets is the one that the
-- handler set before.
pub serve_request :
    (simplecache_get : List ℕ → Option (List ℕ))
    → (mmap_ok : Bool) → List (List ℕ → Option Segment)
    → Message
    → Outcome (Option (List ℕ) × Segment)
unfolding open_segment
serve_request simplecache_get mmap_ok trials msg = do
  let cache_fldes = simplecache_get msg.path
  mem ← open_segment msg.fldes trials
  if mmap_ok then ok (cache_fldes, mem) else exited 1

-- The name has no segment at some trials, and then this one.
abbrev Appears : (fldes : List ℕ) → Segment → List (List ℕ → Option Segment) → Type 0
Appears fldes mem [] = ⊥
Appears fldes mem (shm ∷ later) =
    (shm fldes ≡ some mem) ⊎ ((shm fldes ≡ none) × Appears fldes mem later)
