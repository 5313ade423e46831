-- ===== src/Minify/Ending.antt =====
-- The threads of proj4/minifyjpeg_main.c come to an end.
use cs8803_introduction_to_o.Common.{ℕ, ◌+◌, ◌*◌, ◌≤◌, ◌≡◌, Option, some, List, length, total}
use cs8803_introduction_to_o.Minify.{
  Request, Files, Worker, taking, ended, reading, calling, writing, Program,
}
use cs8803_introduction_to_o.Minify.Readings.{Among}

-- The turns that a thread has left with its request, and that all threads have left.
abbrev remaining : Worker → ℕ
remaining taking = 1
remaining (reading r) = 4
remaining (calling r src) = 3
remaining (writing r dst) = 2
remaining ended = 0

abbrev pub turns_left : (nthreads : ℕ) → Program → ℕ
turns_left nthreads s = 4 * length s.queue + total remaining s.workers nthreads

module _ (rpc : List ℕ → Option (List ℕ)) (nthreads : ℕ) (files₀ : Files)
    (requests : List Request) where
  -- Every input is there, and the service answers it with no more bytes than it has.
  abbrev pub Served : Type 0
  Served =
      (r : Request)
      → Among r requests
      → (src : List ℕ) × (dst : List ℕ) × (files₀ r.inputfilename ≡ some src)
        × (rpc src ≡ some dst)
        × (length dst ≤ length src)
