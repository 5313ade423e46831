-- ===== src/Minify/Main.antt =====
-- `main` of proj4/minifyjpeg_main.c: the options, the workload and the threads, each with a client of
-- the service. The clients are there: what a thread does without one is not modelled.
use cs8803_introduction_to_o.Common.{
  ℕ, List, ◌==◌, if◌then◌else◌, Outcome, ok, exited, ◌>>=◌, ℤ, pos, negsuc,
}
use cs8803_introduction_to_o.CString.{codes, atol}
use cs8803_introduction_to_o.Getopt.{each_option}
use cs8803_introduction_to_o.Minify.{Request, Files, load_requests, Program, start}

pub record Options : Type 0 where
  pub server : List ℕ
  pub workload : List ℕ
  pub nthreads : ℤ

abbrev pub defaults : Options
defaults = record { server = codes "localhost"; workload = codes "workload.txt"; nthreads = pos 1 }

-- The body of the loop over "s:w:t:h".
unfoldable pub minify_option : ℕ → List ℕ → Options → Outcome Options
minify_option c optarg o =
    if c == b's'
    then ok (record o { server = optarg })
    else if c == b'w'
    then ok (record o { workload = optarg })
    else if c == b't'
    then ok (record o { nthreads = atol optarg })
    else if c == b'h'
    then exited 0
    else exited 1

-- The loop that creates the threads makes no round for a negative number.
start_all : (nthreads : ℤ) → Files → List Request → Program
start_all (pos n) files requests = start n files requests
start_all (negsuc n) files requests = start 0 files requests

-- `main` up to the first `pthread_join`; behind the last one it returns 0. `junk` is what `malloc`
-- leaves in a request.
pub main : (junk : List ℕ) → Files → (argv : List (ℕ × List ℕ)) → Outcome Program
unfolding start_all
main junk files argv = do
  o ← each_option minify_option argv defaults
  requests ← load_requests junk (files o.workload)
  ok (start_all o.nthreads files requests)
