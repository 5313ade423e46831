-- ===== src/Threads/Main.antt =====
-- `main` of proj1/multithreadgetfile/gfserver_main.c, up to the loop of the server library.
use cs8803_introduction_to_o.Common.{
  ℕ, Bool, ◌&&◌, Option, List, ◌==◌, if◌then◌else◌, Outcome, ok, fault, exited, ◌>>=◌, ℤ, pos,
  negsuc, wrap, u16_mod,
}
use cs8803_introduction_to_o.CString.{codes, atol}
use cs8803_introduction_to_o.Getopt.{each_option}
use cs8803_introduction_to_o.Pthreads.{no_threads}
use cs8803_introduction_to_o.Steque.{Steque, init}
use cs8803_introduction_to_o.Getfile.Content.{Item, content_init}
use cs8803_introduction_to_o.Threads.{Task, Pool, start}

pub record Options : Type 0 where
  pub port : ℕ
  pub content : List ℕ
  pub nthreads : ℤ

abbrev pub defaults : Options
defaults = record { port = 8888; content = codes "content.txt"; nthreads = pos 1 }

-- The body of the loop over "p:t:c:h".
pub threads_option : ℕ → List ℕ → Options → Outcome Options
threads_option c optarg o =
    if c == b'p'
    then ok (record o { port = wrap u16_mod (atol optarg) })
    else if c == b't'
    then ok (record o { nthreads = atol optarg })
    else if c == b'c'
    then ok (record o { content = optarg })
    else if c == b'h'
    then exited 0
    else exited 1

-- The array of the workers must have a positive length.
start_workers :
    (pthread_create : ℕ → Bool) → (nthreads : ℤ) → Steque → (ℕ → Option Task) → Outcome Pool
start_workers pthread_create (negsuc n) q tasks = fault
start_workers pthread_create (pos n) q tasks =
    if n == 0 then fault else ok (start (no_threads pthread_create 0 n) q tasks)

-- What the library is asked to serve with, the table, and the workers.
pub record Started : Type 0 where
  pub port : ℕ
  pub maxpending : ℕ
  pub table : List Item
  pub pool : Pool

module _ (signal pthread_create : ℕ → Bool) (fopen : List ℕ → Option (List ℕ))
    (open_file : List ℕ → Option ℕ) (qsort : List Item → List Item) (q : Steque)
    (tasks : ℕ → Option Task) where
  -- `q` and `tasks` are the memory that the program finds.
  pub main : (argv : List (ℕ × List ℕ)) → Outcome Started
  unfolding start_workers
  main argv =
      if signal 0 && signal 1
      then (each_option threads_option argv defaults >>= λ o.
          content_init open_file qsort (fopen o.content) >>= λ items.
          start_workers pthread_create o.nthreads (init q) tasks >>= λ pool.
          ok (record { port = o.port; maxpending = 100; table = items; pool = pool }))
      else exited 1
