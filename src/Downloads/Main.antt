-- ===== src/Downloads/Main.antt =====
-- `main` of proj1/multithreadgetfile/gfclient_download.c: the options, the queue of requests and the
-- threads.
pub mod Whole
use cs8803_introduction_to_o.Common.{
  ℕ, zero, suc, ◌+◌, ◌*◌, ◌^◌, Bool, Option, none, some, List, [], ◌∷◌, ◌++◌, ◌==◌, ltb, leb,
  if◌then◌else◌, length, Outcome, ok, fault, exited, ◌>>=◌, ℤ, pos, negsuc, wrap, u16_mod,
}
use cs8803_introduction_to_o.CString.{atol}
use cs8803_introduction_to_o.Getopt.{each_option}
use cs8803_introduction_to_o.Pthreads.{no_threads}
use cs8803_introduction_to_o.Getfile.Workload
use cs8803_introduction_to_o.Getfile.Workload.{Workload, get_path}
use cs8803_introduction_to_o.Getfile.Download.{Options, defaults}
use cs8803_introduction_to_o.Downloads.{Program, start}

-- The body of the loop over "s:p:w:n:t:h"; the variables are globals.
pub download_option : ℕ → List ℕ → Options → Outcome Options
download_option c optarg o =
    if c == b's'
    then ok (record o { server = optarg })
    else if c == b'p'
    then ok (record o { port = wrap u16_mod (atol optarg) })
    else if c == b'w'
    then ok (record o { workload_path = optarg })
    else if c == b'n'
    then ok (record o { nrequests = atol optarg })
    else if c == b't'
    then ok (record o { nthreads = atol optarg })
    else if c == b'h'
    then exited 0
    else exited 1

-- `nrequests * nthreads` on `int`, as a number of rounds.
pub product : ℤ → ℤ → Outcome ℕ
product (pos a) (pos b) = if leb (2 ^ 31) (a * b) then fault else ok (a * b)
product (negsuc a) (negsuc b) = if leb (2 ^ 31) (suc a * suc b) then fault else ok (suc a * suc b)
product (pos a) (negsuc b) = if leb (2 ^ 31 + 1) (a * suc b) then fault else ok 0
product (negsuc a) (pos b) = if leb (2 ^ 31 + 1) (suc a * b) then fault else ok 0

-- The loop that puts the requests on the queue.
pub enqueue_requests : (rounds : ℕ) → Workload → (workq : List (List ℕ)) → Outcome (List (List ℕ))
enqueue_requests zero w workq = ok workq
enqueue_requests (suc rounds) w workq = do
  (req_path, w') ← get_path w
  let rest = enqueue_requests rounds w' (workq ++ req_path ∷ [])
  if ltb 256 (length req_path) then exited 1 else rest

-- The array of the threads must have a positive length.
pub start_threads :
    (pthread_create : ℕ → Bool) → (nthreads : ℤ) → (workq : List (List ℕ)) → Outcome Program
unfolding no_threads
start_threads pthread_create (negsuc n) workq = fault
start_threads pthread_create (pos n) workq =
    if n == 0 then fault else ok (start (no_threads pthread_create 0 n) workq)

-- The workload's static variables.
abbrev pub unset : Workload
unset = record { paths = []; unique = 0; counter = 0 }

-- `main` up to the first `pthread_join`; behind the last one it returns 0.
pub main :
    (pthread_create : ℕ → Bool)
    → (workload_file : List ℕ → Option (List ℕ)) → (argv : List (ℕ × List ℕ)) → Outcome Program
unfolding start_threads enqueue_requests product
main pthread_create workload_file argv = do
  o ← each_option download_option argv defaults
  loaded ← Workload.init (workload_file o.workload_path) unset
  elim loaded [
    | none ↦ exited 1
    | some w ↦ product o.nrequests o.nthreads >>= λ rounds.
        enqueue_requests rounds w [] >>= λ workq. start_threads pthread_create o.nthreads workq
  ]
