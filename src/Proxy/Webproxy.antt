-- ===== src/Proxy/Webproxy.antt =====
-- The programs proj3/webproxy.c and proj3/webproxy_curl.c, up to the call that serves for ever. The
-- server library is not in the repository: the calls of it are recorded.
use cs8803_introduction_to_o.Common.{
  ℕ, zero, suc, ◌+◌, Option, none, some, List, [], ◌∷◌, ◌==◌, ◌&&◌, Bool, if◌then◌else◌, Outcome,
  ok, exited, ◌>>=◌, ℤ, pos, negsuc,
}
use cs8803_introduction_to_o.Getopt.{each_option}
use cs8803_introduction_to_o.Proxy.Options.{Options, defaults, to_short, webproxy_option}
use cs8803_introduction_to_o.Proxy.Segments.{Pool, init_proxy}

-- GFS_WORKER_FUNC
pub data Handler : Type 0 where
  handle_with_cache handle_with_curl : Handler

-- `gfserver_init` and `gfserver_setopt`.
pub data Call : Type 0 where
  init_server : (nworkerthreads : ℕ) → Call
  set_port set_maxnpending : ℕ → Call
  set_worker_func : Handler → Call
  set_worker_arg : (i : ℕ) → (server : List ℕ) → Call

-- The loop `for (i = 0; i < nworkerthreads; i++)` from a worker on, for as many rounds.
set_worker_args : (i rounds : ℕ) → (server : List ℕ) → List Call
set_worker_args i zero server = []
set_worker_args i (suc rounds) server =
    set_worker_arg i server ∷ set_worker_args (i + 1) rounds server

-- The calls behind the options.
set_up : Handler → Options → List Call
unfolding set_worker_args
set_up handler o =
    init_server o.nworkerthreads
    ∷ set_port o.port
    ∷ set_maxnpending 10
    ∷ set_worker_func handler
    ∷ set_worker_args 0 o.nworkerthreads o.server

-- How often a loop that counts from 0 up to an `int` runs.
abbrev pub rounds_of : ℤ → ℕ
rounds_of (pos n) = n
rounds_of (negsuc n) = 0

-- What the server is given to start with.
pub record Started : Type 0 where
  pub pool : Pool
  pub segment_size : ℤ
  pub calls : List Call

-- `main` of webproxy.c. The four calls of `signal` succeed or not.
pub main : (signal : ℕ → Bool) → (argv : List (ℕ × List ℕ)) → Outcome Started
unfolding set_up
main signal argv =
    if signal 0 && signal 1
    then (each_option webproxy_option argv defaults >>= λ o.
        if signal 2 && signal 3
        then ok (record {
          pool = init_proxy (rounds_of o.segments);
          segment_size = o.segment_size;
          calls = set_up handle_with_cache o;
        })
        else exited 1)
    else exited 1

-- The body of the loop over "p:t:s:h" of webproxy_curl.c, and its `main`, which has no segments.
curl_option : ℕ → List ℕ → Options → Outcome Options
curl_option c optarg o =
    if c == b'p'
    then ok (record o { port = to_short optarg })
    else if c == b't'
    then ok (record o { nworkerthreads = to_short optarg })
    else if c == b's'
    then ok (record o { server = optarg })
    else if c == b'h'
    then exited 0
    else exited 1

unfoldable pub main_curl : (signal : ℕ → Bool) → (argv : List (ℕ × List ℕ)) → Outcome (List Call)
unfolding set_up curl_option each_option
main_curl signal argv =
    if signal 0 && signal 1
    then (each_option curl_option argv defaults >>= λ o. ok (set_up handle_with_curl o))
    else exited 1

-- The argument that the last call for a worker sets.
abbrev pub worker_arg : (i : ℕ) → List Call → Option (List ℕ)
worker_arg i [] = none
worker_arg i (set_worker_arg j server ∷ calls) = elim (worker_arg i calls) [
  | some later ↦ some later
  | none ↦ if j == i then some server else none
]
worker_arg i (_ ∷ calls) = worker_arg i calls
