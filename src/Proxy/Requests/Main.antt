-- ===== src/Proxy/Requests/Main.antt =====
-- `main` of proj3/simplecached.c up to its loop, and the signal handler that ends the program. The
-- cache itself is not in the repository: the calls of it are recorded.
use cs8803_introduction_to_o.Common.{
  ℕ, zero, suc, ◌+◌, Bool, true, false, not, ◌&&◌, ◌||◌, Option, none, some, List, ◌==◌,
  if◌then◌else◌, Outcome, ok, fault, exited, ◌>>=◌, ℤ, pos, negsuc,
}
use cs8803_introduction_to_o.CString.{codes, atol}
use cs8803_introduction_to_o.Getopt.{each_option}
use cs8803_introduction_to_o.Proxy.Requests.{Message, Daemon, begun}

pub record Options : Type 0 where
  pub nthreads : ℤ
  pub cachedir : List ℕ

abbrev defaults : Options
defaults = record { nthreads = pos 1; cachedir = codes "locals.txt" }

-- The body of the loop over "t:c:h".
unfoldable pub cache_option : ℕ → List ℕ → Options → Outcome Options
cache_option c optarg o =
    if c == b't'
    then ok (record o { nthreads = atol optarg })
    else if c == b'c'
    then ok (record o { cachedir = optarg })
    else if c == b'h'
    then exited 0
    else exited 1

-- Whether the message queue exists, and what `simplecache_init` was called with, until
-- `simplecache_destroy` is.
pub record System : Type 0 where
  pub msgq : Bool
  pub cache : Option (List ℕ)

mq_unlink : System → System
mq_unlink s = record s { msgq = false }

-- With O_CREAT and O_EXCL; it may also fail for other reasons.
mq_open : (able : Bool) → System → Outcome System
mq_open able s = if able && not s.msgq then ok (record s { msgq = true }) else exited 1

-- The loop that creates the workers, from a number on. A call that fails is only reported.
create_workers : (pthread_create : ℕ → Bool) → (i rounds : ℕ) → ℕ
create_workers pthread_create i zero = 0
create_workers pthread_create i (suc rounds) =
    let others = create_workers pthread_create (i + 1) rounds in
    if pthread_create i then suc others else others

-- The array of the workers must have a positive length.
start_workers : (pthread_create : ℕ → Bool) → (nthreads : ℤ) → Outcome ℕ
unfolding create_workers
start_workers pthread_create (negsuc n) = fault
start_workers pthread_create (pos n) =
    if n == 0 then fault else ok (create_workers pthread_create 0 n)

pub record Started : Type 0 where
  pub system : System
  pub daemon : Daemon
  pub workers : ℕ

-- `_sig_handler`: at SIGINT and SIGTERM the system it leaves and the program's status.
pub sig_handler : (signo : ℕ) → System → Option (System × ℕ)
unfolding mq_unlink
sig_handler signo s =
    if signo == 2 || signo == 15 then some (record (mq_unlink s) { cache = none }, signo) else none

module _ (able : Bool) (signal pthread_create : ℕ → Bool) (memory : ℕ → Message) where
  -- `memory` is what the program finds at the addresses of messages.
  pub main : System → (argv : List (ℕ × List ℕ)) → Outcome Started
  unfolding mq_unlink mq_open start_workers
  main s argv = each_option cache_option argv defaults >>= λ o. mq_open able (mq_unlink s) >>= λ s₁.
      if signal 0 && signal 1
      then (start_workers pthread_create o.nthreads >>= λ workers. ok (record {
        system = record s₁ { cache = some o.cachedir };
        daemon = begun memory;
        workers = workers;
      }))
      else exited 1
