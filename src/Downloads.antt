-- ===== src/Downloads.antt =====
-- The multithreaded download program, proj1/multithreadgetfile/gfclient_download.c: `main` queues the
-- requests and starts the threads, each of which takes at most `nrequests` of them. The client library
-- of this program is only there as an object file: what its calls give is a parameter.
pub mod Draining
pub mod Keeping
pub mod Main
use cs8803_introduction_to_o.Common.{
  set_at, ℕ, ◌+◌, ◌*◌, ◌≡◌, Bool, true, false, not, List, [], ◌∷◌, ◌++◌, ◌==◌, ltb, ◌||◌,
  if◌then◌else◌, length, Outcome, ok, exited, ◌>>=◌, ℤ, is_neg,
}
use cs8803_introduction_to_o.Getfile.Download.{Made, local_path, open_file}

-- Where a thread is in `worker_main`, with the rounds of its loop that it has behind it: in front of
-- the lock, behind it with the request whose number is the local file's, or at the end.
pub data Worker : Type 0 where
  looping ended : (rounds : ℕ) → Worker
  fetching : (rounds counter : ℕ) → (path : List ℕ) → Worker

-- `counter` is the one of `localPath`, and `kept` tells which local files there are; `taken` is what
-- was taken from the queue so far.
pub record Program : Type 0 where
  pub workq : List (List ℕ)
  pub counter : ℕ
  pub kept : ℕ → Bool
  pub taken : List (List ℕ)
  pub workers : ℕ → Worker

abbrev pub start : (nthreads : ℕ) → List (List ℕ) → Program
start nthreads workq = record {
  workq = workq;
  counter = 0;
  kept = λ n. false;
  taken = [];
  workers = λ i. if ltb i nthreads then looping 0 else ended 0;
}

-- What `gfc_perform` returns, and whether the status is GF_OK then.
pub record Answer : Type 0 where
  pub returncode : ℤ
  pub is_ok : Bool

-- The local file stays if nothing removes it.
abbrev pub stays : Answer → Bool
stays a = not (is_neg a.returncode || not a.is_ok)

module _ (nrequests : ℕ) (mkdir : List ℕ → Made)
    (perform : (counter : ℕ) → (path : List ℕ) → Answer) where
  -- One thread's next step, up to the lock or from it on; `fopen_ok` is the answer of `fopen`.
  unfoldable pub worker_turn : (fopen_ok : Bool) → (i : ℕ) → Worker → Program → Outcome Program
  worker_turn fopen_ok i (looping rounds) s =
      if ltb rounds nrequests
      then elim s.workq [
        | [] ↦ ok (record s { workers = set_at s.workers i (ended rounds) })
        | path ∷ workq ↦ local_path s.counter path >>= λ local.
            open_file mkdir fopen_ok local >>= λ opened. ok (record s {
              workq = workq;
              counter = s.counter + 1;
              kept = set_at s.kept s.counter true;
              taken = s.taken ++ path ∷ [];
              workers = set_at s.workers i (fetching rounds s.counter path);
            })
      ]
      else ok (record s { workers = set_at s.workers i (ended rounds) })
  worker_turn fopen_ok i (fetching rounds counter path) s = ok (record s {
    kept = set_at s.kept counter (stays (perform counter path));
    workers = set_at s.workers i (looping (rounds + 1));
  })
  worker_turn fopen_ok i (ended rounds) s = ok s

  pub data Runs (s : Program) : Program → Type 0 where
    here : Runs s s
    next :
        {t u : Program}
        → Runs s t
        → (fopen_ok : Bool) (i : ℕ) → worker_turn fopen_ok i (t.workers i) t ≡ ok u
        → Runs s u
