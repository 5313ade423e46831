-- ===== src/Minify.antt =====
-- proj4, the client that has pictures minified by a remote service: proj4/minifyjpeg_main.c, and
-- `minify_via_rpc` of proj4/minify_via_rpc.c. Its threads take requests from one queue; the lock makes
-- the test and the `steque_pop` a single step. The remote call is a parameter.
pub mod Readings
pub mod Draining
pub mod Ending
pub mod Service
pub mod Loading
pub mod Sequence
pub mod Main
use cs8803_introduction_to_o.Common.{
  set_at, ℕ, ◌+◌, ◌≡◌, Bool, true, false, Option, none, some, List, [], ◌∷◌, ◌++◌, ◌==◌, ltb, leb,
  ◌||◌, if◌then◌else◌, length, Outcome, ok, fault, exited, ◌>>=◌,
}
use cs8803_introduction_to_o.CString.{str_eq, is_space, fits}

-- `request_t`
pub record Request : Type 0 where
  pub inputfilename : List ℕ
  pub outputfilename : List ℕ

-- `%s`, up to the end of the file: the words between white space.
abbrev pub push_word : (word : List ℕ) → List (List ℕ) → List (List ℕ)
push_word [] rest = rest
push_word (c ∷ cs) rest = (c ∷ cs) ∷ rest

abbrev pub words_from : (word text : List ℕ) → List (List ℕ)
words_from word [] = push_word word []
words_from word (c ∷ text) =
    let next = words_from [] text in
    let more = words_from (word ++ c ∷ []) text in if is_space c then push_word word next else more

-- The loop of `load_requests`. `fscanf` fails only in front of the first word: behind the last odd one
-- the output name is what `malloc` left there. A name of 256 bytes or more is written past its end.
abbrev pub requests_of : (junk : List ℕ) → List (List ℕ) → Outcome (List Request)
requests_of junk [] = ok []
requests_of junk (i ∷ []) = do
  name ← fits 256 i
  ok (record { inputfilename = name; outputfilename = junk } ∷ [])
requests_of junk (i ∷ o ∷ words) = fits 256 i >>= λ name. fits 256 o >>= λ out.
    requests_of junk words >>= λ rest.
    ok (record { inputfilename = name; outputfilename = out } ∷ rest)

pub load_requests : (junk : List ℕ) → (workload : Option (List ℕ)) → Outcome (List Request)
load_requests junk none = exited 1
load_requests junk (some text) = requests_of junk (words_from [] text)

-- What the names of the file system stand for.
abbrev pub Files : Type 0
Files = List ℕ → Option (List ℕ)

-- `malloc` finds room for the text or not.
unfoldable pub read_from_file : (room : Bool) → Files → (filename : List ℕ) → Outcome (List ℕ)
read_from_file room files name = elim (files name) [
  | none ↦ exited 1
  | some text ↦ if room then ok text else exited 1
]

-- An `fopen` that fails leaves the files as they are, which the caller does not look at.
unfoldable pub write_to_file : (opens : Bool) → Files → (filename bytes : List ℕ) → Files
write_to_file opens files name bytes n =
    if opens then (if str_eq n name then some bytes else files n) else files n

-- `minify_via_rpc`, with the service's answer. The result is decoded into a block of the length of the
-- source.
unfoldable pub minify_via_rpc :
    (rpc : List ℕ → Option (List ℕ)) → (src_val : List ℕ) → Outcome (List ℕ)
minify_via_rpc rpc src = elim (rpc src) [
  | none ↦ exited 1
  | some dst ↦ if leb (length dst) (length src) then ok dst else fault
]

-- Where a thread is in `worker_main`.
pub data Worker : Type 0 where
  taking ended : Worker
  reading : Request → Worker
  calling writing : Request → List ℕ → Worker

pub record Program : Type 0 where
  pub files : Files
  pub queue : List Request
  pub workers : ℕ → Worker

-- The threads that `main` starts behind `load_requests`.
abbrev pub start : (nthreads : ℕ) → Files → List Request → Program
start nthreads files requests = record {
  files = files;
  queue = requests;
  workers = λ i. if ltb i nthreads then taking else ended;
}

module _ (rpc : List ℕ → Option (List ℕ)) where
  -- What one thread does next, where it is at this point; the answers are whether `malloc` finds room
  -- and whether `fopen` opens the output.
  unfoldable pub worker_turn : (room opens : Bool) → (i : ℕ) → Worker → Program → Outcome Program
  unfolding read_from_file minify_via_rpc
  worker_turn room opens i taking s = elim s.queue [
    | [] ↦ ok (record s { workers = set_at s.workers i ended })
    | request ∷ queue ↦
        ok (record s { queue = queue; workers = set_at s.workers i (reading request) })
  ]
  worker_turn room opens i (reading request) s = do
    src ← read_from_file room s.files request.inputfilename
    ok (record s { workers = set_at s.workers i (calling request src) })
  worker_turn room opens i (calling request src) s = do
    dst ← minify_via_rpc rpc src
    ok (record s { workers = set_at s.workers i (writing request dst) })
  worker_turn room opens i (writing request dst) s = ok (record s {
    files = write_to_file opens s.files request.outputfilename dst;
    workers = set_at s.workers i taking;
  })
  worker_turn room opens i ended s = ok s

  -- The turns of the threads in some order, in which `fopen` opens every output.
  pub data Runs (s : Program) : Program → Type 0 where
    here : Runs s s
    next :
        {t u : Program}
        → Runs s t
        → (room : Bool) (i : ℕ) → worker_turn room true i (t.workers i) t ≡ ok u
        → Runs s u
