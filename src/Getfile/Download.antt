-- ===== src/Getfile/Download.antt =====
-- The download program, proj1/getfile/gfclient_download.c: it takes paths from the workload and
-- requests each one by the client library.
pub mod Never
use cs8803_introduction_to_o.Common.{
  ℕ, zero, suc, ◌+◌, ◌-◌, ◌*◌, ◌%◌, Bool, true, false, not, ◌&&◌, Option, none, some, List, [], ◌∷◌,
  ◌++◌, ◌==◌, ltb, if◌then◌else◌, length, take, Outcome, ok, fault, exited, starved, ◌>>=◌, ℤ, pos,
  negsuc, is_neg, u16_mod, wrap,
}
use cs8803_introduction_to_o.CString.{codes, decimal, atol}
use cs8803_introduction_to_o.Socket.{Recv}
use cs8803_introduction_to_o.Getfile.Request.{gf_ok, gf_file_not_found, gf_error, gf_invalid}
use cs8803_introduction_to_o.Getfile.Workload
use cs8803_introduction_to_o.Getfile.Workload.{Workload}
use cs8803_introduction_to_o.Getfile.Client
use cs8803_introduction_to_o.Getfile.Client.{
  Request, Network, Status, Done, get_status, get_bytesreceived, get_filelen, perform,
}

pub record Options : Type 0 where
  pub server : List ℕ
  pub port : ℕ
  pub workload_path : List ℕ
  pub nrequests : ℤ
  pub nthreads : ℤ

abbrev pub defaults : Options
defaults = record {
  server = codes "localhost";
  port = 8888;
  workload_path = codes "workload.txt";
  nrequests = pos 1;
  nthreads = pos 1;
}

abbrev is_one : ℤ → Bool
is_one (pos n) = n == 1
is_one (negsuc n) = false

-- The loop over "s:p:w:n:t:h".
read_options : List (ℕ × List ℕ) → Options → Outcome Options
read_options [] o = ok o
read_options ((c, optarg) ∷ rest) o =
    let go = λ (o' : Options). read_options rest o' in
    if c == b's'
    then go (record o { server = optarg })
    else if c == b'p'
    then go (record o { port = wrap u16_mod (atol optarg) })
    else if c == b'w'
    then go (record o { workload_path = optarg })
    else if c == b'n'
    then go (record o { nrequests = atol optarg })
    else if c == b't'
    then (if is_one (atol optarg) then go (record o { nthreads = atol optarg }) else exited 0)
    else if c == b'h'
    then exited 0
    else exited 1

abbrev zeros : ℕ → List ℕ
zeros zero = []
zeros (suc n) = b'0' ∷ zeros n

-- `localPath`: the path without its first byte, and the counter in at least six digits. The byte behind
-- an empty path is not the program's.
unfoldable pub local_path : (counter : ℕ) → List ℕ → Outcome (List ℕ)
local_path counter [] = fault
local_path counter (c ∷ path) =
    ok (path ++ b'-' ∷ (zeros (6 - length (decimal counter)) ++ decimal counter))

-- The answer of `mkdir`.
pub data Made : Type 0 where
  created exists refused : Made

-- The directories that `openFile` asks for: every prefix in front of a '/', but for the one at the
-- start; `seen` is the prefix that was passed.
prefixes : (seen : List ℕ) → List ℕ → List (List ℕ)
prefixes seen [] = []
prefixes [] (c ∷ path) = prefixes (c ∷ []) path
prefixes (s ∷ seen) (c ∷ path) =
    let rest = prefixes ((s ∷ seen) ++ c ∷ []) path in if c == b'/' then (s ∷ seen) ∷ rest else rest

make_all : (mkdir : List ℕ → Made) → List (List ℕ) → Outcome (Unit {0})
make_all mkdir [] = ok tt
make_all mkdir (d ∷ ds) =
    let rest = make_all mkdir ds in
    elim (mkdir d) [ created ↦ rest | exists ↦ rest | refused ↦ exited 1 ]

-- `openFile`, with the answers of `mkdir` and `fopen`.
unfoldable pub open_file : (mkdir : List ℕ → Made) → (fopen_ok : Bool) → List ℕ → Outcome (Unit {0})
unfolding make_all prefixes
open_file mkdir fopen_ok path = do
  made ← make_all mkdir (prefixes [] path)
  if fopen_ok then ok tt else exited 1

-- What the environment gives to one request. The new request's memory holds anything.
pub record Attempt : Type 0 where
  pub mkdir : List ℕ → Made
  pub fopen_ok : Bool
  pub memory : Request
  pub network : Network
  pub receives : List Recv
  pub buffer : List ℕ
  pub junk : List ℕ

-- The request as the loop sets it up; the path is at most 256 bytes long.
pub prepare : Options → (memory : Request) → (path : List ℕ) → Request
unfolding Client.create Client.set_server Client.set_path Client.set_port Client.set_writefunc
    Client.set_writearg
prepare o memory path = Client.set_writearg (
    Client.set_writefunc (
      Client.set_port (Client.set_path (Client.set_server (Client.create memory) o.server) path)
        o.port))

-- What one request reports, and whether its local file was kept.
pub record Report : Type 0 where
  pub kept : Bool
  pub status : Status
  pub received : ℕ
  pub expected : ℕ

abbrev is_ok : Status → Bool
is_ok gf_ok = true
is_ok gf_file_not_found = false
is_ok gf_error = false
is_ok gf_invalid = false

-- The lines behind `gfc_perform`: the file is removed on an error, and again on a status that is not
-- OK.
pub report : Done → Outcome Report
report d = do
  let kept = not (is_neg d.result)
  status ← get_status d.request
  received ← get_bytesreceived d.request
  expected ← get_filelen d.request
  ok (record {
    kept = kept && is_ok status;
    status = status;
    received = received;
    expected = expected;
  })

-- The request of a path, from `gfc_perform` on.
pub fetch : Options → Attempt → (path : List ℕ) → Outcome Report
unfolding report prepare
fetch o a path = perform a.network a.receives a.buffer a.junk (prepare o a.memory path) >>= report

-- The round with the path that the workload gave; `i` is the counter of `localPath`.
pub with_path : Options → (i : ℕ) → Attempt → (path : List ℕ) → Outcome Report
unfolding fetch
with_path o i a path =
    if ltb 256 (length path)
    then exited 1
    else do local ← local_path i path; opened ← open_file a.mkdir a.fopen_ok local; fetch o a path

-- One round of the loop of `main`.
pub download_one : Options → (i : ℕ) → Workload → Attempt → Outcome (Report × Workload)
unfolding with_path
download_one o i w a = do (path, w') ← Workload.get_path w; r ← with_path o i a path; ok (r, w')

-- The product of two `int`s as a number of rounds.
abbrev times : ℤ → ℤ → ℕ
times (pos a) (pos b) = a * b
times (negsuc a) (negsuc b) = suc a * suc b
times (pos a) (negsuc b) = 0
times (negsuc a) (pos b) = 0

-- The loop, a round for each attempt.
download_all : Options → (i : ℕ) → Workload → List Attempt → Outcome (List Report)
unfolding download_one
download_all o i w [] = ok []
download_all o i w (a ∷ as_left) = do
  (r, w') ← download_one o i w a
  rs ← download_all o (i + 1) w' as_left
  ok (r ∷ rs)

-- `main`: the requests are as many as `nrequests * nthreads` says, or none if that is negative, and
-- one attempt is used for each.
unfoldable main :
    List (ℕ × List ℕ)
    → (workload_file : List ℕ → Option (List ℕ)) → Workload
    → List Attempt
    → Outcome (List Report)
unfolding download_all read_options
main argv workload_file w attempts = do
  o ← read_options argv defaults
  loaded ← Workload.init (workload_file o.workload_path) w
  elim loaded [
    | none ↦ exited 1
    | some w' ↦
        if ltb (length attempts) (times o.nrequests o.nthreads)
        then starved
        else download_all o 0 w' (take (times o.nrequests o.nthreads) attempts)
  ]
