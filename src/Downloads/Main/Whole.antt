-- ===== src/Downloads/Main/Whole.antt =====
-- The multithreaded download program from its options to its end.
use cs8803_introduction_to_o.Common.{
  ℕ, zero, suc, ◌+◌, ◌*◌, ◌%◌, ◌^◌, ◌≤◌, ◌<◌, ◌≡◌, Bool, true, Option, none, some, List, [], ◌∷◌,
  length, get_elem?, ok, pos,
}
use cs8803_introduction_to_o.Getopt.{each_option}
use cs8803_introduction_to_o.Getfile.Workload.{Workload, words, array_size}
use cs8803_introduction_to_o.Getfile.Workload.Rotation.{Short}
use cs8803_introduction_to_o.Getfile.Download.{Options, defaults}
use cs8803_introduction_to_o.Downloads.Main.{download_option}

-- A path of the workload; there is always one at the numbers that are asked for.
abbrev path_at : List (List ℕ) → ℕ → List ℕ
path_at paths i = elim (get_elem? paths i) [ none ↦ [] | some path ↦ path ]

-- The requests of as many rounds, behind a value of the counter: the paths come round and round.
abbrev requests_of : (paths : List (List ℕ)) → (counter rounds : ℕ) → List (List ℕ)
requests_of paths counter zero = []
requests_of paths counter (suc rounds) =
    path_at paths ((counter + 1) % length paths) ∷ requests_of paths (counter + 1) rounds

-- What the program is given.
module _ (pthread_create : ℕ → Bool) (workload_file : List ℕ → Option (List ℕ))
    (argv : List (ℕ × List ℕ)) (o : Options) (bytes : List ℕ) (nrequests nthreads : ℕ)
    (settled : each_option download_option argv defaults ≡ ok o)
    (times : o.nrequests ≡ pos nrequests) (threads : o.nthreads ≡ pos nthreads)
    (found : workload_file o.workload_path ≡ some bytes) (short : Short (words [] bytes))
    (room : length (words [] bytes) ≤ array_size) (some_path : 0 < length (words [] bytes))
    (some_thread : 0 < nthreads) (small : nrequests * nthreads < 2 ^ 31)
    (created : (k : ℕ) → pthread_create k ≡ true) where
  abbrev requests : List (List ℕ)
  requests = requests_of (words [] bytes) 0 (nrequests * nthreads)
