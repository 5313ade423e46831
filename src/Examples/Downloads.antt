-- ===== src/Examples/Downloads.antt =====
-- One thread that downloads one file.
use cs8803_introduction_to_o.Common.{set_at, ℕ, Option, some, Bool, true, false, List, [], ◌∷◌, pos}
use cs8803_introduction_to_o.CString.{codes}
use cs8803_introduction_to_o.Getfile.Download.{Made, created}
use cs8803_introduction_to_o.Downloads.{looping, ended, fetching, Program, start, Answer}

abbrev workload : List (List ℕ)
workload = codes "/a" ∷ []

abbrev make_directory : List ℕ → Made
make_directory path = created

abbrev good : (counter : ℕ) → (path : List ℕ) → Answer
good counter path = record { returncode = pos 0; is_ok = true }

abbrev downloaded : Program
downloaded = record {
  workq = [];
  counter = 1;
  kept = set_at (set_at (λ n. false) 0 true) 0 true;
  taken = workload;
  workers =
      set_at
        (set_at (set_at (start 1 workload).workers 0 (fetching 0 0 (codes "/a"))) 0 (looping 1)) 0
        (ended 1);
}

abbrev workload_file : List ℕ → Option (List ℕ)
workload_file name = some (codes "/a")

abbrev creates : ℕ → Bool
creates i = true
