-- ===== src/Getfile/Download/Never.antt =====
-- What a round of the download program reads after `gfc_perform`.
use cs8803_introduction_to_o.Common.{
  ℕ, ◌≡◌, ◌≢◌, refl, ◌>>=◌, List, ltb, length, Outcome, ok, fault, exited, starved, inl, inr,
  Bool-cases,
}
use cs8803_introduction_to_o.Getfile.Client.{Done, get_status, perform}
use cs8803_introduction_to_o.Getfile.Client.Lifetime.{get_status-perform}
use cs8803_introduction_to_o.Getfile.Workload
use cs8803_introduction_to_o.Getfile.Workload.{Workload}
use cs8803_introduction_to_o.Getfile.Download.{
  Options, Attempt, Report, prepare, report, local_path, open_file, fetch, with_path, download_one,
}

-- The run does not come to its end.
abbrev pub NeverOk : {A : Type 0} → Outcome A → Type 0
NeverOk {A} r = (a : A) → r ≢ ok a

NeverOk->>= :
    {A B : Type 0} (m : Outcome A) (f : A → Outcome B)
    → ((a : A) → m ≡ ok a → NeverOk (f a))
    → NeverOk (m >>= f)
NeverOk->>= (ok a) f h b e = h a refl b e
NeverOk->>= fault f h b e = cc
NeverOk->>= (exited n) f h b e = cc
NeverOk->>= starved f h b e = cc

report-NeverOk : (d : Done) → get_status d.request ≡ fault → NeverOk (report d)
unfolding report
report-NeverOk d bad r e = fault≢ok (rw bad at e)
  where
    fault≢ok : fault ≡ ok r → ⊥
    fault≢ok eq = cc

fetch-NeverOk : (o : Options) (a : Attempt) (path : List ℕ) → NeverOk (fetch o a path)
unfolding fetch prepare
fetch-NeverOk o a path =
    NeverOk->>= (perform a.network a.receives a.buffer a.junk (prepare o a.memory path)) report
      λ d returned. report-NeverOk d (
        get_status-perform a.network a.receives a.buffer a.junk (prepare o a.memory path) refl
          returned)

with_path-NeverOk :
    (o : Options) (i : ℕ) (a : Attempt) (path : List ℕ) → NeverOk (with_path o i a path)
unfolding with_path
with_path-NeverOk o i a path = elim (Bool-cases (ltb 256 (length path))) [
  | inl long ↦ rw long (λ r e. exited≢ok r e)
  | inr short ↦ rw short (
      NeverOk->>= (local_path i path)
        (λ local. open_file a.mkdir a.fopen_ok local >>= λ opened. fetch o a path)
        λ local e.
          NeverOk->>= (open_file a.mkdir a.fopen_ok local) (λ opened. fetch o a path)
            λ opened e₂. fetch-NeverOk o a path)
]
  where
    exited≢ok : (r : Report) → exited 1 ≡ ok r → ⊥
    exited≢ok r eq = cc

-- Whatever the options, the counter, the workload and the environment's answers, no round of the
-- download program's loop comes to its end: each exits or reads memory that is not there.
pub download_one-NeverOk :
    (o : Options) (i : ℕ) (w : Workload) (a : Attempt) → NeverOk (download_one o i w a)
unfolding download_one
download_one-NeverOk o i w a =
    NeverOk->>= (Workload.get_path w) (λ pw. with_path o i a pw.0 >>= λ r. ok (r, pw.1))
      λ pw got.
        NeverOk->>= (with_path o i a pw.0) (λ r. ok (r, pw.1))
          λ r e. absurd (with_path-NeverOk o i a pw.0 r e)
