-- ===== src/Pthreads.antt =====
-- The loop that creates threads up to a call that fails, which the programs of
-- proj1/multithreadgetfile share.
use cs8803_introduction_to_o.Common.{ℕ, zero, suc, ◌+◌, ◌≡◌, ◌∙◌, Bool, true, if◌then◌else◌, arith}

-- From a number on, for as many rounds: how many threads there are.
unfoldable pub no_threads : (pthread_create : ℕ → Bool) → (i rounds : ℕ) → ℕ
no_threads pthread_create i zero = i
no_threads pthread_create i (suc rounds) =
    let more = no_threads pthread_create (i + 1) rounds in if pthread_create i then more else i

pub no_threads-all :
    (pthread_create : ℕ → Bool) (i rounds : ℕ)
    → ((k : ℕ) → pthread_create k ≡ true)
    → no_threads pthread_create i rounds ≡ i + rounds
unfolding no_threads
no_threads-all pthread_create i zero all = omega arith
no_threads-all pthread_create i (suc rounds) all =
    rw (all i) (no_threads-all pthread_create (i + 1) rounds all ∙ omega arith)
