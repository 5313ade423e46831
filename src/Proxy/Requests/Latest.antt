-- ===== src/Proxy/Requests/Latest.antt =====
-- What a worker of proj3/simplecached.c reads: the message that came last.
use cs8803_introduction_to_o.Common.{
  ℕ, ◌≤◌, ◌≡◌, refl, ap, ◌∙◌, subst, inl, inr, some, some_inj, none_not, List, [], ◌∷◌, ◌++◌, ◌==◌,
  length, length-append, arith, Bool-cases, eq→==, ==_false→ne,
}
use cs8803_introduction_to_o.Proxy.Requests.{
  Message, Daemon, max_cache_request_len, receive, enqueue_request, Request, waits, exits, takes,
  take_request, Phase, Step, receives, enqueues, worker_takes, Steps, here, next,
}

-- Every element of a list is this one.
abbrev All : ℕ → List ℕ → Type 0
All a [] = Unit {0}
All a (b ∷ bs) = (b ≡ a) × All a bs

All-append : (a : ℕ) (bs : List ℕ) → All a bs → All a (bs ++ a ∷ [])
All-append a [] all = (refl, tt)
All-append a (b ∷ bs) (e, all) = (e, All-append a bs all)

All-middle : (a b : ℕ) (bs cs : List ℕ) → All a (bs ++ b ∷ cs) → b ≡ a
All-middle a b [] cs (e, all) = e
All-middle a b (x ∷ bs) cs (e, all) = All-middle a b bs cs all

-- The variable holds the message that came last.
abbrev IsLatest : (memory : ℕ → Message) → (data_at : ℕ) → List Message → Type 0
IsLatest memory a [] = Unit {0}
IsLatest memory a (m ∷ ms) = memory a ≡ m

record Shared (data_at : ℕ) (d : Daemon) : Type 0 where
  one_address : All data_at d.queue
  one_taken : All data_at d.taken
  counted : d.steq_size ≡ length d.queue
  bounded : d.steq_size ≤ max_cache_request_len
  latest : IsLatest d.memory data_at d.received

enqueue_request-Shared :
    (a : ℕ) (d e : Daemon) → enqueue_request a d ≡ some e → Shared a d → Shared a e
unfolding enqueue_request
enqueue_request-Shared a d e p f = elim (Bool-cases (d.steq_size == max_cache_request_len)) [
  | inl full ↦ absurd (none_not (rw full at p))
  | inr room ↦ subst (Shared a) (some_inj (rw room at p)) (record {
    one_address = All-append a d.queue f.one_address;
    one_taken = f.one_taken;
    counted = omega (arith, f.counted, length-append d.queue (a ∷ []));
    bounded = omega (arith, f.bounded, ==_false→ne d.steq_size max_cache_request_len room);
    latest = f.latest;
  })
]

waits_not_takes : {a : ℕ} {d : Daemon} → waits ≡ takes a d → ⊥
waits_not_takes e = cc

exits_not_takes : {a : ℕ} {d : Daemon} → exits ≡ takes a d → ⊥
exits_not_takes e = cc

takes_daemon : {a b : ℕ} {d e : Daemon} → takes a d ≡ takes b e → d ≡ e
takes_daemon {d = d} p = ap daemon p
  where
    daemon : Request → Daemon
    daemon waits = d
    daemon exits = d
    daemon (takes x y) = y

take_request-Shared :
    (a msg : ℕ) (queue : List ℕ) (d e : Daemon)
    → d.queue ≡ queue
    → take_request d ≡ takes msg e
    → Shared a d
    → Shared a e
unfolding take_request
take_request-Shared a msg [] d e q p f = elim (Bool-cases (d.steq_size == 0)) [
  | inl none_left ↦ absurd (waits_not_takes (rw none_left at p))
  | inr some_left ↦ absurd (exits_not_takes (rw (some_left, q) at p))
]
take_request-Shared a msg (b ∷ queue) d e q p f = elim (Bool-cases (d.steq_size == 0)) [
  | inl none_left ↦ absurd (waits_not_takes (rw none_left at p))
  | inr some_left ↦
      let same : All a (b ∷ queue) = subst (All a) q f.one_address in
      subst (Shared a) (takes_daemon (rw (some_left, q) at p)) (record {
        one_address = same.1;
        one_taken = (same.0, f.one_taken);
        counted = omega (arith, f.counted, ap length q);
        bounded = omega (arith, f.bounded);
        latest = f.latest;
      })
]

Step-Shared : (a : ℕ) {s t : Phase × Daemon} → Step a s t → Shared a s.1 → Shared a t.1
unfolding receive
Step-Shared a (receives m d) f = record {
  one_address = f.one_address;
  one_taken = f.one_taken;
  counted = f.counted;
  bounded = f.bounded;
  latest = rw (eq→== a a refl) refl;
}
Step-Shared a (enqueues d e p) f = enqueue_request-Shared a d e p f
Step-Shared a (worker_takes phase msg d e p) f = take_request-Shared a msg d.queue d e refl p f

Steps-Shared : (a : ℕ) (memory : ℕ → Message) {s : Phase × Daemon} → Steps a memory s → Shared a s.1
Steps-Shared a memory here = record {
  one_address = tt;
  one_taken = tt;
  counted = refl;
  bounded = omega arith;
  latest = tt;
}
Steps-Shared a memory (next run step) = Step-Shared a step (Steps-Shared a memory run)

-- In any run of the cache's main thread and workers, a message that a worker has taken reads as the
-- message that was received last of all, whichever it was when it was put on the queue.
pub worker-reads_latest :
    (data_at : ℕ) (memory : ℕ → Message) (p : Phase) (d : Daemon) (m : Message) (ms : List Message)
    (msg : ℕ) (bs cs : List ℕ)
    → Steps data_at memory (p, d)
    → d.taken ≡ bs ++ msg ∷ cs
    → d.received ≡ m ∷ ms
    → d.memory msg ≡ m
worker-reads_latest a memory p d m ms msg bs cs run taken received =
    let f = Steps-Shared a memory run in
    ap d.memory (All-middle a msg bs cs (subst (All a) taken f.one_taken))
    ∙ subst (IsLatest d.memory a) received f.latest
