-- ===== src/Threads/Order.antt =====
-- The order of the tasks on the queue of the multithreaded server.
use cs8803_introduction_to_o.Common.{
  set_at, ℕ, suc, ◌<◌, ◌≤◌, ◌≡◌, ◌≢◌, refl, sym, ap, ◌∙◌, Bool-cases, inl, inr, Option, none, List,
  [], ◌∷◌, ◌++◌, arith, length, length-append, Outcome, ok, exited, ok_injective, ℤ, u32_mod, ◌==◌,
  true, false, subst,
}
use mathlib.Core.List.{append_assoc}
use cs8803_introduction_to_o.Steque.{Steque, null, init, is_empty}
use cs8803_introduction_to_o.Steque.Cells.{Cells, items, IsSteque}
use cs8803_introduction_to_o.Steque.Queue.{
  init-IsSteque, enqueue-IsSteque, pop-IsSteque, pop-nil, is_empty-length,
}
use cs8803_introduction_to_o.Socket.{Reply, Conn}
use cs8803_introduction_to_o.Threads.{
  Task, Pool, start, accept_task, take_task, Step, accepts, takes, finishes, Steps, here, next,
  working,
}

-- The queue is well formed, and what was accepted is what was taken and then what waits.
pub record IsFair (s : Pool) : Type 0 where
  pub cells : Cells
  pub queued : IsSteque s.queue cells
  pub in_order : s.accepted ≡ s.taken ++ items cells
  pub few : length s.accepted < u32_mod

length-items : (xs : Cells) → length (items xs) ≡ length xs
length-items [] = refl
length-items ((p, v) ∷ xs) = ap suc (length-items xs)

items-append : (xs : Cells) (p v : ℕ) → items (xs ++ (p, v) ∷ []) ≡ items xs ++ v ∷ []
items-append [] p v = refl
items-append ((q, w) ∷ xs) p v = ap (λ u. w ∷ u) (items-append xs p v)

queue_small : {s : Pool} (f : IsFair s) → length f.cells ≤ length s.accepted
queue_small {s} f =
    omega (arith, ap length f.in_order, length-append s.taken (items f.cells), length-items f.cells)

pub start-IsFair :
    (nthreads : ℕ) (q : Steque) (tasks : ℕ → Option Task) → IsFair (start nthreads (init q) tasks)
start-IsFair nthreads q tasks = record {
  cells = [];
  queued = init-IsSteque q;
  in_order = refl;
  few = omega arith;
}

accept_task-IsFair :
    (a p : ℕ) (k : Task) {s s' : Pool}
    → p ≢ null
    → s.queue.nodes p ≡ none
    → suc (length s.accepted) < u32_mod
    → accept_task a p s k ≡ ok s'
    → IsFair s
    → IsFair s'
unfolding accept_task
accept_task-IsFair a p k {s} {s'} np unused small out f = elim (Bool-cases (a == null)) [
  | inl e ↦ absurd (exited≢ok (rw e at out))
  | inr e ↦
      let (q, run, queued) =
        enqueue-IsSteque p a np unused f.cells f.queued (omega (arith, queue_small f)) in
      subst IsFair (ok_injective (rw (e, run) at out)) (record {
        cells = f.cells ++ (p, a) ∷ [];
        queued = queued;
        in_order =
            ap (λ u. u ++ a ∷ []) f.in_order
            ∙ append_assoc s.taken (items f.cells) (a ∷ [])
            ∙ ap (λ u. s.taken ++ u) (sym (items-append f.cells p a));
        few = omega (arith, length-append s.accepted (a ∷ []));
      })
]
  where
    exited≢ok : exited 134 ≡ ok s' → ⊥
    exited≢ok e = cc

take_task-IsFair : (i : ℕ) {s s' : Pool} → take_task i s ≡ ok s' → IsFair s → IsFair s'
unfolding take_task
take_task-IsFair i {s} {s'} out f = go f.cells f.queued f.in_order (queue_small f)
  where
    exited≢ok : exited 1 ≡ ok s' → ⊥
    exited≢ok e = cc

    go :
        (cells : Cells)
        → IsSteque s.queue cells
        → s.accepted ≡ s.taken ++ items cells
        → length cells ≤ length s.accepted
        → IsFair s'
    go [] queued in_order bound = absurd (exited≢ok (rw (pop-nil queued) at out))
    go ((p, v) ∷ xs) queued in_order bound =
        let (q, run, rest, freed) = pop-IsSteque p v xs queued (omega (arith, f.few)) in
        subst IsFair (ok_injective (rw run at out)) (record {
          cells = xs;
          queued = rest;
          in_order = in_order ∙ sym (append_assoc s.taken (v ∷ []) (items xs));
          few = f.few;
        })

module _ (send_header : Reply → Conn → (status file_len : ℕ) → Conn)
    (send : Reply → Conn → List ℕ → ℤ × Conn) (abort : Conn → Conn)
    (content_get : Option (List ℕ) → Outcome ℤ) (file_of : ℕ → List ℕ) where
  pub Step-IsFair :
      {s t : Pool} → Step send_header send abort content_get file_of s t → IsFair s → IsFair t
  Step-IsFair (accepts a p k np unused small new alone out) f =
      accept_task-IsFair a p k np unused small out f
  Step-IsFair (takes i idle some_task out) f = take_task-IsFair i out f
  Step-IsFair (finishes i job k header rounds busy at run) f = record {
    cells = f.cells;
    queued = f.queued;
    in_order = f.in_order;
    few = f.few;
  }

  -- Every step keeps it, so every run does.
  pub Steps-IsFair :
      {s t : Pool} → IsFair s → Steps send_header send abort content_get file_of s t → IsFair t
  Steps-IsFair f here = f
  Steps-IsFair f (next steps step) = Step-IsFair step (Steps-IsFair f steps)

  -- After any run of the multithreaded server that begins with an empty queue and any number of
  -- workers, whatever the server library, the table and the files: the queue is well formed, and the
  -- tasks that were accepted are, in their order, those that were taken and then those that wait on
  -- the queue.
  pub Steps-start-IsFair :
      (nthreads : ℕ) (q : Steque) (tasks : ℕ → Option Task) {t : Pool}
      → Steps send_header send abort content_get file_of (start nthreads (init q) tasks) t
      → IsFair t
  Steps-start-IsFair nthreads q tasks steps = Steps-IsFair (start-IsFair nthreads q tasks) steps

-- When the queue is not empty, in a state that keeps the order of the tasks, a worker's step under
-- the lock succeeds: it gets the oldest task that waits, and that one is recorded as taken.
take_task-first :
    (i : ℕ) {s : Pool}
    → IsFair s
    → is_empty s.queue ≡ false
    → (job : ℕ) × (waits : List ℕ) × (s' : Pool) × (take_task i s ≡ ok s')
      × (s'.workers i ≡ working job)
      × (s'.taken ≡ s.taken ++ job ∷ [])
      × (s.accepted ≡ s.taken ++ job ∷ waits)
unfolding take_task
take_task-first i {s} f some_task = go f.cells f.queued f.in_order (queue_small f)
  where
    go :
        (cells : Cells)
        → IsSteque s.queue cells
        → s.accepted ≡ s.taken ++ items cells
        → length cells ≤ length s.accepted
        → (job : ℕ) × (waits : List ℕ) × (s' : Pool) × (take_task i s ≡ ok s')
          × (s'.workers i ≡ working job)
          × (s'.taken ≡ s.taken ++ job ∷ [])
          × (s.accepted ≡ s.taken ++ job ∷ waits)
    go [] queued in_order bound =
        absurd (true≢false (sym (is_empty-length [] queued).0 ∙ some_task))
      where
        true≢false : true ≡ false → ⊥
        true≢false e = cc
    go ((p, v) ∷ xs) queued in_order bound =
        let (q, run, rest, freed) = pop-IsSteque p v xs queued (omega (arith, f.few)) in
        (
          v,
          items xs,
          record s {
            queue = q;
            workers = set_at s.workers i (working v);
            taken = s.taken ++ v ∷ [];
          },
          rw run refl,
          ground arith,
          refl,
          in_order,
        )
