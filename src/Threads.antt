-- ===== src/Threads.antt =====
-- The multithreaded server, proj1/multithreadgetfile/handler.c and the start of its workers in
-- gfserver_main.c: the handler puts a task on the queue, and each worker takes one at a time. The lock
-- makes each of the two a single step. The server library of these programs is only there as an object
-- file: its functions are parameters.
pub mod Order
pub mod Ended
pub mod Sending
pub mod Answering
pub mod Sound
pub mod Shapes
pub mod Connections
pub mod Delivery
pub mod Main
use cs8803_introduction_to_o.Common.{
  set_at, ℕ, zero, suc, ◌+◌, ◌-◌, ◌<◌, ◌≡◌, ◌≢◌, Bool, true, false, not, Option, none, some, List,
  [], ◌∷◌, ◌++◌, ◌==◌, ltb, if◌then◌else◌, length, Outcome, ok, fault, exited, starved, ◌>>=◌, ℤ,
  pos, negsuc, u32_mod,
}
use cs8803_introduction_to_o.Socket.{Reply, Conn, buffer_size, minus_one, pread}
use cs8803_introduction_to_o.Getfile.Response.{gf_ok, gf_file_not_found, gf_error}
use cs8803_introduction_to_o.Getfile.Handler.{int_eq, not_positive}
use cs8803_introduction_to_o.Steque.{Steque, null, enqueue, pop, is_empty}

-- `struct task`; a context is the number of its connection.
pub record Task : Type 0 where
  pub ctx : ℕ
  pub path : Option (List ℕ)

-- A worker waits for a task, works on the one at an address, or has returned.
pub data Worker : Type 0 where
  waiting ended : Worker
  working : ℕ → Worker

-- `workq`, the tasks in memory and the workers by their number. `accepted`, `taken`
-- and `finished` record the addresses of the tasks in the order in which they were put on the queue,
-- taken from it and done with. `conns` has the connection of each context.
pub record Pool : Type 0 where
  pub queue : Steque
  pub tasks : ℕ → Option Task
  pub workers : ℕ → Worker
  pub accepted : List ℕ
  pub taken : List ℕ
  pub conns : ℕ → Conn
  pub finished : List ℕ

-- A connection that was accepted.
abbrev pub fresh : Conn
fresh = record { sent = []; is_open = true }

-- The workers that `main` starts, on a queue that `steque_init` made.
abbrev pub start : (nthreads : ℕ) → Steque → (ℕ → Option Task) → Pool
start nthreads q tasks = record {
  queue = q;
  tasks = tasks;
  workers = λ i. if ltb i nthreads then waiting else ended;
  accepted = [];
  taken = [];
  conns = λ ctx. fresh;
  finished = [];
}

-- `handler_get`, with the addresses of the new task and of the queue's new node. A null task fails
-- the assertion, which ends the program by SIGABRT.
unfoldable pub accept_task : (task new_node : ℕ) → Pool → Task → Outcome Pool
accept_task a p s k = if a == null then exited 134 else do
  q ← enqueue p s.queue a
  ok (record s { queue = q; tasks = set_at s.tasks a (some k); accepted = s.accepted ++ a ∷ [] })

-- What worker `i` does under the lock, once the queue is not empty.
unfoldable pub take_task : (i : ℕ) → Pool → Outcome Pool
take_task i s = do
  (job, q) ← pop s.queue
  ok (record s {
    queue = q;
    workers = set_at s.workers i (working job);
    taken = s.taken ++ job ∷ [];
  })

-- The answers to the calls of one round of the loop that sends a file.
pub record Round : Type 0 where
  pub read : Reply
  pub write : Reply
  pub refusal : Reply

-- `bytes_transferred < file_len`
abbrev pub below : ℤ → ℕ → Bool
below (pos a) n = ltb a n
below (negsuc a) n = true

abbrev pub add : ℤ → ℤ → ℤ
add (pos a) (pos b) = pos (a + b)
add (pos a) (negsuc b) = if ltb b a then pos (a - suc b) else negsuc (b - a)
add (negsuc a) (pos b) = if ltb a b then pos (b - suc a) else negsuc (a - b)
add (negsuc a) (negsuc b) = negsuc (suc (a + b))

-- `pread` at an offset that may be negative, which it refuses.
abbrev pub pread_at : Reply → List ℕ → ℤ → ℤ × List ℕ
pread_at r file (pos t) = pread r file buffer_size t
pread_at r file (negsuc t) = (minus_one, [])

module _ (send_header : Reply → Conn → (status file_len : ℕ) → Conn)
    (send : Reply → Conn → List ℕ → ℤ × Conn) (abort : Conn → Conn) where
  -- `gfs_sendheader(ctx, GF_ERROR, 0); gfs_abort(ctx);`: the loop goes on behind it.
  abbrev pub fail : Reply → Conn → Conn
  fail r c = abort (send_header r c gf_error 0)

  -- The loop that sends a file. After a failing read the connection was aborted, so that the length
  -- -1 of the `gfs_send` that follows is not used.
  unfoldable pub send_task : List Round → (file : List ℕ) → (transferred : ℤ) → Conn → Outcome Conn
  send_task [] file t c = if below t (length file) then starved else ok c
  send_task (r ∷ rounds) file t c =
      let (read_len, bytes) = pread_at r.read file t in
      let c₁ = if not_positive read_len then fail r.refusal c else c in
      let (write_len, c₂) = send r.write c₁ bytes in
      let c₃ = if not (int_eq write_len read_len) then fail r.refusal c₂ else c₂ in
      let rest = send_task rounds file (add t write_len) c₃ in
      if below t (length file) then rest else ok c

  module _ (content_get : Option (List ℕ) → Outcome ℤ) (file_of : ℕ → List ℕ) where
    -- A key that is not there makes the worker return.
    unfoldable pub send_found : Reply → List Round → Conn → ℤ → Outcome (Worker × Conn)
    unfolding send_task
    send_found header rounds c (negsuc n) = ok (ended, send_header header c gf_file_not_found 0)
    send_found header rounds c (pos fildes) = do
      let c₁ = send_header header c gf_ok (length (file_of fildes))
      c₂ ← send_task rounds (file_of fildes) (pos 0) c₁
      ok (waiting, c₂)

    -- What a worker does with a task outside the lock, and what becomes of it.
    unfoldable pub work : Reply → List Round → Conn → Task → Outcome (Worker × Conn)
    unfolding send_found
    work header rounds c k = do fildes ← content_get k.path; send_found header rounds c fildes

    -- One step of the program. The allocator hands out memory that is not in use, and the library a
    -- context that no other task has; the queue counts its items in 32 bits.
    pub data Step (s : Pool) : Pool → Type 0 where
      accepts :
          (a p : ℕ) (k : Task) {s' : Pool}
          → p ≢ null
          → s.queue.nodes p ≡ none
          → suc (length s.accepted) < u32_mod
          → s.tasks a ≡ none
          → ((b : ℕ) (j : Task) → s.tasks b ≡ some j → j.ctx ≢ k.ctx)
          → accept_task a p s k ≡ ok s'
          → Step s s'
      takes :
          (i : ℕ) {s' : Pool}
          → s.workers i ≡ waiting
          → is_empty s.queue ≡ false
          → take_task i s ≡ ok s'
          → Step s s'
      finishes :
          (i job : ℕ) (k : Task) (header : Reply) (rounds : List Round) {w : Worker} {c : Conn}
          → s.workers i ≡ working job
          → s.tasks job ≡ some k
          → work header rounds (s.conns k.ctx) k ≡ ok (w, c)
          → Step s (record s {
            workers = set_at s.workers i w;
            conns = set_at s.conns k.ctx c;
            finished = job ∷ s.finished;
          })

    pub data Steps (s : Pool) : Pool → Type 0 where
      here : Steps s s
      next : {t u : Pool} → Steps s t → Step t u → Steps s u
