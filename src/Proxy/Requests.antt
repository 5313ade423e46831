-- ===== src/Proxy/Requests.antt =====
-- How the cache takes requests, the loop of `main` and the front of `cache_worker` in
-- proj3/simplecached.c. `main` puts the address of its one variable `data` on the queue.
pub mod Latest
pub mod Main
use cs8803_introduction_to_o.Common.{
  ℕ, ◌+◌, ◌-◌, ◌≡◌, Option, none, some, List, [], ◌∷◌, ◌++◌, ◌==◌, if◌then◌else◌, ℤ,
}

-- `msgq_data`
pub record Message : Type 0 where
  pub segment_size : ℤ
  pub path : List ℕ
  pub fldes : List ℕ

-- The messages in memory by their address, `mq_data_queue` and `steq_size`, the addresses that workers
-- have taken, and the messages that `mq_receive` gave, the last one first.
pub record Daemon : Type 0 where
  pub memory : ℕ → Message
  pub queue : List ℕ
  pub steq_size : ℕ
  pub taken : List ℕ
  pub received : List Message

abbrev pub max_cache_request_len : ℕ
max_cache_request_len = 256

-- `mq_receive` into the variable at an address.
unfoldable pub receive : (data_at : ℕ) → Message → Daemon → Daemon
receive a m d = record d {
  memory = λ b. if b == a then m else d.memory b;
  received = m ∷ d.received;
}

-- Under the lock; with a full queue `main` waits.
unfoldable pub enqueue_request : (data_at : ℕ) → Daemon → Option Daemon
enqueue_request a d =
    if d.steq_size == max_cache_request_len
    then none
    else some (record d { queue = d.queue ++ a ∷ []; steq_size = d.steq_size + 1 })

-- What a worker does first; with no request it waits. `steque_pop` of an empty queue would end the
-- program.
pub data Request : Type 0 where
  waits exits : Request
  takes : (msg : ℕ) → Daemon → Request

unfoldable pub take_request : Daemon → Request
take_request d = if d.steq_size == 0 then waits else elim d.queue [
  | [] ↦ exits
  | a ∷ queue ↦
      takes a (record d { queue = queue; steq_size = d.steq_size - 1; taken = a ∷ d.taken })
]

-- `main` receives and puts on the queue in turn, and the workers take in between.
pub data Phase : Type 0 where
  receiving enqueuing : Phase

pub data Step (data_at : ℕ) : Phase × Daemon → Phase × Daemon → Type 0 where
  receives :
      (m : Message) (d : Daemon) → Step data_at (receiving, d) (enqueuing, receive data_at m d)
  enqueues :
      (d e : Daemon)
      → enqueue_request data_at d ≡ some e
      → Step data_at (enqueuing, d) (receiving, e)
  worker_takes :
      (p : Phase) (msg : ℕ) (d e : Daemon)
      → take_request d ≡ takes msg e
      → Step data_at (p, d) (p, e)

-- The daemon as `main` starts it.
abbrev pub begun : (ℕ → Message) → Daemon
begun memory = record { memory = memory; queue = []; steq_size = 0; taken = []; received = [] }

pub data Steps (data_at : ℕ) (memory : ℕ → Message) : Phase × Daemon → Type 0 where
  here : Steps data_at memory (receiving, begun memory)
  next : {s t : Phase × Daemon} → Steps data_at memory s → Step data_at s t → Steps data_at memory t
