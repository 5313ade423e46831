-- ===== src/Proxy/Segments.antt =====
-- The shared memory segments of the proxy, `init_proxy`, the front of `handle_with_cache` and
-- `destroy_shm_seg` of proj3/handle_with_cache.c: a queue of free segments, from which each handler
-- takes one. A segment is written by its number; the lock makes each operation a single step.
pub mod Owning
use cs8803_introduction_to_o.Common.{
  ℕ, zero, suc, ◌+◌, ◌-◌, ◌≡◌, Option, none, some, List, [], ◌∷◌, ◌++◌, ◌==◌, if◌then◌else◌, length,
}
use cs8803_introduction_to_o.CString.{decimal}

-- "/sharedmpath", and the number behind it.
abbrev pub segment_id : ℕ → List ℕ
segment_id i =
    (47 ∷ 115 ∷ 104 ∷ 97 ∷ 114 ∷ 101 ∷ 100 ∷ 109 ∷ 112 ∷ 97 ∷ 116 ∷ 104 ∷ []) ++ decimal i

-- `fldes_queue`, `fldes_queue_size` and `max_fldes_queue_size`.
pub record Pool : Type 0 where
  pub queue : List ℕ
  pub size : ℕ
  pub max_size : ℕ

-- The loop of `init_proxy` from a number on, for as many rounds.
abbrev pub queue_from : (i rounds : ℕ) → List ℕ → List ℕ
queue_from i zero queue = queue
queue_from i (suc rounds) queue = queue_from (i + 1) rounds (queue ++ i ∷ [])

unfoldable pub init_proxy : (segments : ℕ) → Pool
init_proxy segments =
    let queue = queue_from 0 segments [] in
    record { queue = queue; size = length queue; max_size = length queue }

-- What a handler does first; with no segment left it waits. `steque_pop` of an empty queue would end
-- the program.
pub data Acquired : Type 0 where
  waits exits : Acquired
  takes : (fldes : ℕ) → Pool → Acquired

unfoldable pub acquire : Pool → Acquired
acquire p = if p.size == 0 then waits else elim p.queue [
  | [] ↦ exits
  | i ∷ queue ↦ takes i (record p { queue = queue; size = p.size - 1 })
]

-- What `destroy_shm_seg` does last; while the queue is full it waits.
pub release : (fldes : ℕ) → Pool → Option Pool
release i p =
    if p.size == p.max_size
    then none
    else some (record p { queue = p.queue ++ i ∷ []; size = p.size + 1 })

-- The proxy's handlers: the segments that they hold, and those of the handlers that returned behind a
-- short send without giving theirs back.
pub record Handlers : Type 0 where
  pub pool : Pool
  pub held : List ℕ
  pub lost : List ℕ

pub data Step (s : Handlers) : Handlers → Type 0 where
  acquires :
      (i : ℕ) (p : Pool)
      → acquire s.pool ≡ takes i p
      → Step s (record s { pool = p; held = i ∷ s.held })
  releases :
      (i : ℕ) (xs ys : List ℕ) (p : Pool)
      → s.held ≡ xs ++ i ∷ ys
      → release i s.pool ≡ some p
      → Step s (record s { pool = p; held = xs ++ ys })
  loses :
      (i : ℕ) (xs ys : List ℕ)
      → s.held ≡ xs ++ i ∷ ys
      → Step s (record s { held = xs ++ ys; lost = i ∷ s.lost })

pub data Steps (segments : ℕ) : Handlers → Type 0 where
  here : Steps segments (record { pool = init_proxy segments; held = []; lost = [] })
  next : {s t : Handlers} → Steps segments s → Step s t → Steps segments t
