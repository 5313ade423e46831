-- ===== src/Examples/Clients.antt =====
-- A run of the multithreaded server with one worker and two clients, for a library that sends the
-- length as the header and every block whole.
use cs8803_introduction_to_o.Common.{
  ℕ, ◌≡◌, refl, true, false, set_at, Option, none, some, List, [], ◌∷◌, ◌++◌, length, Outcome, ok,
  fault, exited, starved, ℤ, pos, if◌then◌else◌,
}
use cs8803_introduction_to_o.CString.{codes}
use cs8803_introduction_to_o.Socket.{Reply, moved, Conn, minus_one}
use cs8803_introduction_to_o.Steque.{Steque, init, enqueue, new_node, load, free, pop}
use cs8803_introduction_to_o.Threads.{
  Task, Round, Pool, waiting, fresh, start, accept_task, take_task,
}

abbrev header : Reply → Conn → (status file_len : ℕ) → Conn
header r c status n = record c { sent = c.sent ++ n ∷ [] }

abbrev send : Reply → Conn → List ℕ → ℤ × Conn
send r c bytes =
    if c.is_open then (pos (length bytes), record c { sent = c.sent ++ bytes }) else (minus_one, c)

abbrev abort : Conn → Conn
abort c = record c { is_open = false }

abbrev announcement : ℕ → List ℕ
announcement n = n ∷ []

abbrev table : Option (List ℕ) → Outcome ℤ
table key = ok (pos 5)

abbrev file_of : ℕ → List ℕ
file_of fildes = 7 ∷ []

abbrev task₁ : Task
task₁ = record { ctx = 4; path = some (codes "/a") }

abbrev task₂ : Task
task₂ = record { ctx = 6; path = some (codes "/b") }

abbrev memory : Steque
memory = record { nodes = λ a. none; front = 0; back = 0; size = 0 }

abbrev got : Pool → Outcome Pool → Pool
got d (ok s) = s
got d fault = d
got d (exited n) = d
got d starved = d

abbrev begun : Pool
begun = start 1 (init memory) (λ a. none)

abbrev accepted_one : Pool
accepted_one = got begun (accept_task 9 3 begun task₁)

abbrev taken_one : Pool
taken_one = got begun (take_task 0 accepted_one)

abbrev finished_one : Pool
finished_one = record taken_one {
  workers = set_at taken_one.workers 0 waiting;
  conns = set_at taken_one.conns 4 (record { sent = 1 ∷ 7 ∷ []; is_open = true });
  finished = 9 ∷ [];
}

abbrev accepted_two : Pool
accepted_two = got begun (accept_task 8 4 finished_one task₂)

abbrev one_round : Round
one_round = record { read = moved 1; write = moved 1; refusal = moved 1 }

first_conn : taken_one.conns 4 ≡ fresh
unfolding take_task pop load free accept_task enqueue new_node init
first_conn = refl
