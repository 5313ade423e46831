-- ===== src/Examples/Workers.antt =====
-- The workers of the multithreaded server, with the library of proj1/getfile/gfserver.c.
use cs8803_introduction_to_o.Common.{
  set_at, ℕ, ◌≡◌, refl, Bool, true, false, Option, none, some, List, [], ◌∷◌, arith, Outcome, ok,
  starved, ℤ, pos, if◌then◌else◌, ◌==◌,
}
use cs8803_introduction_to_o.CString.{codes}
use cs8803_introduction_to_o.Socket.{Reply, failed, moved, Conn, minus_one, write}
use cs8803_introduction_to_o.Getfile.Response.{send, abort}
use cs8803_introduction_to_o.Getfile.Client.{connected}
use cs8803_introduction_to_o.Steque.{Steque, init}
use cs8803_introduction_to_o.Threads.{Task, Pool, start, send_task, next}
use cs8803_introduction_to_o.Threads.Main.{Started, main}
use cs8803_introduction_to_o.Threads.Sending.{send_task_stuck}

-- A header that only aborts.
abbrev header : Reply → Conn → (status file_len : ℕ) → Conn
header r c status file_len = abort c

abbrev missing : Option (List ℕ) → Outcome ℤ
missing key = ok minus_one

abbrev no_file : ℕ → List ℕ
no_file fildes = []

abbrev task : Task
task = record { ctx = 4; path = some (codes "/a") }

abbrev memory : Steque
memory = record { nodes = λ a. none; front = 0; back = 0; size = 0 }

abbrev no_tasks : ℕ → Option Task
no_tasks a = none

abbrev begun : Pool
begun = start 1 (init memory) no_tasks

abbrev all_ended : Pool
all_ended = start 0 (init memory) no_tasks

-- The pool with one task on the queue.
abbrev loaded : Pool → Pool
loaded s = record s {
  queue = record {
    nodes = λ a. if a == 3 then some (record { item = 9; next = 0 }) else none;
    front = 3;
    back = 3;
    size = 1;
  };
  tasks = set_at s.tasks 9 (some task);
  accepted = 9 ∷ [];
}

abbrev yes_always : ℕ → Bool
yes_always k = true

abbrev empty_list : List ℕ → Option (List ℕ)
empty_list name = some []

abbrev main_begun : Outcome Started
main_begun =
    main yes_always yes_always empty_list (λ name. none) (λ items. items) memory no_tasks []

dead_send :
    (r : Reply) (c : Conn) (bytes : List ℕ) → c.is_open ≡ false → send r c bytes ≡ (minus_one, c)
unfolding send write
dead_send failed c bytes closed = refl
dead_send (moved k) c bytes closed = rw closed refl

aborts : (c : Conn) → (abort c).is_open ≡ false
unfolding abort cs8803_introduction_to_o.Socket.close
aborts c = refl

send_task_stuck_example :
    send_task header send abort
      (record { read = failed; write = moved 4096; refusal = moved 4096 } ∷ [])
      (codes "hi")
      (pos 0)
      connected
    ≡ starved
send_task_stuck_example =
    send_task_stuck header send abort dead_send aborts
      (record { read = failed; write = moved 4096; refusal = moved 4096 }) [] (codes "hi") 0
      connected (omega arith) refl
