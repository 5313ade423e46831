-- ===== src/Steque.antt =====
-- The queue of proj1/multithreadgetfile/steque.c (proj4/steque.c is the same file): singly linked
-- nodes on an explicit heap, with pointers to both ends. A `steque_t` and the heap of its nodes are
-- one record, since no node is shared between two queues. `malloc` returns the address `fresh`
-- that its caller passes in; the code uses it without a check, so a null one faults.
pub mod Cells
pub mod Queue
pub mod Rotate
pub mod Destroy
use cs8803_introduction_to_o.Common.{
  ℕ, zero, suc, ◌+◌, ◌≡◌, Bool, true, false, Option, none, some, ◌==◌, if◌then◌else◌, Outcome, ok,
  fault, exited, starved, ◌>>=◌, inc32, dec32,
}

-- `steque_item` is a `void *`.
pub record Node : Type 0 where
  pub item : ℕ
  pub next : ℕ

abbrev pub node : ℕ → ℕ → Node
node v q = record { item = v; next = q }

abbrev pub null : ℕ
null = 0

-- `size` is the bit pattern of the `int` N.
pub record Steque : Type 0 where
  pub nodes : ℕ → Option Node
  pub front : ℕ
  pub back : ℕ
  pub size : ℕ

abbrev pub update : (ℕ → Option Node) → ℕ → Option Node → ℕ → Option Node
update h p c a = if a == p then c else h a

-- `*p`
unfoldable pub load : ℕ → Steque → Outcome Node
load p s = if p == null then fault else elim (s.nodes p) [ none ↦ fault | some n ↦ ok n ]

-- The first two assignments to a new node.
unfoldable pub new_node : ℕ → ℕ → ℕ → Steque → Outcome Steque
new_node p v q s =
    if p == null then fault else ok (record s { nodes = update s.nodes p (some (node v q)) })

-- `p->next = q`
pub set_next : ℕ → ℕ → Steque → Outcome Steque
unfolding load
set_next p q s = do n ← load p s; ok (record s { nodes = update s.nodes p (some (node n.item q)) })

-- `free(p)` of a node that the code has just read.
unfoldable pub free : ℕ → Steque → Outcome Steque
unfolding load
free p s = do n ← load p s; ok (record s { nodes = update s.nodes p none })

unfoldable pub init : Steque → Steque
init s = record s { front = null; back = null; size = 0 }

unfoldable pub enqueue : (fresh : ℕ) → Steque → ℕ → Outcome Steque
unfolding new_node load set_next
enqueue fresh s item = do
  s₁ ← new_node fresh item null s
  s₂ ← if s₁.back == null then ok (record s₁ { front = fresh }) else set_next s₁.back fresh s₁
  ok (record s₂ { back = fresh; size = inc32 s₂.size })

pub push : (fresh : ℕ) → Steque → ℕ → Outcome Steque
unfolding new_node
push fresh s item = do
  s₁ ← new_node fresh item s.front s
  let s₂ = if s₁.back == null then record s₁ { back = fresh } else s₁
  ok (record s₂ { front = fresh; size = inc32 s₂.size })

unfoldable pub size : Steque → ℕ
size s = s.size

unfoldable pub is_empty : Steque → Bool
is_empty s = s.size == 0

-- `exit(EXIT_FAILURE)` on an empty queue.
unfoldable pub pop : Steque → Outcome (ℕ × Steque)
unfolding load free
pop s = if s.front == null then exited 1 else do
  n ← load s.front s
  let s₁ = record s { front = n.next }
  let s₂ = if s₁.front == null then record s₁ { back = null } else s₁
  s₃ ← free s.front s₂
  ok (n.item, record s₃ { size = dec32 s₃.size })

pub cycle : Steque → Outcome Steque
cycle s = if s.back == null then ok s else do
  s₁ ← set_next s.back s.front s
  let s₂ = record s₁ { back = s₁.front }
  n ← load s₂.front s₂
  let s₃ = record s₂ { front = n.next }
  set_next s₃.back null s₃

pub front : Steque → Outcome ℕ
unfolding load
front s = if s.front == null then exited 1 else do n ← load s.front s; ok n.item

-- The loop of `steque_destroy`, on fuel.
pub destroy : ℕ → Steque → Outcome Steque
destroy zero s = starved
destroy (suc fuel) s = if is_empty s then ok s else do (item, s') ← pop s; destroy fuel s'
