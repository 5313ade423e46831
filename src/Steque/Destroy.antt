-- ===== src/Steque/Destroy.antt =====
-- `steque_destroy` of proj1/multithreadgetfile/steque.c.
use cs8803_introduction_to_o.Common.{
  ℕ, zero, suc, ◌<◌, ◌≡◌, [], ◌∷◌, arith, length, ok, u32_mod, ne→==,
}
use cs8803_introduction_to_o.Steque.{Steque, destroy}
use cs8803_introduction_to_o.Steque.Cells.{Cells, IsSteque}
use cs8803_introduction_to_o.Steque.Queue.{pop-IsSteque, is_empty-length}

-- steque_destroy on a well-formed queue whose size fits 32 bits ends within one round more than
-- there are nodes, and leaves the empty queue.
pub destroy_total :
    (fuel : ℕ) {s : Steque} (xs : Cells)
    → IsSteque s xs
    → length xs < u32_mod
    → length xs < fuel
    → (s' : Steque) × (destroy fuel s ≡ ok s') × IsSteque s' []
unfolding destroy
destroy_total zero xs is small enough = absurd (omega arith)
destroy_total (suc fuel) {s} [] is small enough = (s, rw ((is_empty-length [] is).0), is)
destroy_total (suc fuel) {s} ((p, v) ∷ xs) is small enough =
    let (s₁, run, is₁, freed) = pop-IsSteque p v xs is small in
    let (s₂, rest, is₂) = destroy_total fuel xs is₁ (omega arith) (omega arith) in
    (
      s₂,
      rw ((is_empty-length ((p, v) ∷ xs) is).0, ne→== (suc (length xs)) 0 (omega arith), run) rest,
      is₂,
    )
