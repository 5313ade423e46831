-- ===== src/Transfer/Copying/Receiving.antt =====
-- The loop that receives a file.
use cs8803_introduction_to_o.Common.{
  ℕ, ◌≤◌, ◌≡◌, sym, ap, ◌∙◌, List, [], ◌∷◌, ◌++◌, le→ltb, length, concat, take_all, ok,
}
use mathlib.Core.List.{append_assoc, append-nil}
use cs8803_introduction_to_o.Socket.{Reply, moved, Recv, broken, got}
use cs8803_introduction_to_o.Transfer.Copying.{fwrite, receive_loop, Ending, closed, lost}

-- `recv` hands over the chunks and then the end; every `fwrite` writes all.
abbrev pub Writes : List (Recv × Reply) → List (List ℕ) → Ending → Type 0
Writes [] cs e = ⊥
Writes ((broken, w) ∷ rounds) [] e = e ≡ lost
Writes ((broken, w) ∷ rounds) (c ∷ cs) e = ⊥
Writes ((got [], w) ∷ rounds) [] e = e ≡ closed
Writes ((got [], w) ∷ rounds) (c ∷ cs) e = ⊥
Writes ((got (b ∷ bs), w) ∷ rounds) [] e = ⊥
Writes ((got (b ∷ bs), w) ∷ rounds) (c ∷ cs) e =
    (c ≡ b ∷ bs) × ((k : ℕ) × (w ≡ moved k) × (length (b ∷ bs) ≤ k)) × Writes rounds cs e

-- The loop that receives a file, when recv hands over some chunks and then the end or an error, and
-- every fwrite writes all: it ends with the chunks in their order behind what was written before,
-- and tells which of the two it was.
pub receive_loop_total :
    (rounds : List (Recv × Reply)) (cs : List (List ℕ)) (e : Ending) (written : List ℕ)
    → Writes rounds cs e
    → receive_loop rounds written ≡ ok (written ++ concat cs, e)
unfolding receive_loop fwrite
receive_loop_total [] cs e written h = absurd h
receive_loop_total ((broken, w) ∷ rounds) [] e written h =
    rw h (ap (λ u. ok (u, lost)) (sym (append-nil written)))
receive_loop_total ((broken, w) ∷ rounds) (c ∷ cs) e written h = absurd h
receive_loop_total ((got [], w) ∷ rounds) [] e written h =
    rw h (ap (λ u. ok (u, closed)) (sym (append-nil written)))
receive_loop_total ((got [], w) ∷ rounds) (c ∷ cs) e written h = absurd h
receive_loop_total ((got (b ∷ bs), w) ∷ rounds) [] e written h = absurd h
receive_loop_total ((got (b ∷ bs), w) ∷ rounds) (c ∷ cs) e written (same, (k, all, room), h) =
    rw (all, le→ltb k (length (b ∷ bs)) room, take_all k (b ∷ bs) room, same)
      (receive_loop_total rounds cs e (written ++ b ∷ bs) h
        ∙ ap (λ u. ok (u, e)) (append_assoc written (b ∷ bs) (concat cs)))
