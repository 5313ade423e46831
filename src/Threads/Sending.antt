-- ===== src/Threads/Sending.antt =====
-- The loop in which a worker sends a file, once the connection is gone.
use cs8803_introduction_to_o.Common.{
  ℕ, zero, suc, ◌<◌, ◌≡◌, refl, Bool, true, false, List, [], ◌∷◌, lt→ltb, if◌then◌else◌, length,
  arith, starved, ℤ, pos, negsuc,
}
use cs8803_introduction_to_o.Socket.{Reply, failed, Conn, minus_one, pread}
use cs8803_introduction_to_o.Getfile.Handler.{not_positive}
use cs8803_introduction_to_o.Threads.{Round, below, add, pread_at, fail, send_task}

below-add : (t : ℤ) (n : ℕ) → below t n ≡ true → below (add t minus_one) n ≡ true
below-add (pos zero) n e = refl
below-add (pos (suc a)) n e = ground arith
below-add (negsuc a) n e = refl

pick_closed :
    (b : Bool) (c d : Conn)
    → c.is_open ≡ false
    → d.is_open ≡ false
    → (if b then c else d).is_open ≡ false
pick_closed true c d hc hd = hc
pick_closed false c d hc hd = hd

module _ (send_header : Reply → Conn → (status file_len : ℕ) → Conn)
    (send : Reply → Conn → List ℕ → ℤ × Conn) (abort : Conn → Conn)
    (dead_send : (r : Reply) (c : Conn) (bytes : List ℕ)
      → c.is_open ≡ false
      → send r c bytes ≡ (minus_one, c))
    (aborts : (c : Conn) → (abort c).is_open ≡ false) where
  -- No answers are enough on an aborted connection: every round moves the position back.
  send_task_closed :
      (rounds : List Round) (file : List ℕ) (t : ℤ) (c : Conn)
      → below t (length file) ≡ true
      → c.is_open ≡ false
      → send_task send_header send abort rounds file t c ≡ starved
  unfolding send_task
  send_task_closed [] file t c more closed = rw more refl
  send_task_closed (r ∷ rounds) file t c more closed =
      let c₁ =
        if not_positive (pread_at r.read file t).0
        then fail send_header send abort r.refusal c
        else c in
      let closed₁ : c₁.is_open ≡ false = pick_closed _ _ c (aborts _) closed in
      rw (more, dead_send r.write c₁ (pread_at r.read file t).1 closed₁)
        (send_task_closed rounds file (add t minus_one) _ (below-add t (length file) more)
          (pick_closed _ _ c₁ (aborts _) closed₁))

  -- When gfs_send on an aborted connection returns -1 and leaves it, and gfs_abort closes: a worker
  -- whose read fails before the end of the file never leaves its loop, however many answers it gets.
  pub send_task_stuck :
      (r : Round) (rounds : List Round) (file : List ℕ) (k : ℕ) (c : Conn)
      → k < length file
      → r.read ≡ failed
      → send_task send_header send abort (r ∷ rounds) file (pos k) c ≡ starved
  unfolding send_task pread
  send_task_stuck r rounds file k c more lost =
      let c₁ = fail send_header send abort r.refusal c in
      rw (lost, lt→ltb k (length file) more, dead_send r.write c₁ [] (aborts _))
        (send_task_closed rounds file (add (pos k) minus_one) c₁
          (below-add (pos k) (length file) (lt→ltb k (length file) more)) (aborts _))
