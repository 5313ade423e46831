-- ===== src/Threads/Answering.antt =====
-- The loop in which a worker sends a file, with a library that sends what it is given.
use Prim.Native.Nat.{min}
use cs8803_introduction_to_o.Common.{
  ℕ, ◌+◌, ◌≤◌, ◌<◌, ◌≡◌, refl, sym, ap, ◌∙◌, inl, inr, true, List, [], ◌∷◌, ◌++◌, arith, ltb,
  Bool-cases, ltb→lt, ltb_false→le, le→ltb, ne→==, eq→==, length, drop, length-take, length-drop,
  drop-drop, drop_all, take-append-drop-length, ok, ℤ, pos,
}
use mathlib.Core.List.{append_assoc, append-nil}
use cs8803_introduction_to_o.Socket.{Reply, moved, Conn, buffer_size}
use cs8803_introduction_to_o.Getfile.Handler.Success.{chunk, pread_moved}
use cs8803_introduction_to_o.Threads.{Round, send_task}

-- Every read moves at least a byte.
abbrev Reads : List Round → Type 0
Reads [] = Unit {0}
Reads (r ∷ rounds) = ((k : ℕ) × (r.read ≡ moved k) × (0 < k)) × Reads rounds

module _ (send_header : Reply → Conn → (status file_len : ℕ) → Conn)
    (send : Reply → Conn → List ℕ → ℤ × Conn) (abort : Conn → Conn)
    (sends_all : (r : Reply) (c : Conn) (bytes : List ℕ)
      → c.is_open ≡ true
      → send r c bytes ≡ (pos (length bytes), record c { sent = c.sent ++ bytes })) where
  -- With a gfs_send that sends the whole block it is given on an open connection, and reads that
  -- move something for as many rounds as the file has bytes left: a worker's loop ends, and the
  -- connection was sent the file from the position on, once and in order.
  pub send_task_total :
      (rounds : List Round) (file : List ℕ) (t : ℕ) (c : Conn)
      → c.is_open ≡ true
      → t ≤ length file
      → length file ≤ t + length rounds
      → Reads rounds
      → send_task send_header send abort rounds file (pos t) c
        ≡ ok (record c { sent = c.sent ++ drop t file })
  unfolding send_task
  send_task_total [] file t c opened inside enough reads =
      rw (le→ltb t (length file) (omega arith), drop_all t file (omega arith), append-nil c.sent)
        refl
  send_task_total (r ∷ rounds) file t c opened inside enough (rd, reads) =
      elim (Bool-cases (ltb t (length file))) [
        | inr done ↦
            rw (done, drop_all t file (ltb_false→le t (length file) done), append-nil c.sent) refl
        | inl more ↦
            let ch = chunk rd.0 file t in
            let size : (0 < length ch) × (t + length ch ≤ length file) = omega (
              arith,
              length-take (min rd.0 buffer_size) (drop t file),
              length-drop t file,
              ltb→lt t (length file) more,
            ) in
            rw
              (
                more,
                rd.1,
                pread_moved rd.0 file t,
                ne→== (length ch) 0 (omega arith),
                sends_all r.write c ch opened,
                eq→== (length ch) (length ch) refl,
              )
              (send_task_total rounds file (t + length ch) (record c { sent = c.sent ++ ch }) opened
                  size.1 (omega arith) reads
                ∙ ap (λ u. ok (record c { sent = u }))
                    (append_assoc c.sent ch (drop (t + length ch) file)
                      ∙ ap (λ u. c.sent ++ u)
                          (ap (λ u. ch ++ u) (sym (drop-drop t (length ch) file))
                            ∙ take-append-drop-length (min rd.0 buffer_size) (drop t file))))
      ]
