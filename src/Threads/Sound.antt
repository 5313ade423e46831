-- ===== src/Threads/Sound.antt =====
-- What a worker of proj1/multithreadgetfile/handler.c sends to one client, whatever its calls answer.
use Prim.Native.Nat.{min}
use cs8803_introduction_to_o.Common.{
  ℕ, ◌+◌, ◌≤◌, ◌≡◌, refl, sym, ap, ◌∙◌, ◌⊎◌, inl, inr, Bool, true, false, not, List, [], ◌∷◌, ◌++◌,
  arith, ltb, subst, Bool-cases, ltb_false→le, length, drop, length-take, length-drop, drop-drop,
  drop_all, take-append-drop-length, ok, starved, ok_injective, ℤ, pos, negsuc, ◌==◌, ==→eq,
  if◌then◌else◌,
}
use mathlib.Core.List.{append_assoc, append-nil}
use cs8803_introduction_to_o.Socket.{Reply, failed, moved, Conn, buffer_size, pread, minus_one}
use cs8803_introduction_to_o.Getfile.Response.{gf_ok}
use cs8803_introduction_to_o.Getfile.Handler.{int_eq, not_positive}
use cs8803_introduction_to_o.Getfile.Handler.Success.{chunk}
use cs8803_introduction_to_o.Threads.{Round, below, add, pread_at, fail, send_task}

-- What is used of the server library: a connection that `gfs_sendheader` leaves open was sent the header;
-- one that `gfs_send` leaves open, as it returns the length of the block, was sent the block; on a
-- closed one it sends nothing; and `gfs_abort` closes.
pub record Library (send_header : Reply → Conn → (status file_len : ℕ) → Conn)
    (send : Reply → Conn → List ℕ → ℤ × Conn) (abort : Conn → Conn) (announcement : ℕ → List ℕ)
    : Type 0 where
  pub sends_header :
      (r : Reply) (c : Conn) (n : ℕ)
      → (send_header r c gf_ok n).is_open ≡ true
      → (send_header r c gf_ok n).sent ≡ c.sent ++ announcement n
  pub sends_block :
      (r : Reply) (c : Conn) (bytes : List ℕ)
      → (send r c bytes).1.is_open ≡ true
      → int_eq (send r c bytes).0 (pos (length bytes)) ≡ true
      → (send r c bytes).1.sent ≡ c.sent ++ bytes
  pub stays_closed :
      (r : Reply) (c : Conn) (bytes : List ℕ)
      → c.is_open ≡ false
      → (send r c bytes).1.is_open ≡ false
  pub closes : (c : Conn) → (abort c).is_open ≡ false

int_eq→eq : (z : ℤ) (n : ℕ) → int_eq z (pos n) ≡ true → z ≡ pos n
int_eq→eq (pos m) n e = ap pos (==→eq m n e)
int_eq→eq (negsuc m) n e = cc

starved_not_ok : {c : Conn} → starved ≡ ok c → ⊥
starved_not_ok e = cc

Reply-cases : (r : Reply) → (r ≡ failed) ⊎ ((k : ℕ) × (r ≡ moved k))
Reply-cases failed = inl refl
Reply-cases (moved k) = inr (k, refl)

module _ (send_header : Reply → Conn → (status file_len : ℕ) → Conn)
    (send : Reply → Conn → List ℕ → ℤ × Conn) (abort : Conn → Conn) (announcement : ℕ → List ℕ)
    (lib : Library send_header send abort announcement) where
  if_closed :
      (b : Bool) (c c' : Conn)
      → c.is_open ≡ false
      → c'.is_open ≡ false
      → (if b then c else c').is_open ≡ false
  if_closed true c c' h h' = h
  if_closed false c c' h h' = h'

  -- A connection that is closed stays closed.
  pub send_task-closed :
      (rounds : List Round) (file : List ℕ) (t : ℤ) (c : Conn) {c' : Conn}
      → c.is_open ≡ false
      → send_task send_header send abort rounds file t c ≡ ok c'
      → c'.is_open ≡ false
  unfolding send_task
  send_task-closed [] file t c closed out = elim (Bool-cases (below t (length file))) [
    | inl more ↦ cc
    | inr done ↦ ap (λ (u : Conn). u.is_open) (sym (ok_injective (rw done at out))) ∙ closed
  ]
  send_task-closed (r ∷ rounds) file t c closed out = elim (Bool-cases (below t (length file))) [
    | inr done ↦ ap (λ (u : Conn). u.is_open) (sym (ok_injective (rw done at out))) ∙ closed
    | inl more ↦
        send_task-closed rounds file _ _
          (if_closed _ _ _ (lib.closes _)
            (lib.stays_closed r.write _ _ (if_closed _ _ _ (lib.closes _) closed)))
          (rw more at out)
  ]

  sent_all :
      (file : List ℕ) (t : ℕ) (c : Conn) {c' : Conn}
      → ltb t (length file) ≡ false
      → ok c ≡ ok c'
      → c'.sent ≡ c.sent ++ drop t file
  sent_all file t c done e =
      ap (λ (u : Conn). u.sent) (sym (ok_injective e))
      ∙ sym (append-nil c.sent)
      ∙ ap (λ u. c.sent ++ u) (sym (drop_all t file (ltb_false→le t (length file) done)))

  -- One round: the connection behind the read, what `gfs_send` gives, and the connection at the end.
  abbrev after_read : Round → Conn → ℤ → Conn
  after_read r c read_len =
      if not_positive read_len then fail send_header send abort r.refusal c else c

  abbrev sending : Round → Conn → ℤ × List ℕ → ℤ × Conn
  sending r c (read_len, bytes) = send r.write (after_read r c read_len) bytes

  abbrev after_send : Round → Conn → ℤ × List ℕ → Conn
  after_send r c (read_len, bytes) =
      if not (int_eq (sending r c (read_len, bytes)).0 read_len)
      then fail send_header send abort r.refusal (sending r c (read_len, bytes)).1
      else (sending r c (read_len, bytes)).1

  send_task-step :
      (r : Round) (rounds : List Round) (file : List ℕ) (t : ℕ) (c : Conn)
      → ltb t (length file) ≡ true
      → send_task send_header send abort (r ∷ rounds) file (pos t) c
        ≡ send_task send_header send abort rounds file
            (add (pos t) (sending r c (pread_at r.read file (pos t))).0)
            (after_send r c (pread_at r.read file (pos t)))
  unfolding send_task
  send_task-step r rounds file t c more = rw more refl

  module _ (file : List ℕ) (rounds : List Round) where
    -- The rest of the loop keeps to its part.
    abbrev RestSends : Type 0
    RestSends =
        (t : ℕ) (c c' : Conn)
        → t ≤ length file
        → send_task send_header send abort rounds file (pos t) c ≡ ok c'
        → (c'.is_open ≡ false) ⊎ (c'.sent ≡ c.sent ++ drop t file)

    unread-closed :
        (r : Round) (t read_len : ℤ) (bytes : List ℕ) (c c' : Conn)
        → not_positive read_len ≡ true
        → send_task send_header send abort rounds file t (after_send r c (read_len, bytes)) ≡ ok c'
        → c'.is_open ≡ false
    unread-closed r t read_len bytes c c' nothing out =
        let at_first : (after_read r c read_len).is_open ≡ false = rw nothing (lib.closes _) in
        send_task-closed rounds file t (after_send r c (read_len, bytes))
          (if_closed _ _ _ (lib.closes _) (lib.stays_closed r.write _ bytes at_first)) out

    read-all :
        (r : Round) (t : ℕ) (bytes : List ℕ) (c c' : Conn)
        → RestSends
        → (length bytes == 0) ≡ false
        → t + length bytes ≤ length file
        → send_task send_header send abort rounds file
            (add (pos t) (sending r c (pos (length bytes), bytes)).0)
            (after_send r c (pos (length bytes), bytes))
          ≡ ok c'
        → (c'.is_open ≡ false) ⊎ (c'.sent ≡ (c.sent ++ bytes) ++ drop (t + length bytes) file)
    read-all r t bytes c c' rest_sends some_byte inside out =
        let live : after_read r c (pos (length bytes)) ≡ c = rw (after_read, some_byte) refl in
        let now =
          subst
            (λ d.
              send_task send_header send abort rounds file (add (pos t) (send r.write d bytes).0) (
                if not (int_eq (send r.write d bytes).0 (pos (length bytes)))
                then fail send_header send abort r.refusal (send r.write d bytes).1
                else (send r.write d bytes).1)
              ≡ ok c')
            live out in
        elim (Bool-cases (int_eq (send r.write c bytes).0 (pos (length bytes)))) [
          | inr short ↦ inl (send_task-closed rounds file _ _ (lib.closes _) (rw short at now))
          | inl whole ↦
              let then_ = rw whole at now in
              elim (Bool-cases ((send r.write c bytes).1.is_open)) [
                | inr closed ↦ inl (send_task-closed rounds file _ _ closed then_)
                | inl opened ↦
                    elim (rest_sends (t + length bytes) (send r.write c bytes).1 c' inside
                      (rw (int_eq→eq (send r.write c bytes).0 (length bytes) whole) at then_)) [
                        | inl closed ↦ inl closed
                        | inr all ↦ inr (
                            all
                            ∙ ap (λ u. u ++ drop (t + length bytes) file)
                                (lib.sends_block r.write c bytes opened whole))
                      ]
              ]
        ]

  round-all :
      (r : Round) (rounds : List Round) (file : List ℕ) (t : ℕ) (c c' : Conn)
      → RestSends file rounds
      → t ≤ length file
      → send_task send_header send abort rounds file
          (add (pos t) (sending r c (pread_at r.read file (pos t))).0)
          (after_send r c (pread_at r.read file (pos t)))
        ≡ ok c'
      → (c'.is_open ≡ false) ⊎ (c'.sent ≡ c.sent ++ drop t file)
  unfolding pread
  round-all r rounds file t c c' rest_sends inside out = elim (Reply-cases r.read) [
    | inl bad ↦ inl (unread-closed file rounds r _ minus_one [] c c' refl (rw bad at out))
    | inr (k, moves) ↦
        let ch = chunk k file t in
        let now = rw moves at out in
        elim (Bool-cases (length ch == 0)) [
          | inl nothing ↦ inl (unread-closed file rounds r _ (pos (length ch)) ch c c' nothing now)
          | inr some_byte ↦
              elim (read-all file rounds r t ch c c' rest_sends some_byte
                (omega (arith, length-take (min k buffer_size) (drop t file), length-drop t file))
                now) [
                  | inl closed ↦ inl closed
                  | inr all ↦ inr (
                      all
                      ∙ append_assoc c.sent ch (drop (t + length ch) file)
                      ∙ ap (λ u. c.sent ++ u)
                          (ap (λ u. ch ++ u) (sym (drop-drop t (length ch) file))
                            ∙ take-append-drop-length (min k buffer_size) (drop t file)))
                ]
        ]
  ]

  -- The loop from a position on: it sends the rest of the file, or ends with a closed connection.
  pub send_task-all : (rounds : List Round) (file : List ℕ) → RestSends file rounds
  unfolding send_task
  send_task-all [] file t c c' inside out = elim (Bool-cases (ltb t (length file))) [
    | inr done ↦ inr (sent_all file t c done (rw done at out))
    | inl more ↦ absurd (starved_not_ok (rw more at out))
  ]
  send_task-all (r ∷ rounds) file t c c' inside out = elim (Bool-cases (ltb t (length file))) [
    | inr done ↦ inr (sent_all file t c done (rw done at out))
    | inl more ↦
        round-all r rounds file t c c' (send_task-all rounds file) inside
          (sym (send_task-step r rounds file t c more) ∙ out)
  ]
