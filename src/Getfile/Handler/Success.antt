-- ===== src/Getfile/Handler/Success.antt =====
-- `handler_get` of proj1/getfile/handler.c in an environment that works.
use Prim.Native.Nat.{min}
use cs8803_introduction_to_o.Common.{
  ℕ, ◌+◌, ◌≤◌, ◌<◌, ◌≡◌, refl, sym, ap, ◌∙◌, inl, inr, true, Option, List, [], ◌∷◌, ◌++◌, arith,
  ltb, Bool-cases, ltb→lt, ltb_false→le, le→ltb, ne→==, eq→==, length, take, drop, length-take,
  length-drop, take_all, drop-drop, drop_all, take-append-drop-length, Outcome, ok, ℤ, pos, u64_mod,
}
use mathlib.Core.List.{append_assoc, append-nil}
use cs8803_introduction_to_o.Socket.{moved, Conn, buffer_size, pread, write}
use cs8803_introduction_to_o.Getfile.Response.{send, send_header}
use cs8803_introduction_to_o.Getfile.Response.Header.{announce, ok_header-announce}
use cs8803_introduction_to_o.Getfile.Handler.{Round, send_file, handler_get}

-- The kernel reads at least a byte and takes everything that is written.
abbrev pub Moves : List Round → Type 0
Moves [] = Unit {0}
Moves (r ∷ rounds) =
    ((k : ℕ) × (r.read ≡ moved k) × (0 < k))
    × ((j : ℕ) × (r.write ≡ moved j) × (buffer_size ≤ j))
    × Moves rounds

-- One read, from the middle of a file.
abbrev pub chunk : ℕ → List ℕ → ℕ → List ℕ
chunk k file t = take (min k buffer_size) (drop t file)

pub pread_moved :
    (k : ℕ) (file : List ℕ) (t : ℕ)
    → pread (moved k) file buffer_size t ≡ (pos (length (chunk k file t)), chunk k file t)
unfolding pread
pread_moved k file t = refl

pub write_all :
    (j : ℕ) (bytes : List ℕ) (c : Conn)
    → c.is_open ≡ true
    → length bytes ≤ j
    → write (moved j) bytes c ≡ (pos (length bytes), record c { sent = c.sent ++ bytes })
unfolding write
write_all j bytes c opened fits =
    rw (opened, take_all j bytes fits)
      (ap (λ n. (pos n, record { sent = c.sent ++ bytes; is_open = true })) (omega arith))

send_all :
    (j : ℕ) (bytes : List ℕ) (c : Conn)
    → c.is_open ≡ true
    → length bytes ≤ j
    → send (moved j) c bytes ≡ (pos (length bytes), record c { sent = c.sent ++ bytes })
unfolding send
send_all = write_all

send_file_total :
    (rounds : List Round) (file : List ℕ) (t : ℕ) (c : Conn)
    → c.is_open ≡ true
    → t ≤ length file
    → length file ≤ t + length rounds
    → Moves rounds
    → send_file rounds file t c ≡ ok (pos (length file), record c { sent = c.sent ++ drop t file })
unfolding send_file
send_file_total [] file t c opened inside enough moves =
    rw (le→ltb t (length file) (omega arith), drop_all t file (omega arith), append-nil c.sent)
      (ap (λ n. ok (pos n, c)) (omega arith))
send_file_total (r ∷ rounds) file t c opened inside enough (rd, wr, moves) =
    elim (Bool-cases (ltb t (length file))) [
      | inr done ↦
          let all : length file ≤ t = ltb_false→le t (length file) done in
          rw (done, drop_all t file all, append-nil c.sent) (ap (λ n. ok (pos n, c)) (omega arith))
      | inl more ↦
          let ch = chunk rd.0 file t in
          let size : (0 < length ch) × (length ch ≤ buffer_size) × (t + length ch ≤ length file) =
            omega (
              arith,
              length-take (min rd.0 buffer_size) (drop t file),
              length-drop t file,
              ltb→lt t (length file) more,
            ) in
          rw
            (
              more,
              rd.1,
              wr.1,
              pread_moved rd.0 file t,
              send_all wr.0 ch c opened (omega arith),
              ne→== (length ch) 0 (omega arith),
              eq→== (length ch) (length ch) refl,
            )
            (send_file_total rounds file (t + length ch) (record c { sent = c.sent ++ ch }) opened
                size.2 (omega arith) moves
              ∙ ap (λ u. ok (pos (length file), record c { sent = u }))
                  (append_assoc c.sent ch (drop (t + length ch) file)
                    ∙ ap (λ u. c.sent ++ u)
                        (ap (λ u. ch ++ u) (sym (drop-drop t (length ch) file))
                          ∙ take-append-drop-length (min rd.0 buffer_size) (drop t file))))
    ]

-- handler_get on an open connection and a file of less than 2^64 bytes that the table has, when the
-- announcement is taken whole and, for as many rounds as the file has bytes, every read moves
-- something and every write takes a whole block: the client is sent the announcement and the file,
-- the result is its length, and the connection stays open.
pub handler_get_total :
    (content_get : Option (List ℕ) → Outcome ℤ) (file_of : ℕ → List ℕ) (j : ℕ) (rounds : List Round)
    (c : Conn) (path : Option (List ℕ)) (fildes : ℕ)
    → content_get path ≡ ok (pos fildes)
    → c.is_open ≡ true
    → length (file_of fildes) < u64_mod
    → length (announce (length (file_of fildes))) ≤ j
    → length (file_of fildes) ≤ length rounds
    → Moves rounds
    → handler_get content_get file_of (moved j) rounds c path
      ≡ ok (
        pos (length (file_of fildes)),
        record c { sent = (c.sent ++ announce (length (file_of fildes))) ++ file_of fildes },
      )
unfolding handler_get send_header
handler_get_total content_get file_of j rounds c path fildes found opened small room enough moves =
    let file = file_of fildes in
    rw
      (
        found,
        ok_header-announce (length file) small,
        write_all j (announce (length file)) c opened room,
      )
      (send_file_total rounds file 0 (record c { sent = c.sent ++ announce (length file) }) opened
        (omega arith) (omega arith) moves)
