-- ===== src/Getfile/Handler.antt =====
-- `handler_get` of proj1/getfile/handler.c. The table of contents and the files behind its
-- descriptors are given; the environment answers each call of the loop.
pub mod Success
pub mod Failure
use cs8803_introduction_to_o.Common.{
  ℕ, zero, suc, ◌+◌, ◌-◌, Bool, true, false, ◌||◌, not, Option, none, some, List, [], ◌∷◌, ◌++◌,
  ◌==◌, ltb, leb, if◌then◌else◌, length, Outcome, ok, fault, exited, starved, ◌>>=◌, ℤ, pos, negsuc,
}
use cs8803_introduction_to_o.Socket.{Reply, Conn, buffer_size, minus_one, pread}
use cs8803_introduction_to_o.Getfile.Response.{gf_ok, gf_file_not_found, abort, send, send_header}

-- The answers to `pread` and to `write` in one round of the loop.
pub record Round : Type 0 where
  pub read : Reply
  pub write : Reply

abbrev pub int_eq : ℤ → ℤ → Bool
int_eq (pos a) (pos b) = a == b
int_eq (negsuc a) (negsuc b) = a == b
int_eq (pos a) (negsuc b) = false
int_eq (negsuc a) (pos b) = false

-- `x <= 0`
abbrev pub not_positive : ℤ → Bool
not_positive (pos n) = n == 0
not_positive (negsuc n) = true

-- The part of an `int` that a sum with a non-negative one takes over.
abbrev magnitude : ℤ → ℕ
magnitude (pos n) = n
magnitude (negsuc n) = 0

-- `gfs_abort(ctx); return -1;`
abbrev give_up : Conn → Outcome (ℤ × Conn)
give_up c = ok (minus_one, abort c)

-- The loop that sends the file chunk by chunk.
pub send_file : List Round → (file : List ℕ) → (transferred : ℕ) → Conn → Outcome (ℤ × Conn)
send_file [] file transferred c =
    if ltb transferred (length file) then starved else ok (pos transferred, c)
send_file (r ∷ rounds) file transferred c =
    let (read_len, bytes) = pread r.read file buffer_size transferred in
    let (write_len, c') = send r.write c bytes in
    let rest = send_file rounds file (transferred + magnitude write_len) c' in
    if ltb transferred (length file)
    then (if not_positive read_len
        then give_up c
        else if not (int_eq write_len read_len)
        then give_up c'
        else rest)
    else ok (pos transferred, c)

module _ (content_get : Option (List ℕ) → Outcome ℤ) (file_of : ℕ → List ℕ) where
  -- What `handler_get` does with the descriptor that it finds.
  serve_file : (header : Reply) → List Round → Conn → ℤ → Outcome (ℤ × Conn)
  unfolding send_file
  serve_file header rounds c (negsuc n) = send_header header c gf_file_not_found 0
  serve_file header rounds c (pos fildes) = do
    (n, c') ← send_header header c gf_ok (length (file_of fildes))
    send_file rounds (file_of fildes) 0 c'

  pub handler_get :
      (header : Reply) → List Round → Conn → (path : Option (List ℕ)) → Outcome (ℤ × Conn)
  unfolding serve_file
  handler_get header rounds c path = do fildes ← content_get path; serve_file header rounds c fildes
