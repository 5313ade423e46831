-- ===== src/Transfer/Copying.antt =====
-- The two loops of the transfer: a file into a connection, and a connection into a file.
pub mod Sending
pub mod Receiving
use Prim.Native.Nat.{min}
use cs8803_introduction_to_o.Common.{
  ℕ, suc, ◌+◌, Bool, true, false, List, [], ◌∷◌, ◌++◌, ◌==◌, ltb, if◌then◌else◌, length, take, drop,
  not, Outcome, ok, exited, starved, is_neg,
}
use cs8803_introduction_to_o.Socket.{
  Reply, failed, moved, Recv, broken, got, Conn, buffer_size, write,
}

-- `fread(buffer, 1, BUFSIZE, fs)` from a position of a file; an error reads nothing.
unfoldable pub fread : Reply → (file : List ℕ) → (position : ℕ) → List ℕ
fread failed file position = []
fread (moved k) file position = take (min k buffer_size) (drop position file)

-- What `fwrite` appends, and whether that is all.
unfoldable pub fwrite : Reply → (bytes written : List ℕ) → List ℕ × Bool
fwrite failed bytes written = (written, false)
fwrite (moved k) bytes written = (written ++ take k bytes, not (ltb k (length bytes)))

-- The loop that sends a file. The count that `send` returns is only tested for an error.
unfoldable pub send_loop :
    List (Reply × Reply) → (file : List ℕ) → (position : ℕ) → Conn → Outcome Conn
send_loop [] file position c = starved
send_loop ((r, w) ∷ rounds) file position c =
    let block = fread r file position in
    let (n, c') = write w block c in
    let rest = send_loop rounds file (position + length block) c' in
    if length block == 0
    then ok c
    else if is_neg n
    then exited 1
    else if length block == buffer_size
    then rest
    else ok c'

-- How the loop that receives ends: the peer closed, or `recv` failed.
pub data Ending : Type 0 where
  closed lost : Ending

-- The loop that receives a file, with the answers of `recv` and of `fwrite`.
unfoldable pub receive_loop : List (Recv × Reply) → (written : List ℕ) → Outcome (List ℕ × Ending)
receive_loop [] written = starved
receive_loop ((broken, w) ∷ rounds) written = ok (written, lost)
receive_loop ((got [], w) ∷ rounds) written = ok (written, closed)
receive_loop ((got (b ∷ bs), w) ∷ rounds) written =
    let (written', all) = fwrite w (b ∷ bs) written in
    let rest = receive_loop rounds written' in if all then rest else exited 1
