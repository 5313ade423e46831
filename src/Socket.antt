-- ===== src/Socket.antt =====
-- What the programs see of the operating system's sockets and files: the answers of the calls are
-- given, as the environment's choices, and the effects are recorded.
use cs8803_introduction_to_o.Common.{
  ℕ, Bool, false, List, [], ◌++◌, if◌then◌else◌, length, take, drop, ℤ, pos, negsuc,
}
use Prim.Native.Nat.{min}

-- BUFSIZE and BUFFER_SIZE of every program of proj1.
abbrev pub buffer_size : ℕ
buffer_size = 4096

-- The answer to `write`, `send`, `pread` or `fwrite`: an error, or how many bytes are moved at most.
pub data Reply : Type 0 where
  failed : Reply
  moved : ℕ → Reply

-- The answer to `recv` or `read` on a socket: an error, or bytes; no byte means that the peer closed.
pub data Recv : Type 0 where
  broken : Recv
  got : List ℕ → Recv

-- One end of a connection: what was handed to the kernel, and whether the descriptor is open.
pub record Conn : Type 0 where
  pub sent : List ℕ
  pub is_open : Bool

abbrev pub minus_one : ℤ
minus_one = negsuc 0

-- `write(fd, bytes, strlen)`; a closed descriptor gives EBADF.
unfoldable pub write : Reply → List ℕ → Conn → ℤ × Conn
write failed bytes c = (minus_one, c)
write (moved k) bytes c =
    if c.is_open
    then (pos (min k (length bytes)), record c { sent = c.sent ++ take k bytes })
    else (minus_one, c)

unfoldable pub close : Conn → Conn
close c = record c { is_open = false }

-- `pread(fd, buffer, size, offset)` on a file with the given bytes.
unfoldable pub pread : Reply → (file : List ℕ) → (size offset : ℕ) → ℤ × List ℕ
pread failed file size offset = (minus_one, [])
pread (moved k) file size offset =
    let bytes = take (min k size) (drop offset file) in (pos (length bytes), bytes)

-- A buffer after `recv` put bytes at its front.
abbrev pub overwrite : List ℕ → List ℕ → List ℕ
overwrite buffer bytes = bytes ++ drop (length bytes) buffer
