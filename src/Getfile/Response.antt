-- ===== src/Getfile/Response.antt =====
-- The calls of proj1/getfile/gfserver.c that a handler makes on its connection.
pub mod Header
use Prim.Native.Nat.{min}
use cs8803_introduction_to_o.Common.{
  ℕ, ◌+◌, Bool, true, false, List, [], ◌∷◌, ◌++◌, ◌==◌, if◌then◌else◌, length, Outcome, ok, fault,
  exited, starved, ◌>>=◌, ℤ,
}
use cs8803_introduction_to_o.CString.{codes, decimal, fits}
use cs8803_introduction_to_o.Socket.{Reply, Conn, write, close}

-- `gfstatus_t` of gfserver.h.
abbrev pub gf_ok : ℕ
gf_ok = 200

abbrev pub gf_file_not_found : ℕ
gf_file_not_found = 400

abbrev pub gf_error : ℕ
gf_error = 500

-- `gfs_abort`
unfoldable pub abort : Conn → Conn
abort c = close c

-- `gfs_send`
unfoldable pub send : Reply → Conn → List ℕ → ℤ × Conn
send r c bytes = write r bytes c

abbrev error_text : List ℕ
error_text = codes "GETFILE ERROR \r\n\r\n"

abbrev pub not_found_text : List ℕ
not_found_text = codes "GETFILE FILE_NOT_FOUND \r\n\r\n"

abbrev pub crlf2 : List ℕ
crlf2 = codes "\r\n\r\n"

-- `strlen(text) + 1` bytes are written, and the connection is closed.
unfoldable pub refuse : Reply → List ℕ → Conn → ℤ × Conn
unfolding abort
refuse r text c = let (n, c') = write r (text ++ 0 ∷ []) c in (n, abort c')

-- `strcpy`, `strcat`, `strcat` into the allocated buffer.
pub ok_header : ℕ → Outcome (List ℕ)
ok_header file_len = do
  digits ← fits 500 (decimal file_len)
  let room = 17 + length digits
  h₁ ← fits room (codes "GETFILE OK ")
  h₂ ← fits room (h₁ ++ digits)
  fits room (h₂ ++ crlf2)

-- `gfs_sendheader`
unfoldable pub send_header : Reply → Conn → (status file_len : ℕ) → Outcome (ℤ × Conn)
unfolding refuse ok_header
send_header r c status file_len =
    if status == gf_error
    then ok (refuse r error_text c)
    else if status == gf_file_not_found
    then ok (refuse r not_found_text c)
    else do header ← ok_header file_len; ok (write r header c)
