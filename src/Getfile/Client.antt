-- ===== src/Getfile/Client.antt =====
-- `gfc_perform` of proj1/getfile/gfclient.c, on the requests of Request, whose names it passes on.
pub mod Body
pub mod Header
pub mod Transfer
pub mod Lifetime
use cs8803_introduction_to_o.Common.{
  ℕ, zero, suc, ◌+◌, ◌-◌, ◌%◌, Bool, true, false, ◌&&◌, ◌||◌, not, Option, none, some, List, [],
  ◌∷◌, ◌++◌, ◌==◌, ltb, leb, if◌then◌else◌, length, take, drop, Outcome, ok, fault, exited, starved,
  ◌>>=◌, ℤ, pos, negsuc, u16_mod, u64_mod, wrap, sub64,
}
use cs8803_introduction_to_o.CString.{codes, c_str, strlen, str_eq, fits, strtok, atol}
use cs8803_introduction_to_o.Socket.{
  Reply, Recv, broken, got, Conn, buffer_size, minus_one, write, close, overwrite,
}
pub use cs8803_introduction_to_o.Getfile.Request.{
  Status, Text, Request, gf_ok, gf_file_not_found, gf_error, gf_invalid, uninitialised, text,
  dangling,
}
unfoldable pub use cs8803_introduction_to_o.Getfile.Request.{
  create, set_server, set_path, set_port, set_headerfunc, set_headerarg, set_writefunc,
  set_writearg, cleanup, status_of, get_status, strstatus, get_filelen, get_bytesreceived,
}

-- What `gfc_perform` leaves: its result, the request and its connection.
pub record Done : Type 0 where
  pub result : ℤ
  pub request : Request
  pub conn : Conn

-- `gfc_cleanup(gfr); return result;`; the text of the header was freed before.
unfoldable pub finish : ℤ → Request → Conn → Outcome Done
unfolding cleanup
finish z gfr c = do gfr' ← cleanup gfr; ok (record { result = z; request = gfr'; conn = c })

-- The status text, the status that `gfc_get_status` gives for it.
abbrev pub with_status : List ℕ → Request → Request
with_status t gfr = record gfr { status_text = text t; status = status_of t }

-- `free(dataForAnalysis)`, when `statusText` points into it.
abbrev pub free_text : Request → Request
free_text gfr = record gfr { status_text = dangling }

abbrev pub invalid : Request → Request
invalid gfr = record (with_status (codes "INVALID") gfr) { bytes_received = 0 }

-- The header callback, if there is an argument for it.
pub call_header : List ℕ → Request → Outcome Request
call_header h gfr =
    if gfr.header_argument
    then (if gfr.header_set then ok (record gfr { headers = gfr.headers ++ h ∷ [] }) else fault)
    else ok gfr

-- The write callback on `len` bytes from `offset` of the receive buffer; past its end it faults.
pub call_writer : (buffer : List ℕ) → (offset len : ℕ) → Request → Outcome Request
call_writer buffer offset len gfr =
    if gfr.writer_set && leb (offset + len) buffer_size
    then ok (record gfr { writer = gfr.writer ++ take len (drop offset buffer) })
    else fault

-- The request text: `malloc(18 + strlen(path))`, `strcpy`, `strcat`, `strcat`.
unfoldable pub message : List ℕ → Outcome (List ℕ)
message path = do
  let room = 18 + length path
  m₁ ← fits room (codes "GETFILE GET ")
  m₂ ← fits room (m₁ ++ path)
  fits room (m₂ ++ codes "\r\n\r\n")

-- What the analysis of the first bytes decides: to return, or to go on with a file under way.
pub data Analysis : Type 0 where
  stop : ℤ → Request → Analysis
  proceed : Request → Analysis

-- The branch of an OK response, with the text of the length.
pub accept_length :
    (buffer : List ℕ) → (bytes_read : ℕ) → Request → Option (List ℕ) → Outcome Analysis
unfolding call_writer
accept_length buffer bytes_read gfr none = fault
accept_length buffer bytes_read gfr (some len_text) = do
  let offset = length len_text + 15
  let content_length = sub64 bytes_read offset
  let gfr₁ = record (with_status (codes "OK") gfr) { file_length = wrap u64_mod (atol len_text) }
  gfr₂ ← call_writer buffer offset content_length gfr₁
  ok (proceed (free_text (record gfr₂ { bytes_received = content_length })))

-- `memory` begins behind the status text: a number, and the file.
pub accept : (buffer memory : List ℕ) → (bytes_read : ℕ) → Request → Outcome Analysis
unfolding accept_length
accept buffer memory bytes_read gfr =
    let everything = strtok [] memory in
    accept_length buffer bytes_read gfr
      (strtok (codes " \r\n") (everything.passed ++ everything.rest)).token

-- `memory` begins behind the scheme: the status text, or NULL.
pub dispatch_status :
    (buffer rest : List ℕ) → (bytes_read : ℕ) → Request → Option (List ℕ) → Outcome Analysis
unfolding accept call_header
dispatch_status buffer rest bytes_read gfr none = fault
dispatch_status buffer rest bytes_read gfr (some t) =
    if str_eq t (codes "OK")
    then accept buffer rest bytes_read gfr
    else if str_eq t (codes "FILE_NOT_FOUND")
    then (do
      gfr₁ ← call_header (codes "GETFILE FILE_NOT_FOUND") (with_status t gfr)
      ok (stop (pos 0) (free_text gfr₁)))
    else if str_eq t (codes "ERROR")
    then (do
      gfr₁ ← call_header (codes "GETFILE ERROR") (with_status t gfr)
      ok (stop (pos 0) (free_text gfr₁)))
    else ok (stop minus_one (invalid gfr))

pub dispatch : (buffer memory : List ℕ) → (bytes_read : ℕ) → Request → Outcome Analysis
unfolding dispatch_status
dispatch buffer memory bytes_read gfr =
    let t = strtok (codes " \r\n") memory in dispatch_status buffer t.rest bytes_read gfr t.token

-- The scheme, or NULL.
pub analyse_scheme :
    (buffer rest : List ℕ) → (bytes_read : ℕ) → Request → Option (List ℕ) → Outcome Analysis
unfolding dispatch
analyse_scheme buffer rest bytes_read gfr none = fault
analyse_scheme buffer rest bytes_read gfr (some scheme) =
    if not (str_eq scheme (codes "GETFILE"))
    then ok (stop minus_one (invalid gfr))
    else if leb bytes_read 10
    then ok (stop minus_one (invalid gfr))
    else dispatch buffer rest bytes_read gfr

-- The first bytes that arrive. `junk` is the memory behind the copy, which is not terminated.
pub analyse : (buffer chunk junk : List ℕ) → Request → Outcome Analysis
unfolding analyse_scheme call_header
analyse buffer chunk junk gfr =
    let scheme = strtok (codes " ") (chunk ++ junk) in
    if leb (length chunk) 7
    then (do gfr₁ ← call_header (codes "INVALID") (invalid gfr); ok (stop minus_one gfr₁))
    else analyse_scheme buffer scheme.rest (length chunk) gfr scheme.token

-- A chunk was written: the transfer ends, or the loop goes on with `rest`.
pub after_chunk : (total : ℕ) → Conn → (Request → Outcome Done) → Request → Outcome Done
unfolding finish
after_chunk total c rest gfr =
    let gfr' = record gfr { bytes_received = total } in
    if total == gfr.file_length then finish (pos 0) gfr' (close c) else rest gfr'

-- The receive loop once the header is complete. `total` is `bytesTotalOfFile`: it counts bytes that
-- were received, so `size_t` holds it. An error of `recv` is stored in a `size_t`, passes the test
-- for a negative one, and overruns the buffer.
pub body : List Recv → (buffer : List ℕ) → (total : ℕ) → Request → Conn → Outcome Done
unfolding call_writer after_chunk
body [] buffer total gfr c = starved
body (broken ∷ rs) buffer total gfr c = fault
body (got [] ∷ rs) buffer total gfr c =
    finish (if ltb total gfr.file_length then minus_one else pos 0) gfr (close c)
body (got (b ∷ bs) ∷ rs) buffer total gfr c =
    let buffer' = overwrite buffer (b ∷ bs) in
    let total' = total + length (b ∷ bs) in
    call_writer buffer' 0 (length (b ∷ bs)) gfr
    >>= after_chunk total' c (λ (gfr' : Request). body rs buffer' total' gfr' c)

-- The rest of the round in which the first bytes arrived.
pub after_analysis : List Recv → (buffer : List ℕ) → Conn → Analysis → Outcome Done
unfolding body finish
after_analysis rs buffer c (stop z gfr) = finish z gfr c
after_analysis rs buffer c (proceed gfr) =
    if gfr.bytes_received == gfr.file_length
    then finish (pos 0) gfr (close c)
    else body rs buffer gfr.bytes_received gfr c

-- The loop until the first bytes arrive.
unfoldable pub receive : List Recv → (buffer junk : List ℕ) → Request → Conn → Outcome Done
unfolding after_analysis analyse
receive [] buffer junk gfr c = starved
receive (broken ∷ rs) buffer junk gfr c = fault
receive (got [] ∷ rs) buffer junk gfr c =
    finish (if ltb 0 gfr.file_length then minus_one else pos 0) gfr (close c)
receive (got (b ∷ bs) ∷ rs) buffer junk gfr c =
    let buffer' = overwrite buffer (b ∷ bs) in
    analyse buffer' (b ∷ bs) junk gfr >>= after_analysis rs buffer' c

-- The answers of `socket`, `gethostbyname`, `connect` and `send`.
pub record Network : Type 0 where
  pub socket_ok : Bool
  pub host_found : Bool
  pub connect_ok : Bool
  pub sending : Reply

abbrev pub unconnected : Conn
unconnected = record { sent = []; is_open = false }

abbrev pub connected : Conn
connected = record { sent = []; is_open = true }

-- `gfc_perform`
unfoldable pub perform : Network → List Recv → (buffer junk : List ℕ) → Request → Outcome Done
unfolding receive
perform net rs buffer junk gfr =
    if not net.socket_ok
    then ok (record { result = minus_one; request = gfr; conn = unconnected })
    else if not net.host_found
    then fault
    else if not net.connect_ok
    then ok (record { result = minus_one; request = gfr; conn = close connected })
    else do m ← message gfr.path; receive rs buffer junk gfr (write net.sending m connected).1
