-- ===== src/Getfile/Serve.antt =====
-- `gfserver_serve` of proj1/getfile/gfserver.c: the set-up, and the loop over the clients. The
-- handler is a parameter. The receive buffer is one allocation that all clients share.
pub mod Understood
pub mod Stale
use cs8803_introduction_to_o.Common.{
  ℕ, zero, suc, ◌+◌, ◌-◌, ◌%◌, Bool, true, false, ◌&&◌, ◌||◌, not, Option, none, some, List, [],
  ◌∷◌, ◌++◌, ◌==◌, if◌then◌else◌, length, drop, Outcome, ok, fault, exited, starved, ◌>>=◌, ℤ, pos,
  negsuc, is_neg, u16_mod, u64_mod,
}
use cs8803_introduction_to_o.CString.{codes, c_str, strlen, str_eq, fits, strtok, Token}
use cs8803_introduction_to_o.Socket.{Reply, Recv, broken, got, Conn, overwrite}
use cs8803_introduction_to_o.Getfile.Response.{gf_error, gf_file_not_found, send_header}

-- `struct gfserver_t`: the fields that the code reads.
pub record Server : Type 0 where
  pub port : ℕ
  pub max_npending : ℤ

unfoldable pub create : (memory : Server) → Server
create memory = memory

unfoldable pub set_port : Server → ℕ → Server
set_port gfs port = record gfs { port = port % u16_mod }

unfoldable pub set_maxpending : Server → ℤ → Server
set_maxpending gfs n = record gfs { max_npending = n }

-- One client: the answers of the calls that serve it.
pub record Visit : Type 0 where
  pub accepted : Bool
  pub first : Recv
  pub second : Recv
  pub refusal : Reply

-- What `recv` puts into the buffer, and the `size_t` that it returns.
abbrev received : Recv → List ℕ
received broken = []
received (got bytes) = bytes

abbrev read_length : Recv → ℕ
read_length broken = u64_mod - 1
read_length (got bytes) = length bytes

-- `malloc(size + 1)` and a copy of a text into it; `size + 1` wraps.
abbrev copy : (size : ℕ) → List ℕ → Outcome (List ℕ)
copy size text = fits ((size + 1) % u64_mod) text

-- The three tokens of a request, and the buffer after the three calls.
pub record Parsed : Type 0 where
  pub scheme : Option (List ℕ)
  pub method : Option (List ℕ)
  pub filename : Option (List ℕ)
  pub buffer : List ℕ

abbrev pub parsed : (t₁ t₂ t₃ : Token) → Parsed
parsed t₁ t₂ t₃ = record {
  scheme = t₁.token;
  method = t₂.token;
  filename = t₃.token;
  buffer = t₁.passed ++ t₂.passed ++ t₃.passed ++ t₃.rest;
}

pub parse : List ℕ → Parsed
parse m =
    let t₁ = strtok (codes " ") m in
    let t₂ = strtok (codes " ") t₁.rest in parsed t₁ t₂ (strtok (codes " \r\n") t₂.rest)

abbrev text_length : Option (List ℕ) → ℕ
text_length none = 0
text_length (some t) = length t

-- The tests on what follows the file name; the comparisons with the literal and with NULL are false.
abbrev odd_marker : List ℕ → Bool
odd_marker marker =
    (length marker == 1 && not (str_eq marker (codes " ")))
    || (length marker == 4 && not (str_eq marker (codes "\r\n\r\n")))

-- Is the request cut, so that more has to be received?
pub is_cut : (readlen : ℕ) → (header : List ℕ) → Parsed → Bool
is_cut readlen header p = elim p.filename [
  | none ↦ readlen == 12
  | some name ↦
      odd_marker (drop (text_length p.scheme + text_length p.method + length name + 2) header)
]

-- `scheme == NULL || request == NULL`, or one of them is the wrong word.
pub is_refused : Parsed → Bool
is_refused p = elim p.scheme [
  | none ↦ true
  | some s ↦ elim p.method [
    | none ↦ true
    | some m ↦ not (str_eq s (codes "GETFILE")) || not (str_eq m (codes "GET"))
  ]
]

module _ (handler : Conn → Option (List ℕ) → Outcome (ℤ × Conn)) where
  -- The call of the handler, and the error header behind a negative result.
  unfoldable pub handle : Reply → Conn → Option (List ℕ) → Outcome Conn
  handle refusal c path = do
    (bytestransferred, c₁) ← handler c path
    if is_neg bytestransferred
        then (do (n, c₂) ← send_header refusal c₁ gf_error 0; ok c₂)
        else ok c₁

  -- The second `recv` of a request that was cut; the whole request is put together and parsed.
  serve_rest : Visit → Conn → (buffer header : List ℕ) → (total : ℕ) → Outcome (Conn × List ℕ)
  unfolding handle
  serve_rest v c buffer header total = do
    let buffer' = overwrite buffer (received v.second)
    let size = (total + read_length v.second) % u64_mod
    h₁ ← copy size header
    h₂ ← copy size (h₁ ++ c_str buffer')
    c' ← handle v.refusal c (parse h₂).filename
    ok (c', buffer')

  -- One client, up to the end of the loop's body: its connection and the buffer.
  pub serve_one : Visit → Conn → (buffer : List ℕ) → Outcome (Conn × List ℕ)
  unfolding serve_rest handle
  serve_one v c buffer = do
    let buffer₁ = overwrite buffer (received v.first)
    let readlen = read_length v.first
    header ← copy readlen (c_str buffer₁)
    let p = parse buffer₁
    if is_refused p
        then (do (n, c') ← send_header v.refusal c gf_file_not_found 0; ok (c', p.buffer))
        else if is_cut readlen header p
        then serve_rest v c p.buffer header readlen
        else (do c' ← handle v.refusal c p.filename; ok (c', p.buffer))

  -- The loop; a failing `accept` ends it. The result lists the connections in their order.
  serve_loop : List Visit → (buffer : List ℕ) → Outcome (List Conn)
  unfolding serve_one
  serve_loop [] buffer = starved
  serve_loop (v ∷ vs) buffer =
      let next = serve_loop vs in
      if not v.accepted then ok [] else do
        (c, buffer') ← serve_one v (record { sent = []; is_open = true }) buffer
        cs ← next buffer'
        ok (c ∷ cs)

  -- `gfserver_serve`, with the answers of `socket` and `listen`; those of `setsockopt` and `bind` are
  -- not used by the code.
  unfoldable pub serve :
      (socket_ok listen_ok : Bool) → List Visit → (memory : List ℕ) → Server → Outcome (List Conn)
  unfolding serve_loop
  serve socket_ok listen_ok vs memory gfs =
      if not socket_ok then ok [] else if not listen_ok then ok [] else serve_loop vs memory
