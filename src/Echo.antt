-- ===== src/Echo.antt =====
-- The echo programs of proj1, server.c and client.c.
pub mod Answer
use cs8803_introduction_to_o.Common.{
  ℕ, ◌%◌, Bool, true, false, Option, none, some, List, [], ◌∷◌, ◌++◌, ◌==◌, leb, not, if◌then◌else◌,
  length, Outcome, ok, fault, exited, starved, ◌>>=◌, ℤ, pos, is_neg, u16_mod, wrap,
}
use cs8803_introduction_to_o.CString.{codes, c_str, atol}
use cs8803_introduction_to_o.Socket.{Reply, Recv, broken, got, Conn, buffer_size, write, close}

record ServerOptions : Type 0 where
  pub portno : ℤ
  pub maxnpending : ℤ

abbrev server_defaults : ServerOptions
server_defaults = record { portno = pos 8888; maxnpending = pos 5 }

-- The loop over "p:n:h" of server.c.
server_options : List (ℕ × List ℕ) → ServerOptions → Outcome ServerOptions
server_options [] o = ok o
server_options ((c, optarg) ∷ rest) o =
    let go = λ (o' : ServerOptions). server_options rest o' in
    if c == b'p'
    then go (record o { portno = atol optarg })
    else if c == b'n'
    then go (record o { maxnpending = atol optarg })
    else if c == b'h'
    then exited 0
    else exited 1

-- The text in the zeroed buffer after a read. A full buffer has no terminator: what is behind it is
-- read, which faults.
buffer_text : List ℕ → Outcome (List ℕ)
buffer_text bytes = if leb buffer_size (length (c_str bytes)) then fault else ok (c_str bytes)

-- One client of the echo server. A failing `accept` is only reported: the calls on the descriptor -1
-- fail too. Failing reads and writes are reported; a failed read leaves the buffer empty.
pub record Visit : Type 0 where
  pub accepted : Bool
  pub host_known : Bool
  pub request : Recv
  pub answer : Reply

-- The bytes that `read` leaves in the buffer.
abbrev received : (accepted : Bool) → Recv → List ℕ
received false r = []
received true broken = []
received true (got bytes) = bytes

-- The body of the loop; a host without a name is a null pointer that is read.
pub serve_one : Visit → Outcome Conn
unfolding buffer_text
serve_one v = if not v.host_known then fault else do
  text ← buffer_text (received v.accepted v.request)
  ok (close (write v.answer text (record { sent = []; is_open = v.accepted })).1)

-- The loop over the clients that are listed.
serve_loop : List Visit → Outcome (List Conn)
unfolding serve_one
serve_loop [] = ok []
serve_loop (v ∷ vs) = do c ← serve_one v; cs ← serve_loop vs; ok (c ∷ cs)

-- `main` of server.c, with the answers of `socket`, `bind` and `listen`, as far as the listed clients.
unfoldable serve :
    List (ℕ × List ℕ) → (socket_ok bind_ok listen_ok : Bool) → List Visit → Outcome (List Conn)
unfolding serve_loop server_options
serve argv socket_ok bind_ok listen_ok visits = do
  options ← server_options argv server_defaults
  if not socket_ok
      then exited 1
      else if not bind_ok
      then exited 1
      else if not listen_ok
      then exited 1
      else serve_loop visits

record ClientOptions : Type 0 where
  pub hostname : List ℕ
  pub portno : ℕ
  pub message : List ℕ

abbrev client_defaults : ClientOptions
client_defaults = record {
  hostname = codes "localhost";
  portno = 8888;
  message = codes "Hello World!";
}

-- The loop over "s:p:m:h" of client.c.
unfoldable client_options : List (ℕ × List ℕ) → ClientOptions → Outcome ClientOptions
client_options [] o = ok o
client_options ((c, optarg) ∷ rest) o =
    let go = λ (o' : ClientOptions). client_options rest o' in
    if c == b's'
    then go (record o { hostname = optarg })
    else if c == b'p'
    then go (record o { portno = wrap u16_mod (atol optarg) })
    else if c == b'm'
    then go (record o { message = optarg })
    else if c == b'h'
    then exited 0
    else exited 1

-- The answers of the calls of client.c.
record Dial : Type 0 where
  pub socket_ok : Bool
  pub connect_ok : Bool
  pub sending : Reply
  pub response : Recv

-- What a run leaves: where it connected, what it sent, and the echo that it prints.
record Result : Type 0 where
  pub address : ℕ
  pub port : ℕ
  pub sent : List ℕ
  pub echo : List ℕ

print_response : Recv → Outcome (List ℕ)
unfolding buffer_text
print_response broken = exited 1
print_response (got bytes) = buffer_text bytes

-- `main` of client.c: the address is looked up before the options are read.
unfoldable main : (gethostbyname : List ℕ → Option ℕ) → List (ℕ × List ℕ) → Dial → Outcome Result
unfolding print_response
main gethostbyname argv d = elim (gethostbyname client_defaults.hostname) [
  | none ↦ fault
  | some address ↦ do
    options ← client_options argv client_defaults
    if not d.socket_ok then exited 1 else if not d.connect_ok then exited 1 else do
      let (n, c) = write d.sending options.message (record { sent = []; is_open = true })
      if is_neg n then exited 1 else do
        echo ← print_response d.response
        ok (record { address = address; port = options.portno; sent = c.sent; echo = echo })
]
