-- ===== src/Transfer/Client.antt =====
-- `main` of proj1/transferfile/transferclient.c.
pub mod Address
use cs8803_introduction_to_o.Common.{
  ℕ, Bool, true, false, List, [], ◌∷◌, not, if◌then◌else◌, Outcome, ok, fault, exited, starved,
  ◌>>=◌, Option, none, some,
}
use cs8803_introduction_to_o.Socket.{Reply, Recv, Conn, close}
use cs8803_introduction_to_o.Transfer.Options.{ClientOptions, client_defaults, client_options}
use cs8803_introduction_to_o.Transfer.Copying.{send_loop, receive_loop, Ending, closed, lost}

-- An address and a port.
pub record Peer : Type 0 where
  pub address : ℕ
  pub port : ℕ

-- The answers of `socket` and `connect`.
pub record Dial : Type 0 where
  pub socket_ok : Bool
  pub connect_ok : Bool

unfoldable pub connect : Dial → Outcome Conn
connect d =
    if not d.socket_ok
    then exited 1
    else if not d.connect_ok
    then exited 1
    else ok (record { sent = []; is_open = true })

-- The answers to the calls of one run, and the file that is sent. `again` says that a failing `recv`
-- left EAGAIN in `errno`.
pub record Run : Type 0 where
  pub first : Dial
  pub source_opened : Bool
  pub file : List ℕ
  pub sending : List (Reply × Reply)
  pub second : Dial
  pub target_opened : Bool
  pub receiving : List (Recv × Reply)
  pub again : Bool

-- The first connection: the file is sent to the server.
unfoldable pub upload : Run → Outcome Conn
unfolding connect
upload r = do
  c ← connect r.first
  if not r.source_opened then exited 1 else do c' ← send_loop r.sending r.file 0 c; ok (close c')

-- How the program goes on behind the loop that receives.
unfoldable pub after_receiving : (again : Bool) → List ℕ × Ending → Outcome (List ℕ)
after_receiving again (written, closed) = ok written
after_receiving true (written, lost) = ok written
after_receiving false (written, lost) = exited 1

-- The second connection: what is written to receivedfromserver.txt.
unfoldable pub download : Run → Outcome (List ℕ)
unfolding connect after_receiving
download r = do
  c ← connect r.second
  if not r.target_opened
      then exited 1
      else do received ← receive_loop r.receiving []; after_receiving r.again received

-- What a run leaves behind.
pub record Result : Type 0 where
  pub peer : Peer
  pub upload_conn : Conn
  pub saved : List ℕ

-- `main`: the address is looked up before the options are read.
unfoldable pub main : (gethostbyname : List ℕ → Option ℕ) → List (ℕ × List ℕ) → Run → Outcome Result
unfolding upload download
main gethostbyname argv r = elim (gethostbyname client_defaults.hostname) [
  | none ↦ fault
  | some address ↦ do
    options ← client_options argv client_defaults
    c ← upload r
    saved ← download r
    ok (record {
      peer = record { address = address; port = options.portno };
      upload_conn = c;
      saved = saved;
    })
]
