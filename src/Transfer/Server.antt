-- ===== src/Transfer/Server.antt =====
-- `main` of proj1/transferfile/transferserver.c.
pub mod Session
use cs8803_introduction_to_o.Common.{
  ℕ, Bool, true, false, List, [], ◌∷◌, not, if◌then◌else◌, Outcome, ok, fault, exited, starved,
  ◌>>=◌,
}
use cs8803_introduction_to_o.Socket.{Reply, Recv, Conn, close}
use cs8803_introduction_to_o.Transfer.Options.{ServerOptions, server_defaults, server_options}
use cs8803_introduction_to_o.Transfer.Copying.{send_loop, receive_loop}

-- The answers of `socket`, `bind` and `listen`; the one of `setsockopt` is only printed.
record Listening : Type 0 where
  pub socket_ok : Bool
  pub bind_ok : Bool
  pub listen_ok : Bool

set_up : Listening → Outcome (Unit {0})
set_up l =
    if not l.socket_ok
    then exited 1
    else if not l.bind_ok
    then exited 1
    else if not l.listen_ok
    then exited 1
    else ok tt

abbrev pub fresh : Conn
fresh = record { sent = []; is_open = true }

-- The answers to the calls that take one client's file.
pub record Upload : Type 0 where
  pub accepted : Bool
  pub host_known : Bool
  pub opened : Bool
  pub rounds : List (Recv × Reply)

-- The first half of the loop: what is written to receivedfromclient.txt. A host without a name is
-- reported, and its entry, a null pointer, is read all the same. A failing `recv` is only reported.
pub take_upload : Upload → Outcome (List ℕ)
take_upload u =
    if not u.accepted
    then exited 1
    else if not u.host_known
    then fault
    else if not u.opened
    then exited 1
    else do (written, ending) ← receive_loop u.rounds []; ok written

-- The answers to the calls that give a client the server's file, and that file.
pub record Download : Type 0 where
  pub accepted : Bool
  pub host_known : Bool
  pub opened : Bool
  pub rounds : List (Reply × Reply)
  pub file : List ℕ

-- The second half: the connection on which the file was sent.
pub give_download : Download → Outcome Conn
give_download d =
    if not d.accepted
    then exited 1
    else if not d.host_known
    then fault
    else if not d.opened
    then exited 1
    else do c ← send_loop d.rounds d.file 0 fresh; ok (close c)

-- The loop over the clients, as far as they are listed: what each one left and was sent, the last
-- one first. The code's loop has no other end than `exit`.
serve : List (Upload × Download) → (log : List (List ℕ × Conn)) → Outcome (List (List ℕ × Conn))
unfolding take_upload give_download
serve [] log = ok log
serve ((u, d) ∷ visits) log = do
  saved ← take_upload u
  c ← give_download d
  serve visits ((saved, c) ∷ log)

-- `main`, up to the last client that is listed.
unfoldable main :
    List (ℕ × List ℕ) → Listening → List (Upload × Download) → Outcome (List (List ℕ × Conn))
unfolding set_up serve
main argv l visits = do
  options ← server_options argv server_defaults
  ready ← set_up l
  serve visits []
