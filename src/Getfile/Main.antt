-- ===== src/Getfile/Main.antt =====
-- The GETFILE server as a program, proj1/getfile/gfserver_main.c.
use cs8803_introduction_to_o.Common.{
  ℕ, ◌≡◌, refl, ◌⊎◌, inl, inr, Option, List, [], ◌∷◌, ◌==◌, Bool, if◌then◌else◌, Outcome, ok,
  exited, ◌>>=◌, pos, wrap, u16_mod,
}
use cs8803_introduction_to_o.CString.{codes, atol}
use cs8803_introduction_to_o.Getopt.{each_option}
use cs8803_introduction_to_o.Socket.{Reply, Conn}
use cs8803_introduction_to_o.Getfile.Content.{Item, content_init, content_get}
use cs8803_introduction_to_o.Getfile.Handler.{Round, handler_get}
use cs8803_introduction_to_o.Getfile.Serve.{Server, Visit, create, set_port, set_maxpending, serve}

record Options : Type 0 where
  pub port : ℕ
  pub content : List ℕ

abbrev defaults : Options
defaults = record { port = 8888; content = codes "content.txt" }

-- The body of the loop over "p:t:s:h".
server_option : ℕ → List ℕ → Options → Outcome Options
server_option c optarg o =
    if c == b'p'
    then ok (record o { port = wrap u16_mod (atol optarg) })
    else if c == b'c'
    then ok (record o { content = optarg })
    else if c == b'h'
    then exited 0
    else exited 1

-- What the environment gives to a run of the program: the files by their names and descriptors, the
-- answers of the calls, and the clients. Every call of the handler gets the same answers.
pub record Environment : Type 0 where
  pub fopen : List ℕ → Option (List ℕ)
  pub open_file : List ℕ → Option ℕ
  pub qsort : List Item → List Item
  pub file_of : ℕ → List ℕ
  pub header : Reply
  pub rounds : List Round
  pub socket_ok : Bool
  pub listen_ok : Bool
  pub visits : List Visit
  pub memory : List ℕ
  pub server_memory : Server

-- The lines of `main` behind the options, which end with the loop over the clients.
run : Environment → Options → Outcome (List Conn)
run e o = do
  items ← content_init e.open_file e.qsort (e.fopen o.content)
  let gfs = set_maxpending (set_port (create e.server_memory) o.port) (pos 100)
  serve (handler_get (content_get items) e.file_of e.header e.rounds) e.socket_ok e.listen_ok
      e.visits e.memory gfs

pub main : Environment → (argv : List (ℕ × List ℕ)) → Outcome (List Conn)
unfolding run each_option server_option
main e argv = each_option server_option argv defaults >>= run e

-- What `getopt` may give for "p:t:s:h": these options, and a question mark for any other.
abbrev pub Offered : List (ℕ × List ℕ) → Type 0
Offered [] = Unit {0}
Offered ((c, optarg) ∷ argv) =
    ((c ≡ b'p') ⊎ ((c ≡ b't') ⊎ ((c ≡ b's') ⊎ ((c ≡ b'h') ⊎ (c ≡ b'?'))))) × Offered argv

-- The options end the program or leave the name of the file list alone.
each_option-content :
    (argv : List (ℕ × List ℕ)) (o : Options)
    → Offered argv
    → ((n : ℕ) × (each_option server_option argv o ≡ exited n))
      ⊎ ((o' : Options) × (each_option server_option argv o ≡ ok o') × (o'.content ≡ o.content))
unfolding each_option server_option
each_option-content [] o offered = inr (o, refl, refl)
each_option-content ((c, optarg) ∷ argv) o (offered, rest) = elim offered [
  | inl e ↦ rw e (each_option-content argv (record o { port = wrap u16_mod (atol optarg) }) rest)
  | inr (inl e) ↦ inl (1, rw e refl)
  | inr (inr (inl e)) ↦ inl (1, rw e refl)
  | inr (inr (inr (inl e))) ↦ inl (0, rw e refl)
  | inr (inr (inr (inr e))) ↦ inl (1, rw e refl)
]

-- The GETFILE server's program on any options that getopt can give for its option string: what it
-- does depends on no file list but content.txt, so that two disks with the same content.txt give the
-- same run.
pub main-content_txt :
    (e : Environment) (fopen : List ℕ → Option (List ℕ)) (argv : List (ℕ × List ℕ))
    → Offered argv
    → e.fopen (codes "content.txt") ≡ fopen (codes "content.txt")
    → main e argv ≡ main (record e { fopen = fopen }) argv
unfolding main run
main-content_txt e fopen argv offered same = elim (each_option-content argv defaults offered) [
  | inl (n, ends) ↦ rw ends refl
  | inr (o', settled, kept) ↦ rw (settled, kept, same) refl
]
