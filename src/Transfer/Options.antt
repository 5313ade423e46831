-- ===== src/Transfer/Options.antt =====
-- The command lines of transferserver.c and transferclient.c: what `getopt` returns, one by one.
use cs8803_introduction_to_o.Common.{
  ℕ, List, [], ◌∷◌, ◌==◌, if◌then◌else◌, Outcome, ok, exited, ℤ, pos, u16_mod, wrap,
}
use cs8803_introduction_to_o.CString.{codes, atol}

pub record ServerOptions : Type 0 where
  pub portno : ℤ
  pub filename : List ℕ

abbrev pub server_defaults : ServerOptions
server_defaults = record { portno = pos 8888; filename = codes "bar.txt" }

-- The loop over "p:f:h" of transferserver.c.
unfoldable pub server_options : List (ℕ × List ℕ) → ServerOptions → Outcome ServerOptions
server_options [] o = ok o
server_options ((c, optarg) ∷ rest) o =
    let go = λ (o' : ServerOptions). server_options rest o' in
    if c == b'p'
    then go (record o { portno = atol optarg })
    else if c == b'f'
    then go (record o { filename = optarg })
    else if c == b'h'
    then exited 0
    else exited 1

pub record ClientOptions : Type 0 where
  pub hostname : List ℕ
  pub portno : ℕ
  pub filename : List ℕ

abbrev pub client_defaults : ClientOptions
client_defaults = record { hostname = codes "localhost"; portno = 8888; filename = codes "foo.txt" }

-- The loop over "s:p:o:h" of transferclient.c; the port is an `unsigned short`.
unfoldable pub client_options : List (ℕ × List ℕ) → ClientOptions → Outcome ClientOptions
client_options [] o = ok o
client_options ((c, optarg) ∷ rest) o =
    let go = λ (o' : ClientOptions). client_options rest o' in
    if c == b's'
    then go (record o { hostname = optarg })
    else if c == b'p'
    then go (record o { portno = wrap u16_mod (atol optarg) })
    else if c == b'o'
    then go (record o { filename = optarg })
    else if c == b'h'
    then exited 0
    else exited 1
