-- ===== src/Proxy/Options.antt =====
-- The command lines of proj3: webproxy.c, webproxy_curl.c and simplecached.c.
use cs8803_introduction_to_o.Common.{
  ℕ, ◌≡◌, refl, Option, none, some, List, [], ◌∷◌, ◌==◌, ◌||◌, Bool, if◌then◌else◌, Outcome, ok,
  exited, ℤ, pos, wrap, u16_mod, Bool-cases, inl, inr, ==→eq,
}
use cs8803_introduction_to_o.CString.{codes, atol}
use cs8803_introduction_to_o.Getopt.{each_option, given, first_other, given-cons}

-- The variables of `main` and the globals that the options of webproxy.c set.
pub record Options : Type 0 where
  pub port : ℕ
  pub nworkerthreads : ℕ
  pub server : List ℕ
  pub segments : ℤ
  pub segment_size : ℤ

abbrev pub defaults : Options
defaults = record {
  port = 8888;
  nworkerthreads = 1;
  server = codes "s3.amazonaws.com/content.udacity-data.com";
  segments = pos 1;
  segment_size = pos 1024;
}

-- `port` and `nworkerthreads` are an `unsigned short`.
abbrev pub to_short : List ℕ → ℕ
to_short optarg = wrap u16_mod (atol optarg)

-- The body of the loop over "p:t:s:h:n:z:".
pub webproxy_option : ℕ → List ℕ → Options → Outcome Options
webproxy_option c optarg o =
    if c == b'p'
    then ok (record o { port = to_short optarg })
    else if c == b't'
    then ok (record o { nworkerthreads = to_short optarg })
    else if c == b's'
    then ok (record o { server = optarg })
    else if c == b'n'
    then ok (record o { segments = atol optarg })
    else if c == b'z'
    then ok (record o { segment_size = atol optarg })
    else if c == b'h'
    then exited 0
    else exited 1

-- The options that set something.
abbrev sets : ℕ → Bool
sets c = c == b'p' || (c == b't' || (c == b's' || (c == b'n' || c == b'z')))

-- The options in force: of each the last.
all_given : List (ℕ × List ℕ) → Options → Options
all_given argv o = record {
  port = given b'p' to_short argv o.port;
  nworkerthreads = given b't' to_short argv o.nworkerthreads;
  server = given b's' (λ optarg. optarg) argv o.server;
  segments = given b'n' atol argv o.segments;
  segment_size = given b'z' atol argv o.segment_size;
}

settled : Option ℕ → Options → Outcome Options
settled none o = ok o
settled (some c) o = if c == b'h' then exited 0 else exited 1

-- What the command line of webproxy.c says.
unfoldable pub last_of_each : List (ℕ × List ℕ) → Options → Outcome Options
unfolding settled all_given
last_of_each argv o = settled (first_other sets argv) (all_given argv o)

all_given-cons :
    (c : ℕ) (optarg : List ℕ) (argv : List (ℕ × List ℕ)) (o : Options)
    → all_given ((c, optarg) ∷ argv) o
      ≡ all_given argv (record {
        port = if c == b'p' then to_short optarg else o.port;
        nworkerthreads = if c == b't' then to_short optarg else o.nworkerthreads;
        server = if c == b's' then optarg else o.server;
        segments = if c == b'n' then atol optarg else o.segments;
        segment_size = if c == b'z' then atol optarg else o.segment_size;
      })
unfolding all_given
all_given-cons c optarg argv o =
    rw
      (
        given-cons b'p' to_short c optarg argv o.port,
        given-cons b't' to_short c optarg argv o.nworkerthreads,
        given-cons b's' (λ a. a) c optarg argv o.server,
        given-cons b'n' atol c optarg argv o.segments,
        given-cons b'z' atol c optarg argv o.segment_size,
      )
      refl

-- The loop over the command line of webproxy.c, whatever getopt_long gives, does the same as this
-- reading: if some option is none of -p, -t, -s, -n and -z, the first such option ends the program,
-- with status 0 for -h and 1 for any other; else each variable has the value of the last argument of
-- its option, and keeps its value if there is none.
pub options-last :
    (argv : List (ℕ × List ℕ)) (o : Options)
    → each_option webproxy_option argv o ≡ last_of_each argv o
unfolding each_option webproxy_option first_other last_of_each
options-last [] o = unfold all_given given in refl
options-last ((c, optarg) ∷ argv) o =
    rw (all_given-cons c optarg argv o) (elim (Bool-cases (c == b'p')) [
      | inl e ↦ rw (==→eq c b'p' e) (options-last argv (record o { port = to_short optarg }))
      | inr not_p ↦ elim (Bool-cases (c == b't')) [
        | inl e ↦
            rw (==→eq c b't' e) (options-last argv (record o { nworkerthreads = to_short optarg }))
        | inr not_t ↦ elim (Bool-cases (c == b's')) [
          | inl e ↦ rw (==→eq c b's' e) (options-last argv (record o { server = optarg }))
          | inr not_s ↦ elim (Bool-cases (c == b'n')) [
            | inl e ↦ rw (==→eq c b'n' e) (options-last argv (record o { segments = atol optarg }))
            | inr not_n ↦ elim (Bool-cases (c == b'z')) [
              | inl e ↦
                  rw (==→eq c b'z' e) (options-last argv (record o { segment_size = atol optarg }))
              | inr not_z ↦ elim (Bool-cases (c == b'h')) [
                | inl e ↦ rw (==→eq c b'h' e) refl
                | inr not_h ↦ rw (not_p, not_t, not_s, not_n, not_z, not_h) refl
              ]
            ]
          ]
        ]
      ]
    ])
