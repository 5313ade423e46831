-- ===== src/Examples/Servers.antt =====
-- The GETFILE server and the proxy as programs, on short command lines.
use cs8803_introduction_to_o.Common.{
  ℕ, ◌≡◌, refl, true, false, Option, none, some, List, [], ◌∷◌, if◌then◌else◌, inl, pos,
}
use cs8803_introduction_to_o.CString.{codes, str_eq}
use cs8803_introduction_to_o.Socket.{moved, broken}
use cs8803_introduction_to_o.Getopt.{each_option}
use cs8803_introduction_to_o.Getfile.Main
use cs8803_introduction_to_o.Getfile.Main.{Environment, main-content_txt}
use cs8803_introduction_to_o.Proxy.Options.{
  Options, defaults, webproxy_option, last_of_each, options-last,
}
use cs8803_introduction_to_o.Proxy.Webproxy

-- No file is served, and the first client cannot be accepted.
abbrev environment : Environment
environment = record {
  fopen = λ name. some [];
  open_file = λ name. none;
  qsort = λ items. items;
  file_of = λ fildes. [];
  header = moved 1;
  rounds = [];
  socket_ok = true;
  listen_ok = true;
  visits = record { accepted = false; first = broken; second = broken; refusal = moved 1 } ∷ [];
  memory = [];
  server_memory = record { port = 0; max_npending = pos 0 };
}

-- Another disk, with the same file list.
abbrev other_files : List ℕ → Option (List ℕ)
other_files name = if str_eq name (codes "content.txt") then some [] else none

abbrev port_80 : List (ℕ × List ℕ)
port_80 = (b'p', codes "80") ∷ []

main-content_txt_example :
    Main.main environment port_80 ≡ Main.main (record environment { fopen = other_files }) port_80
main-content_txt_example = main-content_txt environment other_files port_80 (inl refl, tt) refl

-- Two workers, and the last of two numbers of segments.
abbrev command_line : List (ℕ × List ℕ)
command_line = (b'n', codes "3") ∷ (b't', codes "2") ∷ (b'n', codes "4") ∷ []

abbrev read : Options
read = record defaults { nworkerthreads = 2; segments = pos 4 }

options-last_example :
    each_option webproxy_option command_line defaults ≡ last_of_each command_line defaults
options-last_example = options-last command_line defaults
