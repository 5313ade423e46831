-- ===== src/Transfer/Client/Address.antt =====
-- Where transferclient.c connects to.
use cs8803_introduction_to_o.Common.{ℕ, ◌≡◌, Option, some, List, arith, ok}
use cs8803_introduction_to_o.CString.{codes}
use cs8803_introduction_to_o.Transfer.Client.{Run, Result, main}

-- Whenever the transfer client ends normally, the address it used is the one of "localhost",
-- whatever its options say.
pub main-localhost :
    (gethostbyname : List ℕ → Option ℕ) (argv : List (ℕ × List ℕ)) (r : Run) {result : Result}
    → main gethostbyname argv r ≡ ok result
    → gethostbyname (codes "localhost") ≡ some result.peer.address
unfolding main
main-localhost gethostbyname argv r out = ground arith
