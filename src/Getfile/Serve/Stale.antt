-- ===== src/Getfile/Serve/Stale.antt =====
-- What `gfserver_serve` makes of a request that is shorter than what the buffer held.
use cs8803_introduction_to_o.Common.{
  ℕ, zero, suc, ◌+◌, ◌%◌, ◌<◌, ◌≡◌, ◌≢◌, refl, ap, Option, List, [], ◌∷◌, ◌++◌, arith, lt→leb,
  length, drop, length-append, Outcome, fault, ℤ, u64_mod,
}
use cs8803_introduction_to_o.CString.{c_str, fits}
use cs8803_introduction_to_o.Socket.{got, Conn}
use cs8803_introduction_to_o.Getfile.Serve.{Visit, serve_one}

-- No byte is a NUL.
abbrev pub Text : List ℕ → Type 0
Text [] = Unit {0}
Text (c ∷ t) = (c ≢ 0) × Text t

c_str-Text : (t m : List ℕ) → Text t → c_str (t ++ m) ≡ t ++ c_str m
c_str-Text [] m plain = refl
c_str-Text (zero ∷ t) m plain = absurd (plain.0 refl)
c_str-Text (suc c ∷ t) m plain = ap (λ u. suc c ∷ u) (c_str-Text t m plain.1)

fits-fault : (room : ℕ) (s : List ℕ) → room < length s + 1 → fits room s ≡ fault
unfolding fits
fits-fault room s h = rw (lt→leb (length s + 1) room h)

-- If a client's first bytes hold no NUL and are followed, in the buffer that all clients share, by a
-- byte that is no NUL, the server's copy of the request overruns its allocation, whatever the
-- handler does.
pub serve_one-stale :
    (handler : Conn → Option (List ℕ) → Outcome (ℤ × Conn)) (v : Visit) (c : Conn)
    (bytes buffer : List ℕ) (b : ℕ) (old : List ℕ)
    → Text bytes
    → v.first ≡ got bytes
    → length bytes + 1 < u64_mod
    → drop (length bytes) buffer ≡ suc b ∷ old
    → serve_one handler v c buffer ≡ fault
unfolding serve_one
serve_one-stale handler v c bytes buffer b old plain first small behind =
    rw
      (
        first,
        behind,
        c_str-Text bytes (suc b ∷ old) plain,
        fits-fault ((length bytes + 1) % u64_mod) (bytes ++ suc b ∷ c_str old)
            (omega (arith, length-append bytes (suc b ∷ c_str old))),
      )
      refl
