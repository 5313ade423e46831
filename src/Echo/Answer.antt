-- ===== src/Echo/Answer.antt =====
-- What the echo server answers.
use cs8803_introduction_to_o.Common.{
  ℕ, zero, suc, ◌≤◌, ◌<◌, ◌≡◌, ◌≢◌, refl, ap, true, false, List, [], ◌∷◌, ◌++◌, arith, lt→leb,
  le→leb, length, ok, fault,
}
use cs8803_introduction_to_o.CString.{c_str}
use cs8803_introduction_to_o.Socket.{moved, got, buffer_size, close}
use cs8803_introduction_to_o.Getfile.Handler.Success.{write_all}
use cs8803_introduction_to_o.Echo.{Visit, serve_one}

-- The bytes in front of the first NUL.
abbrev pub Text : List ℕ → Type 0
Text [] = Unit {0}
Text (c ∷ t) = (c ≢ 0) × Text t

c_str-nul : (text rest : List ℕ) → Text text → c_str (text ++ 0 ∷ rest) ≡ text
c_str-nul [] rest plain = refl
c_str-nul (zero ∷ t) rest plain = absurd (plain.0 refl)
c_str-nul (suc c ∷ t) rest plain = ap (λ u. suc c ∷ u) (c_str-nul t rest plain.1)

c_str-Text : (text : List ℕ) → Text text → c_str text ≡ text
c_str-Text [] plain = refl
c_str-Text (zero ∷ t) plain = absurd (plain.0 refl)
c_str-Text (suc c ∷ t) plain = ap (λ u. suc c ∷ u) (c_str-Text t plain.1)

module _ (v : Visit) (accepted : v.accepted ≡ true) (known : v.host_known ≡ true) where
  -- The echo server with a client that it accepted and whose host has a name: a message that arrives
  -- in one read, whose text up to its first NUL is shorter than the buffer, is sent back up to that
  -- NUL, when the write takes it whole, and the connection is closed.
  pub serve_one-Text :
      (text rest : List ℕ) (j : ℕ)
      → Text text
      → length text < buffer_size
      → length text ≤ j
      → v.request ≡ got (text ++ 0 ∷ rest)
      → v.answer ≡ moved j
      → serve_one v ≡ ok (record { sent = text; is_open = false })
  unfolding serve_one close
  serve_one-Text text rest j plain small room arrives answers =
      rw
        (
          known,
          accepted,
          arrives,
          answers,
          c_str-nul text rest plain,
          lt→leb buffer_size (length text) small,
          write_all j text (record { sent = []; is_open = true }) refl room,
        )
        refl

  pub serve_one-whole :
      (text : List ℕ) (j : ℕ)
      → Text text
      → length text < buffer_size
      → length text ≤ j
      → v.request ≡ got text
      → v.answer ≡ moved j
      → serve_one v ≡ ok (record { sent = text; is_open = false })
  unfolding serve_one close
  serve_one-whole text j plain small room arrives answers =
      rw
        (
          known,
          accepted,
          arrives,
          answers,
          c_str-Text text plain,
          lt→leb buffer_size (length text) small,
          write_all j text (record { sent = []; is_open = true }) refl room,
        )
        refl

  -- The echo server with a client that it accepted and whose host has a name: a message without a
  -- NUL that fills the buffer makes it read behind the buffer.
  pub serve_one-full :
      (text : List ℕ)
      → Text text
      → length text ≡ buffer_size
      → v.request ≡ got text
      → serve_one v ≡ fault
  unfolding serve_one
  serve_one-full text plain full arrives =
      rw
        (
          known,
          accepted,
          arrives,
          c_str-Text text plain,
          le→leb buffer_size (length text) (omega arith),
        )
        refl
