-- ===== src/Getfile/Serve/Understood.antt =====
-- A request of the client library, as `gfserver_serve` reads it.
use cs8803_introduction_to_o.Common.{
  ℕ, zero, suc, ◌+◌, ◌%◌, ◌<◌, ◌≡◌, refl, ◌≢◌, ap, ◌∙◌, false, Option, some, List, [], ◌∷◌, ◌++◌,
  arith, length, drop, drop-append, Outcome, ok, ◌>>=◌, ℤ, u64_mod,
}
use mathlib.Core.List.{append_assoc}
use cs8803_introduction_to_o.CString.{codes, c_str, strtok}
use cs8803_introduction_to_o.CString.Tokens.{Plain, ended, strtok-ended}
use cs8803_introduction_to_o.Socket.{got, Conn}
use cs8803_introduction_to_o.Getfile.Response.{crlf2}
use cs8803_introduction_to_o.CString.{fits-ok}
use cs8803_introduction_to_o.Getfile.Client.Transfer.{request_text}
use cs8803_introduction_to_o.Getfile.Serve.{
  Visit, Parsed, parsed, parse, is_cut, is_refused, handle, serve_one,
}

-- The buffer ends behind the new bytes, or has a NUL there.
abbrev pub Clean : List ℕ → Type 0
Clean [] = Unit {0}
Clean (c ∷ m) = c ≡ 0

c_str-Plain : (ds t m : List ℕ) → Plain ds t → c_str (t ++ m) ≡ t ++ c_str m
c_str-Plain ds [] m plain = refl
c_str-Plain ds (zero ∷ t) m plain = absurd (plain.0 refl)
c_str-Plain ds (suc c ∷ t) m plain = ap (λ u. suc c ∷ u) (c_str-Plain ds t m plain.2)

c_str-Clean : (m : List ℕ) → Clean m → ◌≡◌ {A = List ℕ} (c_str m) []
c_str-Clean [] clean = refl
c_str-Clean (zero ∷ m) clean = refl
c_str-Clean (suc c ∷ m) clean = absurd (omega arith)

-- The request is read as it was written.
header_copy :
    (path rest : List ℕ)
    → Plain (codes " \r\n") path
    → Clean rest
    → c_str (request_text path ++ rest) ≡ request_text path
header_copy path rest plain clean =
    ap (λ m. codes "GETFILE GET " ++ m)
      (ap c_str (append_assoc path crlf2 rest)
        ∙ c_str-Plain (codes " \r\n") path (crlf2 ++ rest) plain
        ∙ ap (λ m. path ++ (crlf2 ++ m)) (c_str-Clean rest clean))

scheme_token : (m : List ℕ) → strtok (codes " ") (codes "GETFILE " ++ m) ≡ ended (codes "GETFILE") m
unfolding strtok
scheme_token m = refl

method_token : (m : List ℕ) → strtok (codes " ") (codes "GET " ++ m) ≡ ended (codes "GET") m
unfolding strtok
method_token m = refl

-- The buffer after the three calls of `strtok`.
abbrev parsed_buffer : (path rest : List ℕ) → List ℕ
parsed_buffer path rest =
    codes "GETFILE" ++ 0 ∷ codes "GET" ++ (0 ∷ (path ++ 0 ∷ [])) ++ (codes "\n\r\n" ++ rest)

abbrev pub request_parsed : (path rest : List ℕ) → Parsed
request_parsed path rest =
    parsed (ended (codes "GETFILE") []) (ended (codes "GET") [])
      (ended path (codes "\n\r\n" ++ rest))

parse_request :
    (c : ℕ) (t rest : List ℕ)
    → Plain (codes " \r\n") (c ∷ t)
    → parse (request_text (c ∷ t) ++ rest) ≡ request_parsed (c ∷ t) rest
unfolding parse
parse_request c t rest plain =
    let after_method = ((c ∷ t) ++ crlf2) ++ rest in
    let last = λ (m : List ℕ). strtok (codes " \r\n") m in
    ap (λ t₁. parsed t₁ (strtok (codes " ") t₁.rest) (last (strtok (codes " ") t₁.rest).rest))
      (scheme_token (codes "GET " ++ after_method))
    ∙ ap (λ t₂. parsed (ended (codes "GETFILE") []) t₂ (last t₂.rest)) (method_token after_method)
    ∙ ap (λ t₃. parsed (ended (codes "GETFILE") []) (ended (codes "GET") []) t₃)
        (ap last (append_assoc (c ∷ t) crlf2 rest)
          ∙ strtok-ended (codes " \r\n") c t (codes "\n\r\n" ++ rest) b'\r' plain (omega arith)
              refl)

not_cut :
    (path rest : List ℕ) (readlen : ℕ)
    → is_cut readlen (request_text path) (request_parsed path rest) ≡ false
unfolding is_cut
not_cut path rest readlen = rw marker refl
  where
    marker : drop (7 + 3 + length path + 2) (request_text path) ≡ crlf2
    marker = ap (λ k. drop k (request_text path)) (offset (length path)) ∙ drop-append path crlf2
      where
        offset :
            (n : ℕ)
            → 7 + 3 + n + 2
              ≡ suc (suc (suc (suc (suc (suc (suc (suc (suc (suc (suc (suc n)))))))))))
        offset n = omega arith

module _ (handler : Conn → Option (List ℕ) → Outcome (ℤ × Conn)) where
  -- A request of the client library for a nonempty path without blanks, line ends or NULs, that
  -- arrives in one chunk with the end of the buffer or a NUL behind it: the server copies and parses
  -- it and calls the handler once, with exactly that path.
  pub serve_one-request :
      (v : Visit) (c : Conn) (path buffer : List ℕ)
      → Plain (codes " \r\n") path
      → path ≢ []
      → v.first ≡ got (request_text path)
      → length (request_text path) + 1 < u64_mod
      → Clean (drop (length (request_text path)) buffer)
      → serve_one handler v c buffer ≡ (
          handle handler v.refusal c (some path) >>= λ c'.
          ok (c', (request_parsed path (drop (length (request_text path)) buffer)).buffer))
  unfolding serve_one is_refused
  serve_one-request v c [] buffer plain ne first small clean = absurd (ne refl)
  serve_one-request v c (b ∷ t) buffer plain ne first small clean =
      let path = b ∷ t in
      let rest = drop (length (request_text path)) buffer in
      rw
        (
          first,
          header_copy path rest plain clean,
          fits-ok ((length (request_text path) + 1) % u64_mod) (request_text path) (omega arith),
          parse_request b t rest plain,
          not_cut path rest (length (request_text path)),
        )
        refl
