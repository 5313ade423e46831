-- ===== src/Getfile/Client/Header.antt =====
-- The analysis of the first bytes by `gfc_perform`, when they hold a whole announcement.
use cs8803_introduction_to_o.Common.{
  ℕ, ◌+◌, ◌%◌, ◌≤◌, ◌<◌, ◌≡◌, refl, sym, ap, ◌∙◌, subst, true, List, ◌∷◌, ◌++◌, arith, le→leb,
  lt→leb, length, take, drop, length-append, take-append, drop-append, ok, sub64, u64_mod,
}
use mathlib.Core.List.{append_assoc}
use cs8803_introduction_to_o.CString.{codes, strtok, decimal}
use cs8803_introduction_to_o.CString.Decimal.{decimal-Digits, decimal-cons, atol-decimal, Digits}
use cs8803_introduction_to_o.CString.Tokens.{ended, strtok-ended, strtok_nodelim, Digits-Plain}
use cs8803_introduction_to_o.Socket.{buffer_size, overwrite}
use cs8803_introduction_to_o.Getfile.Response.{crlf2}
use cs8803_introduction_to_o.Getfile.Response.Header.{announce}
use cs8803_introduction_to_o.Getfile.Client.{
  Request, gf_ok, text, dangling, status_of, call_writer, accept, accept_length, dispatch,
  dispatch_status, analyse, analyse_scheme, proceed,
}

scheme_token : (m : List ℕ) → strtok (codes " ") (codes "GETFILE " ++ m) ≡ ended (codes "GETFILE") m
unfolding strtok
scheme_token m = refl

status_token : (m : List ℕ) → strtok (codes " \r\n") (codes "OK " ++ m) ≡ ended (codes "OK") m
unfolding strtok
status_token m = refl

-- The number in front of the blank line.
length_token :
    (n : ℕ) (m : List ℕ)
    → strtok (codes " \r\n") (decimal n ++ crlf2 ++ m) ≡ ended (decimal n) (codes "\n\r\n" ++ m)
length_token n m =
    let (c, t, e) = decimal-cons n in
    subst (λ d. strtok (codes " \r\n") (d ++ crlf2 ++ m) ≡ ended d (codes "\n\r\n" ++ m)) (sym e)
      (ap (strtok (codes " \r\n")) (append_assoc (c ∷ t) crlf2 m)
        ∙ strtok-ended (codes " \r\n") c t (codes "\n\r\n" ++ m) b'\r'
            (Digits-Plain (c ∷ t) (subst Digits e (decimal-Digits n))) (omega arith) refl)

length-announce :
    (n : ℕ) (m : List ℕ) → length (announce n ++ m) ≡ length (decimal n) + 15 + length m
length-announce n m =
    omega (arith, length-append (decimal n ++ crlf2) m, length-append (decimal n) crlf2)

front_at :
    (n : ℕ) (front rest : List ℕ)
    → take (length front) (drop (length (decimal n) + 15) ((announce n ++ front) ++ rest)) ≡ front
front_at n front rest =
    ap (λ k. take (length front) (drop k ((announce n ++ front) ++ rest))) offset
    ∙ ap (λ m. take (length front) (drop (length (announce n)) m))
        (append_assoc (announce n) front rest)
    ∙ ap (take (length front)) (drop-append (announce n) (front ++ rest))
    ∙ take-append front rest
  where
    offset : length (decimal n) + 15 ≡ length (announce n)
    offset = omega (arith, length-append (decimal n) crlf2)

-- The bytes behind the announcement go to the writer.
file_front :
    (n : ℕ) (front old : List ℕ) (gfr : Request)
    → gfr.writer_set ≡ true
    → length (announce n ++ front) ≤ buffer_size
    → call_writer (overwrite old (announce n ++ front)) (length (decimal n) + 15) (length front) gfr
      ≡ ok (record gfr { writer = gfr.writer ++ front })
unfolding call_writer
file_front n front old gfr set small =
    rw
      (
        set,
        le→leb (length (decimal n) + 15 + length front) buffer_size
            (omega (arith, length-announce n front)),
        front_at n front (drop (length (announce n ++ front)) old),
      )
      refl

-- The request once the announcement and the front of the file are read.
abbrev pub announced : ℕ → List ℕ → Request → Request
announced n front gfr = record gfr {
  status = gf_ok;
  status_text = dangling;
  file_length = n;
  writer = gfr.writer ++ front;
  bytes_received = length front;
}

accept-announced :
    (n : ℕ) (front old junk : List ℕ) (gfr : Request)
    → n < u64_mod
    → gfr.writer_set ≡ true
    → length (announce n ++ front) ≤ buffer_size
    → accept
        (overwrite old (announce n ++ front))
        (decimal n ++ crlf2 ++ (front ++ junk))
        (length (announce n ++ front))
        gfr
      ≡ ok (proceed (announced n front gfr))
unfolding accept status_of
accept-announced n front old junk gfr fits set small =
    let memory = decimal n ++ crlf2 ++ (front ++ junk) in
    ap (accept_length (overwrite old (announce n ++ front)) (length (announce n ++ front)) gfr) (
      ap (λ m. (strtok (codes " \r\n") m).token) (strtok_nodelim memory)
      ∙ ap (λ t. t.token) (length_token n (front ++ junk)))
    ∙ unfold accept_length in
      rw
        (
          atol-decimal n,
          content_length,
          file_length,
          file_front n front old
              (record gfr { status = gf_ok; status_text = text (codes "OK"); file_length = n }) set
              small,
        )
        refl
  where
    content_length : sub64 (length (announce n ++ front)) (length (decimal n) + 15) ≡ length front
    content_length = rw (length-announce n front) (omega (arith, length-announce n front))

    file_length : n % u64_mod ≡ n
    file_length = omega arith

-- When the first chunk fits the buffer and holds the announcement of a length below 2^64 and then
-- some bytes, the client's analysis, on a request with a write callback, takes the length and the OK
-- status from it and gives exactly these bytes to the callback.
pub analyse-announced :
    (n : ℕ) (front old junk : List ℕ) (gfr : Request)
    → n < u64_mod
    → gfr.writer_set ≡ true
    → length (announce n ++ front) ≤ buffer_size
    → analyse (overwrite old (announce n ++ front)) (announce n ++ front) junk gfr
      ≡ ok (proceed (announced n front gfr))
unfolding analyse dispatch
analyse-announced n front old junk gfr fits set small =
    let after_scheme = codes "OK " ++ (decimal n ++ crlf2 ++ front) ++ junk in
    let after_status = (decimal n ++ crlf2 ++ front) ++ junk in
    let buffer = overwrite old (announce n ++ front) in
    let bytes_read = length (announce n ++ front) in
    let long : 11 ≤ bytes_read = omega (arith, length-announce n front) in
    rw (lt→leb bytes_read 7 (omega arith)) (
      ap (λ t. analyse_scheme buffer t.rest bytes_read gfr t.token) (scheme_token after_scheme)
      ∙ (unfold analyse_scheme in rw (lt→leb bytes_read 10 (omega arith)) refl)
      ∙ ap (λ t. dispatch_status buffer t.rest bytes_read gfr t.token) (status_token after_status)
      ∙ ap (λ m. accept buffer m bytes_read gfr) (append_assoc (decimal n ++ crlf2) front junk)
      ∙ accept-announced n front old junk gfr fits set small)
