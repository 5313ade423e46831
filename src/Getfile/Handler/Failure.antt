-- ===== src/Getfile/Handler/Failure.antt =====
-- What `handler_get` of proj1/getfile/handler.c does whatever the environment answers.
use Prim.Native.Nat.{min}
use cs8803_introduction_to_o.Common.{
  ℕ, ◌+◌, ◌≤◌, ◌<◌, ◌≡◌, refl, sym, ap, ◌∙◌, ◌⊎◌, inl, inr, true, false, Option, List, [], ◌∷◌,
  ◌++◌, arith, ◌==◌, ltb, Bool-cases, ne→==, ltb→lt, ltb_false→le, ==_false→ne, ◌≢◌, length, take,
  drop, length-drop, length-append, drop_all, drop-drop, take-append-drop-length, Outcome, u64_mod,
  ok, subst, take-append-drop, eq→==, ℤ, pos, negsuc,
}
use mathlib.Core.List.{append_assoc, append-nil}
use cs8803_introduction_to_o.Socket.{
  Reply, failed, moved, Conn, buffer_size, minus_one, pread, write, close,
}
use cs8803_introduction_to_o.Getfile.Response.{abort, send, send_header, refuse, not_found_text}
use cs8803_introduction_to_o.Getfile.Response.Header.{announce, ok_header-announce}
use cs8803_introduction_to_o.Getfile.Handler.Success.{write_all}
use cs8803_introduction_to_o.Getfile.Handler.{Round, send_file, handler_get, not_positive, int_eq}

-- How the loop ends that has `todo` left to send.
abbrev Complete : (c : Conn) (todo : List ℕ) (len : ℕ) → ℤ × Conn → Type 0
Complete c todo len (z, c') = (z ≡ pos len) × (c'.is_open ≡ true) × (c'.sent ≡ c.sent ++ todo)

abbrev Partial : (c : Conn) (todo : List ℕ) → ℤ × Conn → Type 0
Partial c todo (z, c') =
    (z ≡ minus_one)
    × (c'.is_open ≡ false)
    × (part : List ℕ) × (rest : List ℕ) × (c'.sent ≡ c.sent ++ part)
    × (part ++ rest ≡ todo)

-- All is sent, or the result of `send` shows that it was not.
send_cases :
    (w : Reply) (bytes : List ℕ) (c : Conn)
    → c.is_open ≡ true
    → (send w c bytes ≡ (pos (length bytes), record c { sent = c.sent ++ bytes }))
      ⊎ ((m : ℕ) × (int_eq (send w c bytes).0 (pos (length bytes)) ≡ false)
          × ((send w c bytes).1 ≡ record c { sent = c.sent ++ take m bytes }))
unfolding send write
send_cases failed bytes c opened =
    inr (0, refl, ap (λ u. record { sent = u; is_open = c.is_open }) (sym (append-nil c.sent)))
send_cases (moved j) bytes c opened = elim (Bool-cases (ltb j (length bytes))) [
  | inl short ↦ inr (j, short_result j (ltb→lt j (length bytes) short), rw opened)
  | inr all ↦ inl (write_all j bytes c opened (ltb_false→le j (length bytes) all))
]
  where
    short_result :
        (k : ℕ) → k < length bytes → int_eq (send (moved k) c bytes).0 (pos (length bytes)) ≡ false
    short_result k lt = rw opened (ne→== (min k (length bytes)) (length bytes) (omega arith))

-- `pread` fails, or reads a front part of what is left.
pread_cases :
    (r : Reply) (file : List ℕ) (t : ℕ)
    → (not_positive (pread r file buffer_size t).0 ≡ true)
      ⊎ ((bytes : List ℕ) × (rest : List ℕ) × (pread r file buffer_size t
            ≡ (pos (length bytes), bytes))
          × (bytes ++ rest ≡ drop t file)
          × (rest ≡ drop (t + length bytes) file))
unfolding pread
pread_cases failed file t = inl refl
pread_cases (moved k) file t =
    let bytes = take (min k buffer_size) (drop t file) in
    let behind = drop-drop t (length bytes) file in
    inr (
      bytes,
      drop (t + length bytes) file,
      refl,
      rw (← behind) (take-append-drop-length (min k buffer_size) (drop t file)),
      refl,
    )

abbrev pub AllOrPart : (c : Conn) (todo : List ℕ) (len : ℕ) → ℤ × Conn → Type 0
AllOrPart c todo len r = Complete c todo len r ⊎ Partial c todo r

-- A round that sent `bytes` in front of what the later ones do.
AllOrPart-append :
    (c : Conn) (bytes rest todo : List ℕ) (len : ℕ) (r : ℤ × Conn)
    → bytes ++ rest ≡ todo
    → AllOrPart (record c { sent = c.sent ++ bytes }) rest len r
    → AllOrPart c todo len r
AllOrPart-append c bytes rest todo len (z, c') e (inl (z_len, opened, all)) =
    inl (z_len, opened, all ∙ append_assoc c.sent bytes rest ∙ ap (λ u. c.sent ++ u) e)
AllOrPart-append c bytes rest todo len (z, c') e (inr (z_neg, closed, part, others, sent, split)) =
    inr (
      z_neg,
      closed,
      bytes ++ part,
      others,
      sent ∙ append_assoc c.sent bytes part,
      append_assoc bytes part others ∙ ap (λ u. bytes ++ u) split ∙ e,
    )

-- A connection that is closed behind a part of what was to be sent.
gave_up :
    (c c' : Conn) (part rest todo : List ℕ) (len : ℕ)
    → c' ≡ record c { sent = c.sent ++ part }
    → part ++ rest ≡ todo
    → AllOrPart c todo len (minus_one, abort c')
unfolding abort close
gave_up c c' part rest todo len e split = inr (refl, refl, part, rest, ap (λ u. u.sent) e, split)

finished :
    (file : List ℕ) (t : ℕ) (c : Conn)
    → c.is_open ≡ true
    → t ≤ length file
    → ltb t (length file) ≡ false
    → AllOrPart c (drop t file) (length file) (pos t, c)
finished file t c opened inside done =
    let all : length file ≤ t = ltb_false→le t (length file) done in
    inl (
      ap pos (omega arith),
      opened,
      sym (append-nil c.sent) ∙ ap (λ u. c.sent ++ u) (sym (drop_all t file all)),
    )

send_file_safe :
    (rounds : List Round) (file : List ℕ) (t : ℕ) (c : Conn)
    → c.is_open ≡ true
    → t ≤ length file
    → length file ≤ t + length rounds
    → (r : ℤ × Conn) × (send_file rounds file t c ≡ ok r)
      × AllOrPart c (drop t file) (length file) r
unfolding send_file
send_file_safe [] file t c opened inside enough = elim (Bool-cases (ltb t (length file))) [
  | inl more ↦ absurd (omega (arith, ltb→lt t (length file) more))
  | inr done ↦ ((pos t, c), rw done refl, finished file t c opened inside done)
]
send_file_safe (q ∷ rounds) file t c opened inside enough =
    elim (Bool-cases (ltb t (length file))) [
      | inr done ↦ ((pos t, c), rw done refl, finished file t c opened inside done)
      | inl more ↦ elim (pread_cases q.read file t) [
        | inl nothing ↦ (
          (minus_one, abort c),
          rw (more, nothing) refl,
          gave_up c c [] (drop t file) _ _
              (ap (λ u. record { sent = u; is_open = c.is_open }) (sym (append-nil c.sent))) refl,
        )
        | inr (bytes, rest, read, split, behind) ↦ elim (Bool-cases (length bytes == 0)) [
          | inl empty ↦ (
            (minus_one, abort c),
            rw (more, read, empty) refl,
            gave_up c c [] (drop t file) _ _
                (ap (λ u. record { sent = u; is_open = c.is_open }) (sym (append-nil c.sent))) refl,
          )
          | inr some_bytes ↦ elim (send_cases q.write bytes c opened) [
            | inr (m, short, left) ↦ (
              (minus_one, abort (send q.write c bytes).1),
              rw (more, read, some_bytes, short) refl,
              gave_up c _ (take m bytes) (drop m bytes ++ rest) _ _ left (
                  sym (append_assoc (take m bytes) (drop m bytes) rest)
                  ∙ ap (λ u. u ++ rest) (take-append-drop m bytes)
                  ∙ split),
            )
            | inl all ↦
                let nonempty : length bytes ≢ 0 = ==_false→ne (length bytes) 0 some_bytes in
                let within : t + length bytes ≤ length file = omega (
                  arith,
                  ap length split,
                  length-append bytes rest,
                  length-drop t file,
                  ltb→lt t (length file) more,
                ) in
                let (r, run, outcome) =
                  send_file_safe rounds file (t + length bytes)
                    (record c { sent = c.sent ++ bytes }) opened within (omega arith) in
                (
                  r,
                  rw (more, read, some_bytes, all, eq→== (length bytes) (length bytes) refl) run,
                  AllOrPart-append c bytes rest (drop t file) (length file) r split (
                      subst (λ u. AllOrPart (record c { sent = c.sent ++ bytes }) u (length file) r)
                        (sym behind) outcome),
                )
          ]
        ]
      ]
    ]

-- What a write to an open connection leaves of the header in front of the file.
header_part :
    (h : Reply) (text : List ℕ) (c : Conn)
    → c.is_open ≡ true
    → (head : List ℕ) × (tail : List ℕ) × (head ++ tail ≡ text)
      × ((write h text c).1 ≡ record c { sent = c.sent ++ head })
unfolding write
header_part failed text c opened =
    ([], text, refl, ap (λ u. record { sent = u; is_open = c.is_open }) (sym (append-nil c.sent)))
header_part (moved j) text c opened = (take j text, drop j text, take-append-drop j text, rw opened)

-- handler_get on an open connection and a file that the table has and size_t can count, whatever the
-- calls answer: with a round for each byte of the file it returns. A front part of the announcement
-- was sent, and behind it either the whole file, with its length as the result and the connection
-- open, or a part of it, with the result -1 and the connection closed.
pub handler_get_safe :
    (content_get : Option (List ℕ) → Outcome ℤ) (file_of : ℕ → List ℕ) (h : Reply)
    (rounds : List Round) (c : Conn) (path : Option (List ℕ)) (fildes : ℕ)
    → content_get path ≡ ok (pos fildes)
    → c.is_open ≡ true
    → length (file_of fildes) < u64_mod
    → length (file_of fildes) ≤ length rounds
    → (r : ℤ × Conn) × (head : List ℕ) × (tail : List ℕ) × (handler_get content_get file_of h rounds
          c path
        ≡ ok r)
      × (head ++ tail ≡ announce (length (file_of fildes)))
      × AllOrPart (record c { sent = c.sent ++ head }) (file_of fildes) (length (file_of fildes)) r
unfolding handler_get send_header
handler_get_safe content_get file_of h rounds c path fildes found opened small enough =
    let file = file_of fildes in
    let (head, tail, split, left) = header_part h (announce (length file)) c opened in
    let (r, run, outcome) =
      send_file_safe rounds file 0 (record c { sent = c.sent ++ head }) opened (omega arith)
        (omega arith) in
    (r, head, tail, rw (found, ok_header-announce (length file) small, left) run, split, outcome)

-- handler_get on an open connection and a key that the table has not, when the kernel takes the
-- whole refusal: the client is sent exactly the refusal, and the connection is closed.
handler_get-missing :
    (content_get : Option (List ℕ) → Outcome ℤ) (file_of : ℕ → List ℕ) (j : ℕ) (rounds : List Round)
    (c : Conn) (path : Option (List ℕ)) (n : ℕ)
    → content_get path ≡ ok (negsuc n)
    → c.is_open ≡ true
    → length (not_found_text ++ 0 ∷ []) ≤ j
    → handler_get content_get file_of (moved j) rounds c path
      ≡ ok (
        pos (length (not_found_text ++ 0 ∷ [])),
        record { sent = c.sent ++ (not_found_text ++ 0 ∷ []); is_open = false },
      )
unfolding handler_get send_header refuse abort close
handler_get-missing content_get file_of j rounds c path n missing opened room =
    rw (missing, write_all j (not_found_text ++ 0 ∷ []) c opened room) refl
