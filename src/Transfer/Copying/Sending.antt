-- ===== src/Transfer/Copying/Sending.antt =====
-- The loop that sends a file.
use Prim.Native.Nat.{min}
use cs8803_introduction_to_o.Common.{
  ℕ, ◌+◌, ◌*◌, ◌≤◌, ◌<◌, ◌≡◌, refl, sym, ap, ◌∙◌, inl, inr, true, List, [], ◌∷◌, ◌++◌, arith, ◌==◌,
  Bool-cases, ==→eq, ==_false→ne, subst, ◌≢◌, ◌⊎◌, length, take, drop, length-take, length-drop,
  drop_all, drop-drop, take-append-drop-length, ok,
}
use mathlib.Core.List.{append_assoc, append-nil}
use cs8803_introduction_to_o.Socket.{Reply, moved, Conn, buffer_size}
use cs8803_introduction_to_o.Getfile.Handler.Success.{write_all}
use cs8803_introduction_to_o.Transfer.Copying.{fread, send_loop}

-- Every read fills the buffer as far as the file goes, and every send takes the whole block.
abbrev pub Full : List (Reply × Reply) → Type 0
Full [] = Unit {0}
Full ((r, w) ∷ rounds) =
    ((k : ℕ) × (r ≡ moved k) × (buffer_size ≤ k))
    × ((j : ℕ) × (w ≡ moved j) × (buffer_size ≤ j))
    × Full rounds

-- A front part of what is left from `t` on, of `n` bytes or up to the end.
abbrev Front : (n : ℕ) → (file : List ℕ) → (t : ℕ) → List ℕ → Type 0
Front n file t block =
    (block ++ drop (t + length block) file ≡ drop t file)
    × (length block ≤ n)
    × (t + length block ≤ length file)
    × ((t + length block ≡ length file) ⊎ (length block ≡ n))

take-Front :
    (n : ℕ) (file : List ℕ) (t : ℕ) → t ≤ length file → Front n file t (take n (drop t file))
take-Front n file t inside = (
  ap (λ u. take n (drop t file) ++ u) (sym (drop-drop t (length (take n (drop t file))) file))
      ∙ take-append-drop-length n (drop t file),
  omega (arith, length-take n (drop t file)),
  omega (arith, length-take n (drop t file), length-drop t file),
  omega (arith, length-take n (drop t file), length-drop t file),
)

-- What a full read returns.
full_read :
    (k : ℕ) (file : List ℕ) (t : ℕ)
    → buffer_size ≤ k
    → t ≤ length file
    → (block : List ℕ) × (fread (moved k) file t ≡ block) × Front buffer_size file t block
unfolding fread
full_read k file t full inside =
    (take (min k buffer_size) (drop t file), refl, at_size (min k buffer_size) least)
  where
    least : min k buffer_size ≡ buffer_size
    least = omega arith

    at_size : (n : ℕ) → n ≡ buffer_size → Front buffer_size file t (take n (drop t file))
    at_size n e = subst (λ m. Front m file t (take n (drop t file))) e (take-Front n file t inside)

-- Nothing is left behind a block that reaches the end.
at_end :
    (file : List ℕ) (t : ℕ) (block : List ℕ)
    → block ++ drop (t + length block) file ≡ drop t file
    → t + length block ≡ length file
    → block ≡ drop t file
at_end file t block split end =
    sym (append-nil block)
    ∙ ap (λ u. block ++ u) (sym (drop_all (t + length block) file (omega arith)))
    ∙ split

-- The loop that sends a file, from a position in it, on an open connection, when every read fills
-- the block and every send takes it: with enough rounds it ends, and everything from the position on
-- was sent, once and in order.
pub send_loop_total :
    (rounds : List (Reply × Reply)) (file : List ℕ) (t : ℕ) (c : Conn)
    → c.is_open ≡ true
    → t ≤ length file
    → length file < t + buffer_size * length rounds
    → Full rounds
    → send_loop rounds file t c ≡ ok (record c { sent = c.sent ++ drop t file })
unfolding send_loop
send_loop_total [] file t c opened inside enough full = absurd (omega arith)
send_loop_total ((r, w) ∷ rounds) file t c opened inside enough (rd, wr, full) =
    let (block, read, front) = full_read rd.0 file t rd.2 inside in
    let (split, small, within, far) = front in
    rw (rd.1, wr.1, read, write_all wr.0 block c opened (omega arith))
      (elim (Bool-cases (length block == 0)) [
        | inl none_left ↦
            let empty : length block ≡ 0 = ==→eq (length block) 0 none_left in
            rw none_left (
              ap (λ u. ok (record c { sent = u }))
                (sym (append-nil c.sent)
                  ∙ ap (λ u. c.sent ++ u) (sym (drop_all t file (omega arith)))))
        | inr some_left ↦ elim (Bool-cases (length block == buffer_size)) [
          | inl filled ↦
              let whole : length block ≡ buffer_size = ==→eq (length block) buffer_size filled in
              rw (some_left, filled)
                (send_loop_total rounds file (t + length block)
                    (record c { sent = c.sent ++ block }) opened within (omega arith) full
                  ∙ ap (λ u. ok (record c { sent = u }))
                      (append_assoc c.sent block (drop (t + length block) file)
                        ∙ ap (λ u. c.sent ++ u) split))
          | inr last ↦
              let short : length block ≢ buffer_size =
                ==_false→ne (length block) buffer_size last in
              rw (some_left, last)
                (ap (λ u. ok (record c { sent = c.sent ++ u }))
                  (at_end file t block split (omega arith)))
        ]
      ])
