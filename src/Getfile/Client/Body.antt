-- ===== src/Getfile/Client/Body.antt =====
-- The receive loop of `gfc_perform` behind the header.
use cs8803_introduction_to_o.Common.{
  ℕ, suc, ◌+◌, ◌≤◌, ◌<◌, ◌≡◌, refl, sym, ap, ◌∙◌, true, false, List, [], ◌∷◌, ◌++◌, map, arith,
  le→leb, eq→==, ne→==, lt→ltb, length, drop, concat, length-append, take-append, ok, ℤ, pos,
}
use mathlib.Core.Path.{ap₂}
use mathlib.Core.List.{append_assoc, append-nil}
use cs8803_introduction_to_o.Socket.{Recv, got, Conn, buffer_size, minus_one, close, overwrite}
use cs8803_introduction_to_o.Getfile.Client.{Request, Done, finish, call_writer, after_chunk, body}

-- What `recv` may hand over: some bytes, as many as the buffer holds.
abbrev pub Chunks : List (List ℕ) → Type 0
Chunks [] = Unit {0}
Chunks (c ∷ cs) = (0 < length c) × (length c ≤ buffer_size) × Chunks cs

-- How a transfer ends that gives `written` to the writer.
abbrev delivered : Request → (written : List ℕ) → (total : ℕ) → Conn → Done
delivered gfr written total c = record {
  result = pos 0;
  request = record gfr { live = false; writer = gfr.writer ++ written; bytes_received = total };
  conn = close c;
}

-- The request after one more chunk.
abbrev received : Request → List ℕ → (total : ℕ) → Request
received gfr ch total = record gfr { bytes_received = total; writer = gfr.writer ++ ch }

call_writer-front :
    (buffer ch : List ℕ) (gfr : Request)
    → gfr.writer_set ≡ true
    → length ch ≤ buffer_size
    → call_writer (overwrite buffer ch) 0 (length ch) gfr
      ≡ ok (record gfr { writer = gfr.writer ++ ch })
unfolding call_writer
call_writer-front buffer ch gfr set small =
    rw
      (
        set,
        le→leb (0 + length ch) buffer_size (omega arith),
        take-append ch (drop (length ch) buffer),
      )
      refl

pub finish-ok :
    (z : ℤ) (gfr : Request) (c : Conn)
    → gfr.live ≡ true
    → finish z gfr c ≡ ok (record { result = z; request = record gfr { live = false }; conn = c })
unfolding finish
finish-ok z gfr c live = rw live

-- The chunks that complete the file are written in their order, and the transfer succeeds.
pub body_delivers :
    (c₁ : List ℕ) (cs : List (List ℕ)) (buffer : List ℕ) (total : ℕ) (gfr : Request) (c : Conn)
    → gfr.live ≡ true
    → gfr.writer_set ≡ true
    → Chunks (c₁ ∷ cs)
    → total + length (concat (c₁ ∷ cs)) ≡ gfr.file_length
    → body (map got (c₁ ∷ cs)) buffer total gfr c
      ≡ ok (delivered gfr (concat (c₁ ∷ cs)) gfr.file_length c)
unfolding body after_chunk
body_delivers [] cs buffer total gfr c live set chunks sum = absurd (omega arith)
body_delivers (b ∷ bs) [] buffer total gfr c live set chunks sum =
    let done : total + suc (length bs) ≡ gfr.file_length = omega (arith, length-append bs []) in
    rw
      (
        call_writer-front buffer (b ∷ bs) gfr set chunks.1,
        eq→== (total + suc (length bs)) gfr.file_length done,
        finish-ok (pos 0) (received gfr (b ∷ bs) (total + suc (length bs))) (close c) live,
      )
      (ap₂ (λ w n. ok (delivered gfr w n c)) (sym (append-nil (b ∷ bs))) done)
body_delivers (b ∷ bs) (c₂ ∷ cs) buffer total gfr c live set chunks sum =
    rw
      (
        call_writer-front buffer (b ∷ bs) gfr set chunks.1,
        ne→== (total + suc (length bs)) gfr.file_length
            (omega (arith, length-append bs (c₂ ++ concat cs), length-append c₂ (concat cs))),
      )
      (body_delivers c₂ cs (overwrite buffer (b ∷ bs)) (total + suc (length bs))
          (received gfr (b ∷ bs) (total + suc (length bs))) c live set chunks.2
          (omega (arith, length-append bs (c₂ ++ concat cs)))
        ∙ ap
            (λ w. ok (record {
              result = pos 0;
              request = record gfr { live = false; writer = w; bytes_received = gfr.file_length };
              conn = close c;
            }))
            (append_assoc gfr.writer (b ∷ bs) (c₂ ++ concat cs)))

-- The receive loop behind the header, on a live request with a write callback: when the peer closes
-- after chunks of 1 to 4096 bytes that do not make up the announced length, all the bytes that did
-- arrive went to the callback and were counted, the request is freed, the connection is closed, and
-- the result is -1.
pub body_cut_short :
    (cs : List (List ℕ)) (rs : List Recv) (buffer : List ℕ) (gfr : Request) (c : Conn)
    → gfr.live ≡ true
    → gfr.writer_set ≡ true
    → Chunks cs
    → gfr.bytes_received + length (concat cs) < gfr.file_length
    → body (map got cs ++ got [] ∷ rs) buffer gfr.bytes_received gfr c
      ≡ ok (record {
        result = minus_one;
        request = record gfr {
          live = false;
          writer = gfr.writer ++ concat cs;
          bytes_received = gfr.bytes_received + length (concat cs);
        };
        conn = close c;
      })
unfolding body after_chunk
body_cut_short [] rs buffer gfr c live set chunks short =
    rw
      (
        lt→ltb gfr.bytes_received gfr.file_length (omega arith),
        finish-ok minus_one gfr (close c) live,
      )
      (ap₂
        (λ w n. ok (record {
          result = minus_one;
          request = record gfr { live = false; writer = w; bytes_received = n };
          conn = close c;
        }))
        (sym (append-nil gfr.writer)) (omega arith))
body_cut_short ([] ∷ cs) rs buffer gfr c live set chunks short = absurd (omega arith)
body_cut_short ((b ∷ bs) ∷ cs) rs buffer gfr c live set chunks short =
    let total = gfr.bytes_received + suc (length bs) in
    rw
      (
        call_writer-front buffer (b ∷ bs) gfr set chunks.1,
        ne→== total gfr.file_length (omega (arith, length-append bs (concat cs))),
      )
      (body_cut_short cs rs (overwrite buffer (b ∷ bs)) (received gfr (b ∷ bs) total) c live set
          chunks.2 (omega (arith, length-append bs (concat cs)))
        ∙ ap₂
            (λ w n. ok (record {
              result = minus_one;
              request = record gfr { live = false; writer = w; bytes_received = n };
              conn = close c;
            }))
            (append_assoc gfr.writer (b ∷ bs) (concat cs))
            (omega (arith, length-append bs (concat cs))))
