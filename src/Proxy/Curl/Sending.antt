-- ===== src/Proxy/Curl/Sending.antt =====
-- The whole of `handle_with_curl`, proj3/handle_with_curl.c: the file that libcurl gets is the file that
-- is sent, however short the sends are.
use mathlib.Core.List.{append_assoc, append-nil}
use cs8803_introduction_to_o.Common.{
  ℕ, ◌+◌, ◌-◌, ◌^◌, ◌<◌, ◌≤◌, ◌≡◌, refl, sym, ap, ◌∙◌, inl, inr, true, some, List, [], ◌∷◌, ◌++◌,
  arith, ok, length, length-take, length-drop, take, drop, drop-drop, concat, ltb, leb,
  if◌then◌else◌, lt→ltb, le→ltb, Bool-cases, ltb→lt, ltb_false→le, ℤ, pos, ne→==, subst, take-take,
  take-take_more,
}
use cs8803_introduction_to_o.Socket.{Reply, Conn, buffer_size}
use cs8803_introduction_to_o.Getfile.Response.{gf_ok}
use cs8803_introduction_to_o.Proxy.Curl.{
  Memory, fresh, write_callback, Download, Handled, send_body, handle_with_curl,
}
use cs8803_introduction_to_o.Proxy.Curl.Collecting.{
  Callback, deliver, Holds, write_callback-collects,
}

-- A `gfs_send` that takes some of the bytes it is given, from the front.
abbrev pub SendsFront : (send : Reply → Conn → List ℕ → ℤ × Conn) → Type 0
SendsFront send =
    (r : Reply) (c : Conn) (bytes : List ℕ)
    → 0 < length bytes
    → (k : ℕ) × (0 < k)
      × (k ≤ length bytes)
      × ((send r c bytes).0 ≡ pos k)
      × ((send r c bytes).1.sent ≡ c.sent ++ take k bytes)

-- libcurl as documented: where it succeeds, the callback was given what the site has under the URL, and
-- this many bytes were downloaded.
abbrev pub Fetches :
    (perform : List ℕ → Callback → Memory → Download) (site : List ℕ → List ℕ) → Type 0
Fetches perform site =
    (url : List ℕ) (callback : Callback) (m : Memory)
    → (perform url callback m).performed ≡ true
    → (chs : List (List ℕ)) × (concat chs ≡ site url)
      × ((perform url callback m).chunk ≡ deliver callback chs m)
      × ((perform url callback m).size_download ≡ some (length (site url)))

module _ (send_header : Conn → (status file_len : ℕ) → ℤ × Conn)
    (send : Reply → Conn → List ℕ → ℤ × Conn) (sends : SendsFront send) where
  -- How much a round offers.
  abbrev offer : (n t : ℕ) → ℕ
  offer n t = if leb buffer_size (n - t) then buffer_size else n - t

  offer-bounds : (n t : ℕ) → t < n → (0 < offer n t) × (offer n t ≤ n - t)
  offer-bounds n t less = (ground arith, ground arith)

  round :
      (r : Reply) (rs : List Reply) (block : List ℕ) (n t k : ℕ) (c : Conn)
      → t < n
      → t < 2 ^ 31
      → 0 < k
      → (send r c (take (offer n t) (drop t block))).0 ≡ pos k
      → send_body send_header send (r ∷ rs) block n t t c
        ≡ send_body send_header send rs block n
            (t + k)
            (t + k)
            (send r c (take (offer n t) (drop t block))).1
  unfolding send_body
  round r rs block n t k c less small some_bytes gives =
      rw (lt→ltb t n less, lt→ltb t (2 ^ 31) small, gives, ne→== k 0 (omega arith)) refl

  -- What a round sends, and what is left behind it.
  pieces :
      (block : List ℕ) (n t k : ℕ)
      → t < n
      → k ≤ offer n t
      → take k (take (offer n t) (drop t block)) ++ take (n - (t + k)) (drop (t + k) block)
        ≡ take (n - t) (drop t block)
  pieces block n t k less bound =
      let (some_offer, offer_bound) = offer-bounds n t less in
      let rest : k + (n - (t + k)) ≡ n - t = omega arith in
      rw
        (
          take-take k (offer n t) (drop t block) bound,
          sym (drop-drop t k block),
          take-take_more k (n - (t + k)) (drop t block),
          rest,
        )
        refl

  offer-length :
      (block : List ℕ) (n t : ℕ)
      → t < n
      → n ≤ length block
      → length (take (offer n t) (drop t block)) ≡ offer n t
  offer-length block n t less within =
      let (some_offer, offer_bound) = offer-bounds n t less in
      rw (length-take (offer n t) (drop t block), length-drop t block) (omega arith)

  send_body-delivers :
      (rs : List Reply) (block : List ℕ) (n t : ℕ) (c : Conn)
      → n ≤ length block
      → n < 2 ^ 31
      → t ≤ n
      → n ≤ t + length rs
      → (h : Handled) × (send_body send_header send rs block n t t c ≡ ok h)
        × (h.value ≡ pos n)
        × (h.conn.sent ≡ c.sent ++ take (n - t) (drop t block))
        × (h.cleaned_up ≡ true)
  unfolding send_body
  send_body-delivers [] block n t c within small more enough =
      let all : n ≡ t = omega arith in
      let none_left : n - t ≡ 0 = omega arith in
      rw (le→ltb t n (omega arith), none_left, append-nil c.sent)
        (record { value = pos t; conn = c; cleaned_up = true }, refl, ap pos (sym all), refl, refl)
  send_body-delivers (r ∷ rs) block n t c within small more enough = elim (Bool-cases (ltb t n)) [
    | inl less ↦
        let further = ltb→lt t n less in
        let bytes = take (offer n t) (drop t block) in
        let bytes_length = offer-length block n t further within in
        let (some_offer, offer_bound) = offer-bounds n t further in
        let (k, some_bytes, bound, gives, gone) = sends r c bytes (omega arith) in
        let (h, runs, v, s, u) =
          send_body-delivers rs block n (t + k) (send r c bytes).1 within small (omega arith)
            (omega arith) in
        let in_order : h.conn.sent ≡ c.sent ++ take (n - t) (drop t block) =
          rw
            (
              s,
              gone,
              append_assoc c.sent (take k bytes) (take (n - (t + k)) (drop (t + k) block)),
              pieces block n t k further (omega arith),
            )
            refl in
        (h, round r rs block n t k c further (omega arith) some_bytes gives ∙ runs, v, in_order, u)
    | inr done ↦
        let all : t ≡ n = omega (arith, ltb_false→le t n done) in
        let none_left : n - t ≡ 0 = omega arith in
        rw (done, none_left, append-nil c.sent)
          (record { value = pos t; conn = c; cleaned_up = true }, refl, ap pos all, refl, refl)
  ]

  module _ (perform : List ℕ → Callback → Memory → Download) (site : List ℕ → List ℕ)
      (fetches : Fetches perform site) where
    -- A URL that fits the buffer, a libcurl that succeeds and has given the callback what the site
    -- has under the URL, in any pieces, a site's file of less than 2^31 bytes, and a gfs_send that
    -- takes at least one byte and a front part of what it is given: with an answer for each byte of
    -- the file, handle_with_curl returns the file's length, has sent the header and exactly the
    -- file, and has cleaned up.
    pub handle_with_curl-delivers :
        (rs : List Reply) (junk : ℕ) (data_dir path : List ℕ) (c : Conn)
        → length (data_dir ++ path) < buffer_size
        → (perform (data_dir ++ path) write_callback (fresh junk)).performed ≡ true
        → length (site (data_dir ++ path)) < 2 ^ 31
        → length (site (data_dir ++ path)) ≤ length rs
        → (h : Handled) × (handle_with_curl send_header send perform rs junk data_dir path c ≡ ok h)
          × (h.value ≡ pos (length (site (data_dir ++ path))))
          × (h.conn.sent
              ≡ (send_header c gf_ok (length (site (data_dir ++ path)))).1.sent
                ++ site (data_dir ++ path))
          × (h.cleaned_up ≡ true)
    unfolding handle_with_curl
    handle_with_curl-delivers rs junk data_dir path c fits performed small enough =
        let url = data_dir ++ path in
        let body = site url in
        let (chs, is_body, chunk, sized) = fetches url write_callback (fresh junk) performed in
        let held : Holds (deliver write_callback chs (fresh junk)) body =
          subst (Holds (deliver write_callback chs (fresh junk))) is_body
            (write_callback-collects chs junk (rw is_body (omega arith))) in
        let within : length body ≤ length held.block =
          omega (arith, length-take (length body) held.block, ap length held.front) in
        let sent_header = (send_header c gf_ok (length body)).1 in
        let (h, runs, v, s, u) =
          send_body-delivers rs held.block (length body) 0 sent_header within small (omega arith)
            (omega arith) in
        let none_gone : length body - 0 ≡ length body = omega arith in
        (
          h,
          rw (lt→ltb (length url) buffer_size fits, performed, sized, chunk, held.is_block) runs,
          v,
          s
              ∙ ap (λ ys. sent_header.sent ++ ys)
                  (ap (λ n. take n held.block) none_gone ∙ held.front),
          u,
        )
