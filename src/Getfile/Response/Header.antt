-- ===== src/Getfile/Response/Header.antt =====
-- The header that announces a file.
use cs8803_introduction_to_o.Common.{
  ℕ, ◌+◌, ◌<◌, ◌≤◌, ◌≡◌, refl, List, ◌++◌, arith, length, length-append, ok, u64_mod,
}
use cs8803_introduction_to_o.CString.{fits-ok, codes, decimal}
use cs8803_introduction_to_o.CString.Decimal.{length-decimal}
use cs8803_introduction_to_o.Getfile.Response.{ok_header, crlf2}

-- The text of an announcement.
abbrev pub announce : ℕ → List ℕ
announce n = codes "GETFILE OK " ++ decimal n ++ crlf2

-- For every length below 2^64 the texts that gfs_sendheader builds fit the 500 bytes for the number
-- and the allocation for the header, and the header is the announcement of that length.
pub ok_header-announce : (n : ℕ) → n < u64_mod → ok_header n ≡ ok (announce n)
unfolding ok_header
ok_header-announce n h =
    let room = 17 + length (decimal n) in
    let short : length (decimal n) ≤ 20 = length-decimal 19 n (omega arith) in
    rw
      (
        fits-ok 500 (decimal n) (omega arith),
        fits-ok room (codes "GETFILE OK ") (omega arith),
        fits-ok room (codes "GETFILE OK " ++ decimal n) (omega arith),
        fits-ok room (announce n) (omega (arith, length-append (decimal n) crlf2)),
      )
      refl
