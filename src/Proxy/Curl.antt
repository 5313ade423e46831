-- ===== src/Proxy/Curl.antt =====
-- proj3/handle_with_curl.c: the handler of the proxy that fetches a file with libcurl and sends it on.
-- libcurl and the server library of proj3 are parameters. A length is a `double` there, which is
-- exact below 2 ^ 53.
pub mod Collecting
pub mod Sending
use cs8803_introduction_to_o.Common.{
  ℕ, ◌+◌, ◌-◌, ◌*◌, ◌%◌, ◌^◌, Bool, true, false, Option, none, some, List, [], ◌∷◌, ◌++◌, ltb, leb,
  if◌then◌else◌, length, take, drop, Outcome, ok, fault, starved, ◌>>=◌, ℤ, pos, negsuc, u64_mod,
}
use cs8803_introduction_to_o.Socket.{Reply, Conn, buffer_size}
use cs8803_introduction_to_o.Getfile.Response.{gf_ok, gf_file_not_found}
use cs8803_introduction_to_o.Getfile.Handler.{not_positive}

-- `memory_t`; `memory` is the block behind the pointer, or the null pointer.
pub record Memory : Type 0 where
  pub memory : Option (List ℕ)
  pub size : ℕ

-- `malloc(1)`, of which nothing is used.
abbrev pub fresh : (junk : ℕ) → Memory
fresh junk = record { memory = some (junk ∷ []); size = 0 }

-- `write_callback`; `grows` is whether `realloc` finds room. It keeps the front of the old block, and
-- the null pointer makes it allocate.
pub write_callback : (grows : Bool) → (ptr : List ℕ) → (size nmemb : ℕ) → Memory → ℕ × Memory
write_callback false ptr size nmemb mem = (0, record mem { memory = none })
write_callback true ptr size nmemb mem =
    let realsize = (size * nmemb) % u64_mod in
    let old : List ℕ = elim mem.memory [ none ↦ [] | some block ↦ take mem.size block ] in
    (
      realsize,
      record { memory = some (old ++ take realsize ptr ++ 0 ∷ []); size = mem.size + realsize },
    )

-- What `curl_easy_perform` and `curl_easy_getinfo` leave behind.
pub record Download : Type 0 where
  pub performed : Bool
  pub chunk : Memory
  pub size_download : Option ℕ

-- What the handler returns, with the connection, and whether it has cleaned up.
pub record Handled : Type 0 where
  pub value : ℤ
  pub conn : Conn
  pub cleaned_up : Bool

abbrev exit_failure : ℤ
exit_failure = pos 1

-- `write_len` as it is added, where it is positive.
abbrev amount : ℤ → ℕ
amount (pos n) = n
amount (negsuc n) = 0

module _ (send_header : Conn → (status file_len : ℕ) → ℤ × Conn)
    (send : Reply → Conn → List ℕ → ℤ × Conn) where
  -- The loop that sends the file, with the answers of the client's connection. `offset` is an `int`:
  -- past 2 ^ 31 - 1 it points outside the block.
  pub send_body :
      List Reply
      → (memory : List ℕ) → (file_len offset bytes_transferred : ℕ) → Conn
      → Outcome Handled
  send_body [] memory file_len offset n c =
      if ltb n file_len then starved else ok (record { value = pos n; conn = c; cleaned_up = true })
  send_body (r ∷ rs) memory file_len offset n c =
      let len = if leb buffer_size (file_len - n) then buffer_size else file_len - n in
      let (write_len, c') = send r c (take len (drop offset memory)) in
      let further = amount write_len in
      let rest = send_body rs memory file_len (offset + further) (n + further) c' in
      if ltb n file_len
      then if ltb offset (2 ^ 31)
        then if not_positive write_len
          then ok (record { value = exit_failure; conn = c'; cleaned_up = false })
          else rest
        else fault
      else ok (record { value = pos n; conn = c; cleaned_up = true })

  -- What the handler does once libcurl is done; the null pointer is not sent from.
  abbrev answer : List Reply → Download → Conn → Outcome Handled
  answer rs d c =
      if d.performed
      then elim d.size_download [
        | none ↦ ok (record { value = exit_failure; conn = c; cleaned_up = false })
        | some file_len ↦
            let (value, c') = send_header c gf_ok file_len in
            elim d.chunk.memory [
              | none ↦
                  if ltb 0 file_len
                  then fault
                  else ok (record { value = pos 0; conn = c'; cleaned_up = true })
              | some memory ↦ send_body rs memory file_len 0 0 c'
            ]
      ]
      else (let (value, c') = send_header c gf_file_not_found 0 in
          ok (record { value = value; conn = c'; cleaned_up = false }))

  -- `handle_with_curl`; `buffer` holds `data_dir`, the path and a null character.
  module _
      (perform : (url : List ℕ)
        → (callback : Bool → List ℕ → (size nmemb : ℕ) → Memory → ℕ × Memory) → Memory
        → Download) where
    pub handle_with_curl :
        List Reply → (junk : ℕ) → (data_dir path : List ℕ) → Conn → Outcome Handled
    unfolding send_body
    handle_with_curl rs junk data_dir path c =
        if ltb (length (data_dir ++ path)) buffer_size
        then answer rs (perform (data_dir ++ path) write_callback (fresh junk)) c
        else fault
