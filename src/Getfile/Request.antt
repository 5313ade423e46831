-- ===== src/Getfile/Request.antt =====
-- A request of the client library, proj1/getfile/gfclient.c: a record in memory, with the functions
-- that make it, set it and read it. `gfc_cleanup` gives it back, and any later access to it faults.
-- The callbacks are a file that is appended to.
use cs8803_introduction_to_o.Common.{
  ℕ, ◌%◌, Bool, true, false, not, List, [], if◌then◌else◌, Outcome, ok, fault, u16_mod,
}
use cs8803_introduction_to_o.CString.{codes, str_eq}

-- `gfstatus_t` of gfclient.h.
pub data Status : Type 0 where
  gf_ok gf_file_not_found gf_error gf_invalid : Status

-- What `statusText` points to: nothing yet, a text that is there, or memory that was freed.
pub data Text : Type 0 where
  uninitialised : Text
  text : List ℕ → Text
  dangling : Text

-- `struct gfcrequest_t`; a function pointer is a mark that it was set, and `live` says that the
-- request was not freed. `writer` collects what the write callback is given, `headers` what the
-- header callback is.
pub record Request : Type 0 where
  pub live : Bool
  pub server : List ℕ
  pub path : List ℕ
  pub port : ℕ
  pub status : Status
  pub status_text : Text
  pub bytes_received : ℕ
  pub file_length : ℕ
  pub header_argument : Bool
  pub header_set : Bool
  pub writer_set : Bool
  pub writer : List ℕ
  pub headers : List (List ℕ)

-- `gfc_create`: the fields hold what the memory held, `memory`, and the request is live.
unfoldable pub create : Request → Request
create memory = record memory {
  live = true;
  status_text = uninitialised;
  header_set = false;
  writer_set = false;
  writer = [];
  headers = [];
}

unfoldable pub set_server : Request → List ℕ → Request
set_server gfr server = record gfr { server = server }

unfoldable pub set_path : Request → List ℕ → Request
set_path gfr path = record gfr { path = path }

unfoldable pub set_port : Request → ℕ → Request
set_port gfr port = record gfr { port = port % u16_mod }

unfoldable pub set_headerfunc : Request → Request
set_headerfunc gfr = record gfr { header_set = true }

unfoldable pub set_headerarg : Request → Bool → Request
set_headerarg gfr nonnull = record gfr { header_argument = nonnull }

unfoldable pub set_writefunc : Request → Request
set_writefunc gfr = record gfr { writer_set = true }

-- The argument of the write callback is the file that collects: it starts empty.
unfoldable pub set_writearg : Request → Request
set_writearg gfr = record gfr { writer = [] }

-- `gfc_cleanup`: `free` of a live request; the second one faults.
unfoldable pub cleanup : Request → Outcome Request
cleanup gfr = if gfr.live then ok (record gfr { live = false }) else fault

unfoldable pub status_of : List ℕ → Status
status_of t =
    if str_eq t (codes "OK")
    then gf_ok
    else if str_eq t (codes "FILE_NOT_FOUND")
    then gf_file_not_found
    else if str_eq t (codes "ERROR")
    then gf_error
    else gf_invalid

-- `gfc_get_status`
unfoldable pub get_status : Request → Outcome Status
unfolding status_of
get_status gfr = if not gfr.live then fault else elim gfr.status_text [
  | uninitialised ↦ fault
  | text t ↦ ok (status_of t)
  | dangling ↦ fault
]

-- `gfc_strstatus`
unfoldable pub strstatus : Status → List ℕ
strstatus gf_ok = codes "OK"
strstatus gf_file_not_found = codes "FILE_NOT_FOUND"
strstatus gf_error = codes "ERROR"
strstatus gf_invalid = codes "INVALID"

unfoldable pub get_filelen : Request → Outcome ℕ
get_filelen gfr = if gfr.live then ok gfr.file_length else fault

unfoldable pub get_bytesreceived : Request → Outcome ℕ
get_bytesreceived gfr = if gfr.live then ok gfr.bytes_received else fault
