-- ===== src/Getfile/Client/Transfer.antt =====
-- `gfc_perform` from the connection to the last byte.
use cs8803_introduction_to_o.Common.{ℕ, true, false, List, ◌++◌, pos}
use cs8803_introduction_to_o.CString.{codes}
use cs8803_introduction_to_o.Socket.{moved, Conn, close}
use cs8803_introduction_to_o.Getfile.Response.{crlf2}
use cs8803_introduction_to_o.Getfile.Client.{Request, Done, Network, gf_ok, dangling}

-- The text of a request.
abbrev pub request_text : List ℕ → List ℕ
request_text path = codes "GETFILE GET " ++ path ++ crlf2

-- How a transfer of `file` ends.
abbrev pub transferred : Request → (file : List ℕ) → (len : ℕ) → Conn → Done
transferred gfr file len c = record {
  result = pos 0;
  request = record gfr {
    live = false;
    status = gf_ok;
    status_text = dangling;
    bytes_received = len;
    file_length = len;
    writer = gfr.writer ++ file;
  };
  conn = close c;
}

-- The answers of a network that works.
abbrev pub working : ℕ → Network
working j = record { socket_ok = true; host_found = true; connect_ok = true; sending = moved j }
