-- ===== src/Transfer/Server/Session.antt =====
-- What the two programs of the transfer do for one another.
use cs8803_introduction_to_o.Common.{
  ℕ, ◌*◌, ◌<◌, ◌≡◌, refl, ap, true, false, List, [], arith, length, concat, ok,
}
use cs8803_introduction_to_o.Socket.{buffer_size, close}
use cs8803_introduction_to_o.Transfer.Copying.{closed, lost}
use cs8803_introduction_to_o.Transfer.Copying.Sending.{Full, send_loop_total}
use cs8803_introduction_to_o.Transfer.Copying.Receiving.{Writes, receive_loop_total}
use cs8803_introduction_to_o.Transfer.Server.{Upload, Download, fresh, take_upload, give_download}
use cs8803_introduction_to_o.Transfer.Client.{Run, upload, download}

module _ (r : Run) (dialled : r.first.socket_ok ≡ true) (connected : r.first.connect_ok ≡ true)
    (opened : r.source_opened ≡ true) (enough : length r.file < buffer_size * length r.sending)
    (full : Full r.sending) where
  -- The first half of a transfer: when the client connects and opens its file, every read fills the
  -- block and every send takes it, for enough rounds, then the client sends exactly its file; and
  -- when the server accepts, opens its file, and receives these bytes in any chunks, each written in
  -- full, and then the end, it saves exactly that file.
  pub upload-take_upload :
      (u : Upload) (cs : List (List ℕ))
      → u.accepted ≡ true
      → u.host_known ≡ true
      → u.opened ≡ true
      → Writes u.rounds cs closed
      → concat cs ≡ r.file
      → (upload r ≡ ok (record { sent = r.file; is_open = false })) × (take_upload u ≡ ok r.file)
  unfolding upload take_upload close
  upload-take_upload u cs accepted known target writes whole = (
    rw
        (
          dialled,
          connected,
          opened,
          send_loop_total r.sending r.file 0 fresh refl (omega arith) (omega arith) full,
        )
        refl,
    rw (accepted, known, target, receive_loop_total u.rounds cs closed [] writes) (ap ok whole),
  )

-- The second half of a transfer, from the server to the client: under the same conditions on the
-- calls, the server sends exactly its file, and the client that receives these bytes in any chunks
-- and then the end saves exactly that file.
pub give_download-download :
    (d : Download) (r : Run) (cs : List (List ℕ))
    → d.accepted ≡ true
    → d.host_known ≡ true
    → d.opened ≡ true
    → length d.file < buffer_size * length d.rounds
    → Full d.rounds
    → r.second.socket_ok ≡ true
    → r.second.connect_ok ≡ true
    → r.target_opened ≡ true
    → Writes r.receiving cs closed
    → concat cs ≡ d.file
    → (give_download d ≡ ok (record { sent = d.file; is_open = false })) × (download r ≡ ok d.file)
unfolding give_download download close
give_download-download d r cs accepted known source enough full dialled connected target writes
      whole =
    (
      rw
          (
            accepted,
            known,
            source,
            send_loop_total d.rounds d.file 0 fresh refl (omega arith) (omega arith) full,
          )
          refl,
      rw (dialled, connected, target, receive_loop_total r.receiving cs closed [] writes)
          (ap ok whole),
    )

-- When the connection is lost in the middle of an upload that was accepted, the server keeps the
-- chunks that arrived, and returns as it does for a complete file.
take_upload-lost :
    (u : Upload) (cs : List (List ℕ))
    → u.accepted ≡ true
    → u.host_known ≡ true
    → u.opened ≡ true
    → Writes u.rounds cs lost
    → take_upload u ≡ ok (concat cs)
unfolding take_upload
take_upload-lost u cs accepted known target writes =
    rw (accepted, known, target, receive_loop_total u.rounds cs lost [] writes) refl
