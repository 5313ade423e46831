-- ===== src/Examples/Programs.antt =====
-- The file transfer and the echo programs on short inputs.
use cs8803_introduction_to_o.Common.{
  ℕ, ◌≡◌, refl, ap, true, false, some, [], ◌∷◌, arith, ok, List, length, Option, ◌++◌, zero, suc,
}
use cs8803_introduction_to_o.CString.{codes}
use cs8803_introduction_to_o.Socket.{Reply, Recv, moved, got, write, close}
use cs8803_introduction_to_o.Transfer.Copying.{receive_loop}
use cs8803_introduction_to_o.Transfer.Server.{Upload, take_upload, give_download}
use cs8803_introduction_to_o.Transfer.Client.{Run, upload, download}
use cs8803_introduction_to_o.Transfer.Server.Session.{upload-take_upload, give_download-download}
use cs8803_introduction_to_o.Transfer.Options.{client_options}
use cs8803_introduction_to_o.Transfer.Copying.{fread, fwrite, send_loop}
use cs8803_introduction_to_o.Transfer.Client.{connect, after_receiving, main}
use cs8803_introduction_to_o.Transfer.Client.Address.{main-localhost}
use cs8803_introduction_to_o.Echo.{Visit, serve_one}
use cs8803_introduction_to_o.Echo.Answer.{Text, serve_one-Text}

-- A connection that works, with "Hi" to send.
abbrev sender : Run
sender = record {
  first = record { socket_ok = true; connect_ok = true };
  source_opened = true;
  file = codes "Hi";
  sending = (moved 4096, moved 4096) ∷ [];
  second = record { socket_ok = true; connect_ok = true };
  target_opened = true;
  receiving =
      (got (codes "H"), moved 4096) ∷ (got (codes "i"), moved 4096) ∷ (got [], moved 0) ∷ [];
  again = false;
}

abbrev upload_of : List (Recv × Reply) → Upload
upload_of rounds = record { accepted = true; host_known = true; opened = true; rounds = rounds }

upload-take_upload_example :
    (upload sender ≡ ok (record { sent = codes "Hi"; is_open = false }))
    × (take_upload (upload_of sender.receiving) ≡ ok (codes "Hi"))
upload-take_upload_example =
    upload-take_upload sender refl refl refl (omega arith)
      ((4096, refl, omega arith), (4096, refl, omega arith), tt) (upload_of sender.receiving)
      (codes "H" ∷ codes "i" ∷ []) refl refl refl
      (refl, (4096, refl, omega arith), (refl, (4096, refl, omega arith), refl)) refl

give_download-download_example :
    (give_download (record {
      accepted = true;
      host_known = true;
      opened = true;
      rounds = (moved 4096, moved 4096) ∷ [];
      file = codes "Hi";
    })
      ≡ ok (record { sent = codes "Hi"; is_open = false }))
    × (download sender ≡ ok (codes "Hi"))
give_download-download_example =
    give_download-download
      (record {
        accepted = true;
        host_known = true;
        opened = true;
        rounds = (moved 4096, moved 4096) ∷ [];
        file = codes "Hi";
      })
      sender (codes "H" ∷ codes "i" ∷ []) refl refl refl (omega arith)
      ((4096, refl, omega arith), (4096, refl, omega arith), tt) refl refl refl
      (refl, (4096, refl, omega arith), (refl, (4096, refl, omega arith), refl)) refl

-- A run with the option -s, which asks for another host.
main_run :
    main (λ h. some 7) ((b's', codes "example.org") ∷ []) sender
    ≡ ok (record {
      peer = record { address = 7; port = 8888 };
      upload_conn = record { sent = codes "Hi"; is_open = false };
      saved = codes "Hi";
    })
unfolding main upload download connect after_receiving client_options send_loop receive_loop fread
    fwrite write close
main_run = refl

main-localhost_example : ◌≡◌ {A = Option ℕ} (some 7) (some 7)
main-localhost_example =
    main-localhost (λ h. some 7) ((b's', codes "example.org") ∷ []) sender main_run

abbrev visit : Visit
visit = record {
  accepted = true;
  host_known = true;
  request = got (codes "Hi" ++ 0 ∷ codes "x");
  answer = moved 4096;
}

serve_one-Text_example : serve_one visit ≡ ok (record { sent = codes "Hi"; is_open = false })
serve_one-Text_example =
    serve_one-Text visit refl refl (codes "Hi") (codes "x") 4096 (ground arith, (ground arith, tt))
      (omega arith) (omega arith) refl refl

abbrev letters : ℕ → List ℕ
letters zero = []
letters (suc n) = b'a' ∷ letters n

letters-Text : (n : ℕ) → Text (letters n)
letters-Text zero = tt
letters-Text (suc n) = (ground arith, letters-Text n)

length-letters : (n : ℕ) → length (letters n) ≡ n
length-letters zero = refl
length-letters (suc n) = ap suc (length-letters n)
