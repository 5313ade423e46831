-- ===== src/Threads/Delivery.antt =====
-- What the clients of the multithreaded server get, in any interleaving of its workers.
use cs8803_introduction_to_o.Common.{ℕ, Option, List, Outcome, ℤ}
use cs8803_introduction_to_o.Socket.{Reply, Conn}
use cs8803_introduction_to_o.Steque.{Steque}
use cs8803_introduction_to_o.Threads.{Pool}
use cs8803_introduction_to_o.Threads.Sound.{Library}
use cs8803_introduction_to_o.Threads.Connections.{Sound}

module _ (send_header : Reply → Conn → (status file_len : ℕ) → Conn)
    (send : Reply → Conn → List ℕ → ℤ × Conn) (abort : Conn → Conn) (announcement : ℕ → List ℕ)
    (lib : Library send_header send abort announcement) (content_get : Option (List ℕ) → Outcome ℤ)
    (file_of : ℕ → List ℕ) where
  -- What is so of the connections in every state.
  abbrev Kept : Pool → Type 0
  Kept = Sound send_header send abort announcement lib content_get file_of
