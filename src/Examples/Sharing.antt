-- ===== src/Examples/Sharing.antt =====
-- A file of two bytes, and none, between the cache and the proxy of proj3.
use cs8803_introduction_to_o.Common.{
  ℕ, ◌+◌, ◌≤◌, ◌↔◌, ◌≡◌, refl, ◌⊎◌, ◌<◌, true, false, none, some, List, [], ◌∷◌, ◌++◌, length, ℤ,
  pos, arith, negsuc,
}
use cs8803_introduction_to_o.Proxy.Room.{chunk_size, chunk_size-fits}
use cs8803_introduction_to_o.Socket.{Reply, failed, Conn}
use cs8803_introduction_to_o.Proxy.Shared.{
  asleep, turn, Wait, unmapped, measuring, receiving, finished, refused, System, start,
}
use cs8803_introduction_to_o.Proxy.Exchange.{
  cache_turn, proxy_turn, cache_step, proxy_step, Steps, here, next,
}
use cs8803_introduction_to_o.Proxy.Exchange.Finishing.{handle_with_cache-can_finish}
use cs8803_introduction_to_o.Proxy.Exchange.Stuck.{IsStuck, handle_with_cache-can_hang}
use cs8803_introduction_to_o.Proxy.Exchange.Unserved.{
  handle_with_cache-refuses_missing, handle_with_cache-hangs_on_empty,
}

abbrev header : Conn → (status file_len : ℕ) → Conn
header c status file_len = record c { sent = c.sent ++ status ∷ file_len ∷ [] }

abbrev sends : Reply → Conn → List ℕ → ℤ × Conn
sends r c bytes = (pos (length bytes), record c { sent = c.sent ++ bytes })

abbrev client : Conn
client = record { sent = []; is_open = true }

abbrev two_bytes : List ℕ
two_bytes = 7 ∷ 8 ∷ []

abbrev delivered : System
delivered = record {
  segment = record { bytes_written = 0; file_length = pos 0; area = 7 ∷ 8 ∷ [] };
  cache = unmapped;
  proxy = finished (pos 2);
  expected = pos 2;
  conn = record { sent = 200 ∷ 2 ∷ 7 ∷ 8 ∷ []; is_open = true };
}

handle_with_cache-can_finish_example :
    (t : System) × Steps header sends false (some two_bytes) 1 (start [] client) t
    × (t.proxy ≡ finished (pos 2))
    × (t.conn.sent ≡ 200 ∷ 2 ∷ 7 ∷ 8 ∷ [])
handle_with_cache-can_finish_example =
    handle_with_cache-can_finish header sends false two_bytes 1 (omega arith) (omega arith) failed
      (λ c bytes. refl) (λ r c bytes all. refl) [] client (omega arith)

handle_with_cache-can_hang_example :
    (t : System) × Steps header sends false (some two_bytes) 1 (start [] client) t
    × (t.proxy ≡ receiving asleep 0)
    × (0 < t.segment.bytes_written)
    × IsStuck header sends two_bytes 1 t
handle_with_cache-can_hang_example =
    handle_with_cache-can_hang header sends two_bytes 1 (omega arith) (omega arith) (omega arith)
      failed [] client

abbrev turned_away : System
turned_away = record {
  segment = record { bytes_written = 0; file_length = pos 0; area = [] };
  cache = unmapped;
  proxy = refused;
  expected = negsuc 0;
  conn = record { sent = 400 ∷ 0 ∷ []; is_open = true };
}

not_found : Steps header sends false none 4 (start [] client) turned_away
unfolding cache_turn proxy_turn turn
not_found =
    next
      (next (next (next (next here (cache_step 4 refl)) (cache_step 4 refl)) (cache_step 4 refl))
        (proxy_step failed refl))
      (proxy_step failed refl)

handle_with_cache-refuses_missing_example :
    (((w : Wait) × (turned_away.proxy ≡ measuring w)) × (turned_away.conn ≡ client))
    ⊎ ((turned_away.proxy ≡ refused) × (turned_away.conn ≡ header client 400 0))
handle_with_cache-refuses_missing_example =
    handle_with_cache-refuses_missing header sends false 4 [] client not_found

abbrev hung : System
hung = record {
  segment = record { bytes_written = 0; file_length = pos 0; area = [] };
  cache = unmapped;
  proxy = measuring asleep;
  expected = pos 0;
  conn = client;
}

nothing_to_send : Steps header sends false (some []) 4 (start [] client) hung
unfolding cache_turn proxy_turn turn
nothing_to_send =
    next
      (next
        (next (next (next (next here (cache_step 4 refl)) (cache_step 4 refl)) (cache_step 4 refl))
          (proxy_step failed refl))
        (proxy_step failed refl))
      (proxy_step failed refl)

handle_with_cache-hangs_on_empty_example :
    ((w : Wait) × (hung.proxy ≡ measuring w)) × (hung.conn ≡ client)
handle_with_cache-hangs_on_empty_example =
    handle_with_cache-hangs_on_empty header sends false 4 [] client nothing_to_send

-- The default size, with structures of 184 bytes.
chunk_size-fits_example : (184 + chunk_size 184 (pos 1024) ≤ 1024) ↔ (184 < 1024)
chunk_size-fits_example = chunk_size-fits 184 1024 (omega arith) (omega arith)
