-- ===== src/Threads/Ended.antt =====
-- The multithreaded server when its workers have returned.
use cs8803_introduction_to_o.Common.{ℕ, ◌≡◌, List}
use cs8803_introduction_to_o.Steque.{Steque}
use cs8803_introduction_to_o.Threads.{ended, Pool}

-- No worker is left, and these tasks were taken.
abbrev pub IsDead : (taken : List ℕ) → Pool → Type 0
IsDead taken s = ((i : ℕ) → s.workers i ≡ ended) × (s.taken ≡ taken)
