-- ===== src/Proxy/Stopping.antt =====
-- `_proxy_sig_handler` of proj3/webproxy.c: at the end of the program it unlinks the segments that are
-- on the queue of free ones. The queue is the one of Steque; its items are the names' addresses.
use cs8803_introduction_to_o.Common.{
  ℕ, zero, suc, ◌^◌, ◌<◌, ◌≡◌, refl, Option, none, some, List, [], ◌∷◌, ◌==◌, ◌||◌, not,
  if◌then◌else◌, ltb, length, Outcome, ok, ◌>>=◌, arith, Bool-cases, lt→ltb, inl, inr,
}
use cs8803_introduction_to_o.Steque.{Steque, size, pop, destroy}
use cs8803_introduction_to_o.Steque.Cells.{Cells, IsSteque, items}
use cs8803_introduction_to_o.Steque.Queue.{pop-IsSteque}
use cs8803_introduction_to_o.Steque.Destroy.{destroy_total}

-- The loop that pops a segment and unlinks it, for as many rounds.
unlink_all : (rounds : ℕ) → Steque → Outcome (List ℕ × Steque)
unlink_all zero s = ok ([], s)
unlink_all (suc rounds) s = do
  (temp, s₁) ← pop s
  (others, s₂) ← unlink_all rounds s₁
  ok (temp ∷ others, s₂)

-- The names that were unlinked, and the program's status.
pub record Stopped : Type 0 where
  pub unlinked : List ℕ
  pub status : ℕ

-- The handler returns at other signals than SIGINT and SIGTERM. `size` is an `int`, and the loop makes
-- no round if it is negative. The fuel is for `steque_destroy`.
pub proxy_sig_handler : (fuel signo : ℕ) → Steque → Outcome (Option Stopped)
unfolding unlink_all size
proxy_sig_handler fuel signo s = if not (signo == 2 || signo == 15) then ok none else do
  (unlinked, s₁) ← unlink_all (if ltb (size s) (2 ^ 31) then size s else 0) s
  destroyed ← destroy fuel s₁
  ok (some (record { unlinked = unlinked; status = signo }))

unlink_all-items :
    (xs : Cells) {s : Steque}
    → IsSteque s xs
    → length xs < 2 ^ 31
    → (s' : Steque) × (unlink_all (length xs) s ≡ ok (items xs, s')) × IsSteque s' []
unfolding unlink_all
unlink_all-items [] {s} is small = (s, refl, is)
unlink_all-items ((p, v) ∷ xs) is small =
    let (s₁, run, is₁, freed) = pop-IsSteque p v xs is (omega arith) in
    let (s₂, rest, is₂) = unlink_all-items xs is₁ (omega arith) in (s₂, rw (run, rest) refl, is₂)

-- The signal handler of webproxy.c on a well-formed queue of fewer than 2^31 free segments: at
-- SIGINT and SIGTERM it unlinks exactly the segments on the queue, in their order, destroys the
-- queue and exits with the signal's number; at any other signal it returns.
pub proxy_sig_handler-unlinks_all :
    (fuel signo : ℕ) {s : Steque} (xs : Cells)
    → IsSteque s xs
    → length xs < 2 ^ 31
    → 0 < fuel
    → proxy_sig_handler fuel signo s ≡ (
        if signo == 2 || signo == 15
        then ok (some (record { unlinked = items xs; status = signo }))
        else ok none)
unfolding proxy_sig_handler
proxy_sig_handler-unlinks_all fuel signo {s} xs is small enough =
    let (s₁, run, is₁) = unlink_all-items xs is small in
    let (s₂, gone, is₂) = destroy_total fuel [] is₁ (omega arith) enough in
    let rounds : (if ltb s.size (2 ^ 31) then s.size else 0) ≡ length xs =
      rw (is.counted, lt→ltb (length xs) (2 ^ 31) small) refl in
    rw (rounds, run, gone)
      (elim (Bool-cases (signo == 2 || signo == 15)) [
        | inl told ↦ rw told refl
        | inr other ↦ rw other refl
      ])
