-- ===== src/Proxy/Room.antt =====
-- How much the cache puts into a segment at a time, from the size that the option -z of
-- proj3/webproxy.c sets: the argument of `pread` in `cache_worker` of proj3/simplecached.c.
use cs8803_introduction_to_o.Common.{
  ℕ, ◌+◌, ◌<◌, ◌≤◌, ◌^◌, ◌↔◌, ℤ, pos, wrap, sub64, u64_mod, arith,
}

-- `(msg->segment_size - sizeof(shm_data)) - 1` on `size_t`.
pub chunk_size : (sizeof_shm_data : ℕ) → (segment_size : ℤ) → ℕ
chunk_size sizeof_shm_data segment_size =
    sub64 (sub64 (wrap u64_mod segment_size) sizeof_shm_data) 1

-- For a segment size that is not negative, and structures of fewer than 2^31 bytes: what
-- cache_worker asks pread to put behind the structure fits the segment exactly if the segment is
-- larger than the structure.
pub chunk_size-fits :
    (sizeof_shm_data n : ℕ)
    → sizeof_shm_data < 2 ^ 31
    → n < 2 ^ 31
    → (sizeof_shm_data + chunk_size sizeof_shm_data (pos n) ≤ n) ↔ (sizeof_shm_data < n)
unfolding chunk_size
chunk_size-fits sizeof_shm_data n small fits = ((λ h. omega arith), (λ h. omega arith))
