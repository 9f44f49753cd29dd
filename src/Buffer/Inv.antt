-- ===== src/Buffer/Inv.antt =====
-- The representation invariant of a buffer.
use sockify.Prelude.{
  ℕ, zero, suc, ◌+◌, ◌-◌, ◌^◌, ◌≤◌, ◌<◌, ◌≡◌, refl, ◌⊎◌, some, Bytes, arith, length, leb,
  if◌then◌else◌,
}
use sockify.Buffer.{Buffer, init, clear, wrap_loop}
use sockify.Status.{ok}

-- No C object is larger than 2 ^ 63 bytes; the bound keeps `read_pos + to_consume` from wrapping.
pub record IsValid (buf : Buffer) : Type 0 where
  pub nonempty : 0 < buf.capacity
  pub small : buf.capacity ≤ 2 ^ 63
  pub stored : buf.capacity ≤ length buf.storage
  pub read_in : buf.read_pos < buf.capacity
  pub write_in : buf.write_pos < buf.capacity
  pub len_in : buf.len ≤ buf.capacity
  pub apart :
      (buf.read_pos + buf.len ≡ buf.write_pos)
      ⊎ (buf.read_pos + buf.len ≡ buf.write_pos + buf.capacity)
  pub high_in : buf.high_water ≤ buf.capacity
  pub low_in : buf.low_water ≤ buf.high_water

-- An accepted `sockify_buffer_init` on a storage that holds the capacity gives a valid buffer.
pub init-IsValid :
    (buf : Buffer) (storage : Bytes) (capacity high_water low_water : ℕ)
    → capacity ≤ length storage
    → capacity ≤ 2 ^ 63
    → (init buf (some storage) capacity high_water low_water).0 ≡ ok
    → IsValid (init buf (some storage) capacity high_water low_water).1
unfolding init
init-IsValid buf storage capacity high_water low_water h k e = ground arith

pub clear-IsValid : {buf : Buffer} → IsValid buf → IsValid (clear buf)
unfolding clear
clear-IsValid v = ground arith

-- The subtracting loop ends below the capacity, and takes off a multiple of it.
pub wrap_loop-lt :
    (fuel capacity pos : ℕ) → 0 < capacity → pos < fuel → wrap_loop fuel capacity pos < capacity
unfolding wrap_loop
wrap_loop-lt zero capacity pos p h = absurd (omega arith)
wrap_loop-lt (suc fuel) capacity pos p h =
    ground (arith, wrap_loop-lt fuel capacity (pos - capacity))

wrap_loop-below : (fuel capacity pos : ℕ) → pos < capacity → wrap_loop fuel capacity pos ≡ pos
unfolding wrap_loop
wrap_loop-below zero capacity pos p = refl
wrap_loop-below (suc fuel) capacity pos p = ground arith

-- From below twice the capacity it takes off the capacity once, or not at all.
pub wrap_loop_once :
    (fuel capacity pos : ℕ)
    → pos < capacity + capacity
    → wrap_loop (suc fuel) capacity pos ≡ (if leb capacity pos then pos - capacity else pos)
unfolding wrap_loop
wrap_loop_once fuel capacity pos h = ground (arith, wrap_loop-below fuel capacity (pos - capacity))
