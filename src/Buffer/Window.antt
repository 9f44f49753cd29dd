-- ===== src/Buffer/Window.antt =====
-- The bytes that a buffer holds, oldest first, and how a write just past them extends them.
use sockify.Prelude.{
  ℕ, zero, suc, ◌+◌, ◌-◌, ◌%◌, ◌≤◌, ◌<◌, ◌≡◌, ◌≢◌, refl, ap, ap₂, ◌∙◌, ◌⊎◌, [], ◌∷◌, ◌++◌, Bytes,
  arith, length, get_or, set, take, drop, get_or-set_self, get_or-set_ne,
}
use sockify.Buffer.{Buffer, next_pos, peek_loop}

module _ (storage : Bytes) (capacity : ℕ) where
  -- `n` bytes from index `pos` on, the index taken modulo the capacity.
  abbrev pub window : ℕ → ℕ → Bytes
  window pos zero = []
  window pos (suc n) = get_or storage pos 0 ∷ window ((pos + 1) % capacity) n

abbrev pub contents : Buffer → Bytes
contents buf = window buf.storage buf.capacity buf.read_pos buf.len

pub length-window :
    (storage : Bytes) (capacity pos n : ℕ) → length (window storage capacity pos n) ≡ n
length-window storage capacity pos zero = refl
length-window storage capacity pos (suc n) =
    ap suc (length-window storage capacity ((pos + 1) % capacity) n)

pub next_pos-mod :
    (capacity pos : ℕ) → pos < capacity → next_pos capacity pos ≡ (pos + 1) % capacity
next_pos-mod capacity pos h = grind arith

next_cases :
    (capacity pos : ℕ)
    → pos < capacity
    → ((pos + 1) % capacity ≡ pos + 1) × (pos + 1 < capacity)
      ⊎ ((pos + 1) % capacity ≡ 0) × (pos + 1 ≡ capacity)
next_cases capacity pos h = grind arith

-- What `peek` copies out is the window.
pub peek_loop-window :
    (storage : Bytes) (capacity pos n : ℕ)
    → pos < capacity
    → peek_loop storage capacity pos n ≡ window storage capacity pos n
unfolding peek_loop
peek_loop-window storage capacity pos zero h = refl
peek_loop-window storage capacity pos (suc n) h = ap (◌∷◌ (get_or storage pos 0)) (
    ap (λ q. peek_loop storage capacity q n) (next_pos-mod capacity pos h)
    ∙ peek_loop-window storage capacity ((pos + 1) % capacity) n (omega arith))

-- Writing at the index `n` places on extends a window of `n` bytes by the byte written.
pub window-set :
    (storage : Bytes) (capacity x n pos i : ℕ)
    → capacity ≤ length storage
    → pos < capacity
    → i < capacity
    → n < capacity
    → (pos + n ≡ i) ⊎ (pos + n ≡ i + capacity)
    → window (set storage i x) capacity pos (suc n) ≡ window storage capacity pos n ++ (x ∷ [])
window-set storage capacity x zero pos i s p q r e =
    let same : i ≡ pos = omega arith in rw (same, get_or-set_self storage pos x 0 (omega arith))
window-set storage capacity x (suc n) pos i s p q r e =
    let other : i ≢ pos = omega arith in
    ap₂ ◌∷◌ (get_or-set_ne storage i pos x 0 other) (
      window-set storage capacity x n ((pos + 1) % capacity) i s (omega arith) q (omega arith)
        (omega (arith, next_cases capacity pos p)))

-- Dropping `k` bytes of a window moves its start by `k` places round the ring.
pub drop-window :
    (storage : Bytes) (capacity k n pos q : ℕ)
    → pos < capacity
    → q < capacity
    → k ≤ n
    → (pos + k ≡ q) ⊎ (pos + k ≡ q + capacity)
    → k ≤ capacity
    → drop k (window storage capacity pos n) ≡ window storage capacity q (n - k)
drop-window storage capacity zero n pos q p p' h e c =
    let same : q ≡ pos = omega arith in let all : n - 0 ≡ n = omega arith in rw (same, all)
drop-window storage capacity (suc k) zero pos q p p' h e c = absurd (omega arith)
drop-window storage capacity (suc k) (suc n) pos q p p' h e c =
    let fewer : suc n - suc k ≡ n - k = omega arith in
    rw fewer (
      drop-window storage capacity k n ((pos + 1) % capacity) q (omega arith) p' (omega arith)
        (omega (arith, next_cases capacity pos p)) (omega arith))

pub take-window :
    (storage : Bytes) (capacity k n pos : ℕ)
    → k ≤ n
    → take k (window storage capacity pos n) ≡ window storage capacity pos k
take-window storage capacity zero n pos h = refl
take-window storage capacity (suc k) zero pos h = absurd (omega arith)
take-window storage capacity (suc k) (suc n) pos h =
    ap (◌∷◌ (get_or storage pos 0))
      (take-window storage capacity k n ((pos + 1) % capacity) (omega arith))
