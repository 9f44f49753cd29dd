-- ===== src/Buffer/Write.antt =====
-- `sockify_buffer_write`: which bytes it takes and what it returns.
use sockify.Prelude.{
  ℕ, suc, ◌+◌, ◌-◌, ◌≤◌, ◌<◌, ◌≡◌, refl, ap, ◌∙◌, ◌⊎◌, [], ◌∷◌, ◌++◌, Bytes, some, arith,
  if_ltb-min, length, take, min, leb, sub_size, length-set, length-take, append-nil, append_assoc,
  if◌then◌else◌,
}
use native.Mathlib.Numerals.{add-one}
use sockify.Buffer.{Buffer, put_byte, write_loop, write, writable}
use sockify.Buffer.Inv.{IsValid}
use sockify.Buffer.Window.{window, contents, window-set}
use sockify.Status.{ok, err_overflow}

-- What the copying loop knows of its buffer when `n` bytes stand behind the read position.
record Holds (buf : Buffer) (n : ℕ) : Type 0 where
  stored : buf.capacity ≤ length buf.storage
  read_in : buf.read_pos < buf.capacity
  write_in : buf.write_pos < buf.capacity
  apart : (buf.read_pos + n ≡ buf.write_pos) ⊎ (buf.read_pos + n ≡ buf.write_pos + buf.capacity)

put_byte-Holds :
    (buf : Buffer) (x n : ℕ) → Holds buf n → n < buf.capacity → Holds (put_byte buf x) (n + 1)
unfolding put_byte
put_byte-Holds buf x n h lt = ground (arith, length-set buf.storage buf.write_pos x)

put_byte-window :
    (buf : Buffer) (x n : ℕ)
    → Holds buf n
    → n < buf.capacity
    → window (put_byte buf x).storage buf.capacity buf.read_pos (suc n)
      ≡ window buf.storage buf.capacity buf.read_pos n ++ (x ∷ [])
unfolding put_byte
put_byte-window buf x n h lt =
    window-set buf.storage buf.capacity x n buf.read_pos buf.write_pos h.stored h.read_in h.write_in
      lt h.apart

-- The fields that the loop leaves alone.
record Keeps (before after : Buffer) : Type 0 where
  capacity_same : after.capacity ≡ before.capacity
  read_pos_same : after.read_pos ≡ before.read_pos
  len_same : after.len ≡ before.len
  high_same : after.high_water ≡ before.high_water
  low_same : after.low_water ≡ before.low_water

write_loop-Keeps : (xs : Bytes) (buf : Buffer) → Keeps buf (write_loop xs buf)
unfolding write_loop put_byte
write_loop-Keeps [] buf = ground arith
write_loop-Keeps (x ∷ xs) buf = ground (arith, write_loop-Keeps xs (put_byte buf x))

write_loop-Holds :
    (xs : Bytes) (buf : Buffer) (n m : ℕ)
    → Holds buf n
    → n + length xs ≡ m
    → m ≤ buf.capacity
    → Holds (write_loop xs buf) m
unfolding write_loop
write_loop-Holds [] buf n m h e r = let same : n ≡ m = omega arith in rw (← same) h
write_loop-Holds (x ∷ xs) buf n m h e r =
    write_loop-Holds xs (put_byte buf x) (n + 1) m (put_byte-Holds buf x n h (omega arith))
      (omega arith) (unfold put_byte in r)

write_loop-window :
    (xs : Bytes) (buf : Buffer) (n m : ℕ)
    → Holds buf n
    → n + length xs ≡ m
    → m ≤ buf.capacity
    → window (write_loop xs buf).storage buf.capacity buf.read_pos m
      ≡ window buf.storage buf.capacity buf.read_pos n ++ xs
unfolding write_loop put_byte
write_loop-window [] buf n m h e r = let same : n ≡ m = omega arith in rw (← same, append-nil)
write_loop-window (x ∷ xs) buf n m h e r =
    write_loop-window xs (put_byte buf x) (n + 1) m (put_byte-Holds buf x n h (omega arith))
      (omega arith) r
    ∙ ap (λ l. l ++ xs) (rw add-one (put_byte-window buf x n h (omega arith)))
    ∙ append_assoc (window buf.storage buf.capacity buf.read_pos n) (x ∷ []) xs

-- The number of bytes that fit.
writable-room : {buf : Buffer} → IsValid buf → writable buf ≡ buf.capacity - buf.len
unfolding writable
writable-room v = omega arith

module _ {buf : Buffer} (bytes : Bytes) (v : IsValid buf) where
  abbrev room : ℕ
  room = buf.capacity - buf.len

  abbrev loop_result : Buffer
  loop_result = write_loop (take (min (length bytes) room) bytes) buf

  at_start : Holds buf buf.len
  at_start = record {
    stored = v.stored;
    read_in = v.read_in;
    write_in = v.write_in;
    apart = v.apart;
  }

  taken : length (take (min (length bytes) room) bytes) ≡ min (length bytes) room
  taken = omega (arith, length-take (min (length bytes) room) bytes)

  -- The call in terms of its loop: what is returned, and how many bytes the loop copies.
  write-loop : write buf (some bytes) (length bytes) ≡ (
    (if leb (length bytes) room then ok else err_overflow),
    min (length bytes) room,
    record loop_result { len = buf.len + min (length bytes) room },
  )
  unfolding write
  write-loop =
      let fits : sub_size buf.capacity buf.len ≡ room = omega arith in
      rw (fits, if_ltb-min)
        (ground (arith, write_loop-Keeps (take (min (length bytes) room) bytes) buf))

  -- A write of any bytes into a valid buffer leaves a valid buffer, also when not all bytes fit.
  pub write-IsValid : IsValid (write buf (some bytes) (length bytes)).2
  write-IsValid = rw write-loop (
      ground (
        arith,
        write_loop-Keeps (take (min (length bytes) room) bytes) buf,
        write_loop-Holds (take (min (length bytes) room) bytes) buf buf.len
            (buf.len + min (length bytes) room) at_start (omega (arith, taken)) (omega arith),
      ))

  -- A write into a valid buffer appends the bytes that fit to its contents, in order.
  pub contents-write :
      contents (write buf (some bytes) (length bytes)).2
      ≡ contents buf ++ take (min (length bytes) room) bytes
  contents-write = rw write-loop (
      rw (keeps.capacity_same, keeps.read_pos_same)
        (write_loop-window (take (min (length bytes) room) bytes) buf buf.len
          (buf.len + min (length bytes) room) at_start (omega (arith, taken)) (omega arith)))
    where
      keeps : Keeps buf loop_result
      keeps = write_loop-Keeps (take (min (length bytes) room) bytes) buf

  -- What the caller learns: whether all bytes fitted, and how many did.
  pub write_reply :
      ((write buf (some bytes) (length bytes)).0
        ≡ (if leb (length bytes) room then ok else err_overflow))
      × ((write buf (some bytes) (length bytes)).1 ≡ min (length bytes) room)
  write_reply = rw write-loop (refl, refl)

  pub capacity-write : (write buf (some bytes) (length bytes)).2.capacity ≡ buf.capacity
  capacity-write =
      rw write-loop (write_loop-Keeps (take (min (length bytes) room) bytes) buf).capacity_same
