-- ===== src/Buffer.antt =====
-- src/core/buffer.c: the fixed-storage ring buffer. A function that updates `*buf` returns the new
-- buffer; one with an output parameter returns what it stores there, in the order of the
-- parameters. A data pointer that may be null is an `Option`.
pub mod Queue
pub mod Inv
pub mod Window
pub mod Write
pub mod Read
pub mod Refine
mod Tests
use sockify.Prelude.{
  ℕ, zero, suc, ◌+◌, ◌-◌, ◌≤◌, ◌<◌, Bool, true, false, not, ◌&&◌, ◌||◌, Option, none, some, List,
  [], ◌∷◌, Bytes, ltb, leb, ◌==◌, ◌!=◌, if◌then◌else◌, get_or, set, take, add_size, sub_size,
}
use sockify.Status.{Status, ok, err_invalid, err_overflow, is_ok}

-- `struct sockify_buffer`; `storage` is `data` and `len` is `length`.
pub record Buffer : Type 0 where
  pub storage : Bytes
  pub capacity : ℕ
  pub read_pos : ℕ
  pub write_pos : ℕ
  pub len : ℕ
  pub high_water : ℕ
  pub low_water : ℕ

abbrev pub is_null : Option Bytes → Bool
is_null none = true
is_null (some _) = false

abbrev pub bytes_of : Option Bytes → Bytes
bytes_of none = []
bytes_of (some bytes) = bytes

-- A rejected `init` leaves the buffer as it was.
pub init : Buffer → Option Bytes → ℕ → ℕ → ℕ → Status × Buffer
init buf storage capacity high_water low_water =
    if is_null storage || capacity == 0
    then (err_invalid, buf)
    else if ltb capacity high_water || ltb high_water low_water
    then (err_invalid, buf)
    else (
      ok,
      record {
        storage = bytes_of storage;
        capacity = capacity;
        read_pos = 0;
        write_pos = 0;
        len = 0;
        high_water = high_water;
        low_water = low_water;
      },
    )

pub clear : Buffer → Buffer
clear buf = record buf { read_pos = 0; write_pos = 0; len = 0 }

unfoldable pub readable : Buffer → ℕ
readable buf = buf.len

unfoldable pub writable : Buffer → ℕ
writable buf = sub_size buf.capacity buf.len

unfoldable pub is_high : Buffer → Bool
is_high buf = leb buf.high_water buf.len

unfoldable pub is_low : Buffer → Bool
is_low buf = leb buf.len buf.low_water

-- The step of an index round the ring: `pos++; if (pos == capacity) pos = 0;`.
abbrev pub next_pos : ℕ → ℕ → ℕ
next_pos capacity pos = if suc pos == capacity then 0 else suc pos

-- One round of the copying loop of `write`.
pub put_byte : Buffer → ℕ → Buffer
put_byte buf x = record buf {
  storage = set buf.storage buf.write_pos x;
  write_pos = next_pos buf.capacity buf.write_pos;
}

-- The list is `data[i..to_write)`.
pub write_loop : Bytes → Buffer → Buffer
write_loop [] buf = buf
write_loop (x ∷ xs) buf = write_loop xs (put_byte buf x)

-- The results are the return code, `*written` and `*buf`.
pub write : Buffer → Option Bytes → ℕ → Status × ℕ × Buffer
write buf data_ptr data_len =
    let room = sub_size buf.capacity buf.len in
    let to_write = if ltb data_len room then data_len else room in
    let after = write_loop (take to_write (bytes_of data_ptr)) buf in
    if is_null data_ptr && data_len != 0 then (err_invalid, 0, buf) else (
      if ltb to_write data_len then err_overflow else ok,
      to_write,
      record after { len = add_size after.len to_write },
    )

-- What the loop of `peek` stores in `out`, from index `pos` on.
pub peek_loop : Bytes → ℕ → ℕ → ℕ → Bytes
peek_loop storage capacity pos zero = []
peek_loop storage capacity pos (suc n) =
    get_or storage pos 0 ∷ peek_loop storage capacity (next_pos capacity pos) n

-- The results are the return code, `*read_count` and the bytes stored in `out`.
pub peek : Buffer → Bool → ℕ → Status × ℕ × Bytes
peek buf out_null out_len =
    let to_read = if ltb out_len buf.len then out_len else buf.len in
    if out_null && out_len != 0
    then (err_invalid, 0, [])
    else (ok, to_read, peek_loop buf.storage buf.capacity buf.read_pos to_read)

-- `while (read_pos >= capacity) read_pos -= capacity;` on fuel.
pub wrap_loop : ℕ → ℕ → ℕ → ℕ
wrap_loop zero capacity pos = pos
wrap_loop (suc fuel) capacity pos =
    let rest = wrap_loop fuel capacity (pos - capacity) in if leb capacity pos then rest else pos

-- The results are the return code, `*consumed` and `*buf`. Each round of the loop takes at least
-- one off the position, so the position bounds the rounds.
pub consume : Buffer → ℕ → Status × ℕ × Buffer
consume buf count =
    let to_consume = if ltb count buf.len then count else buf.len in
    let moved = add_size buf.read_pos to_consume in
    (
      ok,
      to_consume,
      record buf {
        read_pos = wrap_loop (suc moved) buf.capacity moved;
        len = sub_size buf.len to_consume;
      },
    )

-- The results are the return code, `*read_count`, the bytes stored in `out` and `*buf`.
pub read : Buffer → Bool → ℕ → Status × ℕ × Bytes × Buffer
read buf out_null out_len =
    let (rc, count, bytes) = peek buf out_null out_len in
    let (_, _, after) = consume buf count in
    if not (is_ok rc) then (rc, 0, [], buf) else (ok, count, bytes, after)
