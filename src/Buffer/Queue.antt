-- ===== src/Buffer/Queue.antt =====
-- What a buffer promises: a queue of at most `capacity` bytes, oldest first.
use sockify.Prelude.{
  ℕ, ◌-◌, List, [], ◌∷◌, ◌++◌, Bytes, leb, if◌then◌else◌, length, take, drop, min,
}
use sockify.Status.{Status, ok, err_overflow}

-- A client's call; the arrays are not null.
pub data Op : Type 0 where
  write_op : Bytes → Op
  read_op : ℕ → Op
  peek_op : ℕ → Op
  consume_op : ℕ → Op
  clear_op : Op
  readable_op : Op
  writable_op : Op

-- What the client sees of a call: the code, the count and the bytes read.
abbrev pub Reply : Type 0
Reply = Status × ℕ × Bytes

unfoldable pub read : Bytes → ℕ → Reply × Bytes
read queue n = ((ok, min n (length queue), take n queue), drop n queue)

module _ (capacity : ℕ) where
  unfoldable pub write : Bytes → Bytes → Reply × Bytes
  write queue bytes =
      let room = capacity - length queue in
      (
        (if leb (length bytes) room then ok else err_overflow, min (length bytes) room, []),
        queue ++ take room bytes,
      )

  unfoldable pub run : Bytes → List Op → List Reply
  run queue [] = []
  run queue (write_op bytes ∷ ops) = let (reply, rest) = write queue bytes in reply ∷ run rest ops
  run queue (read_op n ∷ ops) = let (reply, rest) = read queue n in reply ∷ run rest ops
  run queue (peek_op n ∷ ops) = (read queue n).0 ∷ run queue ops
  run queue (consume_op n ∷ ops) = (ok, min n (length queue), []) ∷ run (drop n queue) ops
  run queue (clear_op ∷ ops) = (ok, 0, []) ∷ run [] ops
  run queue (readable_op ∷ ops) = (ok, length queue, []) ∷ run queue ops
  run queue (writable_op ∷ ops) = (ok, capacity - length queue, []) ∷ run queue ops
