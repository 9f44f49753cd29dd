-- ===== src/Buffer/Refine.antt =====
-- A valid buffer behaves as the bounded queue of the bytes that it holds.
use sockify.Prelude.{
  ℕ, ◌-◌, ◌≡◌, refl, sym, ap, ◌∙◌, List, [], ◌∷◌, ◌++◌, Bytes, some, take_within, false, arith,
  length, min, take, drop, leb, if◌then◌else◌,
}
use sockify.Buffer.{Buffer, write, read, peek, consume, clear, readable, writable}
use sockify.Buffer.Inv.{IsValid, clear-IsValid}
use sockify.Buffer.Window.{contents, length-window}
use sockify.Buffer.Write.{write-IsValid, contents-write, write_reply, capacity-write}
use sockify.Buffer.Read.{
  read_lem, capacity-read, peek_lem, consume-IsValid, capacity-consume, contents-consume,
}
use sockify.Buffer.Queue
use sockify.Buffer.Queue.{
  Op, write_op, read_op, peek_op, consume_op, clear_op, readable_op, writable_op, Reply,
}
use sockify.Status.{ok, err_overflow}

-- A client's calls in order, with what each returns.
unfoldable pub run : Buffer → List Op → List Reply
run buf [] = []
run buf (write_op bytes ∷ ops) =
    let (rc, written, after) = write buf (some bytes) (length bytes) in
    (rc, written, []) ∷ run after ops
run buf (read_op n ∷ ops) =
    let (rc, count, bytes, after) = read buf false n in (rc, count, bytes) ∷ run after ops
run buf (peek_op n ∷ ops) = peek buf false n ∷ run buf ops
run buf (consume_op n ∷ ops) =
    let (rc, count, after) = consume buf n in (rc, count, []) ∷ run after ops
run buf (clear_op ∷ ops) = (ok, 0, []) ∷ run (clear buf) ops
run buf (readable_op ∷ ops) = (ok, readable buf, []) ∷ run buf ops
run buf (writable_op ∷ ops) = (ok, writable buf, []) ∷ run buf ops

-- A write into a valid buffer is a write into the queue that it holds.
pub write_refines :
    (bytes : Bytes) {buf : Buffer}
    → IsValid buf
    → let (rc, written, after) = write buf (some bytes) (length bytes) in
      ((rc, written, []), contents after) ≡ Queue.write buf.capacity (contents buf) bytes
unfolding Queue.write
write_refines bytes {buf} v =
    let held = length-window buf.storage buf.capacity buf.read_pos buf.len in
    rw (held, contents-write bytes v, (write_reply bytes v).0, (write_reply bytes v).1)
      (ap
        (λ q. (
          (
            if leb (length bytes) (buf.capacity - buf.len) then ok else err_overflow,
            min (length bytes) (buf.capacity - buf.len),
            [],
          ),
          contents buf ++ q,
        ))
        (take_within (buf.capacity - buf.len) bytes _ (omega arith)))

-- A read from a valid buffer is a read from the queue that it holds.
pub read_refines :
    (n : ℕ) {buf : Buffer}
    → IsValid buf
    → let (rc, count, bytes, after) = read buf false n in
      ((rc, count, bytes), contents after) ≡ Queue.read (contents buf) n
unfolding Queue.read
read_refines n {buf} v =
    let held = length-window buf.storage buf.capacity buf.read_pos buf.len in
    let (code, count, bytes, rest, _) = read_lem n v in rw (held, code, count, bytes, rest)

held : (buf : Buffer) → length (contents buf) ≡ buf.len
held buf = length-window buf.storage buf.capacity buf.read_pos buf.len

writable-held : {buf : Buffer} → IsValid buf → writable buf ≡ buf.capacity - length (contents buf)
unfolding writable
writable-held {buf} v = omega (arith, held buf)

-- No sequence of the calls write, read, peek, consume, clear, readable and writable, with arrays that are not
-- null, tells a valid buffer from the bounded queue of its contents.
pub run_refines :
    (ops : List Op) {buf : Buffer}
    → IsValid buf
    → run buf ops ≡ Queue.run buf.capacity (contents buf) ops
unfolding run Queue.run Queue.read clear readable
run_refines [] v = refl
run_refines (write_op bytes ∷ ops) {buf} v =
    let (rc, written, after) = write buf (some bytes) (length bytes) in
    ap (◌∷◌ (rc, written, [])) (
      run_refines ops (write-IsValid bytes v)
      ∙ ap (λ c. Queue.run c (contents after) ops) (capacity-write bytes v))
    ∙ ap (λ p. p.0 ∷ Queue.run buf.capacity p.1 ops) (write_refines bytes v)
run_refines (read_op n ∷ ops) {buf} v =
    let (rc, count, bytes, after) = read buf false n in
    ap (◌∷◌ (rc, count, bytes)) (
      run_refines ops (read_lem n v).4
      ∙ ap (λ c. Queue.run c (contents after) ops) (capacity-read n v))
    ∙ ap (λ p. p.0 ∷ Queue.run buf.capacity p.1 ops) (read_refines n v)
run_refines (peek_op n ∷ ops) {buf} v =
    ap (λ p. p ∷ run buf ops) (peek_lem n v)
    ∙ ap (λ m. (ok, min n m, take n (contents buf)) ∷ run buf ops) (sym (held buf))
    ∙ ap (◌∷◌ (Queue.read (contents buf) n).0) (run_refines ops v)
run_refines (consume_op n ∷ ops) {buf} v =
    let (rc, count, after) = consume buf n in
    let (code, taken, valid) = consume-IsValid n v in
    ap (◌∷◌ (rc, count, [])) (
      run_refines ops valid
      ∙ ap (λ c. Queue.run c (contents after) ops) (capacity-consume n v)
      ∙ ap (λ q. Queue.run buf.capacity q ops) (contents-consume n v))
    ∙ ap (λ p. p ∷ Queue.run buf.capacity (drop n (contents buf)) ops) (rw (code, taken, held buf))
run_refines (clear_op ∷ ops) {buf} v = ap (◌∷◌ (ok, 0, [])) (run_refines ops (clear-IsValid v))
run_refines (readable_op ∷ ops) {buf} v =
    ap (λ n. (ok, n, []) ∷ run buf ops) (sym (held buf))
    ∙ ap (◌∷◌ (ok, length (contents buf), [])) (run_refines ops v)
run_refines (writable_op ∷ ops) {buf} v =
    ap (λ n. (ok, n, []) ∷ run buf ops) (writable-held v)
    ∙ ap (◌∷◌ (ok, buf.capacity - length (contents buf), [])) (run_refines ops v)
