-- ===== src/Buffer/Read.antt =====
-- `sockify_buffer_peek`, `sockify_buffer_consume` and `sockify_buffer_read`: what they return and
-- what they leave.
use sockify.Prelude.{
  ℕ, ◌+◌, ◌-◌, ◌≡◌, refl, ap, sym, ◌∙◌, false, arith, if_ltb-min, take_within, drop_within, length,
  take, drop, min, leb, add_size, sub_size, if◌then◌else◌,
}
use sockify.Buffer.{Buffer, peek, consume, read}
use sockify.Buffer.Inv.{IsValid, wrap_loop_once}
use sockify.Buffer.Window.{contents, length-window, peek_loop-window, drop-window, take-window}
use sockify.Status.{ok}

consume-min : (buf : Buffer) (n : ℕ) → consume buf (min n buf.len) ≡ consume buf n
unfolding consume
consume-min buf n =
    let once : min (min n buf.len) buf.len ≡ min n buf.len = omega arith in
    rw (if_ltb-min (min n buf.len) buf.len, if_ltb-min n buf.len, once)

module _ {buf : Buffer} (n : ℕ) (v : IsValid buf) where
  abbrev moved : ℕ
  moved = buf.read_pos + min n buf.len

  abbrev new_pos : ℕ
  new_pos = if leb buf.capacity moved then moved - buf.capacity else moved

  window_length : length (contents buf) ≡ buf.len
  window_length = length-window buf.storage buf.capacity buf.read_pos buf.len

  pub peek_lem : peek buf false n ≡ (ok, min n buf.len, take n (contents buf))
  unfolding peek
  peek_lem = rw if_ltb-min (
      ap (λ bytes. (ok, min n buf.len, bytes))
        (peek_loop-window buf.storage buf.capacity buf.read_pos (min n buf.len) v.read_in
          ∙ sym (
              take-window buf.storage buf.capacity (min n buf.len) buf.len buf.read_pos
                (omega arith))
          ∙ take_within n (contents buf) (min n buf.len) (omega (arith, window_length))))

  consume_as :
      consume buf n
      ≡ (ok, min n buf.len, record buf { read_pos = new_pos; len = buf.len - min n buf.len })
  unfolding consume
  consume_as =
      let no_wrap : add_size buf.read_pos (min n buf.len) ≡ moved = omega arith in
      let less : sub_size buf.len (min n buf.len) ≡ buf.len - min n buf.len = omega arith in
      rw (if_ltb-min, no_wrap, less) (rw (wrap_loop_once moved buf.capacity moved (omega arith)))

  -- `consume` on a valid buffer succeeds, says how many bytes it dropped and leaves a valid buffer.
  pub consume-IsValid :
      ((consume buf n).0 ≡ ok) × ((consume buf n).1 ≡ min n buf.len) × IsValid (consume buf n).2
  consume-IsValid = rw consume_as (ground arith)

  pub capacity-consume : (consume buf n).2.capacity ≡ buf.capacity
  capacity-consume = rw consume_as

  -- `consume` drops the oldest bytes.
  pub contents-consume : contents (consume buf n).2 ≡ drop n (contents buf)
  contents-consume = rw consume_as (
      sym (
        drop-window buf.storage buf.capacity (min n buf.len) buf.len buf.read_pos new_pos v.read_in
          (ground arith) (omega arith) (ground arith) (omega arith))
      ∙ drop_within n (contents buf) (min n buf.len) (omega (arith, window_length)))

  -- `read` from a valid buffer into a non-null array hands out the oldest bytes, removes exactly those, and keeps the
  -- invariant.
  pub read_lem :
      ((read buf false n).0 ≡ ok)
      × ((read buf false n).1 ≡ min n buf.len)
      × ((read buf false n).2 ≡ take n (contents buf))
      × (contents (read buf false n).3 ≡ drop n (contents buf))
      × IsValid (read buf false n).3
  unfolding read
  read_lem = rw peek_lem (refl, refl, refl, after, valid)
    where
      same : (consume buf (min n buf.len)).2 ≡ (consume buf n).2
      same = ap (λ r. r.2) (consume-min buf n)

      after : contents (consume buf (min n buf.len)).2 ≡ drop n (contents buf)
      after = rw same contents-consume

      valid : IsValid (consume buf (min n buf.len)).2
      valid = rw same consume-IsValid.2

  pub capacity-read : (read buf false n).3.capacity ≡ buf.capacity
  unfolding read
  capacity-read = rw peek_lem (rw (consume-min buf n) capacity-consume)
