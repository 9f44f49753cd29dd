-- ===== src/Net.antt =====
-- src/net/net_posix.c: the texts of endpoints, and the reads and writes of sockets. A text is its bytes
-- before the NUL.
pub mod Addresses
pub mod Endpoints
pub mod Stream
mod Tests
use sockify.Prelude.{
  ℕ, zero, suc, Bool, true, false, not, ◌&&◌, ◌||◌, Option, none, some, List, [], ◌∷◌, Bytes, leb,
  ◌==◌, ◌!=◌, if◌then◌else◌, length, get_or, drop,
}
use sockify.Config.{Endpoint}
use sockify.Status.{Status, ok, err_invalid, err_overflow, err_again, err_closed, err_sys}
use sockify.Transport.{Socket}

-- `strchr`: what stands before the first `c`, and what behind it.
unfoldable pub split_first : ℕ → Bytes → Option (Bytes × Bytes)
split_first c [] = none
split_first c (x ∷ xs) =
    if x == c
    then some ([], xs)
    else elim (split_first c xs) [ none ↦ none | some (before, behind) ↦ some (x ∷ before, behind) ]

-- `strrchr`: what stands before the last `c`, and what behind it.
unfoldable pub split_last : ℕ → Bytes → Option (Bytes × Bytes)
split_last c [] = none
split_last c (x ∷ xs) = elim (split_last c xs) [
  | none ↦ if x == c then some ([], xs) else none
  | some (before, behind) ↦ some (x ∷ before, behind)
]

-- `copy_part`: the code, and the text at `dst`.
unfoldable pub copy_part : Bytes → ℕ → Bytes → Status × Bytes
copy_part dst dst_size src = if leb dst_size (length src) then (err_overflow, dst) else (ok, src)

-- The two calls of `copy_part`.
unfoldable pub copy_both : Bytes → Bytes → Endpoint → Status × Endpoint
copy_both host port endpoint =
    let (rc_host, host') = copy_part endpoint.host 256 host in
    let (rc_port, port') = copy_part endpoint.port 16 port in
    let copied = record endpoint { host = host' } in
    elim rc_host [ ok ↦ (rc_port, record copied { port = port' }) | _ ↦ (err_overflow, endpoint) ]

-- `sockify_net_parse_endpoint` on a text in brackets, behind the first one.
unfoldable pub parse_bracketed : Bytes → Endpoint → Status × Endpoint
parse_bracketed text endpoint = elim (split_first 93 text) [
  | none ↦ (err_invalid, endpoint)
  | some (host, behind) ↦
      if get_or behind 0 0 != 58
      then (err_invalid, endpoint)
      else copy_both host (drop 1 behind) endpoint
]

unfoldable pub parse_plain : Bytes → Endpoint → Status × Endpoint
parse_plain text endpoint = elim (split_last 58 text) [
  | none ↦ (err_invalid, endpoint)
  | some (host, port) ↦
      if length host == 0 || length port == 0
      then (err_invalid, endpoint)
      else copy_both host port endpoint
]

-- `sockify_net_parse_endpoint`: the code and `*endpoint`.
unfoldable pub parse_endpoint : Bytes → Endpoint → Status × Endpoint
parse_endpoint text endpoint =
    if get_or text 0 0 == 91
    then parse_bracketed (drop 1 text) endpoint
    else parse_plain text endpoint

-- `errno`, as far as the code reads it.
pub data Errno : Type 0 where
  eagain : Errno
  ewouldblock : Errno
  einprogress : Errno
  other : ℕ → Errno

-- `sockify_net_would_block`
abbrev pub would_block : Errno → Bool
would_block (other _) = false
would_block _ = true

-- The system calls on a socket. `none` is a result below 0, after which `errno` is read.
pub record Calls (W : Type 0) : Type 0 where
  pub recv : W → Socket → ℕ → Option Bytes × Errno × W
  pub send : W → Socket → Bytes → Option ℕ × Errno × W
  pub accept : W → Socket → Socket × Errno × W
  pub set_nodelay : W → Socket → W
  pub get_error : W → Socket → Option ℕ × W

abbrev pub failed : Errno → Status
failed errno = if would_block errno then err_again else err_sys

module _ {W : Type 0} (calls : Calls W) where
  -- `sockify_net_recv`; the bytes are those stored in `buffer`.
  unfoldable pub net_recv : W → Socket → ℕ → Status × Bytes × W
  net_recv w fd buffer_size =
      let (result, errno, w') = calls.recv w fd buffer_size in
      elim result [
        | none ↦ (failed errno, [], w')
        | some [] ↦ (err_closed, [], w')
        | some (x ∷ xs) ↦ (ok, x ∷ xs, w')
      ]

  -- `sockify_net_send`; the number is `*sent_count`.
  unfoldable pub net_send : W → Socket → Bytes → Status × ℕ × W
  net_send w fd [] = (ok, 0, w)
  net_send w fd (x ∷ xs) =
      let (result, errno, w') = calls.send w fd (x ∷ xs) in
      elim result [
        | none ↦ (failed errno, 0, w')
        | some zero ↦ (err_again, 0, w')
        | some (suc n) ↦ (ok, suc n, w')
      ]

  -- `sockify_net_accept` where the system has `accept4`.
  unfoldable pub net_accept : W → Socket → Status × Socket × W
  net_accept w listener =
      let (fd, errno, w') = calls.accept w listener in
      elim fd [
        | none ↦ (failed errno, none, w')
        | some n ↦ (ok, some n, calls.set_nodelay w' (some n))
      ]

  -- `sockify_net_socket_error`; the number is `*socket_error`, 0 before the call.
  unfoldable pub socket_error : W → Socket → Status × ℕ × W
  socket_error w fd =
      let (result, w') = calls.get_error w fd in
      elim result [ none ↦ (err_sys, 0, w') | some err ↦ (ok, err, w') ]
