-- ===== src/Net/Addresses.antt =====
-- src/net/net_posix.c and src/net/net_windows.c: `sockify_net_listen` and `sockify_net_connect`, which try the
-- addresses of an endpoint one after the other. The calls of the system are the records `Sockets` and
-- `Winsock`; a resolved address is a number, and a socket below is never the invalid one.
pub mod Open
mod Tests
use sockify.Prelude.{
  ℕ, zero, suc, Bool, true, false, not, ◌&&◌, ◌||◌, Option, none, some, List, [], ◌∷◌, Bytes,
  bit_or, if◌then◌else◌,
}
use sockify.Config.{Endpoint}
use sockify.Net.{Errno, eagain, ewouldblock, einprogress, other, would_block}
use sockify.Status.{Status, ok, err_sys, is_ok}
use sockify.Transport.{Socket}

-- The rounds of both loops: a round that gets a socket ends the loop with it. The Boolean is
-- `*in_progress`.
unfoldable pub try_addresses :
    {W : Type 0} → (W → ℕ → Option (ℕ × Bool) × W) → List ℕ → W → Status × Socket × Bool × W
try_addresses attempt [] w = (err_sys, none, false, w)
try_addresses attempt (ai ∷ rest) w =
    let (result, w1) = attempt w ai in
    let later = try_addresses attempt rest w1 in
    elim result [ none ↦ later | some (fd, in_progress) ↦ (ok, some fd, in_progress, w1) ]

-- The POSIX calls; a Boolean says that a call succeeded. `connect` also gives `errno`.
pub record Sockets (W : Type 0) : Type 0 where
  pub o_nonblock : ℕ
  pub getaddrinfo : W → Endpoint → Bool → Option (List ℕ) × W
  pub freeaddrinfo : W → W
  pub socket : W → ℕ → Option ℕ × W
  pub set_reuseaddr : W → ℕ → Bool × W
  pub set_nodelay : W → ℕ → Bool × W
  pub bind : W → ℕ → ℕ → Bool × W
  pub listen : W → ℕ → ℕ → Bool × W
  pub connect : W → ℕ → ℕ → Bool × Errno × W
  pub get_flags : W → ℕ → Option ℕ × W
  pub set_flags : W → ℕ → ℕ → Bool × W
  pub close : W → ℕ → W

-- `errno == EINPROGRESS`
abbrev pub is_in_progress : Errno → Bool
is_in_progress einprogress = true
is_in_progress _ = false

module _ {W : Type 0} (sys : Sockets W) where
  -- `sockify_net_close`
  unfoldable pub net_close : W → Socket → W
  net_close w none = w
  net_close w (some fd) = sys.close w fd

  -- `sockify_net_set_nonblocking`
  unfoldable pub set_nonblocking : W → ℕ → Status × W
  set_nonblocking w fd =
      let (flags, w1) = sys.get_flags w fd in
      elim flags [
        | none ↦ (err_sys, w1)
        | some f ↦
            let (done, w2) = sys.set_flags w1 fd (bit_or f sys.o_nonblock) in
            (if done then ok else err_sys, w2)
      ]

  -- `sockify_net_set_tcp_nodelay`
  unfoldable pub set_tcp_nodelay : W → ℕ → Status × W
  set_tcp_nodelay w fd = let (done, w1) = sys.set_nodelay w fd in (if done then ok else err_sys, w1)

  -- `bind`, `listen` and `sockify_net_set_nonblocking` of a round of `sockify_net_listen`.
  unfoldable pub serve_at : W → ℕ → ℕ → ℕ → Bool × W
  serve_at w fd ai backlog =
      let (bound, w1) = sys.bind w fd ai in
      let (listening, w2) = sys.listen w1 fd backlog in
      let (rc, w3) = set_nonblocking w2 fd in
      if not bound then (false, w1) else if not listening then (false, w2) else (is_ok rc, w3)

  -- A round of `sockify_net_listen` once the socket is there.
  unfoldable pub listen_on : W → ℕ → ℕ → ℕ → Option (ℕ × Bool) × W
  listen_on w fd ai backlog =
      let (reusable, w1) = sys.set_reuseaddr w fd in
      let (serving, w2) = serve_at w1 fd ai backlog in
      if not reusable
      then (none, sys.close w1 fd)
      else if serving
      then (some (fd, false), w2)
      else (none, sys.close w2 fd)

  unfoldable pub listen_round : ℕ → W → ℕ → Option (ℕ × Bool) × W
  listen_round backlog w ai =
      let (fd, w1) = sys.socket w ai in
      elim fd [ none ↦ (none, w1) | some n ↦ listen_on w1 n ai backlog ]

  -- A round of `sockify_net_connect` once the socket is there.
  unfoldable pub connect_on : W → ℕ → ℕ → Option (ℕ × Bool) × W
  connect_on w fd ai =
      let (rc, w1) = set_nonblocking w fd in
      let (_, w2) = set_tcp_nodelay w1 fd in
      let (connected, errno, w3) = sys.connect w2 fd ai in
      if not (is_ok rc)
      then (none, sys.close w1 fd)
      else if connected || is_in_progress errno
      then (some (fd, not connected), w3)
      else (none, sys.close w3 fd)

  unfoldable pub connect_round : W → ℕ → Option (ℕ × Bool) × W
  connect_round w ai =
      let (fd, w1) = sys.socket w ai in elim fd [ none ↦ (none, w1) | some n ↦ connect_on w1 n ai ]

  -- The search of the addresses, and the rounds.
  unfoldable pub with_addresses :
      Bool → (W → ℕ → Option (ℕ × Bool) × W) → W → Endpoint → Status × Socket × Bool × W
  with_addresses passive attempt w endpoint =
      let (result, w1) = sys.getaddrinfo w endpoint passive in
      elim result [
        | none ↦ (err_sys, none, false, w1)
        | some addresses ↦
            let (rc, fd, in_progress, w2) = try_addresses attempt addresses w1 in
            (rc, fd, in_progress, sys.freeaddrinfo w2)
      ]

  -- `sockify_net_listen`: the code and `*out_fd`.
  unfoldable pub net_listen : W → Endpoint → ℕ → Status × Socket × W
  net_listen w endpoint backlog =
      let (rc, fd, _, w1) = with_addresses true (listen_round backlog) w endpoint in (rc, fd, w1)

  -- `sockify_net_connect`: the code, `*out_fd` and `*in_progress`.
  unfoldable pub net_connect : W → Endpoint → Status × Socket × Bool × W
  net_connect w endpoint = with_addresses false connect_round w endpoint
