-- ===== src/Tls/Wants.antt =====
-- What the calls on a TLS connection leave in it.
use sockify.Prelude.{
  ℕ, ◌≤◌, ◌<◌, ◌≡◌, refl, Bool, true, false, ◌||◌, Option, none, some, Bytes, arith, length,
}
use sockify.Status.{Status, is_again}
use sockify.Tls.{
  Openssl, SslError, want_read, want_write, zero_return, other, Connection, int_max, clear_wants,
  map_ssl_error, call_failed, connection_handshake, connection_read, connection_write,
  connection_shutdown,
}

-- A call on a connection, with the size of the buffer or the bytes.
pub data Call : Type 0 where
  handshake : Call
  read : ℕ → Call
  write : Bytes → Call
  shutdown : Call

-- The call gets to OpenSSL: the size fits an `int`, and there is something to write.
abbrev pub Reaches : Call → Type 0
Reaches handshake = Unit
Reaches (read buffer_size) = buffer_size ≤ int_max
Reaches (write buffer) = (0 < length buffer) × (length buffer ≤ int_max)
Reaches shutdown = Unit

-- The same OpenSSL connection, with the same duty to verify the peer.
abbrev pub Same : Connection → Connection → Type 0
Same c c' = (c'.ssl ≡ c.ssl) × (c'.server_side ≡ c.server_side) × (c'.verify_peer ≡ c.verify_peer)

-- The code is SOCKIFY_ERR_AGAIN exactly when the connection wants something.
abbrev pub Wants : Status → Connection → Type 0
Wants rc c = is_again rc ≡ (c.want_read || c.want_write)

map_ssl_error-Wants :
    (c : Connection) (err : SslError) (h : Bool)
    → Wants (map_ssl_error c err h).0 (map_ssl_error c err h).1 × Same c (map_ssl_error c err h).1
unfolding map_ssl_error
map_ssl_error-Wants c want_read h = (refl, (refl, refl, refl))
map_ssl_error-Wants c want_write h = (refl, (refl, refl, refl))
map_ssl_error-Wants c zero_return h = (refl, (refl, refl, refl))
map_ssl_error-Wants c (other n) true = (refl, (refl, refl, refl))
map_ssl_error-Wants c (other n) false = (refl, (refl, refl, refl))

module _ {W : Type 0} (lib : Openssl W) where
  -- The code and the connection after a call.
  abbrev pub call : Call → W → Connection → Status × Connection × W
  call handshake w c = connection_handshake lib w c
  call (read n) w c = let r = connection_read lib w c n in (r.0, r.2, r.3)
  call (write buffer) w c = let r = connection_write lib w c buffer in (r.0, r.2, r.3)
  call shutdown w c = connection_shutdown lib w c

  abbrev Left : Connection → Status × Connection × W → Type 0
  Left c r = Wants r.0 r.1 × Same c r.1

  failed-Wants :
      (w w' : W) (c : Connection) (ret : Option ℕ) (h : Bool)
      → Left c ((call_failed lib w c ret h).0, (call_failed lib w c ret h).1, w')
  unfolding call_failed
  failed-Wants w w' c ret h = map_ssl_error-Wants c (lib.get_error w c.ssl ret) h

  handshake-Wants : (w : W) (c : Connection) → Left c (connection_handshake lib w c)
  unfolding connection_handshake clear_wants
  handshake-Wants w c =
      let w1 = (lib.do_handshake w c.ssl).1 in
      let ret = (lib.do_handshake w c.ssl).0 in ground (arith, failed-Wants w1 w1 c ret true)

  read-Wants : (w : W) (c : Connection) (n : ℕ) → n ≤ int_max → Left c (call (read n) w c)
  unfolding connection_read clear_wants
  read-Wants w c n h =
      let w1 = (lib.read w c.ssl n).1 in
      ground (arith, failed-Wants w1 w1 c none false, failed-Wants w1 w1 c (some 0) false)

  write-Wants :
      (w : W) (c : Connection) (buffer : Bytes)
      → Reaches (write buffer)
      → Left c (call (write buffer) w c)
  unfolding connection_write clear_wants
  write-Wants w c buffer h =
      let w1 = (lib.write w c.ssl buffer).1 in
      let ret = (lib.write w c.ssl buffer).0 in ground (arith, failed-Wants w1 w1 c ret false)

  shutdown-Wants : (w : W) (c : Connection) → Left c (connection_shutdown lib w c)
  unfolding connection_shutdown clear_wants
  shutdown-Wants w c =
      let w1 = (lib.shutdown w c.ssl).1 in
      let ret = (lib.shutdown w c.ssl).0 in ground (arith, failed-Wants w1 w1 c ret false)

  -- A call on a TLS connection that gets to OpenSSL: a handshake, a read, a write or a shutdown. With
  -- SOCKIFY_ERR_AGAIN it leaves the connection wanting to read or to write, and with any other code
  -- wanting neither. It stays the same OpenSSL connection on the same side, and whether the peer has to
  -- be verified stays the same.
  pub call-Wants :
      (k : Call) (w : W) (c : Connection)
      → Reaches k
      → Wants (call k w c).0 (call k w c).1 × Same c (call k w c).1
  call-Wants handshake w c h = handshake-Wants w c
  call-Wants (read n) w c h = read-Wants w c n h
  call-Wants (write buffer) w c h = write-Wants w c buffer h
  call-Wants shutdown w c h = shutdown-Wants w c
