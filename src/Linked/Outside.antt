-- ===== src/Linked/Outside.antt =====
-- What is relied on in the system and in OpenSSL, and what it makes of the reads and writes of
-- src/net/net_posix.c and src/tls/tls_openssl.c.
use sockify.Linked.{World, Events}
use sockify.Net.{Calls, Errno, failed, net_recv}
use sockify.Net.Addresses.{Sockets}
use sockify.Net.Stream.{IsSend, sent}
use sockify.Prelude.{
  ℕ, zero, suc, ◌≤◌, ◌≡◌, refl, sym, Bool, true, false, Bool-cases, inl, inr, Option, none, some,
  [], ◌∷◌, ◌++◌, append-nil, All, IsByte, Bytes, ltb, arith, if◌then◌else◌, length, take,
}
use sockify.Status.{Status, ok, err_closed, is_ok}
use sockify.Tls.{
  Openssl, SslError, want_read, want_write, zero_return, other, Connection, int_max, clear_wants,
  map_ssl_error, call_failed, connection_read, connection_write,
}
use sockify.Transport.{Socket, Handle}

-- The bytes of a read that gives any.
abbrev given : Option Bytes → Bytes
given none = []
given (some bytes) = bytes

-- The system and OpenSSL. `out` is what `send` took on a socket so far, `tls_out` what `SSL_write` took on an
-- `SSL`. Both take a part of the front of what they are given, or fail and take nothing; the reads give
-- bytes; and removing a socket from the event loop, `close` and `SSL_free` take back nothing.
pub record IsOutside {W : Type 0} (calls : Calls W) (sockets : Sockets W) (lib : Openssl W)
    (events : Events W) (out : W → Socket → Bytes) (tls_out : W → ℕ → Bytes) : Type 0 where
  pub sends : IsSend calls out
  pub recv_bytes : (w : W) (fd : Socket) (n : ℕ) → All IsByte (given (calls.recv w fd n).0)
  pub read_bytes : (w : W) (ssl n : ℕ) → All IsByte (given (lib.read w ssl n).0)
  pub write_bound :
      (w : W) (ssl : ℕ) (bytes : Bytes) → sent (lib.write w ssl bytes).0 ≤ length bytes
  pub write_adds :
      (w : W) (ssl : ℕ) (bytes : Bytes)
      → tls_out (lib.write w ssl bytes).1 ssl
        ≡ tls_out w ssl ++ take (sent (lib.write w ssl bytes).0) bytes
  pub remove_keeps : (w : W) (fd fd' : Socket) → out (events.remove w fd) fd' ≡ out w fd'
  pub remove_keeps_tls :
      (w : W) (fd : Socket) (ssl : ℕ) → tls_out (events.remove w fd) ssl ≡ tls_out w ssl
  pub close_keeps : (w : W) (n : ℕ) (fd : Socket) → out (sockets.close w n) fd ≡ out w fd
  pub close_keeps_tls : (w : W) (n ssl : ℕ) → tls_out (sockets.close w n) ssl ≡ tls_out w ssl
  pub free_keeps : (w : W) (ssl : ℕ) (fd : Socket) → out (lib.ssl_free w ssl) fd ≡ out w fd
  pub free_keeps_tls : (w : W) (ssl ssl' : ℕ) → tls_out (lib.ssl_free w ssl) ssl' ≡ tls_out w ssl'

-- What went out on a socket, and on the connection that a handle points to.
abbrev pub on_socket : {W : Type 0} → (W → Socket → Bytes) → World W → Socket → Bytes
on_socket out w fd = out w.system fd

abbrev pub on_tls : {W : Type 0} → (W → ℕ → Bytes) → World W → Handle → Bytes
on_tls tls_out w none = []
on_tls tls_out w (some h) = tls_out w.system (w.connection h).ssl

-- A failure is not SOCKIFY_OK and keeps the `SSL` of the connection.
map_ssl_error-Fails :
    (c : Connection) (error : SslError) (handshake : Bool)
    → (is_ok (map_ssl_error c error handshake).0 ≡ false)
      × ((map_ssl_error c error handshake).1.ssl ≡ c.ssl)
unfolding map_ssl_error clear_wants
map_ssl_error-Fails c want_read handshake = (refl, refl)
map_ssl_error-Fails c want_write handshake = (refl, refl)
map_ssl_error-Fails c zero_return handshake = (refl, refl)
map_ssl_error-Fails c (other n) true = (refl, refl)
map_ssl_error-Fails c (other n) false = (refl, refl)

-- What a write on a connection did: the `SSL` stays, and the count is what went out on it.
abbrev pub Wrote :
    {W : Type 0} → (W → ℕ → Bytes) → W → Connection → Bytes → Status × ℕ × Connection × W → Type 0
Wrote tls_out w c bytes r =
    let n = if is_ok r.0 then r.1 else 0 in
    (r.2.ssl ≡ c.ssl) × (n ≤ length bytes) × (tls_out r.3 c.ssl ≡ tls_out w c.ssl ++ take n bytes)

module _ {W : Type 0} (calls : Calls W) (sockets : Sockets W) (lib : Openssl W) (events : Events W)
    (out : W → Socket → Bytes) (tls_out : W → ℕ → Bytes)
    (outside : IsOutside calls sockets lib events out tls_out) where
  -- What the code makes of the result of `SSL_write`.
  pub connection_write-Wrote :
      (w : W) (c : Connection) (bytes : Bytes)
      → Wrote tls_out w c bytes (connection_write lib w c bytes)
  unfolding connection_write clear_wants call_failed
  connection_write-Wrote w c [] = (refl, omega arith, sym (append-nil (tls_out w c.ssl)))
  connection_write-Wrote w c (x ∷ xs) = elim (Bool-cases (ltb int_max (length (x ∷ xs)))) [
    | inl e ↦ rw (connection_write, e) (refl, omega arith, sym (append-nil (tls_out w c.ssl)))
    | inr e ↦
        rw (connection_write, e)
          (go (lib.write w c.ssl (x ∷ xs)).0 (outside.write_bound w c.ssl (x ∷ xs))
            (outside.write_adds w c.ssl (x ∷ xs)))
  ]
    where
      w' : W
      w' = (lib.write w c.ssl (x ∷ xs)).1

      failed : Status × Connection
      failed = call_failed lib w' c (lib.write w c.ssl (x ∷ xs)).0 false

      fails :
          tls_out w' c.ssl ≡ tls_out w c.ssl ++ []
          → Wrote tls_out w c (x ∷ xs) (failed.0, 0, failed.1, w')
      fails a =
          let error = lib.get_error w' c.ssl (lib.write w c.ssl (x ∷ xs)).0 in
          let f = map_ssl_error-Fails c error false in rw (f.0) (f.1, omega arith, a)

      go :
          (ret : Option ℕ)
          → sent ret ≤ length (x ∷ xs)
          → tls_out w' c.ssl ≡ tls_out w c.ssl ++ take (sent ret) (x ∷ xs)
          → Wrote tls_out w c (x ∷ xs) (elim ret [
            | some (suc n) ↦ (ok, suc n, clear_wants c, w')
            | none ↦ (failed.0, 0, failed.1, w')
            | some zero ↦ (failed.0, 0, failed.1, w')
          ])
      go none b a = fails a
      go (some zero) b a = fails a
      go (some (suc n)) b a = (refl, b, a)

  pub connection_read-bytes :
      (w : W) (c : Connection) (n : ℕ) → All IsByte (connection_read lib w c n).1
  unfolding connection_read
  connection_read-bytes w c n = elim (Bool-cases (ltb int_max n)) [
    | inl e ↦ rw (connection_read, e) tt
    | inr e ↦ rw (connection_read, e) (go (lib.read w c.ssl n).0 (outside.read_bytes w c.ssl n))
  ]
    where
      w' : W
      w' = (lib.read w c.ssl n).1

      go :
          (result : Option Bytes)
          → All IsByte (given result)
          → All IsByte (
              (elim result as (λ _. Status × Bytes × Connection × W) [
                | some (x ∷ xs) ↦ (ok, x ∷ xs, clear_wants c, w')
                | some [] ↦ let (rc, c') = call_failed lib w' c (some 0) false in (rc, [], c', w')
                | none ↦ let (rc, c') = call_failed lib w' c none false in (rc, [], c', w')
              ]).1)
      go none h = tt
      go (some []) h = tt
      go (some (x ∷ xs)) h = h

  pub net_recv-bytes : (w : W) (fd : Socket) (n : ℕ) → All IsByte (net_recv calls w fd n).1
  unfolding net_recv
  net_recv-bytes w fd n = go (calls.recv w fd n).0 (outside.recv_bytes w fd n)
    where
      errno : Errno
      errno = (calls.recv w fd n).1

      w' : W
      w' = (calls.recv w fd n).2

      go :
          (result : Option Bytes)
          → All IsByte (given result)
          → All IsByte (
              (elim result as (λ _. Status × Bytes × W) [
                | none ↦ (failed errno, [], w')
                | some [] ↦ (err_closed, [], w')
                | some (x ∷ xs) ↦ (ok, x ∷ xs, w')
              ]).1)
      go none h = tt
      go (some []) h = tt
      go (some (x ∷ xs)) h = h
