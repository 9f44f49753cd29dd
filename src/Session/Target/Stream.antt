-- ===== src/Session/Target/Stream.antt =====
-- What the code relies on in the sockets and the TLS library when it writes: each connection is a
-- stream, and a call adds to it the bytes that it says it took.
use sockify.Prelude.{
  ℕ, ◌≤◌, ◌≡◌, refl, ◌∙◌, Bool, true, false, ◌&&◌, ◌==◌, ◌++◌, Bytes, arith, length, take,
  if◌then◌else◌, Bool-cases, inl, inr, none, some,
}
use sockify.Session.{Session, close, unregister, close_side}
use sockify.Status.{Status, is_ok}
use sockify.Transport.{
  Backend, Socket, Handle, Transport, plain, tls_type, has_handle, transport_write, destroy,
}

-- How many bytes a call took.
abbrev pub taken : {W : Type 0} → Status × ℕ × W → ℕ
taken r = if is_ok r.0 then r.1 else 0

-- `on_socket` and `on_tls` are the bytes that went out on a connection so far. A send takes a part
-- of the front of what it is given, or nothing if it fails, and closing takes back nothing.
pub record IsStream {W : Type 0} (io : Backend W) (on_socket : W → Socket → Bytes)
    (on_tls : W → Handle → Bytes) : Type 0 where
  pub send_bound :
      (w : W) (fd : Socket) (bytes : Bytes) → taken (io.net_send w fd bytes) ≤ length bytes
  pub send_adds :
      (w : W) (fd : Socket) (bytes : Bytes)
      → on_socket (io.net_send w fd bytes).2 fd
        ≡ on_socket w fd ++ take (taken (io.net_send w fd bytes)) bytes
  pub tls_bound :
      (w : W) (h : Handle) (bytes : Bytes) → taken (io.tls_write w h bytes) ≤ length bytes
  pub tls_adds :
      (w : W) (h : Handle) (bytes : Bytes)
      → on_tls (io.tls_write w h bytes).2 h
        ≡ on_tls w h ++ take (taken (io.tls_write w h bytes)) bytes
  pub remove_keeps :
      (w : W) (fd fd' : Socket) → on_socket (io.loop_remove w fd) fd' ≡ on_socket w fd'
  pub remove_keeps_tls :
      (w : W) (fd : Socket) (h : Handle) → on_tls (io.loop_remove w fd) h ≡ on_tls w h
  pub close_keeps : (w : W) (fd fd' : Socket) → on_socket (io.net_close w fd) fd' ≡ on_socket w fd'
  pub close_keeps_tls :
      (w : W) (fd : Socket) (h : Handle) → on_tls (io.net_close w fd) h ≡ on_tls w h
  pub destroy_keeps :
      (w : W) (h : Handle) (fd : Socket) → on_socket (io.tls_destroy w h) fd ≡ on_socket w fd
  pub destroy_keeps_tls : (w : W) (h h' : Handle) → on_tls (io.tls_destroy w h) h' ≡ on_tls w h'

module _ {W : Type 0} (io : Backend W) (on_socket : W → Socket → Bytes)
    (on_tls : W → Handle → Bytes) (laws : IsStream io on_socket on_tls) where
  -- The bytes that went out on a transport so far.
  abbrev pub went_out : W → Transport → Bytes
  went_out w t = if t.kind == plain then on_socket w t.fd else on_tls w t.tls

  pub transport_write-bound :
      (w : W) (t : Transport) (bytes : Bytes) → taken (transport_write io w t bytes) ≤ length bytes
  unfolding transport_write
  transport_write-bound w t bytes = elim (Bool-cases (t.kind == plain)) [
    | inl e ↦ rw e (laws.send_bound w t.fd bytes)
    | inr e ↦ rw e (laws.tls_bound w t.tls bytes)
  ]

  pub transport_write-adds :
      (w : W) (t : Transport) (bytes : Bytes)
      → went_out (transport_write io w t bytes).2 t
        ≡ went_out w t ++ take (taken (transport_write io w t bytes)) bytes
  unfolding transport_write
  transport_write-adds w t bytes = elim (Bool-cases (t.kind == plain)) [
    | inl e ↦ rw e (laws.send_adds w t.fd bytes)
    | inr e ↦ rw e (laws.tls_adds w t.tls bytes)
  ]

  module _ (t : Transport) where
    removed : (w : W) (fd : Socket) → went_out (io.loop_remove w fd) t ≡ went_out w t
    removed w fd = elim (Bool-cases (t.kind == plain)) [
      | inl e ↦ rw e (laws.remove_keeps w fd t.fd)
      | inr e ↦ rw e (laws.remove_keeps_tls w fd t.tls)
    ]

    closed : (w : W) (fd : Socket) → went_out (io.net_close w fd) t ≡ went_out w t
    closed w fd = elim (Bool-cases (t.kind == plain)) [
      | inl e ↦ rw e (laws.close_keeps w fd t.fd)
      | inr e ↦ rw e (laws.close_keeps_tls w fd t.tls)
    ]

    freed : (w : W) (h : Handle) → went_out (io.tls_destroy w h) t ≡ went_out w t
    freed w h = elim (Bool-cases (t.kind == plain)) [
      | inl e ↦ rw e (laws.destroy_keeps w h t.fd)
      | inr e ↦ rw e (laws.destroy_keeps_tls w h t.tls)
    ]

    destroyed : (w : W) (u : Transport) → went_out (destroy io w u).1 t ≡ went_out w t
    unfolding destroy
    destroyed w u = elim (Bool-cases (u.kind == tls_type && has_handle u.tls)) [
      | inl e ↦ rw e (freed w u.tls)
      | inr e ↦ rw e
    ]

    unregistered :
        (registered : Bool) (fd : Socket) (w : W)
        → went_out (unregister io registered fd w) t ≡ went_out w t
    unregistered true fd w = removed w fd
    unregistered false fd w = refl

    side_closed :
        (fd : Socket) (u : Transport) (w : W) → went_out (close_side io fd u w).1 t ≡ went_out w t
    side_closed none u w = refl
    side_closed (some fd) u w = closed (destroy io w u).1 (some fd) ∙ destroyed w u

    -- Closing a session sends nothing.
    pub close-went_out : (s : Session) (w : W) → went_out (close io s w).1 t ≡ went_out w t
    unfolding close
    close-went_out s w = elim (Bool-cases (s.closing == 2)) [
      | inl e ↦ rw (close, e)
      | inr e ↦
          rw (close, e)
            (side_closed s.target_fd s.target_transport _
              ∙ side_closed s.client_fd s.client_transport _
              ∙ unregistered s.target_registered s.target_fd _
              ∙ unregistered s.client_registered s.client_fd w)
    ]

  -- A session that is closed has no bytes to send.
  pub closed-not_open : (s : Session) (w : W) → ((close io s w).0.closing == 2) ≡ false → ⊥
  unfolding close
  closed-not_open s w h = ground (arith, h)
