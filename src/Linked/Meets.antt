-- ===== src/Linked/Meets.antt =====
-- The functions of src/net/net_posix.c and src/tls/tls_openssl.c as the session's code calls them.
use sockify.Linked.{World, Events, store, tls_destroy, tls_read, tls_write, linked}
use sockify.Net.{Calls}
use sockify.Net.Addresses.{Sockets, net_close}
use sockify.Net.Stream.{net_send-adds}
use sockify.Prelude.{
  ℕ, ◌≤◌, ◌≡◌, refl, ap, ◌∙◌, none, some, ◌++◌, All, IsByte, Bytes, arith, length, take,
}
use sockify.Session.Opening.Inv.Ends.{GivesBytes}
use sockify.Session.Target.Stream.{IsStream, taken}
use sockify.Tls.{Openssl, Connection, connection_write, connection_destroy}
use sockify.Transport.{Socket, Handle}
use sockify.Linked.Outside.{
  IsOutside, on_socket, on_tls, connection_write-Wrote, connection_read-bytes, net_recv-bytes,
}

module _ {W : Type 0} (calls : Calls W) (sockets : Sockets W) (lib : Openssl W) (events : Events W)
    (out : W → Socket → Bytes) (tls_out : W → ℕ → Bytes)
    (outside : IsOutside calls sockets lib events out tls_out) where
  -- The connection that was stored at an address is read there.
  stored-on_tls :
      (w : World W) (h : ℕ) (c : Connection) (system : W)
      → on_tls tls_out (store w h c system) (some h) ≡ tls_out system c.ssl
  stored-on_tls w h c system = ground arith

  tls_write-Wrote :
      (w : World W) (handle : Handle) (bytes : Bytes)
      → let r = tls_write calls sockets lib events w handle bytes in
        (taken r ≤ length bytes)
        × (on_tls tls_out r.2 handle ≡ on_tls tls_out w handle ++ take (taken r) bytes)
  tls_write-Wrote w none bytes = (omega arith, refl)
  tls_write-Wrote w (some h) bytes =
      let c = w.connection h in
      let r = connection_write lib w.system c bytes in
      let did =
        connection_write-Wrote calls sockets lib events out tls_out outside w.system c bytes in
      (did.1, stored-on_tls w h r.2 r.3 ∙ ap (tls_out r.3) did.0 ∙ did.2)

  -- A step of the system that takes back nothing.
  on_tls-keeps :
      (w : World W) (system : W)
      → ((ssl : ℕ) → tls_out system ssl ≡ tls_out w.system ssl)
      → (h : Handle) → on_tls tls_out (record w { system = system }) h ≡ on_tls tls_out w h
  on_tls-keeps w system keeps none = refl
  on_tls-keeps w system keeps (some h) = keeps (w.connection h).ssl

  net_close-keeps :
      (w : W) (fd : Socket)
      → ((fd' : Socket) → out (net_close sockets w fd) fd' ≡ out w fd')
        × ((ssl : ℕ) → tls_out (net_close sockets w fd) ssl ≡ tls_out w ssl)
  unfolding net_close
  net_close-keeps w none = (λ fd'. refl, λ ssl. refl)
  net_close-keeps w (some n) = (outside.close_keeps w n, outside.close_keeps_tls w n)

  tls_destroy-keeps :
      (w : World W) (h : Handle) (fd : Socket)
      → on_socket out (tls_destroy calls sockets lib events w h) fd ≡ on_socket out w fd
  unfolding connection_destroy
  tls_destroy-keeps w none fd = refl
  tls_destroy-keeps w (some h) fd = outside.free_keeps w.system (w.connection h).ssl fd

  tls_destroy-keeps_tls :
      (w : World W) (h h' : Handle)
      → on_tls tls_out (tls_destroy calls sockets lib events w h) h' ≡ on_tls tls_out w h'
  unfolding connection_destroy
  tls_destroy-keeps_tls w none h' = refl
  tls_destroy-keeps_tls w (some h) h' =
      on_tls-keeps w _ (outside.free_keeps_tls w.system (w.connection h).ssl) h'

  linked-IsStream : IsStream (linked calls sockets lib events) (on_socket out) (on_tls tls_out)
  linked-IsStream = record {
    send_bound = λ w fd bytes. (net_send-adds calls out outside.sends w.system fd bytes).0;
    send_adds = λ w fd bytes. (net_send-adds calls out outside.sends w.system fd bytes).1;
    tls_bound = λ w h bytes. (tls_write-Wrote w h bytes).0;
    tls_adds = λ w h bytes. (tls_write-Wrote w h bytes).1;
    remove_keeps = λ w fd fd'. outside.remove_keeps w.system fd fd';
    remove_keeps_tls = λ w fd. on_tls-keeps w _ (outside.remove_keeps_tls w.system fd);
    close_keeps = λ w fd fd'. (net_close-keeps w.system fd).0 fd';
    close_keeps_tls = λ w fd. on_tls-keeps w _ (net_close-keeps w.system fd).1;
    destroy_keeps = tls_destroy-keeps;
    destroy_keeps_tls = tls_destroy-keeps_tls;
  }

  tls_read-bytes :
      (w : World W) (h : Handle) (n : ℕ) → All IsByte (tls_read calls sockets lib events w h n).1
  tls_read-bytes w none n = tt
  tls_read-bytes w (some h) n =
      connection_read-bytes calls sockets lib events out tls_out outside w.system (w.connection h) n

  -- The functions of src/net/net_posix.c and src/tls/tls_openssl.c behind the session's calls of the network and
  -- of TLS, on any connections in the memory of the TLS code and with any handle, null included. It is
  -- relied on that `send` and `SSL_write` take a part of the front of what they are given or fail and take
  -- nothing, that the reads give bytes, and that leaving the event loop, `close` and `SSL_free` take back
  -- nothing. Then a send or a write on a connection reports with SOCKIFY_OK exactly how many bytes of the
  -- front went out on it, at most all, and with any other code none went out. Closing and destroying
  -- take back nothing, and reads give bytes.
  pub linked-Meets :
      IsStream (linked calls sockets lib events) (on_socket out) (on_tls tls_out)
      × GivesBytes (linked calls sockets lib events)
  linked-Meets = (
    linked-IsStream,
    record {
      recv_bytes =
          λ w fd n. net_recv-bytes calls sockets lib events out tls_out outside w.system fd n;
      tls_bytes = tls_read-bytes;
    },
  )
