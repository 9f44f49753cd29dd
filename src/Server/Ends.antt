-- ===== src/Server/Ends.antt =====
-- src/proxy/proxy.c: the sessions and the TLS contexts at the start and the end of `sockify_proxy_run`.
use sockify.Prelude.{
  ℕ, ◌+◌, ◌-◌, ◌≡◌, refl, sym, ap, ◌∙◌, inl, inr, Bool, true, false, none, some, List, [], ◌∷◌,
  ◌||◌, arith, length, ◌==◌, Bool-cases,
}
use sockify.Config.{Endpoint, ProxyConfig, validate_config}
use sockify.Server.{Host, Server, unlink, find, unlink_session, put_back}
use sockify.Server.Loop.{close_all}
use sockify.Server.Inv.{Entry}
use sockify.Server.Run.{
  System, start_server, destroy_context, side_context, proxy_destroy_tls, proxy_init_tls, shut_down,
  open_loop, start_listener, start_proxy,
}
use sockify.Session.{Session, unregister, close_side, close}
use sockify.Session.Opening.Inv.{close-closing}
use sockify.Session.Events.{event_read}
use sockify.Status.{Status, err_nomem, is_ok}
use sockify.Transport.{Backend, Socket, Handle, Transport, has_handle, destroy}

-- The contexts that a server holds.
abbrev pub held_by : Handle → ℕ
held_by none = 0
held_by (some _) = 1

abbrev pub held : Server → ℕ
held server = held_by server.client_tls_context + held_by server.target_tls_context

-- The number of TLS contexts that there are. `sockify_tls_context_create` makes one exactly if it returns
-- SOCKIFY_OK, `sockify_tls_context_destroy` takes one away, and nothing else changes the number.
pub record CountsContexts {W : Type 0} (sys : System W) (live : W → ℕ) : Type 0 where
  pub created :
      (w : W) (config : ProxyConfig) (server_side : Bool)
      → let r = sys.context_create w config server_side in
        (live r.2 ≡ live w + held_by r.1) × (is_ok r.0 ≡ has_handle r.1)
  pub destroyed : (w : W) (n : ℕ) → live (sys.context_destroy w (some n)) ≡ live w - 1
  pub net_init : (w : W) → live (sys.net_init w).1 ≡ live w
  pub net_cleanup : (w : W) → live (sys.net_cleanup w) ≡ live w
  pub net_listen :
      (w : W) (endpoint : Endpoint) (n : ℕ) → live (sys.net_listen w endpoint n).2 ≡ live w
  pub loop_create : (w : W) → live (sys.loop_create w).1 ≡ live w
  pub loop_destroy : (w : W) → live (sys.loop_destroy w) ≡ live w
  pub global_init : (w : W) → live (sys.tls_global_init w).1 ≡ live w
  pub global_cleanup : (w : W) → live (sys.tls_global_cleanup w) ≡ live w
  pub loop_add : (w : W) (fd : Socket) (n : ℕ) → live (sys.host.io.loop_add w fd n).1 ≡ live w
  pub loop_remove : (w : W) (fd : Socket) → live (sys.host.io.loop_remove w fd) ≡ live w
  pub net_close : (w : W) (fd : Socket) → live (sys.host.io.net_close w fd) ≡ live w
  pub tls_destroy : (w : W) (h : Handle) → live (sys.host.io.tls_destroy w h) ≡ live w

unlink_session-found :
    (id : ℕ) (s : Session) (server : Server)
    → find id server.sessions ≡ some s
    → unlink_session id server ≡ record server {
      sessions = unlink id server.sessions;
      active_connections = server.active_connections - 1;
    }
unfolding unlink_session
unlink_session-found id s server f = rw (unlink_session, f) refl

first_found : (id : ℕ) (s : Session) (rest : List Entry) → find id ((id, s) ∷ rest) ≡ some s
unfolding find
first_found id s rest = let same : (id == id) ≡ true = ground arith in rw same refl

first_unlinked : (id : ℕ) (s : Session) (rest : List Entry) → unlink id ((id, s) ∷ rest) ≡ rest
unfolding unlink
first_unlinked id s rest = let same : (id == id) ≡ true = ground arith in rw same refl

put_back-first :
    (id : ℕ) (s s' : Session) (rest : List Entry) (server : Server)
    → server.sessions ≡ (id, s) ∷ rest
    → (s'.closing == 2) ≡ true
    → ((put_back id s' server).sessions ≡ rest)
      × ((put_back id s' server).active_connections ≡ server.active_connections - 1)
unfolding put_back
put_back-first id s s' rest server e c =
    let noted : Server = record server { used_freed = s'.used_freed || server.used_freed } in
    let left = unlink_session-found id s noted (ap (find id) e ∙ first_found id s rest) in
    rw (put_back, c)
      (
        ap (λ (u : Server). u.sessions) left ∙ ap (unlink id) e ∙ first_unlinked id s rest,
        ap (λ (u : Server). u.active_connections) left,
      )

module _ {W : Type 0} (host : Host W) where
  close_all-empty :
      (rest : List Entry) (server : Server) (w : W)
      → server.sessions ≡ rest
      → server.active_connections ≡ length rest
      → let r = close_all host rest server w in (r.0.sessions ≡ []) × (r.0.active_connections ≡ 0)
  unfolding close_all
  close_all-empty [] server w e c = (e, c)
  close_all-empty ((id, s) ∷ rest) server w e c =
      let (s', w1) = close host.io s w in
      let freed : (s'.closing == 2) ≡ true = ground (arith, close-closing host.io s w) in
      let (later, fewer) = put_back-first id s s' rest server e freed in
      close_all-empty rest (put_back id s' server) w1 later (omega (arith, fewer, c))

module _ {W : Type 0} (sys : System W) (live : W → ℕ) (laws : CountsContexts sys live) where
  abbrev io : Backend W
  io = sys.host.io

  unregister-live : (b : Bool) (fd : Socket) (w : W) → live (unregister io b fd w) ≡ live w
  unregister-live true fd w = laws.loop_remove w fd
  unregister-live false fd w = refl

  close_side-live : (fd : Socket) (t : Transport) (w : W) → live (close_side io fd t w).1 ≡ live w
  unfolding destroy
  close_side-live none t w = refl
  close_side-live (some fd) t w =
      laws.net_close (destroy io w t).1 (some fd) ∙ ground (arith, laws.tls_destroy w t.tls)

  close-live : (s : Session) (w : W) → live (close io s w).1 ≡ live w
  unfolding close
  close-live s w = elim (Bool-cases (s.closing == 2)) [
    | inl e ↦ rw (close, e) refl
    | inr e ↦
        rw (close, e)
          (close_side-live s.target_fd s.target_transport _
            ∙ close_side-live s.client_fd s.client_transport _
            ∙ unregister-live s.target_registered s.target_fd _
            ∙ unregister-live s.client_registered s.client_fd w)
  ]

  put_back-held :
      (id : ℕ) (s : Session) (server : Server) → held (put_back id s server) ≡ held server
  unfolding put_back unlink_session
  put_back-held id s server = ground arith

  close_all-live :
      (rest : List Entry) (server : Server) (w : W)
      → let r = close_all sys.host rest server w in (live r.1 ≡ live w) × (held r.0 ≡ held server)
  unfolding close_all
  close_all-live [] server w = (refl, refl)
  close_all-live ((id, s) ∷ rest) server w =
      let r = close io s w in
      let (a, b) = close_all-live rest (put_back id r.0 server) r.1 in
      (a ∙ close-live s w, b ∙ put_back-held id r.0 server)

  destroy_context-live : (h : Handle) (w : W) → live (destroy_context sys h w) ≡ live w - held_by h
  destroy_context-live none w = omega arith
  destroy_context-live (some n) w = laws.destroyed w n

  proxy_destroy_tls-live :
      (server : Server) (w : W)
      → let r = proxy_destroy_tls sys server w in (held r.0 ≡ 0) × (live r.1 ≡ live w - held server)
  unfolding proxy_destroy_tls
  proxy_destroy_tls-live server w =
      let w1 = destroy_context sys server.client_tls_context w in
      let w2 = destroy_context sys server.target_tls_context w1 in
      (
        refl,
        ground (
          arith,
          destroy_context-live server.client_tls_context w,
          destroy_context-live server.target_tls_context w1,
          laws.global_cleanup w2,
        ),
      )

  nothing_held : (h : Handle) → has_handle h ≡ false → held_by h ≡ 0
  nothing_held none e = refl
  nothing_held (some n) e = absurd (cc e)

  side_context-live :
      (enabled : Bool) (server : Server) (b : Bool) (w : W)
      → let r = side_context sys enabled server b w in
        (live r.2 ≡ live w + held_by r.1) × (is_ok r.0 ≡ false → held_by r.1 ≡ 0)
  unfolding side_context
  side_context-live false server b w = (omega arith, λ e. refl)
  side_context-live true server b w =
      let r = sys.context_create w server.config b in
      let (one_more, code) = laws.created w server.config b in
      (one_more, λ e. nothing_held r.1 (sym code ∙ e))

  -- What a part of the start leaves: every context that it made is held, and none if it failed.
  abbrev pub Balanced : W → Status × Server × W → Type 0
  Balanced w r = (live r.2 ≡ live w + held r.1) × (is_ok r.0 ≡ false → held r.1 ≡ 0)

  proxy_init_tls-Balanced :
      (server : Server) (w : W) → held server ≡ 0 → Balanced w (proxy_init_tls sys server w)
  unfolding proxy_init_tls
  proxy_init_tls-Balanced server w e =
      let w1 = (sys.tls_global_init w).1 in
      let client = side_context sys server.config.client_tls_enabled server true w1 in
      let with_client : Server = record server { client_tls_context = client.1 } in
      let target = side_context sys server.config.target_tls_enabled with_client false client.2 in
      let with_both : Server = record with_client { target_tls_context = target.1 } in
      ground (
        arith,
        e,
        laws.global_init w,
        side_context-live server.config.client_tls_enabled server true w1,
        side_context-live server.config.target_tls_enabled with_client false client.2,
        proxy_destroy_tls-live server w1,
        proxy_destroy_tls-live with_client client.2,
        proxy_destroy_tls-live with_both target.2,
      )

  proxy_init_tls-counted :
      (server : Server) (w : W)
      → server.active_connections ≡ length server.sessions
      → let r = proxy_init_tls sys server w in r.1.active_connections ≡ length r.1.sessions
  unfolding proxy_init_tls proxy_destroy_tls
  proxy_init_tls-counted server w c =
      let same : (proxy_init_tls sys server w).1.sessions ≡ server.sessions = ground arith in
      let as_many : (proxy_init_tls sys server w).1.active_connections ≡ server.active_connections =
        ground arith in
      as_many ∙ c ∙ sym (ap (length {A = Entry}) same)

  -- The end of a start that failed.
  cleaned-Balanced :
      (rc : Status) (server : Server) (w w0 : W)
      → live w ≡ live w0 + held server
      → let r = proxy_destroy_tls sys server w in Balanced w0 (rc, r.0, sys.net_cleanup r.1)
  cleaned-Balanced rc server w w0 h =
      let r = proxy_destroy_tls sys server w in
      let (none_held, fewer) = proxy_destroy_tls-live server w in
      (omega (arith, laws.net_cleanup r.1, none_held, fewer, h), λ e. none_held)

  -- `sockify_proxy_run` after the run of the event loop, on a server that counts its sessions and whatever the
  -- calls it makes return, when `sockify_tls_context_destroy` takes one TLS context away and no other call
  -- changes their number. No session is left and the count of them is 0, the server holds no TLS context,
  -- and there are as many contexts fewer as it held.
  pub shut_down-empty :
      (server : Server) (w : W)
      → server.active_connections ≡ length server.sessions
      → let r = shut_down sys server w in
        (r.0.sessions ≡ [])
        × (r.0.active_connections ≡ 0)
        × (held r.0 ≡ 0)
        × (live r.1 ≡ live w - held server)
  unfolding shut_down proxy_destroy_tls
  shut_down-empty server w c =
      let r = close_all sys.host server.sessions server w in
      let (empty, zero_left) = close_all-empty sys.host server.sessions server w refl c in
      let (same, kept) = close_all-live server.sessions server w in
      let w2 = io.net_close (sys.loop_destroy r.1) r.0.listener_fd in
      let (none_held, fewer) = proxy_destroy_tls-live r.0 w2 in
      let w3 = (proxy_destroy_tls sys r.0 w2).1 in
      (
        empty,
        zero_left,
        none_held,
        omega (
          arith,
          laws.net_cleanup w3,
          fewer,
          kept,
          laws.net_close (sys.loop_destroy r.1) r.0.listener_fd,
          laws.loop_destroy r.1,
          same,
        ),
      )

  open_loop-Balanced :
      (server : Server) (w w0 : W)
      → server.active_connections ≡ length server.sessions
      → live w ≡ live w0 + held server
      → Balanced w0 (open_loop sys server w)
  unfolding open_loop
  open_loop-Balanced server w w0 c h =
      let r = sys.host.io.loop_add w server.listener_fd event_read in
      let added : live r.1 ≡ live w0 + held server =
        laws.loop_add w server.listener_fd event_read ∙ h in
      let (empty, zero_left, none_held, fewer) = shut_down-empty server r.1 c in
      elim (Bool-cases (is_ok r.0)) [
        | inl e ↦ rw (open_loop, e) (added, λ bad. absurd (cc bad))
        | inr e ↦ rw (open_loop, e) (omega (arith, none_held, fewer, added), λ bad. none_held)
      ]

  start_listener-Balanced :
      (server : Server) (w w0 : W)
      → server.active_connections ≡ length server.sessions
      → live w ≡ live w0 + held server
      → Balanced w0 (start_listener sys server w)
  unfolding start_listener
  start_listener-Balanced server w w0 c h =
      let r = sys.net_listen w server.config.listen_endpoint server.config.backlog in
      let listening : Server = record server { listener_fd = r.1 } in
      let loop = sys.loop_create r.2 in
      let w3 = sys.host.io.net_close loop.1 r.1 in
      let at_listen : live r.2 ≡ live w0 + held server =
        laws.net_listen w server.config.listen_endpoint server.config.backlog ∙ h in
      let at_loop : live loop.1 ≡ live w0 + held server = laws.loop_create r.2 ∙ at_listen in
      elim (Bool-cases (is_ok r.0)) [
        | inr e ↦ rw (start_listener, e) (cleaned-Balanced r.0 listening r.2 w0 at_listen)
        | inl e ↦ elim (Bool-cases loop.0) [
          | inr e2 ↦
              rw (start_listener, e, e2)
                (cleaned-Balanced err_nomem listening w3 w0 (laws.net_close loop.1 r.1 ∙ at_loop))
          | inl e2 ↦ rw (start_listener, e, e2) (open_loop-Balanced listening loop.1 w0 c at_loop)
        ]
      ]

  -- `sockify_proxy_run` up to the call of `sockify_event_loop_run`, on any configuration and whatever the calls it
  -- makes return, when `sockify_tls_context_create` makes a TLS context exactly if it returns SOCKIFY_OK,
  -- `sockify_tls_context_destroy` takes one away, and no other call changes their number. There are as many
  -- contexts more than before as the server holds; and if the start fails, it holds none.
  pub start_proxy-Balanced : (config : ProxyConfig) (w : W) → Balanced w (start_proxy sys config w)
  unfolding start_proxy
  start_proxy-Balanced config w =
      let server = start_server config in
      let net = sys.net_init w in
      let tls = proxy_init_tls sys server net.1 in
      let (more, none_held) = proxy_init_tls-Balanced server net.1 refl in
      let begun : live tls.2 ≡ live w + held tls.1 = omega (arith, more, laws.net_init w) in
      elim (Bool-cases (is_ok (validate_config config))) [
        | inr e ↦ rw (start_proxy, e) (omega arith, λ bad. refl)
        | inl e ↦ elim (Bool-cases (is_ok net.0)) [
          | inr e2 ↦ rw (start_proxy, e, e2) (omega (arith, laws.net_init w), λ bad. refl)
          | inl e2 ↦ elim (Bool-cases (is_ok tls.0)) [
            | inr e3 ↦
                rw (start_proxy, e, e2, e3) (laws.net_cleanup tls.2 ∙ begun, λ bad. none_held e3)
            | inl e3 ↦
                rw (start_proxy, e, e2, e3)
                  (start_listener-Balanced tls.1 tls.2 w (proxy_init_tls-counted server net.1 refl)
                    begun)
          ]
        ]
      ]
