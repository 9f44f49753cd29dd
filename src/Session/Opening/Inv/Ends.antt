-- ===== src/Session/Opening/Inv/Ends.antt =====
-- The handlers on the client's side end.
use sockify.Prelude.{
  ℕ, zero, suc, ◌≡◌, inl, inr, Bool, true, false, not, ◌&&◌, ◌||◌, Option, none, some, All, IsByte,
  arith, ◌==◌, Bool-cases,
}
use sockify.Buffer.{is_high}
use sockify.Session.{Session, Config, seen, touch}
use sockify.Session.Events.{event_read, event_write, event_error, has_event, drive_client_tls}
use sockify.Session.Opening.{
  client_bytes, read_limit, read_client_loop, read_client, after_read, client_data,
  handle_client_event,
}
use sockify.Session.Opening.Inv.{
  IsLive, IsSafe, IsEnded, Keeps-IsLive, closed-IsSafe, seen-IsLive, seen-IsSafe,
}
use sockify.Session.Opening.Inv.Unchanged.{drive_client_tls-Keeps, write_client-Keeps}
use sockify.Session.Target.{write_client}
use sockify.Status.{is_ok, is_again}
use sockify.Transport.{Backend, Socket, Handle, Transport, is_plain, transport_read}
use sockify.Session.Opening.Inv.Opened.{IsRead, touched-IsLive, client_bytes-IsRead}

-- What a socket or a TLS connection gives to its reader is bytes.
pub record GivesBytes {W : Type 0} (io : Backend W) : Type 0 where
  pub recv_bytes : (w : W) (fd : Socket) (n : ℕ) → All IsByte (io.net_recv w fd n).1
  pub tls_bytes : (w : W) (h : Handle) (n : ℕ) → All IsByte (io.tls_read w h n).1

module _ {W : Type 0} (io : Backend W) where
  after_read-IsSafe :
      (config : Config) (events : ℕ) (s : Session) (w : W)
      → IsLive s
      → IsSafe (after_read io config events s w).0
  unfolding after_read
  after_read-IsSafe config events s w l =
      let r = write_client io config s w in
      let l' = Keeps-IsLive s r.0 (write_client-Keeps io config s w) l in
      elim (Bool-cases (has_event events event_write)) [
        | inl e ↦ elim (Bool-cases (has_event events event_read && s.closing == 2)) [
          | inl freed ↦ rw (after_read, freed) (inr (seen-IsLive s l))
          | inr kept ↦ elim (Bool-cases (r.0.closing == 2)) [
            | inl freed ↦ rw (after_read, e, kept, freed) (inl (ground (arith, freed)))
            | inr kept' ↦ rw (after_read, e, kept, kept') (inr l')
          ]
        ]
        | inr e ↦ elim (Bool-cases (has_event events event_read && s.closing == 2)) [
          | inl freed ↦ rw (after_read, freed) (inr (seen-IsLive s l))
          | inr kept ↦ rw (after_read, e, kept) (inr l)
        ]
      ]

  after_read-freed :
      (config : Config) (events : ℕ) (s : Session) (w : W)
      → has_event events event_read ≡ true
      → s.closing ≡ 2
      → after_read io config events s w ≡ (seen s, w)
  unfolding after_read
  after_read-freed config events s w e freed =
      let stops : (has_event events event_read && s.closing == 2) ≡ true = ground (arith, e) in
      rw (after_read, stops)

  module _ (gives : GivesBytes io) where
    transport_read-bytes : (w : W) (t : Transport) (n : ℕ) → All IsByte (transport_read io w t n).1
    unfolding transport_read
    transport_read-bytes w t n = elim (Bool-cases (is_plain t)) [
      | inl e ↦ rw e (gives.recv_bytes w t.fd n)
      | inr e ↦ rw e (gives.tls_bytes w t.tls n)
    ]

    read_client_loop-IsEnded :
        (rounds : ℕ) (config : Config) (s : Session) (w : W)
        → IsSafe s
        → IsEnded (read_client_loop io rounds config s w)
    unfolding read_client_loop
    read_client_loop-IsEnded zero config s w safe = seen-IsSafe s safe
    read_client_loop-IsEnded (suc rounds) config s w (inl freed) =
        let stops : (not (s.closing == 0) || s.handshake_done && read_limit s == 0) ≡ true =
          ground (arith, freed) in
        rw (read_client_loop, stops) (inl freed)
    read_client_loop-IsEnded (suc rounds) config s w (inr l) =
        let r = transport_read io w s.client_transport (read_limit s) in
        let b = transport_read-bytes w s.client_transport (read_limit s) in
        let s1 = touch io s r.2 in
        elim (Bool-cases (not (s.closing == 0) || s.handshake_done && read_limit s == 0)) [
          | inl e ↦ rw (read_client_loop, e) (inr (seen-IsLive s l))
          | inr e ↦ elim (Bool-cases (is_again r.0)) [
            | inl e2 ↦ rw (read_client_loop, e, e2) (inr l)
            | inr e2 ↦ elim (Bool-cases (is_ok r.0)) [
              | inr e3 ↦ rw (read_client_loop, e, e2, e3) (closed-IsSafe io s r.2)
              | inl e3 ↦
                  rw (read_client_loop, e, e2, e3)
                    (go (client_bytes io config s1 r.1 r.2)
                      (client_bytes-IsRead io config s1 r.1 r.2 b (touched-IsLive io s r.2 l))
                      (λ s2 w2 safe. read_client_loop-IsEnded rounds config s2 w2 safe))
            ]
          ]
        ]
      where
        go :
            (r : Option (Bool × Session × W))
            → IsRead r
            → ((s2 : Session) (w2 : W)
                → IsSafe s2
                → IsEnded (read_client_loop io rounds config s2 w2))
            → IsEnded (elim r [
              | none ↦ none
              | some (go_on, s2, w2) ↦ elim (go_on && not (is_high s2.client_to_target)) [
                | false ↦ some (s2, w2)
                | true ↦ read_client_loop io rounds config s2 w2
              ]
            ])
        go none p next = p
        go (some (go_on, s2, w2)) p next =
            elim (Bool-cases (go_on && not (is_high s2.client_to_target))) [
              | inr e ↦ rw e p
              | inl e ↦ rw e (next s2 w2 p)
            ]

    client_data-IsEnded :
        (config : Config) (s : Session) (events : ℕ) (w : W)
        → IsLive s
        → IsEnded (client_data io config s events w)
    unfolding client_data read_client
    client_data-IsEnded config s events w l = elim (Bool-cases (has_event events event_read)) [
      | inr e ↦ rw (client_data, e) (after_read-IsSafe config events s w l)
      | inl e ↦
          rw (client_data, e)
            (go (read_client_loop io config.read_budget config s w) e
              (read_client_loop-IsEnded config.read_budget config s w (inr l)))
    ]
      where
        go :
            (r : Option (Session × W))
            → has_event events event_read ≡ true
            → IsEnded r
            → IsEnded
                (elim r [ none ↦ none | some (s', w') ↦ some (after_read io config events s' w') ])
        go none e p = p
        go (some (s', w')) e (inl freed) =
            rw (after_read-freed config events s' w' e freed) (inl freed)
        go (some (s', w')) e (inr l') = after_read-IsSafe config events s' w' l'

    -- `session_handle_client_event` on a session whose parser is well-formed and whose buffered request is
    -- bytes, at most 8192, when sockets and TLS connections give bytes to their reader. A read of
    -- the session after it was freed, which C leaves undefined, is noted in `used_freed` and taken to find
    -- the fields as they were when it was freed. Then the call ends, whatever the events, the
    -- configuration, the bytes and the results of the calls it makes. It leaves the
    -- session freed, or with a well-formed parser and a buffered request that fits its array again.
    pub handle_client_event-IsEnded :
        (config : Config) (s : Session) (events : ℕ) (w : W)
        → IsLive s
        → IsEnded (handle_client_event io config s events w)
    unfolding handle_client_event
    handle_client_event-IsEnded config s events w l =
        let r = drive_client_tls io s w in
        let l1 = Keeps-IsLive s r.1 (drive_client_tls-Keeps io s w) l in
        elim (Bool-cases (has_event events event_error)) [
          | inl e ↦ rw (handle_client_event, e) (closed-IsSafe io s w)
          | inr e ↦ elim (Bool-cases s.client_tls_ready) [
            | inl e2 ↦ rw (handle_client_event, e, e2) (client_data-IsEnded config s events w l)
            | inr e2 ↦ elim (Bool-cases (is_again r.0)) [
              | inl e3 ↦ rw (handle_client_event, e, e2, e3) (inr l1)
              | inr e3 ↦ elim (Bool-cases r.1.client_tls_ready) [
                | inr e4 ↦ rw (handle_client_event, e, e2, e3, e4) (closed-IsSafe io r.1 r.2)
                | inl e4 ↦
                    rw (handle_client_event, e, e2, e3, e4)
                      (client_data-IsEnded config r.1 events r.2 l1)
              ]
            ]
          ]
        ]
