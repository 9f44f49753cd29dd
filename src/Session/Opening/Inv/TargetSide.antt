-- ===== src/Session/Opening/Inv/TargetSide.antt =====
-- The handlers of the target's side leave the parser and the buffered request as they are.
use sockify.Prelude.{
  ℕ, zero, suc, refl, ◌∙◌, Bool, true, false, ◌&&◌, some, arith, length, if◌then◌else◌,
}
use sockify.Buffer
use sockify.Buffer.{readable, is_high, peek, consume}
use sockify.Session.{Session, Config, close, touch, min_size, io_chunk}
use sockify.Session.Events.{
  event_write, event_error, has_event, drive_target_tls, complete_target_connect, target_data,
  target_tls, handle_target_event,
}
use sockify.Session.Opening.{Side, client_side, target_side, event_callback}
use sockify.Session.Opening.Inv.{IsLive, IsEnded, Keeps-IsSafe}
use sockify.Session.Opening.Inv.Ends.{GivesBytes, handle_client_event-IsEnded}
use sockify.Session.Opening.Inv.Unchanged.{Keeps, close-Keeps}
use sockify.Session.Target.{
  read_target, read_target_loop, write_target, write_target_loop, touch_if_sent,
}
use sockify.Status.{is_ok}
use sockify.Transport.{Backend, transport_read, transport_write}

module _ {W : Type 0} (io : Backend W) where
  write_target_loop-Keeps :
      (rounds : ℕ) (s : Session) (w : W) → Keeps s (write_target_loop io rounds s w).0
  unfolding write_target_loop
  write_target_loop-Keeps zero s w = (refl, refl)
  write_target_loop-Keeps (suc rounds) s w =
      let count = min_size io_chunk (readable s.client_to_target) in
      let bytes = (peek s.client_to_target false count).2 in
      let r = transport_write io w s.target_transport bytes in
      let s1 = touch_if_sent io r.1 s r.2 in
      let s2 : Session = record s1 { client_to_target = (consume s1.client_to_target r.1).2 } in
      ground (
        arith,
        close-Keeps io s w,
        close-Keeps io s r.2,
        close-Keeps io s2 r.2,
        write_target_loop-Keeps rounds s2 r.2,
      )

  read_target_loop-Keeps :
      (rounds : ℕ) (s : Session) (w : W) → Keeps s (read_target_loop io rounds s w).0
  unfolding read_target_loop touch
  read_target_loop-Keeps zero s w = (refl, refl)
  read_target_loop-Keeps (suc rounds) s w =
      let r = transport_read io w s.target_transport io_chunk in
      let s1 = touch io s r.2 in
      let s2 : Session = record s1 {
        target_to_client = (Buffer.write s1.target_to_client (some r.1) (length r.1)).2;
      } in
      ground
        (arith, close-Keeps io s r.2, close-Keeps io s2 r.2, read_target_loop-Keeps rounds s2 r.2)

  complete_target_connect-Keeps :
      (config : Config) (s : Session) (w : W) → Keeps s (complete_target_connect io config s w).1
  unfolding complete_target_connect
  complete_target_connect-Keeps config s w = ground arith

  drive_target_tls-Keeps : (s : Session) (w : W) → Keeps s (drive_target_tls io s w).1
  unfolding drive_target_tls
  drive_target_tls-Keeps s w = ground arith

  target_data-Keeps :
      (config : Config) (s : Session) (events : ℕ) (w : W)
      → Keeps s (target_data io config s events w).0
  unfolding target_data read_target write_target
  target_data-Keeps config s events w =
      let r = read_target_loop io config.read_budget s w in
      ground (
        arith,
        read_target_loop-Keeps config.read_budget s w,
        write_target_loop-Keeps config.write_budget r.0 r.1,
        write_target_loop-Keeps config.write_budget s w,
      )

  target_tls-Keeps :
      (config : Config) (s : Session) (events : ℕ) (w : W)
      → Keeps s (target_tls io config s events w).0
  unfolding target_tls
  target_tls-Keeps config s events w =
      let r = drive_target_tls io s w in
      ground (
        arith,
        drive_target_tls-Keeps s w,
        target_data-Keeps config s events w,
        target_data-Keeps config r.1 events r.2,
        close-Keeps io r.1 r.2,
      )

  Keeps-if :
      (b : Bool) (s : Session) (p q : Session × W)
      → Keeps s p.0
      → Keeps s q.0
      → Keeps s (if b then p else q).0
  Keeps-if true s p q h k = h
  Keeps-if false s p q h k = k

  handle_target_event-Keeps :
      (config : Config) (s : Session) (events : ℕ) (w : W)
      → Keeps s (handle_target_event io config s events w).0
  unfolding handle_target_event
  handle_target_event-Keeps config s events w =
      let (rc, s1, w1) = complete_target_connect io config s w in
      let k = complete_target_connect-Keeps config s w in
      let k_tls = target_tls-Keeps config s1 events w1 in
      let k_close = close-Keeps io s1 w1 in
      Keeps-if (has_event events event_error) s (close io s w) _ (close-Keeps io s w) (
        Keeps-if (s.target_connecting && has_event events event_write) s _
          (target_tls io config s events w)
          (Keeps-if (is_ok rc) s (target_tls io config s1 events w1) (close io s1 w1)
            (k_tls.0 ∙ k.0, k_tls.1 ∙ k.1) (k_close.0 ∙ k.0, k_close.1 ∙ k.1))
          (target_tls-Keeps config s events w))

  pub event_callback-IsEnded :
      (gives : GivesBytes io) (config : Config) (side : Side) (s : Session) (events : ℕ) (w : W)
      → IsLive s
      → IsEnded (event_callback io config side s events w)
  unfolding event_callback
  event_callback-IsEnded gives config client_side s events w l =
      handle_client_event-IsEnded io gives config s events w l
  event_callback-IsEnded gives config target_side s events w l =
      Keeps-IsSafe s (handle_target_event io config s events w).0
        (handle_target_event-Keeps config s events w) l
