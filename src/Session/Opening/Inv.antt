-- ===== src/Session/Opening/Inv.antt =====
-- The calls of a session on its client's side end, and keep its parser well-formed.
pub mod Unchanged
pub mod Opened
pub mod Ends
pub mod TargetSide
use sockify.Prelude.{
  ℕ, zero, suc, ◌+◌, ◌-◌, ◌≤◌, ◌<◌, ◌≡◌, ◌≢◌, refl, sym, ap, ◌∙◌, ◌⊎◌, inl, inr, Bool, true, false,
  not, ◌&&◌, ◌||◌, Option, none, some, List, [], ◌∷◌, ◌++◌, Bytes, All, All-append, IsByte, arith,
  length, length-append, length-drop, take, drop, ltb, ◌==◌, ◌!=◌, if◌then◌else◌, Bool-cases,
}
use mathlib.Core.Path.{subst}
use sockify.Buffer.{writable, is_high}
use sockify.Frame.{Parser, Message, parser_feed}
use sockify.Frame.Inv.{IsWellFormed}
use sockify.Frame.Progress.{FeedResult, parser_feed-FeedResult}
use sockify.Handshake.{max_http_request, build_response, Answer}
use sockify.Handshake.Outcome.{Settled, build_response-Settled}
use sockify.Session.{Session, Config, set_client_out, close, seen, touch, min_size, io_chunk}
use sockify.Session.Client.{handle_ws_message, process_loop, process_ws_bytes}
use sockify.Session.Client.Rounds.{fed}
use sockify.Session.Events.{
  event_read, event_write, event_error, has_event, drive_client_tls, update_events,
}
use sockify.Session.Opening.{
  start_target, after_handshake, accept_handshake, handle_handshake_bytes, client_bytes, read_limit,
  read_client_loop, read_client, after_read, client_data, handle_client_event,
}
use sockify.Session.Opening.Inv.Unchanged.{
  Keeps, set_client_out-Keeps, close-Keeps, handle_ws_message-Keeps, start_target-Keeps,
  drive_client_tls-Keeps, write_client-Keeps,
}
use sockify.Session.Target.{write_client}
use sockify.Status.{Status, ok, err_again, is_ok, is_again}
use sockify.Transport.{Backend, Socket, Handle, Transport, plain, transport_read}

-- What the calls rely on in a session that is not freed: the parser is well-formed, and the buffered
-- part of the request is bytes that fit its array.
pub record IsLive (s : Session) : Type 0 where
  pub parser : IsWellFormed s.ws_parser
  pub request : All IsByte s.handshake
  pub bounded : length s.handshake ≤ max_http_request

-- A call that ends leaves the session freed or live.
abbrev pub IsSafe : Session → Type 0
IsSafe s = (s.closing ≡ 2) ⊎ IsLive s

abbrev pub IsEnded : {W : Type 0} → Option (Session × W) → Type 0
IsEnded none = ⊥
IsEnded (some (s, w)) = IsSafe s

-- The result of `session_process_ws_bytes`, which frees nothing when it fails.
abbrev pub Processed : {W : Type 0} → Option (Status × Session × W) → Type 0
Processed none = ⊥
Processed (some (rc, s, w)) = ((is_ok rc || is_again rc) ≡ false) ⊎ IsLive s

pub Keeps-IsLive : (s s' : Session) → Keeps s s' → IsLive s → IsLive s'
Keeps-IsLive s s' k l = record {
  parser = subst IsWellFormed (sym k.0) l.parser;
  request = subst (All IsByte) (sym k.1) l.request;
  bounded = omega (arith, l.bounded, ap (length {A = ℕ}) k.1);
}

pub seen-IsLive : (s : Session) → IsLive s → IsLive (seen s)
seen-IsLive s l = record { parser = l.parser; request = l.request; bounded = l.bounded }

pub seen-IsSafe : (s : Session) → IsSafe s → IsSafe (seen s)
seen-IsSafe s (inl freed) = inl freed
seen-IsSafe s (inr l) = inr (seen-IsLive s l)

pub Keeps-IsSafe : (s s' : Session) → Keeps s s' → IsLive s → IsSafe s'
Keeps-IsSafe s s' k l = inr (Keeps-IsLive s s' k l)

pub All-drop : (n : ℕ) (xs : Bytes) → All IsByte xs → All IsByte (drop n xs)
All-drop zero xs h = h
All-drop (suc n) [] h = tt
All-drop (suc n) (x ∷ xs) h = All-drop n xs h.1

FeedResult-ok :
    (n room : ℕ) (r : Status × ℕ × Parser × Message)
    → FeedResult 0 n room r
    → is_ok r.0 ≡ true
    → IsWellFormed r.2 × (0 < r.1)
FeedResult-ok n room (ok, used, p, msg) f e = (f.0, f.1)
FeedResult-ok n room (_, used, p, msg) f e = absurd (cc e)

FeedResult-again :
    (n room : ℕ) (r : Status × ℕ × Parser × Message)
    → FeedResult 0 n room r
    → is_again r.0 ≡ true
    → IsWellFormed r.2
FeedResult-again n room (err_again, used, p, msg) f e = f.0
FeedResult-again n room (_, used, p, msg) f e = absurd (cc e)

module _ {W : Type 0} (io : Backend W) where
  pub close-closing : (s : Session) (w : W) → (close io s w).0.closing ≡ 2
  unfolding close
  close-closing s w = ground arith

  with_parser-IsLive :
      (s : Session) (p : Parser) → IsLive s → IsWellFormed p → IsLive (record s { ws_parser = p })
  with_parser-IsLive s p l v = record { parser = v; request = l.request; bounded = l.bounded }

  -- With more fuel than bytes the loop over the bytes of the client ends.
  process_loop-Processed :
      (fuel : ℕ) (bytes : Bytes) (s : Session) (w : W)
      → length bytes < fuel
      → All IsByte bytes
      → IsLive s
      → Processed (process_loop io fuel bytes s w)
  unfolding process_loop
  process_loop-Processed zero bytes s w h b l = absurd (omega arith)
  process_loop-Processed (suc fuel) [] s w h b l = inr (seen-IsLive s l)
  process_loop-Processed (suc fuel) (x ∷ xs) s w h b l =
      let capacity = min_size io_chunk (writable s.client_to_target) in
      let r = fed io s (x ∷ xs) in
      let f = parser_feed-FeedResult s.ws_parser (x ∷ xs) capacity b l.parser in
      let s1 : Session = record s { ws_parser = r.2 } in
      let (s2, w2) = handle_ws_message io s1 r.3 w in
      let left = length-drop r.1 (x ∷ xs) in
      elim (Bool-cases (not (s.closing == 0))) [
        | inl e ↦ rw (process_loop, e) (inr (seen-IsLive s l))
        | inr e ↦ elim (Bool-cases (capacity == 0)) [
          | inl full ↦ rw (process_loop, e, full) (inr l)
          | inr room ↦ elim (Bool-cases (is_ok r.0)) [
            | inl good ↦
                let (v, used) = FeedResult-ok (length (x ∷ xs)) capacity r f good in
                rw (process_loop, e, room, good)
                  (process_loop-Processed fuel (drop r.1 (x ∷ xs)) s2 w2 (omega arith)
                    (All-drop r.1 (x ∷ xs) b)
                    (Keeps-IsLive s1 s2 (handle_ws_message-Keeps io s1 r.3 w)
                      (with_parser-IsLive s r.2 l v)))
            | inr bad ↦ elim (Bool-cases (is_again r.0)) [
              | inr fatal ↦
                  rw (process_loop, e, room, bad, fatal) (inl (ground (arith, bad, fatal)))
              | inl again ↦
                  let v = FeedResult-again (length (x ∷ xs)) capacity r f again in
                  let live = with_parser-IsLive s r.2 l v in
                  elim (Bool-cases (r.1 == 0)) [
                    | inl none_used ↦
                        rw (process_loop, e, room, bad, again, none_used)
                          (inr (seen-IsLive s1 live))
                    | inr some_used ↦
                        let used : 0 < r.1 = ground (arith, some_used) in
                        rw (process_loop, e, room, bad, again, some_used)
                          (process_loop-Processed fuel (drop r.1 (x ∷ xs)) s1 w (omega arith)
                            (All-drop r.1 (x ∷ xs) b) live)
                  ]
            ]
          ]
        ]
      ]

  pub process_ws_bytes-Processed :
      (bytes : Bytes) (s : Session) (w : W)
      → All IsByte bytes
      → IsLive s
      → Processed (process_ws_bytes io s bytes w)
  unfolding process_ws_bytes
  process_ws_bytes-Processed bytes s w b l =
      process_loop-Processed (suc (length bytes)) bytes s w (omega arith) b l

  pub closed-IsSafe : (s : Session) (w : W) → IsSafe (close io s w).0
  closed-IsSafe s w = inl (close-closing s w)
