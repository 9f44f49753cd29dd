-- ===== src/Session/Opening/Inv/Opened.antt =====
-- The HTTP handshake of a session ends.
use sockify.Prelude.{
  ℕ, ◌-◌, inl, inr, Bool, true, false, not, ◌&&◌, Option, none, some, [], ◌++◌, Bytes, All,
  All-append, IsByte, arith, length, length-append, take, drop, ltb, ◌==◌, if◌then◌else◌,
  Bool-cases,
}
use sockify.Handshake.{max_http_request, build_response, Answer}
use sockify.Handshake.Outcome.{Settled, build_response-Settled}
use sockify.Session.{seen, Session, Config, set_client_out, close, touch}
use sockify.Session.Client.{process_ws_bytes}
use sockify.Session.Opening.{
  start_target, after_handshake, accept_handshake, handle_handshake_bytes, client_bytes,
}
use sockify.Session.Opening.Inv.{
  seen-IsSafe, IsLive, IsSafe, IsEnded, Processed, Keeps-IsLive, All-drop,
  process_ws_bytes-Processed, closed-IsSafe,
}
use sockify.Session.Opening.Inv.Unchanged.{set_client_out-Keeps, start_target-Keeps}
use sockify.Status.{Status, is_ok, is_again}
use sockify.Transport.{Backend}

-- What a read of the client's loop leaves; a session that is freed ends the loop.
abbrev pub IsRead : {W : Type 0} → Option (Bool × Session × W) → Type 0
IsRead none = ⊥
IsRead (some (go_on, s, w)) = IsSafe s

empty_request : (s : Session) → IsLive s → IsLive (record s { handshake = [] })
empty_request s l = record { parser = l.parser; request = tt; bounded = omega arith }

module _ {W : Type 0} (io : Backend W) where
  after_handshake-IsEnded :
      (consumed : ℕ) (s : Session) (w : W) → IsLive s → IsEnded (after_handshake io consumed s w)
  unfolding after_handshake
  after_handshake-IsEnded consumed s w l = elim (Bool-cases (ltb consumed (length s.handshake))) [
    | inr e ↦ rw (after_handshake, e) (inr (empty_request s l))
    | inl e ↦
        let bytes = drop consumed s.handshake in
        rw (after_handshake, e)
          (go (process_ws_bytes io s bytes w)
            (process_ws_bytes-Processed io bytes s w (All-drop consumed s.handshake l.request) l))
  ]
    where
      go :
          (r : Option (Status × Session × W))
          → Processed r
          → IsEnded (elim r [
            | none ↦ none
            | some (rc, s', w') ↦ some (
                if not (is_ok rc) && not (is_again rc)
                then close io s' w'
                else (record s' { handshake = [] }, w'))
          ])
      go none p = absurd p
      go (some (rc, s', w')) p = elim (Bool-cases (not (is_ok rc) && not (is_again rc))) [
        | inl fatal ↦ rw fatal (closed-IsSafe io s' w')
        | inr fine ↦ rw fine (
            inr (elim p [
              | inl bad ↦ absurd (ground (arith, bad, fine))
              | inr l' ↦ empty_request s' l'
            ]))
      ]

  accept_handshake-IsEnded :
      (config : Config) (response : Bytes) (consumed : ℕ) (s : Session) (w : W)
      → IsLive s
      → IsEnded (accept_handshake io config response consumed s w)
  unfolding accept_handshake
  accept_handshake-IsEnded config response consumed s w l =
      let (rc_out, s1) = set_client_out s response in
      let opened : Session = record s1 { handshake_done = true } in
      let (rc, s2, w1) = start_target io config opened w in
      let l1 : IsLive s1 = Keeps-IsLive s s1 (set_client_out-Keeps s response) l in
      let l1' : IsLive opened = record {
        parser = l1.parser;
        request = l1.request;
        bounded = l1.bounded;
      } in
      let l2 = Keeps-IsLive opened s2 (start_target-Keeps io config opened w) l1' in
      elim (Bool-cases (is_ok rc_out)) [
        | inr e ↦ rw (accept_handshake, e) (closed-IsSafe io s1 w)
        | inl e ↦ elim (Bool-cases (is_ok rc)) [
          | inr e2 ↦ rw (accept_handshake, e, e2) (closed-IsSafe io s2 w1)
          | inl e2 ↦ rw (accept_handshake, e, e2) (after_handshake-IsEnded consumed s2 w1 l2)
        ]
      ]

  handle_handshake_bytes-IsEnded :
      (config : Config) (s : Session) (bytes : Bytes) (w : W)
      → All IsByte bytes
      → IsLive s
      → IsEnded (handle_handshake_bytes io config s bytes w)
  unfolding handle_handshake_bytes
  handle_handshake_bytes-IsEnded config s bytes w b l =
      elim (Bool-cases (ltb (max_http_request - length s.handshake) (length bytes))) [
        | inl over ↦ rw (handle_handshake_bytes, over) (closed-IsSafe io s w)
        | inr fits ↦
            let longer : IsLive (record s { handshake = s.handshake ++ bytes }) = record {
              parser = l.parser;
              request = All-append IsByte s.handshake bytes l.request b;
              bounded = ground (arith, fits, l.bounded, length-append s.handshake bytes);
            } in
            rw (handle_handshake_bytes, fits)
              (go (build_response (s.handshake ++ bytes) 256)
                (build_response-Settled (s.handshake ++ bytes) 256) longer)
      ]
    where
      s1 : Session
      s1 = record s { handshake = s.handshake ++ bytes }

      go :
          (r : Option Answer)
          → Settled (length (s.handshake ++ bytes)) 256 r
          → IsLive s1
          → IsEnded (elim r [
            | none ↦ none
            | some (rc, response_len, consumed, response) ↦
                if is_again rc
                then some (s1, w)
                else if not (is_ok rc)
                then some (close io s1 w)
                else accept_handshake io config (take response_len response) consumed s1 w
          ])
      go none p l1 = absurd p
      go (some (rc, response_len, consumed, response)) p l1 = elim (Bool-cases (is_again rc)) [
        | inl e ↦ rw e (inr l1)
        | inr e ↦ elim (Bool-cases (is_ok rc)) [
          | inr bad ↦ rw (e, bad) (closed-IsSafe io s1 w)
          | inl good ↦
              rw (e, good)
                (accept_handshake-IsEnded config (take response_len response) consumed s1 w l1)
        ]
      ]

  pub touched-IsLive : (s : Session) (w : W) → IsLive s → IsLive (touch io s w)
  unfolding touch
  touched-IsLive s w l = record { parser = l.parser; request = l.request; bounded = l.bounded }

  pub client_bytes-IsRead :
      (config : Config) (s : Session) (bytes : Bytes) (w : W)
      → All IsByte bytes
      → IsLive s
      → IsRead (client_bytes io config s bytes w)
  unfolding client_bytes
  client_bytes-IsRead config s bytes w b l = elim (Bool-cases s.handshake_done) [
    | inr e ↦
        rw (client_bytes, e)
          (opening (handle_handshake_bytes io config s bytes w)
            (handle_handshake_bytes-IsEnded config s bytes w b l))
    | inl e ↦
        rw (client_bytes, e)
          (opened (process_ws_bytes io s bytes w) (process_ws_bytes-Processed io bytes s w b l))
  ]
    where
      opening :
          (r : Option (Session × W))
          → IsEnded r
          → IsRead (elim r [
            | none ↦ none
            | some (s', w') ↦ some (s'.handshake_done && not (s'.closing == 2), seen s', w')
          ])
      opening none p = p
      opening (some (s', w')) p = seen-IsSafe s' p

      opened :
          (r : Option (Status × Session × W))
          → Processed r
          → IsRead (elim r [
            | none ↦ none
            | some (rc, s', w') ↦
                let (closed, w2) = close io s' w' in
                some (
                  if not (is_ok rc) && not (is_again rc)
                  then (false, closed, w2)
                  else (true, s', w'))
          ])
      opened none p = p
      opened (some (rc, s', w')) p = elim (Bool-cases (not (is_ok rc) && not (is_again rc))) [
        | inl fatal ↦ rw fatal (closed-IsSafe io s' w')
        | inr fine ↦
            rw fine (elim p [ inl bad ↦ absurd (ground (arith, bad, fine)) | inr l' ↦ inr l' ])
      ]
