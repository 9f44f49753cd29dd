-- ===== src/Session/Target/Forward.antt =====
-- Nothing is lost or sent twice on the way to the target.
use sockify.Prelude.{
  ℕ, zero, suc, ◌≤◌, ◌≡◌, refl, sym, ap, ◌∙◌, true, false, [], ◌∷◌, ◌++◌, append_assoc, Bytes,
  arith, length, length-take, take, drop, take-append-drop, ◌==◌, Bool-cases, inl, inr,
}
use mathlib.Core.Path.{subst}
use sockify.Buffer.{Buffer, readable, peek, consume}
use sockify.Buffer.Inv.{IsValid}
use sockify.Buffer.Window.{contents}
use sockify.Buffer.Read.{peek_lem, consume-IsValid, contents-consume}
use sockify.Session.{Session, Config, min_size, io_chunk}
use sockify.Session.Target.{write_target_loop, write_target, touch_if_sent}
use sockify.Session.Target.Stream.{
  IsStream, taken, went_out, transport_write-bound, transport_write-adds, close-went_out,
  closed-not_open,
}
use sockify.Status.{Status, ok, is_ok, is_again}
use sockify.Transport.{Backend, Socket, Handle, Transport, transport_write}

take-take : (n m : ℕ) (xs : Bytes) → n ≤ m → take n (take m xs) ≡ take n xs
take-take zero m xs h = refl
take-take (suc n) zero xs h = absurd (omega arith)
take-take (suc n) (suc m) [] h = refl
take-take (suc n) (suc m) (x ∷ xs) h = ap (◌∷◌ x) (take-take n m xs (omega arith))

take_all_or : (n m : ℕ) (xs : Bytes) → n ≤ length (take m xs) → n ≤ m
take_all_or n m xs h = omega (arith, length-take m xs)

again-not_ok : (rc : Status) → is_again rc ≡ true → is_ok rc ≡ false
again-not_ok ok h = sym h
again-not_ok _ h = refl

module _ {W : Type 0} (io : Backend W) (on_socket : W → Socket → Bytes)
    (on_tls : W → Handle → Bytes) (laws : IsStream io on_socket on_tls) where
  abbrev out : W → Transport → Bytes
  out w t = went_out io on_socket on_tls laws w t

  -- What is out, followed by the rest, is what was out, followed by what waited; and the rest waits in the
  -- buffer unless the session is freed.
  pub record Forwards (t : Transport) (before after : Session × W) : Type 0 where
    pub rest : Bytes
    pub kept : out after.1 t ++ rest ≡ out before.1 t ++ contents before.0.client_to_target
    pub waits :
        (after.0.closing == 2) ≡ false
        → IsValid after.0.client_to_target × (rest ≡ contents after.0.client_to_target)

  -- After a call of the transport on the front of the buffer, what it took can be dropped.
  sent_front :
      (t : Transport) (buf : Buffer) (w : W) (count : ℕ)
      → IsValid buf
      → let r = transport_write io w t (take count (contents buf)) in
        out r.2 t ++ drop (taken r) (contents buf) ≡ out w t ++ contents buf
  sent_front t buf w count v =
      let front = take count (contents buf) in
      let r = transport_write io w t front in
      let bound = transport_write-bound io on_socket on_tls laws w t front in
      ap (λ l. l ++ drop (taken r) (contents buf))
        (transport_write-adds io on_socket on_tls laws w t front
          ∙ ap (λ l. out w t ++ l)
              (take-take (taken r) count (contents buf)
                (take_all_or (taken r) count (contents buf) bound)))
      ∙ append_assoc (out w t) (take (taken r) (contents buf)) (drop (taken r) (contents buf))
      ∙ ap (λ l. out w t ++ l) (take-append-drop (taken r) (contents buf))

  write_target_loop-Forwards :
      (rounds : ℕ) (s : Session) (w : W)
      → IsValid s.client_to_target
      → Forwards s.target_transport (s, w) (write_target_loop io rounds s w)
  unfolding write_target_loop
  write_target_loop-Forwards zero s w v = record {
    rest = contents s.client_to_target;
    kept = refl;
    waits = λ h. (v, refl);
  }
  write_target_loop-Forwards (suc rounds) s w v =
      let t = s.target_transport in
      let count = min_size io_chunk (readable s.client_to_target) in
      let buf = s.client_to_target in
      let front = (peek buf false count).2 in
      let r = transport_write io w t front in
      let shown : is_ok (peek buf false count).0 ≡ true = ap (λ q. is_ok q.0) (peek_lem count v) in
      let moved : out r.2 t ++ drop (taken r) (contents buf) ≡ out w t ++ contents buf =
        subst
          (λ l.
            let r' = transport_write io w t l in
            out r'.2 t ++ drop (taken r') (contents buf) ≡ out w t ++ contents buf)
          (sym (ap (λ q. q.2) (peek_lem count v))) (sent_front t buf w count v) in
      let none_taken : is_ok r.0 ≡ false → taken r ≡ 0 = λ failed. rw failed in
      let unsent : is_ok r.0 ≡ false → out r.2 t ++ contents buf ≡ out w t ++ contents buf =
        λ failed.
          subst (λ n. out r.2 t ++ drop n (contents buf) ≡ out w t ++ contents buf)
            (none_taken failed) moved in
      elim (Bool-cases (readable buf == 0)) [
        | inl empty ↦
            rw (write_target_loop, empty)
              (record { rest = contents buf; kept = refl; waits = λ h. (v, refl) })
        | inr filled ↦ elim (Bool-cases (is_again r.0)) [
          | inl again ↦
              rw (write_target_loop, filled, shown, again)
                (record {
                  rest = contents buf;
                  kept = unsent (again-not_ok r.0 again);
                  waits = λ h. (v, refl);
                })
          | inr not_again ↦ elim (Bool-cases (is_ok r.0)) [
            | inr failed ↦
                rw (write_target_loop, filled, shown, not_again, failed)
                  (record {
                    rest = contents buf;
                    kept =
                        ap (λ l. l ++ contents buf)
                          (close-went_out io on_socket on_tls laws t s r.2)
                        ∙ unsent failed;
                    waits = λ h. absurd (closed-not_open io on_socket on_tls laws s r.2 h);
                  })
            | inl good ↦
                let (code, _, valid) = consume-IsValid r.1 v in
                let consumed : is_ok (consume buf r.1).0 ≡ true = ap is_ok code in
                let s1 = record (touch_if_sent io r.1 s r.2) {
                  client_to_target = (consume buf r.1).2;
                } in
                let later = write_target_loop-Forwards rounds s1 r.2 valid in
                let exact : taken r ≡ r.1 = rw good in
                rw (write_target_loop, filled, shown, not_again, good, consumed)
                  (record {
                    rest = later.rest;
                    kept =
                        later.kept
                        ∙ ap (λ l. out r.2 t ++ l) (contents-consume r.1 v)
                        ∙ subst (λ n. out r.2 t ++ drop n (contents buf) ≡ out w t ++ contents buf)
                            exact moved;
                    waits = later.waits;
                  })
          ]
        ]
      ]

  -- `session_write_target`, from a session whose buffer for the target is valid, on every path: what
  -- went out on the target's transport, followed by some rest, is what went out before, followed by what
  -- waited in the buffer. Unless the call frees the session, the buffer is valid again and the rest is
  -- what waits in it. So no byte is sent twice or reordered, however much each call takes, and none is
  -- lost but with a session that is freed.
  pub write_target-Forwards :
      (config : Config) (s : Session) (w : W)
      → IsValid s.client_to_target
      → Forwards s.target_transport (s, w) (write_target io config s w)
  unfolding write_target
  write_target-Forwards config s w v = write_target_loop-Forwards config.write_budget s w v
