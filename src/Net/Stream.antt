-- ===== src/Net/Stream.antt =====
-- The sends of a socket form a stream, if those of the system do.
use sockify.Prelude.{
  ℕ, zero, suc, ◌≤◌, ◌≡◌, refl, sym, Option, none, some, [], ◌∷◌, ◌++◌, append-nil, Bytes, arith,
  length, take,
}
use sockify.Net.{Calls, Errno, eagain, ewouldblock, einprogress, other, net_send, failed}
use sockify.Session.Target.Stream.{taken}
use sockify.Status.{Status, ok, err_again}
use sockify.Transport.{Socket}

-- What `send` says that it took.
abbrev pub sent : Option ℕ → ℕ
sent none = 0
sent (some n) = n

-- POSIX `send` on a socket of a connection: it takes a part of the front of what it is given, or fails
-- and takes nothing. `out` is what went out on a socket so far.
pub record IsSend {W : Type 0} (calls : Calls W) (out : W → Socket → Bytes) : Type 0 where
  pub bound : (w : W) (fd : Socket) (bytes : Bytes) → sent (calls.send w fd bytes).0 ≤ length bytes
  pub adds :
      (w : W) (fd : Socket) (bytes : Bytes)
      → out (calls.send w fd bytes).2 fd ≡ out w fd ++ take (sent (calls.send w fd bytes).0) bytes

taken-failed : {W : Type 0} (errno : Errno) (w : W) → taken (failed errno, 0, w) ≡ 0
taken-failed eagain w = refl
taken-failed ewouldblock w = refl
taken-failed einprogress w = refl
taken-failed (other n) w = refl

module _ {W : Type 0} (calls : Calls W) (out : W → Socket → Bytes) (laws : IsSend calls out) where
  -- `sockify_net_send` on a socket whose `send` takes a part of the front of what it is given. The count that
  -- it reports with SOCKIFY_OK, and 0 with any other code, is at most the length of the bytes, and exactly
  -- so many bytes of their front went out on the socket.
  pub net_send-adds :
      (w : W) (fd : Socket) (bytes : Bytes)
      → let r = net_send calls w fd bytes in
        (taken r ≤ length bytes) × (out r.2 fd ≡ out w fd ++ take (taken r) bytes)
  unfolding net_send
  net_send-adds w fd [] = (omega arith, sym (append-nil (out w fd)))
  net_send-adds w fd (x ∷ xs) =
      go (calls.send w fd (x ∷ xs)).0 (laws.bound w fd (x ∷ xs)) (laws.adds w fd (x ∷ xs))
    where
      errno : Errno
      errno = (calls.send w fd (x ∷ xs)).1

      w' : W
      w' = (calls.send w fd (x ∷ xs)).2

      go :
          (result : Option ℕ)
          → sent result ≤ length (x ∷ xs)
          → out w' fd ≡ out w fd ++ take (sent result) (x ∷ xs)
          → let r : Status × ℕ × W = elim result [
            | none ↦ (failed errno, 0, w')
            | some zero ↦ (err_again, 0, w')
            | some (suc n) ↦ (ok, suc n, w')
          ] in
            (taken r ≤ length (x ∷ xs)) × (out r.2 fd ≡ out w fd ++ take (taken r) (x ∷ xs))
      go none b a = rw (taken-failed errno w') (omega arith, a)
      go (some zero) b a = (omega arith, a)
      go (some (suc n)) b a = (b, a)
