-- ===== src/Server/Inv.antt =====
-- The server counts its sessions, never has more than it may, and holds none that is freed.
use sockify.Prelude.{
  ℕ, suc, ◌-◌, ◌≤◌, ◌≡◌, refl, sym, ap, ◌∙◌, inl, inr, false, Option, none, some, List, [], ◌∷◌,
  All, ◌||◌, arith, length, ◌==◌, Bool-cases,
}
use mathlib.Core.Path.{subst}
use sockify.Server.{Server, unlink, find, replace, unlink_session, put_back}
use sockify.Session.{Session}
use sockify.Session.Opening.Inv.{IsLive, IsSafe}

abbrev pub Entry : Type 0
Entry = ℕ × Session

-- A session in the list: not freed, and as its handlers rely on.
abbrev pub IsRunning : Entry → Type 0
IsRunning e = IsLive e.1 × ((e.1.closing == 2) ≡ false)

pub record IsSound (server : Server) : Type 0 where
  pub counted : server.active_connections ≡ length server.sessions
  pub bounded : length server.sessions ≤ server.config.max_connections
  pub running : All IsRunning server.sessions

length-unlink :
    (id : ℕ) (xs : List Entry) (s : Session)
    → find id xs ≡ some s
    → suc (length (unlink id xs)) ≡ length xs
unfolding find unlink
length-unlink id [] s h = absurd (cc h)
length-unlink id ((i, s') ∷ xs) s h = elim (Bool-cases (i == id)) [
  | inl e ↦ rw e refl
  | inr e ↦ rw e (ap suc (length-unlink id xs s (ground (arith, e, h))))
]

All-unlink : (P : Entry → Type 0) (id : ℕ) (xs : List Entry) → All P xs → All P (unlink id xs)
unfolding unlink
All-unlink P id [] h = tt
All-unlink P id ((i, s) ∷ xs) h = elim (Bool-cases (i == id)) [
  | inl e ↦ rw e h.1
  | inr e ↦ rw e (h.0, All-unlink P id xs h.1)
]

length-replace : (id : ℕ) (s' : Session) (xs : List Entry) → length (replace id s' xs) ≡ length xs
unfolding replace
length-replace id s' [] = refl
length-replace id s' ((i, s) ∷ xs) = elim (Bool-cases (i == id)) [
  | inl e ↦ rw e refl
  | inr e ↦ rw e (ap suc (length-replace id s' xs))
]

replace-IsRunning :
    (id : ℕ) (s' : Session) (xs : List Entry)
    → IsLive s'
    → (s'.closing == 2) ≡ false
    → All IsRunning xs
    → All IsRunning (replace id s' xs)
unfolding replace
replace-IsRunning id s' [] l c h = tt
replace-IsRunning id s' ((i, s) ∷ xs) l c h = elim (Bool-cases (i == id)) [
  | inl e ↦ rw e ((l, c), h.1)
  | inr e ↦ rw e (h.0, replace-IsRunning id s' xs l c h.1)
]

pub find-IsRunning :
    (id : ℕ) (xs : List Entry) (s : Session)
    → find id xs ≡ some s
    → All IsRunning xs
    → IsRunning (id, s)
unfolding find
find-IsRunning id [] s f h = absurd (cc f)
find-IsRunning id ((i, s') ∷ xs) s f h = elim (Bool-cases (i == id)) [
  | inl e ↦ let same : s' ≡ s = ground (arith, e, f) in subst (λ u. IsRunning (id, u)) same h.0
  | inr e ↦ find-IsRunning id xs s (ground (arith, e, f)) h.1
]

unlink_session-IsSound :
    (id : ℕ) (server : Server) → IsSound server → IsSound (unlink_session id server)
unfolding unlink_session
unlink_session-IsSound id server v = go (find id server.sessions) refl
  where
    go :
        (r : Option Session)
        → find id server.sessions ≡ r
        → IsSound (elim r [
          | none ↦ server
          | some _ ↦ record server {
            sessions = unlink id server.sessions;
            active_connections = server.active_connections - 1;
          }
        ])
    go none e = v
    go (some s) e =
        let shorter = length-unlink id server.sessions s e in
        record {
          counted = omega (arith, shorter, v.counted);
          bounded = omega (arith, shorter, v.bounded);
          running = All-unlink IsRunning id server.sessions v.running;
        }

pub put_back-IsSound :
    (id : ℕ) (s' : Session) (server : Server)
    → IsSafe s'
    → IsSound server
    → IsSound (put_back id s' server)
unfolding put_back
put_back-IsSound id s' server safe v = elim (Bool-cases (s'.closing == 2)) [
  | inl e ↦
      let noted : IsSound (record server { used_freed = s'.used_freed || server.used_freed }) =
        record { counted = v.counted; bounded = v.bounded; running = v.running } in
      rw (put_back, e) (unlink_session-IsSound id _ noted)
  | inr e ↦
      rw (put_back, e)
        (elim safe [
          | inl freed ↦ absurd (ground (arith, e, freed))
          | inr l ↦ record {
            counted = v.counted ∙ sym (length-replace id s' server.sessions);
            bounded = omega (arith, length-replace id s' server.sessions, v.bounded);
            running = replace-IsRunning id s' server.sessions l e v.running;
          }
        ])
]
