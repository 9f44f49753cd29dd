-- ===== src/EventLoop/Spec.antt =====
-- What an event loop promises: a map from sockets to sources, and what the calls do to it.
use sockify.Prelude.{ℕ, Option, none, some, ◌==◌, if◌then◌else◌}
use sockify.EventLoop.{Source}
use sockify.Status.{Status, ok, err_invalid}

abbrev pub fd_of : Source → ℕ
fd_of s = s.fd

-- A call on the table.
pub data Op : Type 0 where
  add : ℕ → ℕ → ℕ → Op
  modify : ℕ → ℕ → Op
  remove : ℕ → Op

-- The map that the table stands for, and what the calls do to it.
abbrev pub Map : Type 0
Map = ℕ → Option Source

abbrev pub put : ℕ → Option Source → Map → Map
put fd s m g = if fd == g then s else m g

abbrev pub specified : Op → Map → Status × Map
specified (add fd events callback) m = elim (m fd) [
  | some _ ↦ (err_invalid, m)
  | none ↦ (ok, put fd (some (record { fd = fd; events = events; callback = callback })) m)
]
specified (modify fd events) m = elim (m fd) [
  | none ↦ (err_invalid, m)
  | some s ↦ (ok, put fd (some (record s { events = events })) m)
]
specified (remove fd) m = elim (m fd) [ none ↦ (err_invalid, m) | some _ ↦ (ok, put fd none m) ]
