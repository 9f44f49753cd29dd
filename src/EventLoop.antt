-- ===== src/EventLoop.antt =====
-- src/event/ev_poll.c: the table of sources of the poll backend, and its event masks. A source's callback
-- and its `user_data` are a number; `impl->sources[0..count)` is a list.
pub mod Dispatch
pub mod Entries
pub mod Epoll
pub mod Iocp
pub mod Kqueue
pub mod PollRun
pub mod Spec
pub mod Table
pub mod Refine
mod Tests
use sockify.Prelude.{
  ℕ, zero, suc, ◌+◌, ◌-◌, ◌*◌, Bool, true, false, not, ◌&&◌, Option, none, some, List, [], ◌∷◌,
  ◌++◌, bit_and, bit_or, ltb, ◌==◌, ◌!=◌, if◌then◌else◌, length, get_or, set, take,
}
use sockify.Session.Events.{event_read, event_write, event_error, has_event}
use sockify.Status.{Status, ok, err_invalid, err_nomem, is_ok}

-- `struct poll_source`
pub record Source : Type 0 where
  pub fd : ℕ
  pub events : ℕ
  pub callback : ℕ

-- `struct poll_impl`; `count` is the length of the list.
pub record Poll : Type 0 where
  pub sources : List Source
  pub capacity : ℕ

-- `POLLIN`, `POLLOUT`, `POLLERR`, `POLLHUP` and `POLLNVAL` of the system.
pub record PollBits : Type 0 where
  pub pollin : ℕ
  pub pollout : ℕ
  pub pollerr : ℕ
  pub pollhup : ℕ
  pub pollnval : ℕ

-- `to_poll_events`
unfoldable pub to_poll_events : PollBits → ℕ → ℕ
to_poll_events bits events =
    bit_or (if has_event events event_read then bits.pollin else 0)
      (if has_event events event_write then bits.pollout else 0)

-- `from_poll_events`
unfoldable pub from_poll_events : PollBits → ℕ → ℕ
from_poll_events bits events =
    bit_or
      (bit_or (if has_event events (bit_or bits.pollin bits.pollhup) then event_read else 0)
        (if has_event events bits.pollout then event_write else 0))
      (if has_event events (bit_or bits.pollerr bits.pollnval) then event_error else 0)

-- The search of `poll_find` from index `i` on; `none` is -1.
unfoldable pub find_from : {A : Type 0} → (A → ℕ) → List A → ℕ → ℕ → Option ℕ
find_from fd_of [] fd i = none
find_from fd_of (s ∷ rest) fd i =
    let later = find_from fd_of rest fd (i + 1) in if fd_of s == fd then some i else later

-- `poll_find`
unfoldable pub poll_find : Poll → ℕ → Option ℕ
poll_find impl fd = find_from (λ (s : Source). s.fd) impl.sources fd 0

-- `poll_grow`; the two Booleans say whether the calls of `realloc` succeed.
unfoldable pub poll_grow : Poll → Bool → Bool → Status × Poll
poll_grow impl first second =
    if ltb (length impl.sources) impl.capacity
    then (ok, impl)
    else if not (first && second)
    then (err_nomem, impl)
    else (ok, record impl { capacity = if impl.capacity == 0 then 64 else impl.capacity * 2 })

-- `poll_add`
unfoldable pub poll_add : Poll → Bool → Bool → ℕ → ℕ → ℕ → Status × Poll
poll_add impl first second fd events callback =
    let (rc, grown) = poll_grow impl first second in
    let source : Source = record { fd = fd; events = events; callback = callback } in
    elim (poll_find impl fd) [
      | some _ ↦ (err_invalid, impl)
      | none ↦ elim (is_ok rc) [
        | false ↦ (rc, grown)
        | true ↦ (ok, record grown { sources = grown.sources ++ (source ∷ []) })
      ]
    ]

abbrev no_source : Source
no_source = record { fd = 0; events = 0; callback = 0 }

-- `poll_modify`
unfoldable pub poll_modify : Poll → ℕ → ℕ → Status × Poll
poll_modify impl fd events = elim (poll_find impl fd) [
  | none ↦ (err_invalid, impl)
  | some i ↦
      let source = get_or impl.sources i no_source in
      (ok, record impl { sources = set impl.sources i (record source { events = events }) })
]

-- `poll_remove`: the last source takes the place of the one that goes.
unfoldable pub poll_remove : Poll → ℕ → Status × Poll
poll_remove impl fd =
    let count = length impl.sources in
    elim (poll_find impl fd) [
      | none ↦ (err_invalid, impl)
      | some i ↦
          let moved =
            if ltb (i + 1) count
            then set impl.sources i (get_or impl.sources (count - 1) no_source)
            else impl.sources in
          (ok, record impl { sources = take (count - 1) moved })
    ]
