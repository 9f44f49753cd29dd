-- ===== src/EventLoop/Epoll.antt =====
-- src/event/ev_epoll.c: the backend over epoll. The system is the record `Kernel` of functions on the state of
-- the world. Each `struct epoll_source` has an address, which the kernel holds too. A source is freed
-- only when its entry leaves the table, so an address can be read while an entry of the table has it.
pub mod Registered
pub mod Watched
pub mod Batch
mod Tests
use sockify.Prelude.{
  ℕ, zero, suc, ◌+◌, ◌-◌, ◌*◌, Bool, true, false, Option, none, some, List, [], ◌∷◌, ◌++◌, bit_or,
  ltb, ◌==◌, if◌then◌else◌, length, get_or, set, take,
}
use sockify.EventLoop.{Source, no_source, find_from}
use sockify.EventLoop.Dispatch.{Loop, Callbacks, Ops, Run, returned, fault, out_of_fuel, run_tick}
use sockify.Session.Events.{event_read, event_write, event_error, has_event}
use sockify.Status.{Status, ok, err_invalid, err_nomem, err_sys, is_ok}

-- `struct epoll_source` and its address.
pub record Entry : Type 0 where
  pub pointer : ℕ
  pub source : Source

-- `struct epoll_impl` without `epfd`; `count` is the length of the list.
pub record Epoll : Type 0 where
  pub sources : List Entry
  pub capacity : ℕ

-- `EPOLLIN`, `EPOLLOUT`, `EPOLLERR` and `EPOLLHUP` of the system.
pub record EpollBits : Type 0 where
  pub epollin : ℕ
  pub epollout : ℕ
  pub epollerr : ℕ
  pub epollhup : ℕ

-- The calls of the system: a Boolean says that a call succeeded, `calloc` gives an address or null, and
-- `epoll_ctl` takes the socket, the mask and the address. `wait` gives pairs of an address and a mask,
-- `create` is `epoll_create1`, and `close` closes its descriptor.
pub record Kernel (W : Type 0) : Type 0 where
  pub bits : EpollBits
  pub realloc : W → Bool × W
  pub calloc : W → Option ℕ × W
  pub free : W → ℕ → W
  pub ctl_add : W → ℕ → ℕ → ℕ → Bool × W
  pub ctl_mod : W → ℕ → ℕ → ℕ → Bool × W
  pub ctl_del : W → ℕ → Bool × W
  pub wait : W → Option (List (ℕ × ℕ)) × W
  pub create : W → Bool × W
  pub close : W → W

-- `to_epoll_events`
unfoldable pub to_epoll_events : EpollBits → ℕ → ℕ
to_epoll_events bits events =
    bit_or (if has_event events event_read then bits.epollin else 0)
      (if has_event events event_write then bits.epollout else 0)

-- `from_epoll_events`
unfoldable pub from_epoll_events : EpollBits → ℕ → ℕ
from_epoll_events bits events =
    bit_or
      (bit_or (if has_event events (bit_or bits.epollin bits.epollhup) then event_read else 0)
        (if has_event events bits.epollout then event_write else 0))
      (if has_event events bits.epollerr then event_error else 0)

-- `epoll_find`; `none` is -1.
unfoldable pub epoll_find : Epoll → ℕ → Option ℕ
epoll_find impl fd = find_from (λ (e : Entry). e.source.fd) impl.sources fd 0

abbrev pub no_entry : Entry
no_entry = record { pointer = 0; source = no_source }

-- The source at an address, `none` when it was freed.
unfoldable pub deref : ℕ → List Entry → Option Source
deref p [] = none
deref p (e ∷ rest) = if e.pointer == p then some e.source else deref p rest

module _ {W : Type 0} (kernel : Kernel W) where
  -- `epoll_grow`
  unfoldable pub epoll_grow : W → Epoll → Status × Epoll × W
  epoll_grow w impl =
      let (grown, w1) = kernel.realloc w in
      let bigger = record impl {
        capacity = if impl.capacity == 0 then 64 else impl.capacity * 2;
      } in
      if ltb (length impl.sources) impl.capacity
      then (ok, impl, w)
      else if grown
      then (ok, bigger, w1)
      else (err_nomem, impl, w1)

  -- The end of `epoll_add_common`, from the result of `calloc` on.
  unfoldable pub epoll_register : W → Epoll → Option ℕ → Source → Status × Epoll × W
  epoll_register w impl none source = (err_nomem, impl, w)
  epoll_register w impl (some p) source =
      let (added, w1) = kernel.ctl_add w source.fd (to_epoll_events kernel.bits source.events) p in
      if added
      then (
        ok,
        record impl { sources = impl.sources ++ (record { pointer = p; source = source } ∷ []) },
        w1,
      )
      else (err_sys, impl, kernel.free w1 p)

  -- `epoll_add_common`
  unfoldable pub epoll_add : W → Epoll → ℕ → ℕ → ℕ → Status × Epoll × W
  epoll_add w impl fd events callback =
      let source : Source = record { fd = fd; events = events; callback = callback } in
      let (rc, grown, w1) = epoll_grow w impl in
      let (pointer, w2) = kernel.calloc w1 in
      elim (epoll_find impl fd) [
        | some _ ↦ (err_invalid, impl, w)
        | none ↦ if is_ok rc then epoll_register w2 grown pointer source else (rc, grown, w1)
      ]

  -- `epoll_modify_common`: the source has its new events, also when `epoll_ctl` fails.
  unfoldable pub epoll_modify : W → Epoll → ℕ → ℕ → Status × Epoll × W
  epoll_modify w impl fd events = elim (epoll_find impl fd) [
    | none ↦ (err_invalid, impl, w)
    | some i ↦
        let e = get_or impl.sources i no_entry in
        let changed = record e { source = record e.source { events = events } } in
        let (done, w1) = kernel.ctl_mod w fd (to_epoll_events kernel.bits events) e.pointer in
        (if done then ok else err_sys, record impl { sources = set impl.sources i changed }, w1)
  ]

  -- `epoll_remove_common`: the last source takes the place of the one that goes.
  unfoldable pub epoll_remove : W → Epoll → ℕ → Status × Epoll × W
  epoll_remove w impl fd =
      let count = length impl.sources in
      elim (epoll_find impl fd) [
        | none ↦ (err_invalid, impl, w)
        | some i ↦
            let moved =
              if ltb (i + 1) count
              then set impl.sources i (get_or impl.sources (count - 1) no_entry)
              else impl.sources in
            (
              ok,
              record impl { sources = take (count - 1) moved },
              kernel.free (kernel.ctl_del w fd).1 (get_or impl.sources i no_entry).pointer,
            )
      ]

  module _ (callbacks : Callbacks Epoll W) where
    -- The loop of `epoll_run_common` over the events of one `epoll_wait`. The callback may add, change and
    -- remove sources. `none` is a read of a source that was freed.
    unfoldable pub epoll_dispatch : List (ℕ × ℕ) → Loop Epoll W → Option (Loop Epoll W)
    epoll_dispatch [] loop = some loop
    epoll_dispatch ((p, mask) ∷ rest) loop = elim (deref p loop.impl.sources) [
      | none ↦ none
      | some s ↦
          let after = callbacks.call s.callback s.fd (from_epoll_events kernel.bits mask) loop in
          elim after.stopped [ true ↦ some after | false ↦ epoll_dispatch rest after ]
    ]

    -- The `while` loop of `epoll_run_common`.
    unfoldable pub epoll_loop : ℕ → Loop Epoll W → Run (Loop Epoll W)
    epoll_loop zero loop = out_of_fuel
    epoll_loop (suc fuel) loop =
        let (events, w1) = kernel.wait loop.world in
        let waited = record loop { world = w1 } in
        elim loop.stopped [
          | true ↦ returned ok loop
          | false ↦ elim events [
            | none ↦ returned err_sys waited
            | some batch ↦ elim (epoll_dispatch batch waited) [
              | none ↦ fault
              | some after ↦ epoll_loop fuel (run_tick callbacks after)
            ]
          ]
        ]

    -- `epoll_run_common`
    unfoldable pub epoll_run : ℕ → Loop Epoll W → Run (Loop Epoll W)
    epoll_run fuel loop = epoll_loop fuel (record loop { stopped = false })

  -- `sockify_ev_epoll_create`; `none` is a null pointer.
  unfoldable pub epoll_create : W → Option (Loop Epoll W) × W
  epoll_create w =
      let (loop, w1) = kernel.calloc w in
      let (impl, w2) = kernel.calloc w1 in
      let (created, w3) = kernel.create w2 in
      let fresh : Loop Epoll W = record {
        impl = record { sources = []; capacity = 0 };
        stopped = false;
        tick = none;
        world = w3;
      } in
      elim loop [
        | none ↦ (none, w1)
        | some l ↦ elim impl [
          | none ↦ (none, kernel.free w2 l)
          | some i ↦ if created then (some fresh, w3) else (none, kernel.free (kernel.free w3 i) l)
        ]
      ]

  -- The loop of `epoll_destroy` that frees the sources.
  unfoldable pub epoll_free_sources : List Entry → W → W
  epoll_free_sources [] w = w
  epoll_free_sources (e ∷ rest) w = epoll_free_sources rest (kernel.free w e.pointer)

  -- `epoll_destroy` up to the memory of the loop itself.
  unfoldable pub epoll_destroy : Loop Epoll W → W
  epoll_destroy loop = kernel.close (epoll_free_sources loop.impl.sources loop.world)

  -- The result of an operation, put back in the loop.
  abbrev put_back : Loop Epoll W → Status × Epoll × W → Status × Loop Epoll W
  put_back loop (rc, impl, w) = (rc, record loop { impl = impl; world = w })

  -- `epoll_ops`, with fuel for the run.
  unfoldable pub epoll_ops : Callbacks Epoll W → ℕ → Ops Epoll W
  epoll_ops callbacks fuel = record {
    add = λ loop fd events callback.
        put_back loop (epoll_add loop.world loop.impl fd events callback);
    modify = λ loop fd events. put_back loop (epoll_modify loop.world loop.impl fd events);
    remove = λ loop fd. put_back loop (epoll_remove loop.world loop.impl fd);
    run = λ loop. epoll_run callbacks fuel loop;
    destroy = λ loop. epoll_destroy loop;
  }
