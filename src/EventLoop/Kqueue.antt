-- ===== src/EventLoop/Kqueue.antt =====
-- src/event/ev_kqueue.c: the backend over kqueue, which watches reads and writes of a socket apart. A source
-- has an address as in the epoll backend, and is freed when its entry leaves the table.
pub mod Filters
pub mod Registered
pub mod Watched
mod Tests
use sockify.Prelude.{
  ℕ, zero, suc, ◌+◌, ◌-◌, ◌*◌, Bool, true, false, not, ◌&&◌, Option, none, some, List, [], ◌∷◌,
  ◌++◌, bit_or, ltb, ◌==◌, if◌then◌else◌, length, get_or, set, take,
}
use sockify.EventLoop.{Source, find_from}
use sockify.EventLoop.Dispatch.{Loop, Callbacks, Ops, Run, returned, fault, out_of_fuel, run_tick}
use sockify.EventLoop.Epoll.{Entry, no_entry, deref}
use sockify.Session.Events.{event_read, event_write, event_error, has_event}
use sockify.Status.{Status, ok, err_invalid, err_nomem, err_sys, is_ok}

-- `struct kqueue_impl` without `kq`; a `struct kqueue_source` and its address are an `Entry`.
pub record Kqueue : Type 0 where
  pub sources : List Entry
  pub capacity : ℕ

-- `EVFILT_READ`, `EVFILT_WRITE` and the other filters of the system.
pub data Filter : Type 0 where
  evfilt_read : Filter
  evfilt_write : Filter
  evfilt_other : Filter

-- A `struct kevent` of a change: with `add` its flags are `EV_ADD | EV_ENABLE`, else `EV_DELETE`.
pub record Change : Type 0 where
  pub fd : ℕ
  pub filter : Filter
  pub add : Bool
  pub pointer : ℕ

-- A `struct kevent` that the system reports: `udata`, the filter, and whether `EV_ERROR` is set.
pub record Report : Type 0 where
  pub udata : Option ℕ
  pub filter : Filter
  pub error : Bool

-- The calls of the system; a Boolean says that a call succeeded. `create` is `kqueue`, and `close` closes its
-- descriptor.
pub record Kernel (W : Type 0) : Type 0 where
  pub realloc : W → Bool × W
  pub calloc : W → Option ℕ × W
  pub free : W → ℕ → W
  pub kevent : W → List Change → Bool × W
  pub wait : W → Option (List Report) × W
  pub create : W → Bool × W
  pub close : W → W

-- `kqueue_find`; `none` is -1.
unfoldable pub kqueue_find : Kqueue → ℕ → Option ℕ
kqueue_find impl fd = find_from (λ (e : Entry). e.source.fd) impl.sources fd 0

-- `set_kevent`
abbrev pub set_kevent : Entry → Filter → Bool → Change
set_kevent e filter add = record {
  fd = e.source.fd;
  filter = filter;
  add = add;
  pointer = e.pointer;
}

-- The change of one filter in `update_filters`, from whether it was wanted and whether it is.
unfoldable pub filter_change : Entry → Filter → Bool → Bool → List Change
filter_change e filter old new =
    if new && not old
    then set_kevent e filter true ∷ []
    else if not new && old
    then set_kevent e filter false ∷ []
    else []

-- The array `changes` of `update_filters`.
unfoldable pub changes_of : Entry → ℕ → ℕ → List Change
changes_of e old new =
    filter_change e evfilt_read (has_event old event_read) (has_event new event_read)
    ++ filter_change e evfilt_write (has_event old event_write) (has_event new event_write)

-- The events that `kqueue_run_common` makes of a report.
unfoldable pub event_mask : Report → ℕ
event_mask report =
    let filtered : ℕ = elim report.filter [
      | evfilt_read ↦ event_read
      | evfilt_write ↦ event_write
      | evfilt_other ↦ 0
    ] in
    bit_or filtered (if report.error then event_error else 0)

module _ {W : Type 0} (kernel : Kernel W) where
  -- `update_filters`
  unfoldable pub update_filters : W → Entry → ℕ → ℕ → Status × W
  update_filters w e old new = elim (changes_of e old new) [
    | [] ↦ (ok, w)
    | c ∷ cs ↦ let (done, w1) = kernel.kevent w (c ∷ cs) in (if done then ok else err_sys, w1)
  ]

  -- `kqueue_grow`
  unfoldable pub kqueue_grow : W → Kqueue → Status × Kqueue × W
  kqueue_grow w impl =
      let (grown, w1) = kernel.realloc w in
      let bigger = record impl {
        capacity = if impl.capacity == 0 then 64 else impl.capacity * 2;
      } in
      if ltb (length impl.sources) impl.capacity
      then (ok, impl, w)
      else if grown
      then (ok, bigger, w1)
      else (err_nomem, impl, w1)

  -- The end of `kqueue_add_common`, from the result of `calloc` on.
  unfoldable pub kqueue_register : W → Kqueue → Option ℕ → Source → Status × Kqueue × W
  kqueue_register w impl none source = (err_nomem, impl, w)
  kqueue_register w impl (some p) source =
      let e : Entry = record { pointer = p; source = source } in
      let (rc, w1) = update_filters w e 0 source.events in
      if is_ok rc
      then (ok, record impl { sources = impl.sources ++ (e ∷ []) }, w1)
      else (rc, impl, kernel.free w1 p)

  -- `kqueue_add_common`
  unfoldable pub kqueue_add : W → Kqueue → ℕ → ℕ → ℕ → Status × Kqueue × W
  kqueue_add w impl fd events callback =
      let source : Source = record { fd = fd; events = events; callback = callback } in
      let (rc, grown, w1) = kqueue_grow w impl in
      let (pointer, w2) = kernel.calloc w1 in
      elim (kqueue_find impl fd) [
        | some _ ↦ (err_invalid, impl, w)
        | none ↦ if is_ok rc then kqueue_register w2 grown pointer source else (rc, grown, w1)
      ]

  -- `kqueue_modify_common`
  unfoldable pub kqueue_modify : W → Kqueue → ℕ → ℕ → Status × Kqueue × W
  kqueue_modify w impl fd events = elim (kqueue_find impl fd) [
    | none ↦ (err_invalid, impl, w)
    | some i ↦
        let e = get_or impl.sources i no_entry in
        let changed = record e { source = record e.source { events = events } } in
        let (rc, w1) = update_filters w e e.source.events events in
        if is_ok rc
        then (ok, record impl { sources = set impl.sources i changed }, w1)
        else (rc, impl, w1)
  ]

  -- `if ((source->events & bit) != 0)` with its call of `kevent` in `kqueue_remove_common`.
  unfoldable pub delete_filter : W → Entry → Filter → ℕ → W
  delete_filter w e filter bit =
      if has_event e.source.events bit
      then (kernel.kevent w (set_kevent e filter false ∷ [])).1
      else w

  -- `kqueue_remove_common`: the last source takes the place of the one that goes.
  unfoldable pub kqueue_remove : W → Kqueue → ℕ → Status × Kqueue × W
  kqueue_remove w impl fd =
      let count = length impl.sources in
      elim (kqueue_find impl fd) [
        | none ↦ (err_invalid, impl, w)
        | some i ↦
            let e = get_or impl.sources i no_entry in
            let w1 = delete_filter w e evfilt_read event_read in
            let w2 = delete_filter w1 e evfilt_write event_write in
            let moved =
              if ltb (i + 1) count
              then set impl.sources i (get_or impl.sources (count - 1) no_entry)
              else impl.sources in
            (ok, record impl { sources = take (count - 1) moved }, kernel.free w2 e.pointer)
      ]

  module _ (callbacks : Callbacks Kqueue W) where
    -- The loop of `kqueue_run_common` over the reports of one `kevent`. `none` is a read of a source that was
    -- freed.
    unfoldable pub kqueue_dispatch : List Report → Loop Kqueue W → Option (Loop Kqueue W)
    kqueue_dispatch [] loop = some loop
    kqueue_dispatch (report ∷ rest) loop = elim report.udata [
      | none ↦ kqueue_dispatch rest loop
      | some p ↦ elim (deref p loop.impl.sources) [
        | none ↦ none
        | some s ↦
            let after = callbacks.call s.callback s.fd (event_mask report) loop in
            elim after.stopped [ true ↦ some after | false ↦ kqueue_dispatch rest after ]
      ]
    ]

    -- The `while` loop of `kqueue_run_common`.
    unfoldable pub kqueue_loop : ℕ → Loop Kqueue W → Run (Loop Kqueue W)
    kqueue_loop zero loop = out_of_fuel
    kqueue_loop (suc fuel) loop =
        let (reports, w1) = kernel.wait loop.world in
        let waited = record loop { world = w1 } in
        elim loop.stopped [
          | true ↦ returned ok loop
          | false ↦ elim reports [
            | none ↦ returned err_sys waited
            | some batch ↦ elim (kqueue_dispatch batch waited) [
              | none ↦ fault
              | some after ↦ kqueue_loop fuel (run_tick callbacks after)
            ]
          ]
        ]

    -- `kqueue_run_common`
    unfoldable pub kqueue_run : ℕ → Loop Kqueue W → Run (Loop Kqueue W)
    kqueue_run fuel loop = kqueue_loop fuel (record loop { stopped = false })

  -- `sockify_ev_kqueue_create`; `none` is a null pointer.
  unfoldable pub kqueue_create : W → Option (Loop Kqueue W) × W
  kqueue_create w =
      let (loop, w1) = kernel.calloc w in
      let (impl, w2) = kernel.calloc w1 in
      let (created, w3) = kernel.create w2 in
      let fresh : Loop Kqueue W = record {
        impl = record { sources = []; capacity = 0 };
        stopped = false;
        tick = none;
        world = w3;
      } in
      elim loop [
        | none ↦ (none, w1)
        | some l ↦ elim impl [
          | none ↦ (none, kernel.free w2 l)
          | some i ↦ if created then (some fresh, w3) else (none, kernel.free (kernel.free w3 i) l)
        ]
      ]

  -- The loop of `kqueue_destroy` that frees the sources.
  unfoldable pub kqueue_free_sources : List Entry → W → W
  kqueue_free_sources [] w = w
  kqueue_free_sources (e ∷ rest) w = kqueue_free_sources rest (kernel.free w e.pointer)

  -- `kqueue_destroy` up to the memory of the loop itself.
  unfoldable pub kqueue_destroy : Loop Kqueue W → W
  kqueue_destroy loop = kernel.close (kqueue_free_sources loop.impl.sources loop.world)

  -- The result of an operation, put back in the loop.
  abbrev put_back : Loop Kqueue W → Status × Kqueue × W → Status × Loop Kqueue W
  put_back loop (rc, impl, w) = (rc, record loop { impl = impl; world = w })

  -- `kqueue_ops`, with fuel for the run.
  unfoldable pub kqueue_ops : Callbacks Kqueue W → ℕ → Ops Kqueue W
  kqueue_ops callbacks fuel = record {
    add = λ loop fd events callback.
        put_back loop (kqueue_add loop.world loop.impl fd events callback);
    modify = λ loop fd events. put_back loop (kqueue_modify loop.world loop.impl fd events);
    remove = λ loop fd. put_back loop (kqueue_remove loop.world loop.impl fd);
    run = λ loop. kqueue_run callbacks fuel loop;
    destroy = λ loop. kqueue_destroy loop;
  }
