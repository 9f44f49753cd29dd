-- ===== src/EventLoop/Epoll/Tests.antt =====
-- Two sockets on epoll, a client's and its target's; the client's callback closes both, as `session_close` does.
use sockify.Prelude.{
  ℕ, ◌≡◌, refl, true, false, Option, none, some, [], ◌∷◌, ◌==◌, if◌then◌else◌, arith,
}
use sockify.EventLoop.{find_from}
use sockify.EventLoop.Dispatch.{Loop, Callbacks, fault}
use sockify.EventLoop.Epoll.{
  Entry, Epoll, Kernel, deref, epoll_dispatch, epoll_find, epoll_remove, epoll_run,
  from_epoll_events,
}
use sockify.EventLoop.Epoll.Batch.{epoll_run-fault}
use sockify.EventLoop.Epoll.Registered.{epoll_apply, epoll_apply-Refines}
use sockify.EventLoop.Epoll.Watched.{IsSound, Watches, Refines, shown}
use sockify.EventLoop.Epoll.Watched.{IsSound, Watches, Refines, shown}
use sockify.EventLoop.Entries.{entry}
use sockify.EventLoop.Spec.{remove}
use sockify.EventLoop.Table.{lookup}

-- The world is what the kernel watches.
abbrev World : Type 0
World = ℕ → Option (ℕ × ℕ)

abbrev kernel : Kernel World
kernel = record {
  bits = record { epollin = 1; epollout = 4; epollerr = 8; epollhup = 16 };
  realloc = λ w. (true, w);
  calloc = λ w. (some 300, w);
  free = λ w p. w;
  ctl_add = λ w fd mask p. (true, λ g. if fd == g then some (p, mask) else w g);
  ctl_mod = λ w fd mask p. (true, λ g. if fd == g then some (p, mask) else w g);
  ctl_del = λ w fd. (true, λ g. if fd == g then none else w g);
  wait = λ w. (some ((100, 1) ∷ (200, 1) ∷ []), w);
  create = λ w. (true, w);
  close = λ w. w;
}

kernel-Watches : Watches kernel (λ w. w)
kernel-Watches = record {
  realloc = λ w g. refl;
  calloc = λ w g. refl;
  free = λ w p g. refl;
  ctl_add = λ w fd mask p g. refl;
  ctl_mod = λ w fd mask p g. refl;
  ctl_del = λ w fd g. refl;
  ctl_del_fails = λ w fd e. absurd (ground (arith, e));
}

abbrev client : Entry
client = record { pointer = 100; source = record { fd = 3; events = 1; callback = 0 } }

abbrev target : Entry
target = record { pointer = 200; source = record { fd = 5; events = 3; callback = 1 } }

abbrev table : Epoll
table = record { sources = client ∷ target ∷ []; capacity = 64 }

abbrev watching : World
watching g = shown kernel.bits (entry g table.sources)

table-IsSound : IsSound table
unfolding lookup
table-IsSound = record { distinct = (refl, (refl, tt)); fits = omega arith }

epoll_apply-Refines_example :
    Refines kernel
      (λ w. w)
      kernel-Watches
      (remove 3)
      table
      (epoll_apply kernel (λ w. w) kernel-Watches (remove 3) watching table)
epoll_apply-Refines_example =
    epoll_apply-Refines kernel (λ w. w) kernel-Watches (remove 3) watching table table-IsSound
      (λ g. refl)

abbrev start : Loop Epoll World
start = record { impl = table; stopped = false; tick = none; world = watching }

-- What `session_close` does to the loop.
abbrev closing : Callbacks Epoll World
closing = record {
  call = λ callback fd events loop.
      let (rc, first, w1) = epoll_remove kernel loop.world loop.impl 3 in
      let (rc', both, w2) = epoll_remove kernel w1 first 5 in
      record loop { impl = both; world = w2 };
  on_tick = λ t loop. loop;
}

abbrev closed : Loop Epoll World
closed = closing.call 0 3 1 start

first_call :
    epoll_dispatch kernel closing
      ((100, 1) ∷ [])
      (record start { stopped = false; world = watching })
    ≡ some closed
unfolding epoll_dispatch deref from_epoll_events
first_call = refl

gone : deref 200 closed.impl.sources ≡ none
unfolding deref epoll_remove epoll_find find_from
gone = refl

epoll_run-fault_example : epoll_run kernel closing 1 start ≡ fault
epoll_run-fault_example =
    epoll_run-fault kernel closing 0 start closed watching ((100, 1) ∷ []) [] 200 1 refl first_call
      refl gone
