-- ===== src/EventLoop/Kqueue/Tests.antt =====
-- Two sockets on kqueue, the first watched for reads, the second for reads and writes.
use sockify.Prelude.{refl, arith, some, true, [], ◌∷◌}
use sockify.EventLoop.Entries.{entry}
use sockify.EventLoop.Kqueue.{Kqueue, Kernel}
use sockify.EventLoop.Kqueue.Filters.{Watched, Watches, applied}
use sockify.EventLoop.Kqueue.Registered.{kqueue_apply, kqueue_apply-Refines}
use sockify.EventLoop.Kqueue.Watched.{IsSound, Refines, shown}
use sockify.EventLoop.Kqueue.Watched.{IsSound, Refines, shown}
use sockify.EventLoop.Spec.{modify}
use sockify.EventLoop.Table.{lookup}

-- The world is what the kernel watches.
abbrev kernel : Kernel Watched
kernel = record {
  realloc = λ w. (true, w);
  calloc = λ w. (some 300, w);
  free = λ w p. w;
  kevent = λ w cs. (true, applied cs w);
  wait = λ w. (some [], w);
  create = λ w. (true, w);
  close = λ w. w;
}

kernel-Watches : Watches kernel (λ w. w)
kernel-Watches = record {
  realloc = λ w f g. refl;
  calloc = λ w f g. refl;
  free = λ w p f g. refl;
  kevent = λ w cs f g e. refl;
  delete = λ w fd p filter f g. refl;
}

abbrev table : Kqueue
table = record {
  sources =
      record { pointer = 100; source = record { fd = 3; events = 1; callback = 0 } }
      ∷ record { pointer = 200; source = record { fd = 5; events = 3; callback = 1 } }
      ∷ [];
  capacity = 64;
}

abbrev watching : Watched
watching f g = shown f (entry g table.sources)

table-IsSound : IsSound table
unfolding lookup
table-IsSound = record { distinct = (refl, (refl, tt)); fits = omega arith }

kqueue_apply-Refines_example :
    Refines kernel
      (λ w. w)
      kernel-Watches
      (modify 5 1)
      table
      (kqueue_apply kernel (λ w. w) kernel-Watches (modify 5 1) watching table)
kqueue_apply-Refines_example =
    kqueue_apply-Refines kernel (λ w. w) kernel-Watches (modify 5 1) watching table table-IsSound
      (λ f g. refl)
