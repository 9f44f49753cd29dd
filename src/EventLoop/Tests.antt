-- ===== src/EventLoop/Tests.antt =====
-- A table of two sockets that loses the first one.
use sockify.Prelude.{true, refl, arith, [], ◌∷◌}
use sockify.EventLoop.{Poll}
use sockify.EventLoop.Refine.{IsTable, Agrees, OutOfMemory, apply, view, apply-Agrees}
use sockify.EventLoop.Spec.{remove, specified}
use sockify.EventLoop.Table.{lookup}

abbrev two_sources : Poll
two_sources = record {
  sources =
      record { fd = 3; events = 1; callback = 0 }
      ∷ record { fd = 5; events = 3; callback = 1 }
      ∷ [];
  capacity = 64;
}

two_sources-IsTable : IsTable two_sources
unfolding lookup
two_sources-IsTable = record { distinct = (refl, (refl, tt)); fits = omega arith }

apply-Agrees_example :
    Agrees
      (OutOfMemory true true (remove 3) two_sources)
      two_sources
      (apply true true (remove 3) two_sources)
      (specified (remove 3) (view two_sources))
    × IsTable (apply true true (remove 3) two_sources).1
apply-Agrees_example = apply-Agrees true true (remove 3) two_sources two_sources-IsTable
