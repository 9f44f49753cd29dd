-- ===== src/EventLoop/Iocp.antt =====
-- src/event/ev_iocp.c: the backend over completion ports, which knows no callbacks. The system is the record
-- `Ports` of functions on the state of the world.
pub mod Silent
use sockify.Prelude.{ℕ, zero, suc, Bool, true, false, ◌&&◌, Option, none, some, if◌then◌else◌}
use sockify.EventLoop.Dispatch.{Loop, Callbacks, Ops, Run, returned, out_of_fuel, run_tick}
use sockify.Status.{Status, ok, err_sys}

-- `CreateIoCompletionPort` for a socket, whether it gave a handle, and `GetQueuedCompletionStatus`, whose results
-- the code drops; a new port, and `CloseHandle`.
pub record Ports (W : Type 0) : Type 0 where
  pub associate : W → ℕ → ℕ → Bool × W
  pub dequeue : W → ℕ → W
  pub create : W → Option ℕ × W
  pub close : W → ℕ → W

-- `struct iocp_impl`
pub record Iocp : Type 0 where
  pub port : ℕ

module _ {W : Type 0} (system : Ports W) where
  -- `iocp_add`
  unfoldable pub iocp_add : Loop Iocp W → ℕ → ℕ → ℕ → Status × Loop Iocp W
  iocp_add loop fd events callback =
      let (associated, w1) = system.associate loop.world fd loop.impl.port in
      (if associated then ok else err_sys, record loop { world = w1 })

  -- `iocp_modify`
  unfoldable pub iocp_modify : Loop Iocp W → ℕ → ℕ → Status × Loop Iocp W
  iocp_modify loop fd events = (ok, loop)

  -- `iocp_remove`
  unfoldable pub iocp_remove : Loop Iocp W → ℕ → Status × Loop Iocp W
  iocp_remove loop fd = (ok, loop)

  -- `sockify_ev_iocp_create`; the Booleans say whether the two calls of `calloc` succeed, and `none` is a null
  -- pointer.
  unfoldable pub iocp_create : W → Bool → Bool → Option (Loop Iocp W) × W
  iocp_create w first second =
      let (port, w1) = system.create w in
      if first && second
      then elim port [
        | none ↦ (none, w1)
        | some p ↦ (
          some (record { impl = record { port = p }; stopped = false; tick = none; world = w1 }),
          w1,
        )
      ]
      else (none, w)

  -- `iocp_destroy` up to the memory.
  unfoldable pub iocp_destroy : Loop Iocp W → W
  iocp_destroy loop = system.close loop.world loop.impl.port

  module _ (callbacks : Callbacks Iocp W) where
    -- The `while` loop of `iocp_run`.
    unfoldable pub iocp_loop : ℕ → Loop Iocp W → Run (Loop Iocp W)
    iocp_loop zero loop = out_of_fuel
    iocp_loop (suc fuel) loop = elim loop.stopped [
      | true ↦ returned ok loop
      | false ↦
          let waited = record loop { world = system.dequeue loop.world loop.impl.port } in
          iocp_loop fuel (run_tick callbacks waited)
    ]

    -- `iocp_run`
    unfoldable pub iocp_run : ℕ → Loop Iocp W → Run (Loop Iocp W)
    iocp_run fuel loop = iocp_loop fuel (record loop { stopped = false })

    -- `iocp_ops`, with fuel for the run.
    unfoldable pub iocp_ops : ℕ → Ops Iocp W
    iocp_ops fuel = record {
      add = λ loop fd events callback. iocp_add loop fd events callback;
      modify = λ loop fd events. iocp_modify loop fd events;
      remove = λ loop fd. iocp_remove loop fd;
      run = λ loop. iocp_run fuel loop;
      destroy = λ loop. iocp_destroy loop;
    }
