-- ===== src/EventLoop/Iocp/Silent.antt =====
-- The backend over completion ports and the callbacks of sockets.
use sockify.Prelude.{ℕ, zero, suc, ◌≡◌, refl, arith, false}
use sockify.EventLoop.Dispatch.{Loop, Callbacks, run_tick}
use sockify.EventLoop.Iocp.{Ports, Iocp, iocp_loop, iocp_run}

module _ {W : Type 0} (system : Ports W) (callbacks : Callbacks Iocp W)
    (call : ℕ → ℕ → ℕ → Loop Iocp W → Loop Iocp W) where
  -- The same tick with other callbacks of sockets.
  abbrev pub other : Callbacks Iocp W
  other = record callbacks { call = call }

  iocp_loop-Silent :
      (fuel : ℕ) (loop : Loop Iocp W)
      → iocp_loop system callbacks fuel loop ≡ iocp_loop system other fuel loop
  unfolding iocp_loop run_tick
  iocp_loop-Silent zero loop = refl
  iocp_loop-Silent (suc fuel) loop =
      let waited : Loop Iocp W = record loop { world = system.dequeue loop.world loop.impl.port } in
      ground (arith, iocp_loop-Silent fuel (run_tick callbacks waited))

  -- `iocp_run` with any callbacks of sockets. It runs as it does with any other callbacks of sockets: none of
  -- them is ever made, and only the tick and the world decide what happens and when it ends.
  pub iocp_run-Silent :
      (fuel : ℕ) (loop : Loop Iocp W)
      → iocp_run system callbacks fuel loop ≡ iocp_run system other fuel loop
  unfolding iocp_run
  iocp_run-Silent fuel loop = iocp_loop-Silent fuel (record loop { stopped = false })
