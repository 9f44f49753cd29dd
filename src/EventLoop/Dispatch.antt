-- ===== src/EventLoop/Dispatch.antt =====
-- src/event/event_loop.c and src/event/event_internal.h: the event loop in front of its backend. A null
-- loop or callback is `none`. A callback with its `user_data`, and one for the tick, is a number.
use sockify.Prelude.{ℕ, Bool, true, Option, none, some}
use sockify.Status.{Status, err_invalid}

-- `struct sockify_event_loop`, with the state `impl` of its backend and the world.
pub record Loop (I W : Type 0) : Type 0 where
  pub impl : I
  pub stopped : Bool
  pub tick : Option ℕ
  pub world : W

-- What the callbacks do, given a callback and, but for the tick, a socket and the events on it.
pub record Callbacks (I W : Type 0) : Type 0 where
  pub call : ℕ → ℕ → ℕ → Loop I W → Loop I W
  pub on_tick : ℕ → Loop I W → Loop I W

-- How `run` ended. A fault is a read of memory that was freed.
pub data Run (A : Type 0) : Type 0 where
  returned : Status → A → Run A
  fault : Run A
  out_of_fuel : Run A

-- `struct sockify_event_loop_ops`
pub record Ops (I W : Type 0) : Type 0 where
  pub add : Loop I W → ℕ → ℕ → ℕ → Status × Loop I W
  pub modify : Loop I W → ℕ → ℕ → Status × Loop I W
  pub remove : Loop I W → ℕ → Status × Loop I W
  pub run : Loop I W → Run (Loop I W)
  pub destroy : Loop I W → W

-- `if (loop->tick_callback != 0) loop->tick_callback(loop, loop->tick_user_data);`
unfoldable pub run_tick : {I W : Type 0} → Callbacks I W → Loop I W → Loop I W
run_tick callbacks loop = elim loop.tick [ none ↦ loop | some t ↦ callbacks.on_tick t loop ]

-- `stop` of every backend: `poll_stop`, `epoll_stop_common` and `kqueue_stop_common`.
unfoldable pub stop : {I W : Type 0} → Loop I W → Loop I W
stop loop = record loop { stopped = true }

module _ {I W : Type 0} (ops : Ops I W) where
  -- `sockify_event_loop_add`
  unfoldable pub loop_add : Option (Loop I W) → ℕ → ℕ → Option ℕ → Status × Option (Loop I W)
  loop_add none fd events callback = (err_invalid, none)
  loop_add (some loop) fd events none = (err_invalid, some loop)
  loop_add (some loop) fd events (some callback) =
      let (rc, after) = ops.add loop fd events callback in (rc, some after)

  -- `sockify_event_loop_modify`
  unfoldable pub loop_modify : Option (Loop I W) → ℕ → ℕ → Status × Option (Loop I W)
  loop_modify none fd events = (err_invalid, none)
  loop_modify (some loop) fd events =
      let (rc, after) = ops.modify loop fd events in (rc, some after)

  -- `sockify_event_loop_remove`
  unfoldable pub loop_remove : Option (Loop I W) → ℕ → Status × Option (Loop I W)
  loop_remove none fd = (err_invalid, none)
  loop_remove (some loop) fd = let (rc, after) = ops.remove loop fd in (rc, some after)

  -- `sockify_event_loop_run`
  unfoldable pub loop_run : Option (Loop I W) → Run (Option (Loop I W))
  loop_run none = returned err_invalid none
  loop_run (some loop) = elim (ops.run loop) [
    | returned rc after ↦ returned rc (some after)
    | fault ↦ fault
    | out_of_fuel ↦ out_of_fuel
  ]

  -- `sockify_event_loop_destroy`; nothing is called for a null loop.
  unfoldable pub loop_destroy : Option (Loop I W) → Option W
  loop_destroy none = none
  loop_destroy (some loop) = some (ops.destroy loop)

-- `sockify_event_loop_stop`
unfoldable pub loop_stop : {I W : Type 0} → Option (Loop I W) → Option (Loop I W)
unfolding stop
loop_stop none = none
loop_stop (some loop) = some (stop loop)

-- `sockify_event_loop_set_tick`
unfoldable pub loop_set_tick : {I W : Type 0} → Option (Loop I W) → Option ℕ → Option (Loop I W)
loop_set_tick none callback = none
loop_set_tick (some loop) callback = some (record loop { tick = callback })
