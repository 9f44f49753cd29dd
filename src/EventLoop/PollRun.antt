-- ===== src/EventLoop/PollRun.antt =====
-- src/event/ev_poll.c: the run of the poll backend. The table of sources is that of EventLoop; an entry of the
-- array `pfds` is a socket, the events waited for and the events that came.
mod Tests
use sockify.Prelude.{
  ℕ, zero, suc, ◌+◌, Bool, true, false, ◌&&◌, Option, none, some, List, [], ◌∷◌, ◌!=◌, ltb, ◌==◌,
  if◌then◌else◌, length, get_or, drop,
}
use sockify.EventLoop.{
  Source, Poll, PollBits, no_source, to_poll_events, from_poll_events, poll_add, poll_modify,
  poll_remove,
}
use sockify.EventLoop.Dispatch.{Loop, Callbacks, Ops, Run, returned, fault, out_of_fuel, run_tick}
use sockify.Status.{Status, ok, err_sys}

-- `fd` and `events` of a `struct pollfd`.
pub record PollFd : Type 0 where
  pub fd : ℕ
  pub events : ℕ

-- What `poll` returns: a number below 0, 0, or above 0 with the `revents` of each entry.
pub data Polled : Type 0 where
  failed : Polled
  timeout : Polled
  ready : List ℕ → Polled

-- The system: the masks, `poll`, and what `pfds[i].revents` holds past the entries of this round.
pub record PollSystem (W : Type 0) : Type 0 where
  pub bits : PollBits
  pub poll : W → List PollFd → Polled × W
  pub stale : W → ℕ → ℕ

-- The loop of `poll_run` that fills `pfds`.
unfoldable pub fill : PollBits → List Source → List PollFd
fill bits [] = []
fill bits (s ∷ rest) = record { fd = s.fd; events = to_poll_events bits s.events } ∷ fill bits rest

-- `pfds[i].revents`, with the entries that `poll` filled.
unfoldable pub revents_at : List ℕ → (ℕ → ℕ) → ℕ → ℕ
revents_at revents stale i = if ltb i (length revents) then get_or revents i 0 else stale i

module _ {W : Type 0} (sys : PollSystem W) (callbacks : Callbacks Poll W) where
  -- The loop of `poll_run` over the sources from index `i` on: `impl->count` and `impl->sources` are read again
  -- in each round, and a callback may have changed them. `none` means that the fuel ran out.
  unfoldable pub call_ready : ℕ → List ℕ → (ℕ → ℕ) → ℕ → Loop Poll W → Option (Loop Poll W)
  call_ready zero revents stale i loop = none
  call_ready (suc fuel) revents stale i loop =
      let came = revents_at revents stale i in
      let s = get_or loop.impl.sources i no_source in
      let after = callbacks.call s.callback s.fd (from_poll_events sys.bits came) loop in
      elim (ltb i (length loop.impl.sources)) [
        | false ↦ some loop
        | true ↦ elim (came != 0) [
          | false ↦ call_ready fuel revents stale (i + 1) loop
          | true ↦ elim after.stopped [
            | true ↦ some after
            | false ↦ call_ready fuel revents stale (i + 1) after
          ]
        ]
      ]

  -- The `while` loop of `poll_run`; `calls` is the fuel of each of its loops over the sources.
  unfoldable pub poll_loop : ℕ → ℕ → Loop Poll W → Run (Loop Poll W)
  poll_loop calls zero loop = out_of_fuel
  poll_loop calls (suc fuel) loop =
      let (polled, w1) = sys.poll loop.world (fill sys.bits loop.impl.sources) in
      let waited = record loop { world = w1 } in
      elim loop.stopped [
        | true ↦ returned ok loop
        | false ↦ elim loop.impl.sources [
          | [] ↦ returned ok loop
          | _ ∷ _ ↦ elim polled [
            | failed ↦ returned err_sys waited
            | timeout ↦ poll_loop calls fuel (run_tick callbacks waited)
            | ready revents ↦ elim (call_ready calls revents (sys.stale w1) 0 waited) [
              | none ↦ out_of_fuel
              | some after ↦ poll_loop calls fuel (run_tick callbacks after)
            ]
          ]
        ]
      ]

  -- `poll_run`
  unfoldable pub poll_run : ℕ → ℕ → Loop Poll W → Run (Loop Poll W)
  poll_run calls fuel loop = poll_loop calls fuel (record loop { stopped = false })

-- `sockify_ev_poll_create`; the Booleans say whether the two calls of `calloc` succeed, and `none` is a null
-- pointer.
unfoldable pub poll_create : {W : Type 0} → W → Bool → Bool → Option (Loop Poll W)
poll_create w first second =
    if first && second
    then some (record {
      impl = record { sources = []; capacity = 0 };
      stopped = false;
      tick = none;
      world = w;
    })
    else none

module _ {W : Type 0} (sys : PollSystem W) (callbacks : Callbacks Poll W) where
  abbrev put_back : Loop Poll W → Status × Poll → Status × Loop Poll W
  put_back loop (rc, impl) = (rc, record loop { impl = impl })

  -- `poll_ops`; the Booleans say whether the calls of `realloc` succeed, and the numbers are the fuel of the run.
  -- `poll_destroy` only frees memory.
  unfoldable pub poll_ops : Bool → Bool → ℕ → ℕ → Ops Poll W
  poll_ops first second calls fuel = record {
    add = λ loop fd events callback.
        put_back loop (poll_add loop.impl first second fd events callback);
    modify = λ loop fd events. put_back loop (poll_modify loop.impl fd events);
    remove = λ loop fd. put_back loop (poll_remove loop.impl fd);
    run = λ loop. poll_run sys callbacks calls fuel loop;
    destroy = λ loop. loop.world;
  }
