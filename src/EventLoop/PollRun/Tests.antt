-- ===== src/EventLoop/PollRun/Tests.antt =====
-- Three sockets on poll. When the first callback removes the second socket, the third, which takes its place, is called with the events of the second.
use sockify.Prelude.{ℕ, ◌≡◌, refl, List, [], ◌∷◌, ◌++◌, ◌==◌, false, some, none, if◌then◌else◌}
use sockify.EventLoop.{Source, Poll, find_from, from_poll_events, poll_find, poll_remove}
use sockify.EventLoop.Dispatch.{Loop, Callbacks}
use sockify.EventLoop.PollRun.{PollSystem, timeout, revents_at, call_ready}

abbrev Log : Type 0
Log = List (ℕ × ℕ)

abbrev system : PollSystem Log
system = record {
  bits = record { pollin = 1; pollout = 4; pollerr = 8; pollhup = 16; pollnval = 32 };
  poll = λ w fds. (timeout, w);
  stale = λ w i. 0;
}

abbrev source : ℕ → Source
source fd = record { fd = fd; events = 1; callback = fd }

abbrev start : Loop Poll Log
start = record {
  impl = record { sources = source 3 ∷ source 5 ∷ source 7 ∷ []; capacity = 64 };
  stopped = false;
  tick = none;
  world = [];
}

-- The callback of socket 3 removes socket 5; each socket and the events that its callback was given are logged.
abbrev removing : Callbacks Poll Log
removing = record {
  call = λ callback fd events loop. record loop {
    impl = if fd == 3 then (poll_remove loop.impl 5).1 else loop.impl;
    world = loop.world ++ ((fd, events) ∷ []);
  };
  on_tick = λ t loop. loop;
}

moved_source :
    call_ready system removing 4 (1 ∷ 8 ∷ 0 ∷ []) (λ i. 0) 0 start
    ≡ some (record {
      impl = record { sources = source 3 ∷ source 7 ∷ []; capacity = 64 };
      stopped = false;
      tick = none;
      world = (3, 1) ∷ (7, 4) ∷ [];
    })
unfolding call_ready revents_at from_poll_events poll_remove poll_find find_from
moved_source = refl
