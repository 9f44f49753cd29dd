-- ===== src/EventLoop/Epoll/Batch.antt =====
-- Sources that a callback frees while their event waits.
use sockify.Prelude.{
  ℕ, suc, ◌≡◌, refl, ◌∙◌, Bool, true, false, Option, none, some, List, [], ◌∷◌, ◌++◌, if◌then◌else◌,
  arith,
}
use sockify.EventLoop.{Source}
use sockify.EventLoop.Dispatch.{Loop, Callbacks, fault}
use sockify.EventLoop.Epoll.{
  Epoll, Kernel, deref, from_epoll_events, epoll_dispatch, epoll_loop, epoll_run,
}

goes_on : {A : Type 0} (x y : A) (b : Bool) → b ≡ false → (if b then x else y) ≡ y
goes_on x y b e = rw e refl

module _ {W : Type 0} (kernel : Kernel W) (callbacks : Callbacks Epoll W) where
  -- A round of the loop at an event whose source is there.
  epoll_dispatch-step :
      (p mask : ℕ) (rest : List (ℕ × ℕ)) (loop : Loop Epoll W) (s : Source)
      → deref p loop.impl.sources ≡ some s
      → epoll_dispatch kernel callbacks ((p, mask) ∷ rest) loop ≡ (
          let next = callbacks.call s.callback s.fd (from_epoll_events kernel.bits mask) loop in
          if next.stopped then some next else epoll_dispatch kernel callbacks rest next)
  unfolding epoll_dispatch
  epoll_dispatch-step p mask rest loop s found = ground arith

  -- A loop that went past an event without being stopped.
  epoll_dispatch-went :
      (p mask : ℕ) (rest : List (ℕ × ℕ)) (loop after : Loop Epoll W)
      → epoll_dispatch kernel callbacks ((p, mask) ∷ rest) loop ≡ some after
      → after.stopped ≡ false
      → (s : Source) × (deref p loop.impl.sources ≡ some s)
        × (let next = callbacks.call s.callback s.fd (from_epoll_events kernel.bits mask) loop in
            (next.stopped ≡ false) × (epoll_dispatch kernel callbacks rest next ≡ some after))
  unfolding epoll_dispatch
  epoll_dispatch-went p mask rest loop after e goes = go (deref p loop.impl.sources) refl e
    where
      go :
          (found : Option Source)
          → deref p loop.impl.sources ≡ found
          → elim found [
            | none ↦ none
            | some s ↦
                let next =
                  callbacks.call s.callback s.fd (from_epoll_events kernel.bits mask) loop in
                elim next.stopped [
                  | true ↦ some next
                  | false ↦ epoll_dispatch kernel callbacks rest next
                ]
          ]
            ≡ some after
          → (s : Source) × (deref p loop.impl.sources ≡ some s)
            × (let next =
                  callbacks.call s.callback s.fd (from_epoll_events kernel.bits mask) loop in
                (next.stopped ≡ false) × (epoll_dispatch kernel callbacks rest next ≡ some after))
      go none f h = absurd (ground arith)
      go (some s) f h = (s, f, (ground arith, ground arith))

  -- The loop stops at an event whose source is not in the table any more.
  epoll_dispatch-freed :
      (before : List (ℕ × ℕ)) (q mask : ℕ) (rest : List (ℕ × ℕ)) (loop after : Loop Epoll W)
      → epoll_dispatch kernel callbacks before loop ≡ some after
      → after.stopped ≡ false
      → deref q after.impl.sources ≡ none
      → epoll_dispatch kernel callbacks (before ++ ((q, mask) ∷ rest)) loop ≡ none
  unfolding epoll_dispatch
  epoll_dispatch-freed [] q mask rest loop after e goes gone = ground arith
  epoll_dispatch-freed ((p, m) ∷ before) q mask rest loop after e goes gone =
      let (s, found, (next_goes, later)) = epoll_dispatch-went p m before loop after e goes in
      let next = callbacks.call s.callback s.fd (from_epoll_events kernel.bits m) loop in
      epoll_dispatch-step p m (before ++ ((q, mask) ∷ rest)) loop s found
      ∙ goes_on (some next) (epoll_dispatch kernel callbacks (before ++ ((q, mask) ∷ rest)) next)
          next.stopped next_goes
      ∙ epoll_dispatch-freed before q mask rest next after later goes gone

  -- A callback in `epoll_run_common` that takes the source of a later event of the same `epoll_wait` out of the
  -- table, and so frees it: the loop, unless it was stopped before, reads the freed source.
  pub epoll_run-fault :
      (fuel : ℕ) (loop after : Loop Epoll W) (w1 : W) (before rest : List (ℕ × ℕ)) (q mask : ℕ)
      → kernel.wait loop.world ≡ (some (before ++ ((q, mask) ∷ rest)), w1)
      → epoll_dispatch kernel callbacks before (record loop { stopped = false; world = w1 })
        ≡ some after
      → after.stopped ≡ false
      → deref q after.impl.sources ≡ none
      → epoll_run kernel callbacks (suc fuel) loop ≡ fault
  unfolding epoll_run epoll_loop
  epoll_run-fault fuel loop after w1 before rest q mask waited e goes gone =
      let freed =
        epoll_dispatch-freed before q mask rest (record loop { stopped = false; world = w1 }) after
          e goes gone in
      ground (arith, waited, freed)
