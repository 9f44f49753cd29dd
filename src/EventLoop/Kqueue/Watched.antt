-- ===== src/EventLoop/Kqueue/Watched.antt =====
-- The table of the kqueue backend, the map that it stands for, and the filters that the kernel watches.
use sockify.Prelude.{
  ℕ, ◌≤◌, ◌<◌, ◌≡◌, refl, sym, ap, ◌∙◌, ◌⊎◌, inl, inr, Option, none, some, [], ◌∷◌, ◌++◌, arith,
  ltb, ◌==◌, if◌then◌else◌, length, Bool-cases,
}
use mathlib.Core.Path.{subst}
use sockify.EventLoop.{Source}
use sockify.EventLoop.Entries.{
  IsTable, IsTable-add, refused_map, entry_fd, entry, map_of, SameMap, Changed, specified_map,
}
use sockify.EventLoop.Epoll.{Entry, no_entry}
use sockify.EventLoop.Kqueue.{Kqueue, Kernel, Filter, kqueue_grow, kqueue_register, update_filters}
use sockify.EventLoop.Kqueue.Filters.{
  Watched, Watches, wants, asked, update_filters-watched, update_filters-cases, wants-zero,
}
use sockify.EventLoop.Spec.{Op, add, Map, specified}
use sockify.EventLoop.Table.{lookup-add}
use sockify.Status.{Status, ok, err_invalid, err_nomem, err_sys}

-- The address that the kernel should have for an entry and a filter.
abbrev pub shown : Filter → Option Entry → Option ℕ
shown f none = none
shown f (some e) = asked (wants f e.source.events) e.pointer

abbrev pub view : Kqueue → Map
view impl = map_of impl.sources

-- No socket has two sources, and the sources fit the memory.
abbrev pub IsSound : Kqueue → Type 0
IsSound impl = IsTable impl.sources impl.capacity

-- The map after a call that returned `rc`, and whether the kernel agrees with the table.
abbrev pub Outcome : Op → Map → Map → Type 0 → Status → Type 0
Outcome op m m' agreed err_nomem = SameMap m m' × agreed
Outcome op m m' agreed err_sys = SameMap m m'
Outcome op m m' agreed rc = (rc ≡ (specified op m).0) × SameMap (specified op m).1 m' × agreed

module _ {W : Type 0} (kernel : Kernel W) (watched : W → Watched)
    (laws : Watches kernel watched) where
  -- The kernel watches exactly the filters that the sources of the table ask for, each with the address.
  abbrev pub Agreed : Kqueue → W → Type 0
  Agreed impl w = (f : Filter) (g : ℕ) → watched w f g ≡ shown f (entry g impl.sources)

  -- What a call does: the outcome for its code, on a table again.
  abbrev pub Refines : Op → Kqueue → Status × Kqueue × W → Type 0
  Refines op impl r = Outcome op (view impl) (view r.1) (Agreed r.1 r.2) r.0 × IsSound r.1

  pub Agreed-Changed :
      (fd : ℕ) (x : Option Entry) (impl after : Kqueue) (w w' : W)
      → Changed fd x impl.sources after.sources
      → ((f : Filter) (g : ℕ) → watched w' f g ≡ (if fd == g then shown f x else watched w f g))
      → Agreed impl w
      → Agreed after w'
  Agreed-Changed fd x impl after w w' h k a f g = elim (Bool-cases (fd == g)) [
    | inl e ↦ k f g ∙ rw e (sym (ap (shown f) (h g ∙ rw e refl)))
    | inr e ↦ k f g ∙ rw e (a f g ∙ sym (ap (shown f) (h g ∙ rw e refl)))
  ]

  -- A call on a socket that the table does not take.
  pub refused :
      (op : Op) (impl : Kqueue) (w : W) (r : Status × Kqueue × W)
      → r ≡ (err_invalid, impl, w)
      → specified op (view impl) ≡ (err_invalid, view impl)
      → IsSound impl
      → Agreed impl w
      → Refines op impl r
  refused op impl w r e s t a =
      let (code, map) = refused_map op impl.sources s in
      subst (Refines op impl) (sym e) ((code, map, a), t)

  -- `kqueue_grow` makes room for one more source, or memory ran out and nothing changed.
  pub kqueue_grow-cases :
      (w : W) (impl : Kqueue)
      → length impl.sources ≤ impl.capacity
      → let r = kqueue_grow kernel w impl in
        ((f : Filter) (g : ℕ) → watched r.2 f g ≡ watched w f g)
        × ((r ≡ (err_nomem, impl, r.2))
            ⊎ ((r.0 ≡ ok) × (r.1.sources ≡ impl.sources) × (length impl.sources < r.1.capacity)))
  unfolding kqueue_grow
  kqueue_grow-cases w impl fits = elim (Bool-cases (ltb (length impl.sources) impl.capacity)) [
    | inl e ↦ rw (kqueue_grow, e) ((λ f g. refl), inr (refl, refl, ground (arith, e)))
    | inr e ↦ elim (Bool-cases (kernel.realloc w).0) [
      | inl good ↦ rw (kqueue_grow, e, good) (laws.realloc w, inr (refl, refl, ground (arith, e)))
      | inr bad ↦ rw (kqueue_grow, e, bad) (laws.realloc w, inl refl)
    ]
  ]

  pub kqueue_register-Refines :
      (w : W) (impl : Kqueue) (pointer : Option ℕ) (source : Source)
      → length impl.sources < impl.capacity
      → entry source.fd impl.sources ≡ none
      → IsSound impl
      → Agreed impl w
      → Refines
          (add source.fd source.events source.callback)
          impl
          (kqueue_register kernel w impl pointer source)
  unfolding kqueue_register
  kqueue_register-Refines w impl none source room absent t a = (((λ g. refl), a), t)
  kqueue_register-Refines w impl (some p) source room absent t a =
      let op = add source.fd source.events source.callback in
      let x : Entry = record { pointer = p; source = source } in
      let after : Kqueue = record impl { sources = impl.sources ++ (x ∷ []) } in
      let r = update_filters kernel w x 0 source.events in
      let unwatched : (f : Filter) → watched w f source.fd ≡ asked (wants f 0) p =
        λ f. a f source.fd ∙ ap (shown f) absent ∙ sym (ap (λ b. asked b p) (wants-zero f)) in
      let changed : Changed source.fd (some x) impl.sources after.sources =
        λ g. lookup-add entry_fd no_entry impl.sources x g absent in
      let (code, map) =
        specified_map op source.fd (some x) impl.sources after.sources (rw (specified, absent) refl)
          changed in
      elim (update_filters-cases kernel watched laws w x 0 source.events) [
        | inl done ↦
            let e : kqueue_register kernel w impl (some p) source ≡ (ok, after, r.1) =
              rw (kqueue_register, done) refl in
            subst (Refines op impl) (sym e) (
              (
                code,
                map,
                Agreed-Changed source.fd (some x) impl after w r.1 changed
                    (update_filters-watched kernel watched laws w x 0 source.events unwatched done)
                    a,
              ),
              IsTable-add impl.sources impl.capacity t x absent room,
            )
        | inr failed ↦
            let e : kqueue_register kernel w impl (some p) source
                ≡ (err_sys, impl, kernel.free r.1 p) =
              rw (kqueue_register, failed) refl in
            subst (Refines op impl) (sym e) ((λ g. refl), t)
      ]
