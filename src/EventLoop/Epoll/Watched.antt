-- ===== src/EventLoop/Epoll/Watched.antt =====
-- The table of the epoll backend, the map that it stands for, and what the kernel watches.
use sockify.Prelude.{
  ℕ, ◌≤◌, ◌<◌, ◌≡◌, refl, sym, ap, ◌∙◌, ◌⊎◌, inl, inr, false, ◌&&◌, Option, none, some, [], ◌∷◌,
  ◌++◌, arith, ltb, ◌==◌, if◌then◌else◌, length, Bool-cases,
}
use mathlib.Core.Path.{subst}
use sockify.EventLoop.{Source}
use sockify.EventLoop.Epoll.{
  Entry, Epoll, EpollBits, Kernel, no_entry, to_epoll_events, epoll_grow, epoll_register,
}
use sockify.EventLoop.Entries.{
  IsTable, IsTable-add, refused_map, entry_fd, entry, map_of, SameMap, Changed, specified_map,
}
use sockify.EventLoop.Spec.{Op, add, modify, Map, specified}
use sockify.EventLoop.Table.{lookup-add}
use sockify.Status.{Status, ok, err_invalid, err_nomem, err_sys}

-- The address and the mask that the kernel should have for an entry.
abbrev pub shown : EpollBits → Option Entry → Option (ℕ × ℕ)
shown bits none = none
shown bits (some e) = some (e.pointer, to_epoll_events bits e.source.events)

abbrev pub view : Epoll → Map
view impl = map_of impl.sources

-- No socket has two sources, and the sources fit the memory.
abbrev pub IsSound : Epoll → Type 0
IsSound impl = IsTable impl.sources impl.capacity

-- epoll(7): what the kernel watches, the address and the mask of each socket. `epoll_ctl` changes the entry
-- of its socket when it succeeds, and EPOLL_CTL_DEL fails only for a socket that is not watched; the memory functions change none.
pub record Watches {W : Type 0} (kernel : Kernel W) (watched : W → ℕ → Option (ℕ × ℕ))
    : Type 0 where
  pub realloc : (w : W) (g : ℕ) → watched (kernel.realloc w).1 g ≡ watched w g
  pub calloc : (w : W) (g : ℕ) → watched (kernel.calloc w).1 g ≡ watched w g
  pub free : (w : W) (p g : ℕ) → watched (kernel.free w p) g ≡ watched w g
  pub ctl_add :
      (w : W) (fd mask p g : ℕ)
      → watched (kernel.ctl_add w fd mask p).1 g
        ≡ (if (kernel.ctl_add w fd mask p).0 && (fd == g) then some (p, mask) else watched w g)
  pub ctl_mod :
      (w : W) (fd mask p g : ℕ)
      → watched (kernel.ctl_mod w fd mask p).1 g
        ≡ (if (kernel.ctl_mod w fd mask p).0 && (fd == g) then some (p, mask) else watched w g)
  pub ctl_del :
      (w : W) (fd g : ℕ)
      → watched (kernel.ctl_del w fd).1 g
        ≡ (if (kernel.ctl_del w fd).0 && (fd == g) then none else watched w g)
  pub ctl_del_fails : (w : W) (fd : ℕ) → (kernel.ctl_del w fd).0 ≡ false → watched w fd ≡ none

-- The map after a call that returned `rc`, and whether the kernel agrees with the table.
abbrev pub Outcome : Op → Map → Map → Type 0 → Status → Type 0
Outcome op m m' agreed err_nomem = SameMap m m' × agreed
Outcome (modify fd events) m m' agreed err_sys = SameMap (specified (modify fd events) m).1 m'
Outcome op m m' agreed err_sys = SameMap m m' × agreed
Outcome op m m' agreed rc = (rc ≡ (specified op m).0) × SameMap (specified op m).1 m' × agreed

module _ {W : Type 0} (kernel : Kernel W) (watched : W → ℕ → Option (ℕ × ℕ))
    (laws : Watches kernel watched) where
  -- After EPOLL_CTL_DEL the socket is not watched, whatever the call returned.
  pub ctl_del-gone :
      (w : W) (fd g : ℕ)
      → watched (kernel.ctl_del w fd).1 g ≡ (if fd == g then none else watched w g)
  ctl_del-gone w fd g = elim (Bool-cases (kernel.ctl_del w fd).0) [
    | inl done ↦ laws.ctl_del w fd g ∙ rw done refl
    | inr failed ↦ laws.ctl_del w fd g ∙ rw failed (unwatched failed)
  ]
    where
      unwatched :
          (kernel.ctl_del w fd).0 ≡ false → watched w g ≡ (if fd == g then none else watched w g)
      unwatched failed = elim (Bool-cases (fd == g)) [
        | inr e ↦ rw e refl
        | inl e ↦
            let same : fd ≡ g = ground (arith, e) in
            rw e (ap (watched w) (sym same) ∙ laws.ctl_del_fails w fd failed)
      ]

  -- The kernel watches exactly the sources of the table, each with its address and its events.
  abbrev pub Agreed : Epoll → W → Type 0
  Agreed impl w = (g : ℕ) → watched w g ≡ shown kernel.bits (entry g impl.sources)

  -- What a call does: the outcome for its code, on a table again.
  abbrev pub Refines : Op → Epoll → Status × Epoll × W → Type 0
  Refines op impl r = Outcome op (view impl) (view r.1) (Agreed r.1 r.2) r.0 × IsSound r.1

  pub Agreed-Changed :
      (fd : ℕ) (x : Option Entry) (impl after : Epoll) (w w' : W)
      → Changed fd x impl.sources after.sources
      → ((g : ℕ) → watched w' g ≡ (if fd == g then shown kernel.bits x else watched w g))
      → Agreed impl w
      → Agreed after w'
  Agreed-Changed fd x impl after w w' h k a g = elim (Bool-cases (fd == g)) [
    | inl e ↦ k g ∙ rw e (sym (ap (shown kernel.bits) (h g ∙ rw e refl)))
    | inr e ↦ k g ∙ rw e (a g ∙ sym (ap (shown kernel.bits) (h g ∙ rw e refl)))
  ]

  -- A call on a socket that the table does not take.
  pub refused :
      (op : Op) (impl : Epoll) (w : W) (r : Status × Epoll × W)
      → r ≡ (err_invalid, impl, w)
      → specified op (view impl) ≡ (err_invalid, view impl)
      → IsSound impl
      → Agreed impl w
      → Refines op impl r
  refused op impl w r e s t a =
      let (code, map) = refused_map op impl.sources s in
      subst (Refines op impl) (sym e) ((code, map, a), t)

  -- `epoll_grow` makes room for one more source, or memory ran out and nothing changed.
  pub epoll_grow-cases :
      (w : W) (impl : Epoll)
      → length impl.sources ≤ impl.capacity
      → let r = epoll_grow kernel w impl in
        ((g : ℕ) → watched r.2 g ≡ watched w g)
        × ((r ≡ (err_nomem, impl, r.2))
            ⊎ ((r.0 ≡ ok) × (r.1.sources ≡ impl.sources) × (length impl.sources < r.1.capacity)))
  unfolding epoll_grow
  epoll_grow-cases w impl fits = elim (Bool-cases (ltb (length impl.sources) impl.capacity)) [
    | inl e ↦ rw (epoll_grow, e) ((λ g. refl), inr (refl, refl, ground (arith, e)))
    | inr e ↦ elim (Bool-cases (kernel.realloc w).0) [
      | inl good ↦ rw (epoll_grow, e, good) (laws.realloc w, inr (refl, refl, ground (arith, e)))
      | inr bad ↦ rw (epoll_grow, e, bad) (laws.realloc w, inl refl)
    ]
  ]

  pub epoll_register-Refines :
      (w : W) (impl : Epoll) (pointer : Option ℕ) (source : Source)
      → length impl.sources < impl.capacity
      → entry source.fd impl.sources ≡ none
      → IsSound impl
      → Agreed impl w
      → Refines
          (add source.fd source.events source.callback)
          impl
          (epoll_register kernel w impl pointer source)
  unfolding epoll_register
  epoll_register-Refines w impl none source room absent t a = (((λ g. refl), a), t)
  epoll_register-Refines w impl (some p) source room absent t a =
      let op = add source.fd source.events source.callback in
      let x : Entry = record { pointer = p; source = source } in
      let after : Epoll = record impl { sources = impl.sources ++ (x ∷ []) } in
      let mask = to_epoll_events kernel.bits source.events in
      let r = kernel.ctl_add w source.fd mask p in
      let changed : Changed source.fd (some x) impl.sources after.sources =
        λ g. lookup-add entry_fd no_entry impl.sources x g absent in
      let (code, map) =
        specified_map op source.fd (some x) impl.sources after.sources (rw (specified, absent) refl)
          changed in
      elim (Bool-cases r.0) [
        | inl done ↦
            let e : epoll_register kernel w impl (some p) source ≡ (ok, after, r.1) =
              rw (epoll_register, done) refl in
            subst (Refines op impl) (sym e) (
              (
                code,
                map,
                Agreed-Changed source.fd (some x) impl after w r.1 changed
                    (λ g. laws.ctl_add w source.fd mask p g ∙ rw done refl) a,
              ),
              IsTable-add impl.sources impl.capacity t x absent room,
            )
        | inr failed ↦
            let e : epoll_register kernel w impl (some p) source
                ≡ (err_sys, impl, kernel.free r.1 p) =
              rw (epoll_register, failed) refl in
            let same : Agreed impl (kernel.free r.1 p) =
              λ g. laws.free r.1 p g ∙ laws.ctl_add w source.fd mask p g ∙ rw failed refl ∙ a g in
            subst (Refines op impl) (sym e) (((λ g. refl), same), t)
      ]
