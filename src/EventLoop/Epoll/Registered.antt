-- ===== src/EventLoop/Epoll/Registered.antt =====
-- What a call of the epoll backend makes of the table, its map and what the kernel watches.
use sockify.Prelude.{
  ℕ, ◌≡◌, refl, sym, ap, ◌∙◌, inl, inr, Option, none, some, arith, if◌then◌else◌, length, get_or,
  set, Bool-cases,
}
use mathlib.Core.Path.{subst}
use sockify.EventLoop.{Source}
use sockify.EventLoop.Epoll.{
  Entry, Epoll, Kernel, no_entry, epoll_find, to_epoll_events, epoll_grow, epoll_register,
  epoll_add, epoll_modify, epoll_remove,
}
use sockify.EventLoop.Entries.{
  IsTable-removed, IsTable-set, entry_fd, entry, map_of, Changed, specified_map,
}
use sockify.EventLoop.Spec.{Op, add, modify, remove, specified}
use sockify.EventLoop.Table.{Distinct, find_from-cases, lookup-set, removed, lookup-removed}
use sockify.Status.{Status, ok, err_nomem, err_sys, is_ok}
use sockify.EventLoop.Epoll.Watched.{
  epoll_register-Refines, epoll_grow-cases, ctl_del-gone, Watches, Agreed, Agreed-Changed, IsSound,
  Outcome, Refines, refused, shown, view,
}

module _ {W : Type 0} (kernel : Kernel W) (watched : W → ℕ → Option (ℕ × ℕ))
    (laws : Watches kernel watched) where
  abbrev pub epoll_apply : Op → W → Epoll → Status × Epoll × W
  epoll_apply (add fd events callback) w impl = epoll_add kernel w impl fd events callback
  epoll_apply (modify fd events) w impl = epoll_modify kernel w impl fd events
  epoll_apply (remove fd) w impl = epoll_remove kernel w impl fd

  epoll_remove-Refines :
      (w : W) (impl : Epoll) (fd : ℕ)
      → IsSound impl
      → Agreed kernel watched laws impl w
      → Refines kernel watched laws (remove fd) impl (epoll_remove kernel w impl fd)
  unfolding epoll_remove
  epoll_remove-Refines w impl fd t a = elim (find_from-cases entry_fd no_entry impl.sources fd 0) [
    | inl (f, l) ↦
        let missing : epoll_find impl fd ≡ none = unfold epoll_find in f in
        refused kernel watched laws (remove fd) impl w _ (rw (epoll_remove, missing) refl)
          (rw (specified, l) refl) t a
    | inr (i, f, found, l) ↦
        let here : epoll_find impl fd ≡ some i = unfold epoll_find in (f ∙ ap some (omega arith)) in
        let after : Epoll = record impl { sources = removed entry_fd no_entry impl.sources i } in
        let changed : Changed fd none impl.sources after.sources =
          λ g. lookup-removed entry_fd no_entry impl.sources fd i g found t.distinct in
        let w' = kernel.free (kernel.ctl_del w fd).1 (get_or impl.sources i no_entry).pointer in
        let e : epoll_remove kernel w impl fd ≡ (ok, after, w') = rw (epoll_remove, here) refl in
        let (code, map) =
          specified_map (remove fd) fd none impl.sources after.sources (rw (specified, l) refl)
            changed in
        subst (Refines kernel watched laws (remove fd) impl) (sym e) (
          (
            code,
            map,
            Agreed-Changed kernel watched laws fd none impl after w w' changed
                (λ g. laws.free _ _ g ∙ ctl_del-gone kernel watched laws w fd g) a,
          ),
          IsTable-removed impl.sources impl.capacity t fd i found,
        )
  ]

  epoll_modify-Refines :
      (w : W) (impl : Epoll) (fd events : ℕ)
      → IsSound impl
      → Agreed kernel watched laws impl w
      → Refines kernel watched laws (modify fd events) impl (epoll_modify kernel w impl fd events)
  unfolding epoll_modify
  epoll_modify-Refines w impl fd events t a =
      elim (find_from-cases entry_fd no_entry impl.sources fd 0) [
        | inl (f, l) ↦
            let missing : epoll_find impl fd ≡ none = unfold epoll_find in f in
            refused kernel watched laws (modify fd events) impl w _
              (rw (epoll_modify, missing) refl) (rw (specified, l) refl) t a
        | inr (i, f, found, l) ↦
            let here : epoll_find impl fd ≡ some i =
              unfold epoll_find in (f ∙ ap some (omega arith)) in
            let e0 = get_or impl.sources i no_entry in
            let x : Entry = record e0 { source = record e0.source { events = events } } in
            let after : Epoll = record impl { sources = set impl.sources i x } in
            let changed : Changed fd (some x) impl.sources after.sources =
              λ g. lookup-set entry_fd no_entry impl.sources fd i x g found refl in
            let mask = to_epoll_events kernel.bits events in
            let r = kernel.ctl_mod w fd mask e0.pointer in
            let table : IsSound after =
              IsTable-set impl.sources impl.capacity t fd i x found refl in
            let (code, map) =
              specified_map (modify fd events) fd (some x) impl.sources after.sources
                (rw (specified, l) refl) changed in
            elim (Bool-cases r.0) [
              | inl done ↦
                  let e : epoll_modify kernel w impl fd events ≡ (ok, after, r.1) =
                    rw (epoll_modify, here, done) refl in
                  subst (Refines kernel watched laws (modify fd events) impl) (sym e) (
                    (
                      code,
                      map,
                      Agreed-Changed kernel watched laws fd (some x) impl after w r.1 changed
                          (λ g. laws.ctl_mod w fd mask e0.pointer g ∙ rw done refl) a,
                    ),
                    table,
                  )
              | inr failed ↦
                  let e : epoll_modify kernel w impl fd events ≡ (err_sys, after, r.1) =
                    rw (epoll_modify, here, failed) refl in
                  subst (Refines kernel watched laws (modify fd events) impl) (sym e) (map, table)
            ]
      ]

  epoll_add-Refines :
      (w : W) (impl : Epoll) (fd events callback : ℕ)
      → IsSound impl
      → Agreed kernel watched laws impl w
      → Refines kernel watched laws
          (add fd events callback)
          impl
          (epoll_add kernel w impl fd events callback)
  unfolding epoll_add
  epoll_add-Refines w impl fd events callback t a =
      let op = add fd events callback in
      let source : Source = record { fd = fd; events = events; callback = callback } in
      elim (find_from-cases entry_fd no_entry impl.sources fd 0) [
        | inr (i, f, found, l) ↦
            let here : epoll_find impl fd ≡ some i =
              unfold epoll_find in (f ∙ ap some (omega arith)) in
            refused kernel watched laws op impl w _ (rw (epoll_add, here) refl)
              (rw (specified, l) refl) t a
        | inl (f, l) ↦
            let missing : epoll_find impl fd ≡ none = unfold epoll_find in f in
            let (watching, grow) = epoll_grow-cases kernel watched laws w impl t.fits in
            let grown = epoll_grow kernel w impl in
            elim grow [
              | inl full ↦
                  let on_grown : Status × Epoll × W → Status × Epoll × W = λ r.
                    let c = kernel.calloc r.2 in
                    if is_ok r.0
                    then epoll_register kernel c.1 r.1 c.0 source
                    else (r.0, r.1, r.2) in
                  let e : epoll_add kernel w impl fd events callback ≡ (err_nomem, impl, grown.2) =
                    rw (epoll_add, missing) (ap on_grown full) in
                  subst (Refines kernel watched laws op impl) (sym e)
                    (((λ g. refl), λ g. watching g ∙ a g), t)
              | inr (good, kept, room) ↦
                  let c = kernel.calloc grown.2 in
                  let e : epoll_add kernel w impl fd events callback
                      ≡ epoll_register kernel c.1 grown.1 c.0 source =
                    rw (epoll_add, missing, good) refl in
                  let table : IsSound grown.1 = record {
                    distinct = subst (Distinct entry_fd no_entry) (sym kept) t.distinct;
                    fits = omega (arith, ap (length {A = Entry}) kept, room);
                  } in
                  let same_view : view grown.1 ≡ view impl = ap map_of kept in
                  let agreed : Agreed kernel watched laws grown.1 c.1 = λ g.
                    laws.calloc grown.2 g
                    ∙ watching g
                    ∙ a g
                    ∙ sym (ap (λ xs. shown kernel.bits (entry g xs)) kept) in
                  let r = epoll_register kernel c.1 grown.1 c.0 source in
                  let done =
                    epoll_register-Refines kernel watched laws c.1 grown.1 c.0 source
                      (omega (arith, ap (length {A = Entry}) kept, room)) (ap (entry fd) kept ∙ l)
                      table agreed in
                  subst (Refines kernel watched laws op impl) (sym e) (
                    subst
                      (λ m.
                        Outcome op m (view r.1) (Agreed kernel watched laws r.1 r.2) r.0
                        × IsSound r.1)
                      same_view done)
            ]
      ]

  -- `epoll_add_common`, `epoll_modify_common` and `epoll_remove_common` on a table that has no socket twice, fits
  -- its memory and agrees with what the kernel watches: each source with its address and its events,
  -- and nothing else. `epoll_ctl` changes the kernel's entry of its socket, or fails and changes none; with
  -- EPOLL_CTL_DEL it fails only for a socket that the kernel does not watch.
  -- With SOCKIFY_OK or SOCKIFY_ERR_INVALID a call returned what a map from sockets to sources would,
  -- the table shows the map's new contents, and the kernel agrees with it. With SOCKIFY_ERR_NOMEM, or
  -- SOCKIFY_ERR_SYS from `epoll_add_common`, the map is as before and the kernel still agrees. With
  -- SOCKIFY_ERR_SYS `epoll_modify_common` has changed the events in the table all the same. The table
  -- has no socket twice and fits its memory again.
  pub epoll_apply-Refines :
      (op : Op) (w : W) (impl : Epoll)
      → IsSound impl
      → Agreed kernel watched laws impl w
      → Refines kernel watched laws op impl (epoll_apply op w impl)
  epoll_apply-Refines (add fd events callback) w impl t a =
      epoll_add-Refines w impl fd events callback t a
  epoll_apply-Refines (modify fd events) w impl t a = epoll_modify-Refines w impl fd events t a
  epoll_apply-Refines (remove fd) w impl t a = epoll_remove-Refines w impl fd t a
