-- ===== src/EventLoop/Kqueue/Registered.antt =====
-- What a call of the kqueue backend makes of the table, its map and what the kernel watches.
use sockify.Prelude.{
  ℕ, ◌≡◌, refl, sym, ap, ◌∙◌, inl, inr, none, some, arith, ◌==◌, if◌then◌else◌, length, get_or, set,
}
use mathlib.Core.Path.{subst}
use sockify.EventLoop.{Source}
use sockify.EventLoop.Entries.{
  IsTable-removed, IsTable-set, entry_fd, entry, map_of, Changed, specified_map,
}
use sockify.EventLoop.Epoll.{Entry, no_entry}
use sockify.EventLoop.Kqueue.{
  Kqueue, Kernel, Filter, evfilt_read, evfilt_write, kqueue_find, kqueue_grow, kqueue_register,
  kqueue_add, kqueue_modify, kqueue_remove, update_filters, delete_filter,
}
use sockify.EventLoop.Kqueue.Filters.{
  Watched, Watches, wants, asked, update_filters-watched, update_filters-cases, delete_both-watched,
}
use sockify.EventLoop.Spec.{Op, add, modify, remove, specified}
use sockify.EventLoop.Table.{
  Distinct, Found-fd, find_from-cases, lookup-set, removed, lookup-removed,
}
use sockify.Session.Events.{event_read, event_write}
use sockify.Status.{Status, ok, err_nomem, err_sys, is_ok}
use sockify.EventLoop.Kqueue.Watched.{
  kqueue_register-Refines, kqueue_grow-cases, Agreed, Agreed-Changed, IsSound, Outcome, Refines,
  refused, shown, view,
}

module _ {W : Type 0} (kernel : Kernel W) (watched : W → Watched)
    (laws : Watches kernel watched) where
  abbrev pub kqueue_apply : Op → W → Kqueue → Status × Kqueue × W
  kqueue_apply (add fd events callback) w impl = kqueue_add kernel w impl fd events callback
  kqueue_apply (modify fd events) w impl = kqueue_modify kernel w impl fd events
  kqueue_apply (remove fd) w impl = kqueue_remove kernel w impl fd

  -- What the kernel watches of the source that the table has for a socket.
  watched_entry :
      (w : W) (impl : Kqueue) (fd : ℕ) (e : Entry)
      → e.source.fd ≡ fd
      → entry fd impl.sources ≡ some e
      → Agreed kernel watched laws impl w
      → (f : Filter) → watched w f e.source.fd ≡ asked (wants f e.source.events) e.pointer
  watched_entry w impl fd e same l a f = ap (watched w f) same ∙ a f fd ∙ ap (shown f) l

  kqueue_remove-Refines :
      (w : W) (impl : Kqueue) (fd : ℕ)
      → IsSound impl
      → Agreed kernel watched laws impl w
      → Refines kernel watched laws (remove fd) impl (kqueue_remove kernel w impl fd)
  unfolding kqueue_remove
  kqueue_remove-Refines w impl fd t a = elim (find_from-cases entry_fd no_entry impl.sources fd 0) [
    | inl (f, l) ↦
        let missing : kqueue_find impl fd ≡ none = unfold kqueue_find in f in
        refused kernel watched laws (remove fd) impl w _ (rw (kqueue_remove, missing) refl)
          (rw (specified, l) refl) t a
    | inr (i, f, found, l) ↦
        let here : kqueue_find impl fd ≡ some i =
          unfold kqueue_find in (f ∙ ap some (omega arith)) in
        let after : Kqueue = record impl { sources = removed entry_fd no_entry impl.sources i } in
        let changed : Changed fd none impl.sources after.sources =
          λ g. lookup-removed entry_fd no_entry impl.sources fd i g found t.distinct in
        let e0 = get_or impl.sources i no_entry in
        let w1 = delete_filter kernel w e0 evfilt_read event_read in
        let w2 = delete_filter kernel w1 e0 evfilt_write event_write in
        let w' = kernel.free w2 e0.pointer in
        let same_fd = Found-fd entry_fd no_entry impl.sources fd i found in
        let e : kqueue_remove kernel w impl fd ≡ (ok, after, w') = rw (kqueue_remove, here) refl in
        let (code, map) =
          specified_map (remove fd) fd none impl.sources after.sources (rw (specified, l) refl)
            changed in
        subst (Refines kernel watched laws (remove fd) impl) (sym e) (
          (
            code,
            map,
            Agreed-Changed kernel watched laws fd none impl after w w' changed
                (λ f g.
                  laws.free w2 e0.pointer f g
                  ∙ delete_both-watched kernel watched laws w e0 f g
                      (watched_entry w impl fd e0 same_fd l a)
                  ∙ ap (λ (n : ℕ). if n == g then none else watched w f g) same_fd)
                a,
          ),
          IsTable-removed impl.sources impl.capacity t fd i found,
        )
  ]

  kqueue_modify-Refines :
      (w : W) (impl : Kqueue) (fd events : ℕ)
      → IsSound impl
      → Agreed kernel watched laws impl w
      → Refines kernel watched laws (modify fd events) impl (kqueue_modify kernel w impl fd events)
  unfolding kqueue_modify
  kqueue_modify-Refines w impl fd events t a =
      elim (find_from-cases entry_fd no_entry impl.sources fd 0) [
        | inl (f, l) ↦
            let missing : kqueue_find impl fd ≡ none = unfold kqueue_find in f in
            refused kernel watched laws (modify fd events) impl w _
              (rw (kqueue_modify, missing) refl) (rw (specified, l) refl) t a
        | inr (i, f, found, l) ↦
            let here : kqueue_find impl fd ≡ some i =
              unfold kqueue_find in (f ∙ ap some (omega arith)) in
            let e0 = get_or impl.sources i no_entry in
            let x : Entry = record e0 { source = record e0.source { events = events } } in
            let after : Kqueue = record impl { sources = set impl.sources i x } in
            let changed : Changed fd (some x) impl.sources after.sources =
              λ g. lookup-set entry_fd no_entry impl.sources fd i x g found refl in
            let same_fd = Found-fd entry_fd no_entry impl.sources fd i found in
            let r = update_filters kernel w e0 e0.source.events events in
            let table : IsSound after =
              IsTable-set impl.sources impl.capacity t fd i x found refl in
            let (code, map) =
              specified_map (modify fd events) fd (some x) impl.sources after.sources
                (rw (specified, l) refl) changed in
            elim (update_filters-cases kernel watched laws w e0 e0.source.events events) [
              | inl done ↦
                  let e : kqueue_modify kernel w impl fd events ≡ (ok, after, r.1) =
                    rw (kqueue_modify, here, done) refl in
                  subst (Refines kernel watched laws (modify fd events) impl) (sym e) (
                    (
                      code,
                      map,
                      Agreed-Changed kernel watched laws fd (some x) impl after w r.1 changed
                          (λ f g.
                            update_filters-watched kernel watched laws w e0 e0.source.events events
                              (watched_entry w impl fd e0 same_fd l a) done f g
                            ∙ ap
                                (λ (n : ℕ).
                                  if n == g
                                  then asked (wants f events) e0.pointer
                                  else watched w f g)
                                same_fd)
                          a,
                    ),
                    table,
                  )
              | inr failed ↦
                  let e : kqueue_modify kernel w impl fd events ≡ (err_sys, impl, r.1) =
                    rw (kqueue_modify, here, failed) refl in
                  subst (Refines kernel watched laws (modify fd events) impl) (sym e)
                    ((λ g. refl), t)
            ]
      ]

  kqueue_add-Refines :
      (w : W) (impl : Kqueue) (fd events callback : ℕ)
      → IsSound impl
      → Agreed kernel watched laws impl w
      → Refines kernel watched laws
          (add fd events callback)
          impl
          (kqueue_add kernel w impl fd events callback)
  unfolding kqueue_add
  kqueue_add-Refines w impl fd events callback t a =
      let op = add fd events callback in
      let source : Source = record { fd = fd; events = events; callback = callback } in
      elim (find_from-cases entry_fd no_entry impl.sources fd 0) [
        | inr (i, f, found, l) ↦
            let here : kqueue_find impl fd ≡ some i =
              unfold kqueue_find in (f ∙ ap some (omega arith)) in
            refused kernel watched laws op impl w _ (rw (kqueue_add, here) refl)
              (rw (specified, l) refl) t a
        | inl (f, l) ↦
            let missing : kqueue_find impl fd ≡ none = unfold kqueue_find in f in
            let (watching, grow) = kqueue_grow-cases kernel watched laws w impl t.fits in
            let grown = kqueue_grow kernel w impl in
            elim grow [
              | inl full ↦
                  let on_grown : Status × Kqueue × W → Status × Kqueue × W = λ r.
                    let c = kernel.calloc r.2 in
                    if is_ok r.0
                    then kqueue_register kernel c.1 r.1 c.0 source
                    else (r.0, r.1, r.2) in
                  let e : kqueue_add kernel w impl fd events callback ≡ (err_nomem, impl, grown.2) =
                    rw (kqueue_add, missing) (ap on_grown full) in
                  subst (Refines kernel watched laws op impl) (sym e)
                    (((λ g. refl), λ f g. watching f g ∙ a f g), t)
              | inr (good, kept, room) ↦
                  let c = kernel.calloc grown.2 in
                  let e : kqueue_add kernel w impl fd events callback
                      ≡ kqueue_register kernel c.1 grown.1 c.0 source =
                    rw (kqueue_add, missing, good) refl in
                  let table : IsSound grown.1 = record {
                    distinct = subst (Distinct entry_fd no_entry) (sym kept) t.distinct;
                    fits = omega (arith, ap (length {A = Entry}) kept, room);
                  } in
                  let same_view : view grown.1 ≡ view impl = ap map_of kept in
                  let agreed : Agreed kernel watched laws grown.1 c.1 = λ f g.
                    laws.calloc grown.2 f g
                    ∙ watching f g
                    ∙ a f g
                    ∙ sym (ap (λ xs. shown f (entry g xs)) kept) in
                  let r = kqueue_register kernel c.1 grown.1 c.0 source in
                  let done =
                    kqueue_register-Refines kernel watched laws c.1 grown.1 c.0 source
                      (omega (arith, ap (length {A = Entry}) kept, room)) (ap (entry fd) kept ∙ l)
                      table agreed in
                  subst (Refines kernel watched laws op impl) (sym e) (
                    subst
                      (λ m.
                        Outcome op m (view r.1) (Agreed kernel watched laws r.1 r.2) r.0
                        × IsSound r.1)
                      same_view done)
            ]
      ]

  -- `kqueue_add_common`, `kqueue_modify_common` and `kqueue_remove_common` on a table that has no socket twice,
  -- fits its memory and agrees with what the kernel watches: for each source the filters that its
  -- events ask for, with its address, and nothing else. When `kevent` succeeds it makes all changes, and
  -- a deleted filter is not watched any more. With SOCKIFY_OK or SOCKIFY_ERR_INVALID a call returned
  -- what a map from sockets to sources would, the table shows the map's new contents, and the kernel
  -- agrees with it. With SOCKIFY_ERR_NOMEM the map is as before and the kernel still agrees. With
  -- SOCKIFY_ERR_SYS the map is as before. The table has no socket twice and fits its memory again.
  pub kqueue_apply-Refines :
      (op : Op) (w : W) (impl : Kqueue)
      → IsSound impl
      → Agreed kernel watched laws impl w
      → Refines kernel watched laws op impl (kqueue_apply op w impl)
  kqueue_apply-Refines (add fd events callback) w impl t a =
      kqueue_add-Refines w impl fd events callback t a
  kqueue_apply-Refines (modify fd events) w impl t a = kqueue_modify-Refines w impl fd events t a
  kqueue_apply-Refines (remove fd) w impl t a = kqueue_remove-Refines w impl fd t a
