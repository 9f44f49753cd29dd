-- ===== src/EventLoop/Refine.antt =====
-- The table of the poll backend refines a map from sockets to sources.
use sockify.Prelude.{
  ℕ, ◌+◌, ◌≤◌, ◌≡◌, refl, sym, ap, ◌∙◌, ◌⊎◌, ◌<◌, inl, inr, Bool, true, false, not, ◌&&◌, none,
  some, [], ◌∷◌, ◌++◌, arith, ltb, ◌==◌, if◌then◌else◌, length, length-append, length-set, get_or,
  set, Bool-cases,
}
use mathlib.Core.Path.{subst}
use sockify.EventLoop.{
  Source, Poll, no_source, find_from, poll_find, poll_grow, poll_add, poll_modify, poll_remove,
}
use sockify.EventLoop.Spec.{fd_of, Op, add, modify, remove, Map, put, specified}
use sockify.EventLoop.Table.{
  lookup, Distinct, Found-length, length-removed, find_from-cases, lookup-set, Distinct-set,
  removed, lookup-removed, Distinct-removed, lookup-add, Distinct-add,
}
use sockify.Status.{Status, ok, err_invalid, err_nomem, is_ok}

-- The Booleans say whether the two calls of `realloc` succeed, where there are any.
abbrev pub apply : Bool → Bool → Op → Poll → Status × Poll
apply first second (add fd events callback) impl = poll_add impl first second fd events callback
apply first second (modify fd events) impl = poll_modify impl fd events
apply first second (remove fd) impl = poll_remove impl fd

abbrev pub view : Poll → Map
view impl g = lookup fd_of no_source g impl.sources

-- No socket has two sources, and the sources fit the memory.
pub record IsTable (impl : Poll) : Type 0 where
  pub distinct : Distinct fd_of no_source impl.sources
  pub fits : length impl.sources ≤ impl.capacity

-- A call that needs memory for one more source, and does not get it.
abbrev pub OutOfMemory : Bool → Bool → Op → Poll → Type 0
OutOfMemory first second (add fd events callback) before =
    (view before fd ≡ none)
    × (length before.sources ≡ before.capacity)
    × ((first && second) ≡ false)
OutOfMemory first second _ before = ⊥

-- A call is as specified, or memory ran out and nothing changed. The type is what is to hold then.
abbrev pub Agrees : Type 0 → Poll → Status × Poll → Status × Map → Type 0
Agrees none_left before (err_nomem, after) m = none_left × (after ≡ before)
Agrees none_left before (rc, after) m = (rc ≡ m.0) × ((g : ℕ) → view after g ≡ m.1 g)

found_index :
    (impl : Poll) (fd i : ℕ)
    → find_from fd_of impl.sources fd 0 ≡ some (0 + i)
    → poll_find impl fd ≡ some i
unfolding poll_find
found_index impl fd i e = e ∙ ap some (omega arith)

-- A call that is as specified.
same_map :
    (rc : Status) (after : Poll) (m m' : Map) (r : Status × Map)
    → r ≡ (rc, m')
    → ((g : ℕ) → view after g ≡ m' g)
    → (rc ≡ r.0) × ((g : ℕ) → view after g ≡ r.1 g)
same_map rc after m m' r e h =
    (sym (ap (λ (u : Status × Map). u.0) e), λ g. h g ∙ sym (ap (λ (u : Status × Map). u.1 g) e))

poll_remove-Agrees :
    (impl : Poll) (fd : ℕ)
    → IsTable impl
    → Agrees ⊥ impl (poll_remove impl fd) (specified (remove fd) (view impl))
      × IsTable (poll_remove impl fd).1
unfolding poll_remove
poll_remove-Agrees impl fd t = elim (find_from-cases fd_of no_source impl.sources fd 0) [
  | inl (f, l) ↦
      let spec : specified (remove fd) (view impl) ≡ (err_invalid, view impl) =
        rw (specified, l) refl in
      let found : poll_find impl fd ≡ none = unfold poll_find in f in
      rw (poll_remove, found)
        (same_map err_invalid impl (view impl) (view impl) _ spec (λ g. refl), t)
  | inr (i, f, found, l) ↦
      let here = found_index impl fd i f in
      let size = Found-length fd_of no_source impl.sources fd i found in
      let spec : specified (remove fd) (view impl) ≡ (ok, put fd none (view impl)) =
        rw (specified, l) refl in
      let after : Poll = record impl { sources = removed fd_of no_source impl.sources i } in
      rw (poll_remove, here)
        (
          same_map ok after (view impl) (put fd none (view impl)) _ spec
              (λ g. lookup-removed fd_of no_source impl.sources fd i g found t.distinct),
          record {
            distinct = Distinct-removed fd_of no_source impl.sources fd i found t.distinct;
            fits = omega (arith, length-removed fd_of no_source impl.sources i, t.fits);
          },
        )
]

poll_modify-Agrees :
    (impl : Poll) (fd events : ℕ)
    → IsTable impl
    → Agrees ⊥ impl (poll_modify impl fd events) (specified (modify fd events) (view impl))
      × IsTable (poll_modify impl fd events).1
unfolding poll_modify
poll_modify-Agrees impl fd events t = elim (find_from-cases fd_of no_source impl.sources fd 0) [
  | inl (f, l) ↦
      let spec : specified (modify fd events) (view impl) ≡ (err_invalid, view impl) =
        rw (specified, l) refl in
      let found : poll_find impl fd ≡ none = unfold poll_find in f in
      rw (poll_modify, found)
        (same_map err_invalid impl (view impl) (view impl) _ spec (λ g. refl), t)
  | inr (i, f, found, l) ↦
      let here = found_index impl fd i f in
      let source : Source = get_or impl.sources i no_source in
      let changed : Source = record source { events = events } in
      let spec : specified (modify fd events) (view impl)
          ≡ (ok, put fd (some changed) (view impl)) =
        rw (specified, l) refl in
      let after : Poll = record impl { sources = set impl.sources i changed } in
      rw (poll_modify, here)
        (
          same_map ok after (view impl) (put fd (some changed) (view impl)) _ spec
              (λ g. lookup-set fd_of no_source impl.sources fd i changed g found refl),
          record {
            distinct = Distinct-set fd_of no_source impl.sources fd i changed found refl t.distinct;
            fits = omega (arith, length-set impl.sources i changed, t.fits);
          },
        )
]

-- `poll_grow` makes room for one more source, or memory ran out and nothing changed.
poll_grow-cases :
    (impl : Poll) (first second : Bool)
    → length impl.sources ≤ impl.capacity
    → (poll_grow impl first second ≡ (err_nomem, impl))
        × (length impl.sources ≡ impl.capacity)
        × ((first && second) ≡ false)
      ⊎ ((poll_grow impl first second).0 ≡ ok)
        × ((poll_grow impl first second).1.sources ≡ impl.sources)
        × (length impl.sources < (poll_grow impl first second).1.capacity)
unfolding poll_grow
poll_grow-cases impl first second fits =
    elim (Bool-cases (ltb (length impl.sources) impl.capacity)) [
      | inl e ↦ inr (rw (poll_grow, e) (refl, refl, ground (arith, e)))
      | inr e ↦ elim (Bool-cases (not (first && second))) [
        | inl bad ↦ inl (rw (poll_grow, e, bad) refl, ground (arith, e, fits), ground (arith, bad))
        | inr good ↦ inr (rw (poll_grow, e, good) (refl, refl, ground (arith, e)))
      ]
    ]

poll_add-Agrees :
    (impl : Poll) (first second : Bool) (fd events callback : ℕ)
    → IsTable impl
    → Agrees
        (OutOfMemory first second (add fd events callback) impl)
        impl
        (poll_add impl first second fd events callback)
        (specified (add fd events callback) (view impl))
      × IsTable (poll_add impl first second fd events callback).1
unfolding poll_add
poll_add-Agrees impl first second fd events callback t =
    let source : Source = record { fd = fd; events = events; callback = callback } in
    elim (find_from-cases fd_of no_source impl.sources fd 0) [
      | inr (i, f, found, l) ↦
          let here = found_index impl fd i f in
          let spec : specified (add fd events callback) (view impl) ≡ (err_invalid, view impl) =
            rw (specified, l) refl in
          rw (poll_add, here)
            (same_map err_invalid impl (view impl) (view impl) _ spec (λ g. refl), t)
      | inl (f, l) ↦
          let missing : poll_find impl fd ≡ none = unfold poll_find in f in
          let spec : specified (add fd events callback) (view impl)
              ≡ (ok, put fd (some source) (view impl)) =
            rw (specified, l) refl in
          elim (poll_grow-cases impl first second t.fits) [
            | inl (full, filled, refused) ↦
                let on_grown : Status × Poll → Status × Poll = λ r. elim (is_ok r.0) [
                  | false ↦ (r.0, r.1)
                  | true ↦ (ok, record r.1 { sources = r.1.sources ++ (source ∷ []) })
                ] in
                let failed : poll_add impl first second fd events callback ≡ (err_nomem, impl) =
                  rw (poll_add, missing) (ap on_grown full) in
                subst
                  (λ u.
                    Agrees (OutOfMemory first second (add fd events callback) impl) impl u
                      (specified (add fd events callback) (view impl))
                    × IsTable u.1)
                  (sym failed) (((l, filled, refused), refl), t)
            | inr (good, kept, room) ↦
                let grown = (poll_grow impl first second).1 in
                let after : Poll = record grown { sources = grown.sources ++ (source ∷ []) } in
                let absent : lookup fd_of no_source fd grown.sources ≡ none =
                  ap (lookup fd_of no_source fd) kept ∙ l in
                rw (poll_add, missing, good)
                  (
                    same_map ok after (view impl) (put fd (some source) (view impl)) _ spec (λ g.
                        lookup-add fd_of no_source grown.sources source g absent
                        ∙ ap (λ xs. if fd == g then some source else lookup fd_of no_source g xs)
                            kept),
                    record {
                      distinct =
                          Distinct-add fd_of no_source grown.sources source absent
                            (subst (Distinct fd_of no_source) (sym kept) t.distinct);
                      fits = omega (
                        arith,
                        length-append grown.sources (source ∷ []),
                        ap (length {A = Source}) kept,
                        room,
                      );
                    },
                  )
          ]
    ]

-- `poll_add`, `poll_modify` and `poll_remove` on a table that has no socket twice and fits its memory. Each
-- call returns what a map from sockets to sources would, and leaves a table that shows the map's new
-- contents. It returns SOCKIFY_ERR_NOMEM instead, and leaves the table as it was, only if it is `poll_add` for a
-- socket that the table lacks, the memory is full, and one of the calls of `realloc` fails. The table has no socket twice and fits its memory again.
pub apply-Agrees :
    (first second : Bool) (op : Op) (impl : Poll)
    → IsTable impl
    → Agrees
        (OutOfMemory first second op impl)
        impl
        (apply first second op impl)
        (specified op (view impl))
      × IsTable (apply first second op impl).1
apply-Agrees first second (add fd events callback) impl t =
    poll_add-Agrees impl first second fd events callback t
apply-Agrees first second (modify fd events) impl t = poll_modify-Agrees impl fd events t
apply-Agrees first second (remove fd) impl t = poll_remove-Agrees impl fd t
