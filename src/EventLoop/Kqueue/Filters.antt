-- ===== src/EventLoop/Kqueue/Filters.antt =====
-- What `update_filters` makes the kernel watch.
use sockify.Prelude.{
  ℕ, ◌≡◌, refl, sym, ap, ◌∙◌, ◌⊎◌, inl, inr, Bool, true, false, ◌&&◌, Option, none, some, List, [],
  ◌∷◌, ◌++◌, arith, ◌==◌, ==_iff, &&-eq-true, if◌then◌else◌, Bool-cases,
}
use sockify.EventLoop.Epoll.{Entry}
use sockify.EventLoop.Kqueue.{
  Filter, evfilt_read, evfilt_write, evfilt_other, Change, Kernel, filter_change, changes_of,
  update_filters, delete_filter,
}
use sockify.Session.Events.{event_read, event_write, has_event}
use sockify.Status.{Status, ok, err_sys}

abbrev pub same_filter : Filter → Filter → Bool
same_filter evfilt_read evfilt_read = true
same_filter evfilt_write evfilt_write = true
same_filter evfilt_other evfilt_other = true
same_filter _ _ = false

-- The address that the kernel has for a filter and a socket.
abbrev pub Watched : Type 0
Watched = Filter → ℕ → Option ℕ

abbrev pub put : Filter → ℕ → Option ℕ → Watched → Watched
put filter fd x m f g = if same_filter filter f && (fd == g) then x else m f g

abbrev pub change : Change → Watched → Watched
change c m = put c.filter c.fd (if c.add then some c.pointer else none) m

abbrev pub applied : List Change → Watched → Watched
applied [] m = m
applied (c ∷ cs) m = applied cs (change c m)

-- kqueue(2): when `kevent` succeeds all the changes are made, and when it deletes one filter, that filter is
-- not watched afterwards, whatever it returns. The memory functions change nothing that is watched.
pub record Watches {W : Type 0} (kernel : Kernel W) (watched : W → Watched) : Type 0 where
  pub realloc : (w : W) (f : Filter) (g : ℕ) → watched (kernel.realloc w).1 f g ≡ watched w f g
  pub calloc : (w : W) (f : Filter) (g : ℕ) → watched (kernel.calloc w).1 f g ≡ watched w f g
  pub free : (w : W) (p : ℕ) (f : Filter) (g : ℕ) → watched (kernel.free w p) f g ≡ watched w f g
  pub kevent :
      (w : W) (cs : List Change) (f : Filter) (g : ℕ)
      → (kernel.kevent w cs).0 ≡ true
      → watched (kernel.kevent w cs).1 f g ≡ applied cs (watched w) f g
  pub delete :
      (w : W) (fd p : ℕ) (filter f : Filter) (g : ℕ)
      → watched
          (kernel.kevent w (record { fd = fd; filter = filter; add = false; pointer = p } ∷ [])).1
          f
          g
        ≡ put filter fd none (watched w) f g

-- The filters that events ask for.
abbrev pub wants : Filter → ℕ → Bool
wants evfilt_read events = has_event events event_read
wants evfilt_write events = has_event events event_write
wants evfilt_other events = false

abbrev pub asked : Bool → ℕ → Option ℕ
asked b p = if b then some p else none

applied-append :
    (xs ys : List Change) (m : Watched) → applied (xs ++ ys) m ≡ applied ys (applied xs m)
applied-append [] ys m = refl
applied-append (x ∷ xs) ys m = applied-append xs ys (change x m)

same_filter-eq : (f f' : Filter) → same_filter f f' ≡ true → f ≡ f'
same_filter-eq evfilt_read evfilt_read e = refl
same_filter-eq evfilt_write evfilt_write e = refl
same_filter-eq evfilt_other evfilt_other e = refl
same_filter-eq evfilt_read evfilt_write e = absurd (ground arith)
same_filter-eq evfilt_read evfilt_other e = absurd (ground arith)
same_filter-eq evfilt_write evfilt_read e = absurd (ground arith)
same_filter-eq evfilt_write evfilt_other e = absurd (ground arith)
same_filter-eq evfilt_other evfilt_read e = absurd (ground arith)
same_filter-eq evfilt_other evfilt_write e = absurd (ground arith)

-- Where a filter is as it should be, putting it there changes nothing.
put-same :
    (filter : Filter) (fd : ℕ) (x : Option ℕ) (m : Watched) (f : Filter) (g : ℕ)
    → m filter fd ≡ x
    → m f g ≡ put filter fd x m f g
put-same filter fd x m f g h = elim (Bool-cases (same_filter filter f && (fd == g))) [
  | inr e ↦ rw e refl
  | inl e ↦
      let (a, b) = &&-eq-true (same_filter filter f) (fd == g) e in
      rw e (
        sym (ap (λ (k : Filter). m k g) (same_filter-eq filter f a))
        ∙ sym (ap (m filter) ((==_iff fd g).0 b))
        ∙ h)
]

applied-filter_change :
    (e : Entry) (filter : Filter) (old new : Bool) (m : Watched) (f : Filter) (g : ℕ)
    → m filter e.source.fd ≡ asked old e.pointer
    → applied (filter_change e filter old new) m f g
      ≡ put filter e.source.fd (asked new e.pointer) m f g
unfolding filter_change
applied-filter_change e filter true true m f g h = put-same filter e.source.fd _ m f g h
applied-filter_change e filter false false m f g h = put-same filter e.source.fd _ m f g h
applied-filter_change e filter true false m f g h = refl
applied-filter_change e filter false true m f g h = refl

-- The changes of `update_filters`, on a kernel that watches the source for the old events.
applied-changes_of :
    (e : Entry) (old new : ℕ) (m : Watched) (f : Filter) (g : ℕ)
    → ((f : Filter) → m f e.source.fd ≡ asked (wants f old) e.pointer)
    → applied (changes_of e old new) m f g
      ≡ (if e.source.fd == g then asked (wants f new) e.pointer else m f g)
unfolding changes_of
applied-changes_of e old new m f g h =
    let reads = filter_change e evfilt_read (has_event old event_read) (has_event new event_read) in
    let writes =
      filter_change e evfilt_write (has_event old event_write) (has_event new event_write) in
    let m1 : Watched = applied reads m in
    let after_reads : (f : Filter) (g : ℕ)
        → m1 f g ≡ put evfilt_read e.source.fd (asked (has_event new event_read) e.pointer) m f g =
      λ f g.
        applied-filter_change e evfilt_read (has_event old event_read) (has_event new event_read) m
          f g (h evfilt_read) in
    let after_writes : (f : Filter) (g : ℕ)
        → applied writes m1 f g
          ≡ put evfilt_write e.source.fd (asked (has_event new event_write) e.pointer) m1 f g =
      λ f g.
        applied-filter_change e evfilt_write (has_event old event_write) (has_event new event_write)
          m1 f g (after_reads evfilt_write e.source.fd ∙ h evfilt_write) in
    ap (λ (k : Watched). k f g) (applied-append reads writes m)
    ∙ after_writes f g
    ∙ both f (after_reads f g)
  where
    m1 : Watched
    m1 =
        applied (filter_change e evfilt_read (has_event old event_read) (has_event new event_read))
          m

    both :
        (f : Filter)
        → m1 f g ≡ put evfilt_read e.source.fd (asked (has_event new event_read) e.pointer) m f g
        → put evfilt_write e.source.fd (asked (has_event new event_write) e.pointer) m1 f g
          ≡ (if e.source.fd == g then asked (wants f new) e.pointer else m f g)
    both evfilt_read k = k
    both evfilt_write k = elim (Bool-cases (e.source.fd == g)) [
      | inl here ↦ rw here refl
      | inr there ↦ rw there k
    ]
    both evfilt_other k = k ∙ elim (Bool-cases (e.source.fd == g)) [
      | inr there ↦ rw there refl
      | inl here ↦
          rw here (sym (ap (m evfilt_other) ((==_iff e.source.fd g).0 here)) ∙ h evfilt_other)
    ]

module _ {W : Type 0} (kernel : Kernel W) (watched : W → Watched)
    (laws : Watches kernel watched) where
  -- When `update_filters` succeeds the kernel watches the source for the new events, and nothing else changes.
  pub update_filters-watched :
      (w : W) (e : Entry) (old new : ℕ)
      → ((f : Filter) → watched w f e.source.fd ≡ asked (wants f old) e.pointer)
      → (update_filters kernel w e old new).0 ≡ ok
      → (f : Filter) (g : ℕ)
      → watched (update_filters kernel w e old new).1 f g
        ≡ (if e.source.fd == g then asked (wants f new) e.pointer else watched w f g)
  unfolding update_filters
  update_filters-watched w e old new h done f g =
      go (changes_of e old new) done ∙ applied-changes_of e old new (watched w) f g h
    where
      go :
          (cs : List Change)
          → let r : Status × W = elim cs [
            | [] ↦ (ok, w)
            | c ∷ cs ↦
                let (done, w1) = kernel.kevent w (c ∷ cs) in (if done then ok else err_sys, w1)
          ] in
            r.0 ≡ ok → watched r.1 f g ≡ applied cs (watched w) f g
      go [] done = refl
      go (c ∷ cs) done = elim (Bool-cases (kernel.kevent w (c ∷ cs)).0) [
        | inl e ↦ laws.kevent w (c ∷ cs) f g e
        | inr e ↦ absurd (ground (arith, done, e))
      ]

  -- `kqueue_remove_common` takes a filter off the kernel where the source asked for it.
  pub delete_filter-watched :
      (w : W) (e : Entry) (filter f : Filter) (bit g : ℕ)
      → watched w filter e.source.fd ≡ asked (has_event e.source.events bit) e.pointer
      → watched (delete_filter kernel w e filter bit) f g
        ≡ put filter e.source.fd none (watched w) f g
  unfolding delete_filter
  delete_filter-watched w e filter f bit g h = elim (Bool-cases (has_event e.source.events bit)) [
    | inl asks ↦ rw asks (laws.delete w e.source.fd e.pointer filter f g)
    | inr no_more ↦
        rw no_more (
          put-same filter e.source.fd none (watched w) f g
            (h ∙ ap (λ b. asked b e.pointer) no_more))
  ]

  pub update_filters-cases :
      (w : W) (e : Entry) (old new : ℕ)
      → ((update_filters kernel w e old new).0 ≡ ok)
        ⊎ ((update_filters kernel w e old new).0 ≡ err_sys)
  unfolding update_filters
  update_filters-cases w e old new = go (changes_of e old new)
    where
      go :
          (cs : List Change)
          → let r : Status × W = elim cs [
            | [] ↦ (ok, w)
            | c ∷ cs ↦
                let (done, w1) = kernel.kevent w (c ∷ cs) in (if done then ok else err_sys, w1)
          ] in
            (r.0 ≡ ok) ⊎ (r.0 ≡ err_sys)
      go [] = inl refl
      go (c ∷ cs) = elim (Bool-cases (kernel.kevent w (c ∷ cs)).0) [
        | inl e ↦ inl (rw e refl)
        | inr e ↦ inr (rw e refl)
      ]

  -- Both calls of `kevent` in `kqueue_remove_common`.
  pub delete_both-watched :
      (w : W) (e : Entry) (f : Filter) (g : ℕ)
      → ((f : Filter) → watched w f e.source.fd ≡ asked (wants f e.source.events) e.pointer)
      → watched
          (delete_filter kernel
            (delete_filter kernel w e evfilt_read event_read)
            e
            evfilt_write
            event_write)
          f
          g
        ≡ (if e.source.fd == g then none else watched w f g)
  delete_both-watched w e f g h =
      let w1 = delete_filter kernel w e evfilt_read event_read in
      let first : (f : Filter) (g : ℕ)
          → watched w1 f g ≡ put evfilt_read e.source.fd none (watched w) f g =
        λ f g. delete_filter-watched w e evfilt_read f event_read g (h evfilt_read) in
      delete_filter-watched w1 e evfilt_write f event_write g
        (first evfilt_write e.source.fd ∙ h evfilt_write)
      ∙ both f (first f g)
    where
      w1 : W
      w1 = delete_filter kernel w e evfilt_read event_read

      both :
          (f : Filter)
          → watched w1 f g ≡ put evfilt_read e.source.fd none (watched w) f g
          → put evfilt_write e.source.fd none (watched w1) f g
            ≡ (if e.source.fd == g then none else watched w f g)
      both evfilt_read k = k
      both evfilt_write k = elim (Bool-cases (e.source.fd == g)) [
        | inl here ↦ rw here refl
        | inr there ↦ rw there k
      ]
      both evfilt_other k = k ∙ elim (Bool-cases (e.source.fd == g)) [
        | inr there ↦ rw there refl
        | inl here ↦
            rw here
              (sym (ap (watched w evfilt_other) ((==_iff e.source.fd g).0 here)) ∙ h evfilt_other)
      ]

pub wants-zero : (f : Filter) → wants f 0 ≡ false
wants-zero evfilt_read = refl
wants-zero evfilt_write = refl
wants-zero evfilt_other = refl
