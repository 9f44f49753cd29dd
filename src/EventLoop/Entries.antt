-- ===== src/EventLoop/Entries.antt =====
-- Tables of sources at addresses, as the epoll and the kqueue backend keep them: the map that a table stands
-- for, and how it changes with the entry of one socket.
use sockify.Prelude.{
  ℕ, ◌≤◌, ◌<◌, ◌≡◌, refl, sym, ap, ◌∙◌, inl, inr, Option, none, some, List, [], ◌∷◌, ◌++◌, ◌==◌,
  if◌then◌else◌, Bool-cases, arith, length, length-append, length-set, get_or, set,
}
use sockify.EventLoop.{Source}
use sockify.EventLoop.Epoll.{Entry, no_entry}
use sockify.EventLoop.Spec.{Op, Map, put, specified}
use sockify.EventLoop.Table.{
  lookup, Distinct, Found, removed, length-removed, Distinct-removed, Distinct-set, Distinct-add,
}
use sockify.Status.{Status, ok, err_invalid}

abbrev pub entry_fd : Entry → ℕ
entry_fd e = e.source.fd

abbrev pub entry : ℕ → List Entry → Option Entry
entry g xs = lookup entry_fd no_entry g xs

abbrev pub source_of : Option Entry → Option Source
source_of none = none
source_of (some e) = some e.source

-- The map of a table.
abbrev pub map_of : List Entry → Map
map_of xs g = source_of (entry g xs)

abbrev pub SameMap : Map → Map → Type 0
SameMap m m' = (g : ℕ) → m' g ≡ m g

-- The entry of one socket changes.
abbrev pub Changed : ℕ → Option Entry → List Entry → List Entry → Type 0
Changed fd x xs xs' = (g : ℕ) → entry g xs' ≡ (if fd == g then x else entry g xs)

map_of-Changed :
    (fd : ℕ) (x : Option Entry) (xs xs' : List Entry)
    → Changed fd x xs xs'
    → SameMap (put fd (source_of x) (map_of xs)) (map_of xs')
map_of-Changed fd x xs xs' h g = elim (Bool-cases (fd == g)) [
  | inl e ↦ rw e (ap source_of (h g ∙ rw e refl))
  | inr e ↦ rw e (ap source_of (h g ∙ rw e refl))
]

-- The map that a call specifies, when the entry of its socket changes as specified.
pub specified_map :
    (op : Op) (fd : ℕ) (x : Option Entry) (xs xs' : List Entry)
    → specified op (map_of xs) ≡ (ok, put fd (source_of x) (map_of xs))
    → Changed fd x xs xs'
    → (ok ≡ (specified op (map_of xs)).0) × SameMap (specified op (map_of xs)).1 (map_of xs')
specified_map op fd x xs xs' s h = (
  sym (ap (λ (u : Status × Map). u.0) s),
  λ g. map_of-Changed fd x xs xs' h g ∙ sym (ap (λ (u : Status × Map). u.1 g) s),
)

-- The map that a refused call specifies.
pub refused_map :
    (op : Op) (xs : List Entry)
    → specified op (map_of xs) ≡ (err_invalid, map_of xs)
    → (err_invalid ≡ (specified op (map_of xs)).0)
      × SameMap (specified op (map_of xs)).1 (map_of xs)
refused_map op xs s =
    (sym (ap (λ (u : Status × Map). u.0) s), λ g. sym (ap (λ (u : Status × Map). u.1 g) s))

-- No socket has two sources, and the sources fit the memory.
pub record IsTable (sources : List Entry) (capacity : ℕ) : Type 0 where
  pub distinct : Distinct entry_fd no_entry sources
  pub fits : length sources ≤ capacity

module _ (xs : List Entry) (capacity : ℕ) (t : IsTable xs capacity) where
  pub IsTable-removed :
      (fd i : ℕ)
      → Found entry_fd no_entry xs fd i
      → IsTable (removed entry_fd no_entry xs i) capacity
  IsTable-removed fd i found = record {
    distinct = Distinct-removed entry_fd no_entry xs fd i found t.distinct;
    fits = omega (arith, length-removed entry_fd no_entry xs i, t.fits);
  }

  pub IsTable-set :
      (fd i : ℕ) (x : Entry)
      → Found entry_fd no_entry xs fd i
      → x.source.fd ≡ entry_fd (get_or xs i no_entry)
      → IsTable (set xs i x) capacity
  IsTable-set fd i x found e = record {
    distinct = Distinct-set entry_fd no_entry xs fd i x found e t.distinct;
    fits = omega (arith, length-set xs i x, t.fits);
  }

  pub IsTable-add :
      (x : Entry)
      → entry x.source.fd xs ≡ none
      → length xs < capacity
      → IsTable (xs ++ (x ∷ [])) capacity
  IsTable-add x absent room = record {
    distinct = Distinct-add entry_fd no_entry xs x absent t.distinct;
    fits = omega (arith, length-append xs (x ∷ []), room);
  }
