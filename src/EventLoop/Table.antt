-- ===== src/EventLoop/Table.antt =====
-- A table of entries, each with a socket, as a map from sockets. `no_source` is what stands past the end.
use sockify.Prelude.{
  ℕ, zero, suc, ◌+◌, ◌-◌, ◌≤◌, ◌≡◌, refl, sym, ap, ◌∙◌, ◌⊎◌, inl, inr, true, false, Option, none,
  some, List, [], ◌∷◌, ◌++◌, length-set, length-take, arith, ltb, ◌==◌, if◌then◌else◌, length,
  get_or, set, take, Bool-cases,
}
use mathlib.Core.Path.{subst}
use sockify.EventLoop.{find_from}

module _ {A : Type 0} (fd_of : A → ℕ) (no_source : A) where
  -- The entry of a socket.
  unfoldable pub lookup : ℕ → List A → Option A
  lookup fd [] = none
  lookup fd (s ∷ rest) = if fd_of s == fd then some s else lookup fd rest

  -- No socket has two sources.
  abbrev pub Distinct : List A → Type 0
  Distinct [] = Unit
  Distinct (s ∷ rest) = (lookup (fd_of s) rest ≡ none) × Distinct rest

  -- The first source of the socket stands at the index.
  abbrev pub Found : List A → ℕ → ℕ → Type 0
  Found [] fd i = ⊥
  Found (s ∷ rest) fd zero = (fd_of s == fd) ≡ true
  Found (s ∷ rest) fd (suc i) = ((fd_of s == fd) ≡ false) × Found rest fd i

  pub find_from-cases :
      (xs : List A) (fd k : ℕ)
      → ((find_from fd_of xs fd k ≡ none) × (lookup fd xs ≡ none))
        ⊎ ((i : ℕ) × (find_from fd_of xs fd k ≡ some (k + i))
            × Found xs fd i
            × (lookup fd xs ≡ some (get_or xs i no_source)))
  unfolding find_from lookup
  find_from-cases [] fd k = inl (refl, refl)
  find_from-cases (s ∷ rest) fd k = elim (Bool-cases (fd_of s == fd)) [
    | inl e ↦ inr (zero, rw e (ap some (omega arith)), e, rw e refl)
    | inr e ↦ elim (find_from-cases rest fd (k + 1)) [
      | inl (f, l) ↦ inl (rw (e, f) refl, rw e l)
      | inr (i, f, found, l) ↦ inr (suc i, rw (e, f) (ap some (omega arith)), (e, found), rw e l)
    ]
  ]

  -- A change of the source at the index that keeps its socket.
  pub lookup-set :
      (xs : List A) (fd i : ℕ) (s' : A) (g : ℕ)
      → Found xs fd i
      → fd_of s' ≡ fd_of (get_or xs i no_source)
      → lookup g (set xs i s') ≡ (if fd == g then some s' else lookup g xs)
  unfolding lookup
  lookup-set [] fd i s' g f e = absurd f
  lookup-set (s ∷ rest) fd zero s' g f e = ground (arith, f, e)
  lookup-set (s ∷ rest) fd (suc i) s' g f e = ground (arith, f.0, lookup-set rest fd i s' g f.1 e)

  -- What `poll_remove` makes of the list.
  abbrev pub removed : List A → ℕ → List A
  removed xs i =
      take (length xs - 1)
        (if ltb (i + 1) (length xs) then set xs i (get_or xs (length xs - 1) no_source) else xs)

  -- The last source in front of the others.
  abbrev rotated : A → List A → List A
  rotated s rest = get_or (s ∷ rest) (length rest) no_source ∷ take (length rest) (s ∷ rest)

  lookup-rotated :
      (s : A) (rest : List A) (g : ℕ)
      → Distinct (s ∷ rest)
      → lookup g (rotated s rest) ≡ lookup g (s ∷ rest)
  unfolding lookup
  lookup-rotated s [] g d = ground arith
  lookup-rotated s (t ∷ rest) g d =
      let later = lookup-rotated t rest g d.1 in
      elim (Bool-cases (fd_of s == g)) [
        | inr e ↦ rw e later
        | inl e ↦
            let same : fd_of s ≡ g = ground (arith, e) in
            let missing : lookup g (t ∷ rest) ≡ none =
              subst (λ h. lookup h (t ∷ rest) ≡ none) same d.0 in
            ground (arith, e, later, missing)
      ]

  removed_first : (s t : A) (rest : List A) → removed (s ∷ t ∷ rest) 0 ≡ rotated t rest
  removed_first s t rest =
      let last : suc (suc (length rest)) - 1 ≡ suc (length rest) = omega arith in
      let more : ltb (0 + 1) (suc (suc (length rest))) ≡ true = ground arith in rw (last, more) refl

  removed_later :
      (s t : A) (rest : List A) (i : ℕ) → removed (s ∷ t ∷ rest) (suc i) ≡ s ∷ removed (t ∷ rest) i
  removed_later s t rest i =
      let m = length rest in
      let last : suc (suc m) - 1 ≡ suc m = omega arith in
      let last' : suc m - 1 ≡ m = omega arith in
      elim (Bool-cases (ltb (i + 1) (suc m))) [
        | inl e ↦
            let e' : ltb (suc i + 1) (suc (suc m)) ≡ true = ground (arith, e) in
            rw (last, last', e, e') refl
        | inr e ↦
            let e' : ltb (suc i + 1) (suc (suc m)) ≡ false = ground (arith, e) in
            rw (last, last', e, e') refl
      ]

  -- A list that loses one source misses that socket and no other.
  pub lookup-removed :
      (xs : List A) (fd i g : ℕ)
      → Found xs fd i
      → Distinct xs
      → lookup g (removed xs i) ≡ (if fd == g then none else lookup g xs)
  unfolding lookup
  lookup-removed [] fd i g f d = absurd f
  lookup-removed (s ∷ []) fd zero g f d = ground (arith, f)
  lookup-removed (s ∷ []) fd (suc i) g f d = absurd f.1
  lookup-removed (s ∷ t ∷ rest) fd zero g f d =
      let moved = lookup-rotated t rest g d.1 in
      let same : fd_of s ≡ fd = ground (arith, f) in
      let missing : lookup fd (t ∷ rest) ≡ none =
        subst (λ h. lookup h (t ∷ rest) ≡ none) same d.0 in
      elim (Bool-cases (fd == g)) [
        | inl e ↦
            let here : fd ≡ g = ground (arith, e) in
            let gone : lookup g (t ∷ rest) ≡ none =
              subst (λ h. lookup h (t ∷ rest) ≡ none) here missing in
            rw e (ap (lookup g) (removed_first s t rest) ∙ moved ∙ gone)
        | inr e ↦
            let other : (fd_of s == g) ≡ false = ground (arith, e, same) in
            rw (e, other) (ap (lookup g) (removed_first s t rest) ∙ moved)
      ]
  lookup-removed (s ∷ t ∷ rest) fd (suc i) g f d =
      let later = lookup-removed (t ∷ rest) fd i g f.1 d.1 in
      elim (Bool-cases (fd_of s == g)) [
        | inl e ↦
            let other : (fd == g) ≡ false = ground (arith, e, f.0) in
            rw (e, other) (ap (lookup g) (removed_later s t rest i) ∙ rw e refl)
        | inr e ↦ rw e (ap (lookup g) (removed_later s t rest i) ∙ rw e later)
      ]

  pub Distinct-set :
      (xs : List A) (fd i : ℕ) (s' : A)
      → Found xs fd i
      → fd_of s' ≡ fd_of (get_or xs i no_source)
      → Distinct xs
      → Distinct (set xs i s')
  Distinct-set [] fd i s' f e d = absurd f
  Distinct-set (s ∷ rest) fd zero s' f e d = (subst (λ h. lookup h rest ≡ none) (sym e) d.0, d.1)
  Distinct-set (s ∷ rest) fd (suc i) s' f e d =
      let other : (fd == fd_of s) ≡ false = ground (arith, f.0) in
      (lookup-set rest fd i s' (fd_of s) f.1 e ∙ rw other d.0, Distinct-set rest fd i s' f.1 e d.1)

  Distinct-rotated : (s : A) (rest : List A) → Distinct (s ∷ rest) → Distinct (rotated s rest)
  unfolding lookup
  Distinct-rotated s [] d = d
  Distinct-rotated s (t ∷ rest) d =
      let later = Distinct-rotated t rest d.1 in
      let missing : lookup (fd_of s) (rotated t rest) ≡ none =
        lookup-rotated t rest (fd_of s) d.1 ∙ d.0 in
      (ground (arith, later.0, missing), (ground (arith, missing), later.1))

  pub Distinct-removed :
      (xs : List A) (fd i : ℕ) → Found xs fd i → Distinct xs → Distinct (removed xs i)
  Distinct-removed [] fd i f d = absurd f
  Distinct-removed (s ∷ []) fd zero f d = tt
  Distinct-removed (s ∷ []) fd (suc i) f d = absurd f.1
  Distinct-removed (s ∷ t ∷ rest) fd zero f d =
      subst Distinct (sym (removed_first s t rest)) (Distinct-rotated t rest d.1)
  Distinct-removed (s ∷ t ∷ rest) fd (suc i) f d =
      let other : (fd == fd_of s) ≡ false = ground (arith, f.0) in
      subst Distinct (sym (removed_later s t rest i)) (
        lookup-removed (t ∷ rest) fd i (fd_of s) f.1 d.1 ∙ rw other d.0,
        Distinct-removed (t ∷ rest) fd i f.1 d.1,
      )

  pub lookup-add :
      (xs : List A) (s : A) (g : ℕ)
      → lookup (fd_of s) xs ≡ none
      → lookup g (xs ++ (s ∷ [])) ≡ (if fd_of s == g then some s else lookup g xs)
  unfolding lookup
  lookup-add [] s g h = refl
  lookup-add (t ∷ xs) s g h =
      let later : lookup (fd_of s) xs ≡ none = ground (arith, h) in
      ground (arith, h, lookup-add xs s g later)

  pub Distinct-add :
      (xs : List A) (s : A) → lookup (fd_of s) xs ≡ none → Distinct xs → Distinct (xs ++ (s ∷ []))
  unfolding lookup
  Distinct-add [] s h d = (refl, tt)
  Distinct-add (t ∷ xs) s h d =
      let later : lookup (fd_of s) xs ≡ none = ground (arith, h) in
      let other : (fd_of s == fd_of t) ≡ false = ground (arith, h) in
      (lookup-add xs s (fd_of t) later ∙ rw other d.0, Distinct-add xs s later d.1)

  pub Found-length : (xs : List A) (fd i : ℕ) → Found xs fd i → suc i ≤ length xs
  Found-length [] fd i f = absurd f
  Found-length (s ∷ rest) fd zero f = omega arith
  Found-length (s ∷ rest) fd (suc i) f = omega (arith, Found-length rest fd i f.1)

  pub Found-fd : (xs : List A) (fd i : ℕ) → Found xs fd i → fd_of (get_or xs i no_source) ≡ fd
  Found-fd [] fd i f = absurd f
  Found-fd (s ∷ rest) fd zero f = ground (arith, f)
  Found-fd (s ∷ rest) fd (suc i) f = Found-fd rest fd i f.1

  pub length-removed : (xs : List A) (i : ℕ) → length (removed xs i) ≤ length xs
  length-removed xs i = elim (Bool-cases (ltb (i + 1) (length xs))) [
    | inl e ↦ rw e (
        omega (
          arith,
          length-take (length xs - 1) (set xs i (get_or xs (length xs - 1) no_source)),
          length-set xs i (get_or xs (length xs - 1) no_source),
        ))
    | inr e ↦ rw e (omega (arith, length-take (length xs - 1) xs))
  ]
