-- ===== src/Text/Laws.antt =====
-- What the helpers on text compute.
use mathlib.Core.List.{map}
use sockify.Prelude.{
  ℕ, zero, suc, ◌≤◌, ◌<◌, ◌≡◌, refl, sym, ap, ◌∙◌, Bool, true, false, [], ◌∷◌, ◌++◌, append-nil,
  append_assoc, Bytes, All, arith, same_text, length, length-append, get_or, take, take-ge,
}
use sockify.Text.{ascii_tolower, ci_equal_n, is_blank, trim_left, trim_right, trim_span}

-- Texts that are the same but for the case of ASCII letters.
pub ci_equal_n-map :
    (xs ys : Bytes)
    → length xs ≡ length ys
    → ci_equal_n xs ys (length xs) ≡ same_text (map ascii_tolower xs) (map ascii_tolower ys)
unfolding ci_equal_n same_text
ci_equal_n-map [] [] e = refl
ci_equal_n-map [] (y ∷ ys) e = absurd (omega arith)
ci_equal_n-map (x ∷ xs) [] e = absurd (omega arith)
ci_equal_n-map (x ∷ xs) (y ∷ ys) e = rw (ci_equal_n-map xs ys (omega arith))

-- Bytes of no kind that a test accepts.
abbrev pub No : (ℕ → Bool) → Bytes → Type 0
No test = All (λ c. test c ≡ false)

trim_left-blank :
    (l xs : Bytes) → All (λ c. is_blank c ≡ true) l → trim_left (l ++ xs) ≡ trim_left xs
unfolding trim_left
trim_left-blank [] xs h = refl
trim_left-blank (x ∷ l) xs h = rw h.0 (trim_left-blank l xs h.1)

get_or-append_left : (xs ys : Bytes) (i : ℕ) → i < length xs → get_or (xs ++ ys) i 0 ≡ get_or xs i 0
get_or-append_left [] ys i h = absurd (omega arith)
get_or-append_left (x ∷ xs) ys zero h = refl
get_or-append_left (x ∷ xs) ys (suc i) h = get_or-append_left xs ys i (omega arith)

get_or-append_at : (xs : Bytes) (y : ℕ) (ys : Bytes) → get_or (xs ++ (y ∷ ys)) (length xs) 0 ≡ y
get_or-append_at [] y ys = refl
get_or-append_at (x ∷ xs) y ys = get_or-append_at xs y ys

take-append_left : (n : ℕ) (xs ys : Bytes) → n ≤ length xs → take n (xs ++ ys) ≡ take n xs
take-append_left zero xs ys h = refl
take-append_left (suc n) [] ys h = absurd (omega arith)
take-append_left (suc n) (x ∷ xs) ys h = ap (◌∷◌ x) (take-append_left n xs ys (omega arith))

-- The end of a span is cut as if the bytes behind it were not there.
trim_right-append :
    (n : ℕ) (xs ys : Bytes) → n ≤ length xs → trim_right n (xs ++ ys) ≡ trim_right n xs
unfolding trim_right
trim_right-append zero xs ys h = refl
trim_right-append (suc n) xs ys h = rw (
  get_or-append_left xs ys n (omega arith),
  trim_right-append n xs ys (omega arith),
  take-append_left (suc n) xs ys h,
)

trim_right-blank :
    (xs r : Bytes)
    → All (λ c. is_blank c ≡ true) r
    → trim_right (length (xs ++ r)) (xs ++ r) ≡ trim_right (length xs) xs
unfolding trim_right
trim_right-blank xs [] h = rw append-nil
trim_right-blank xs (y ∷ r) h =
    let moved : xs ++ (y ∷ r) ≡ (xs ++ (y ∷ [])) ++ r = sym (append_assoc xs (y ∷ []) r) in
    let size : length (xs ++ (y ∷ [])) ≡ suc (length xs) =
      omega (arith, length-append xs (y ∷ [])) in
    ap (λ l. trim_right (length l) l) moved
    ∙ trim_right-blank (xs ++ (y ∷ [])) r h.1
    ∙ ap (λ n. trim_right n (xs ++ (y ∷ []))) size
    ∙ rw (get_or-append_at xs y [], h.0) (trim_right-append (length xs) xs (y ∷ []) (omega arith))

-- A span that neither begins nor ends with a blank.
abbrev pub IsTrimmed : Bytes → Type 0
IsTrimmed [] = Unit
IsTrimmed (x ∷ xs) = (is_blank x ≡ false) × (is_blank (get_or (x ∷ xs) (length xs) 0) ≡ false)

-- `trim_span` on a text that neither begins nor ends with a space or a tab, between any spaces and
-- tabs, gives that text back.
pub trim_span-append :
    (l core r : Bytes)
    → All (λ c. is_blank c ≡ true) l
    → All (λ c. is_blank c ≡ true) r
    → IsTrimmed core
    → trim_span (l ++ (core ++ r)) ≡ core
unfolding trim_span
trim_span-append l core r hl hr t =
    ap (λ s. trim_right (length s) s) (trim_left-blank l (core ++ r) hl) ∙ go core t
  where
    all_blank : (r : Bytes) → All (λ c. is_blank c ≡ true) r → trim_left r ≡ []
    all_blank [] h = refl
    all_blank (x ∷ r) h = rw h.0 (all_blank r h.1)

    go :
        (core : Bytes)
        → IsTrimmed core
        → trim_right (length (trim_left (core ++ r))) (trim_left (core ++ r)) ≡ core
    go [] t = rw (all_blank r hr)
    go (x ∷ xs) t = rw t.0 (
        trim_right-blank (x ∷ xs) r hr ∙ rw t.1 (ap (◌∷◌ x) (take-ge (length xs) xs (omega arith))))
