-- ===== src/Handshake/Loops.antt =====
-- The loops over a request that is made of lines.
use mathlib.Core.List.{map}
use sockify.Prelude.{
  ℕ, zero, suc, ◌+◌, ◌≤◌, ◌<◌, ◌≡◌, refl, sym, ap, ◌∙◌, false, some, List, [], ◌∷◌, ◌++◌,
  append_assoc, Bytes, All, All-append, arith, leb, ◌==◌, length, length-append, take, drop,
  take-append, drop-append, drop-drop,
}
use sockify.Handshake.{
  crlf, at_crlf, at_blank_line, header_end_loop, line_length, name_length, Seen, note_header,
  note_line, headers_loop,
}
use sockify.Text.{trim_span}
use sockify.Text.Laws.{No}

-- Texts without a CR, as the lines of a request are.
abbrev pub IsLine : Bytes → Type 0
IsLine = No (λ c. c == 13)

abbrev pub render : List Bytes → Bytes
render [] = []
render (l ∷ ls) = l ++ (crlf ++ render ls)

abbrev pub Field : Type 0
Field = Bytes × Bytes

abbrev pub field_line : Field → Bytes
field_line (name, raw) = name ++ (58 ∷ raw)

-- A name without a colon, and a text behind the colon.
abbrev pub IsField : Field → Type 0
IsField (name, raw) = No (λ c. c == 58) name × IsLine name × IsLine raw

-- What the fields of a request show, one by one.
unfoldable pub read_fields : Seen → List Field → Seen
read_fields seen [] = seen
read_fields seen ((name, raw) ∷ fields) = read_fields (note_header seen name (trim_span raw)) fields

pub line_length-line : (u t : Bytes) → IsLine u → line_length (u ++ (13 ∷ 10 ∷ t)) ≡ length u
unfolding line_length at_crlf
line_length-line [] t h = refl
line_length-line (x ∷ []) t h = rw h.0
line_length-line (x ∷ y ∷ u) t h = rw h.0 (ap suc (line_length-line (y ∷ u) t h.1))

name_length-name :
    (name raw : Bytes) → No (λ c. c == 58) name → name_length (name ++ (58 ∷ raw)) ≡ length name
unfolding name_length
name_length-name [] raw h = refl
name_length-name (x ∷ name) raw h = rw h.0 (ap suc (name_length-name name raw h.1))

at_blank_line-text : (x : ℕ) (xs : Bytes) → (x == 13) ≡ false → at_blank_line (x ∷ xs) ≡ false
unfolding at_blank_line
at_blank_line-text x (b ∷ c ∷ d ∷ xs) h = rw h
at_blank_line-text x (b ∷ c ∷ []) h = refl
at_blank_line-text x (b ∷ []) h = refl
at_blank_line-text x [] h = refl

at_blank_line-next :
    (c : ℕ) (xs : Bytes) → (c == 13) ≡ false → at_blank_line (13 ∷ 10 ∷ c ∷ xs) ≡ false
unfolding at_blank_line
at_blank_line-next c (d ∷ xs) h = rw h
at_blank_line-next c [] h = refl

header_end_loop-text :
    (u t : Bytes) (i : ℕ) → IsLine u → header_end_loop (u ++ t) i ≡ header_end_loop t (i + length u)
unfolding header_end_loop
header_end_loop-text [] t i h = let e : i + 0 ≡ i = omega arith in rw e
header_end_loop-text (x ∷ u) t i h =
    let e : i + suc (length u) ≡ i + 1 + length u = omega arith in
    rw (at_blank_line-text x (u ++ t) h.0, e) (header_end_loop-text u t (i + 1) h.1)

-- Lines with a byte each, so that no blank line stands between them.
abbrev pub IsFull : Bytes → Type 0
IsFull [] = ⊥
IsFull (x ∷ xs) = IsLine (x ∷ xs)

header_end_loop-next :
    (l t : Bytes) (i : ℕ)
    → IsFull l
    → header_end_loop (13 ∷ 10 ∷ (l ++ t)) i ≡ header_end_loop (l ++ t) (i + 2)
unfolding header_end_loop
header_end_loop-next [] t i h = absurd h
header_end_loop-next (c ∷ l) t i h =
    let e : i + 1 + 1 ≡ i + 2 = omega arith in
    rw (at_blank_line-next c (l ++ t) h.0, at_blank_line-text 10 (c ∷ (l ++ t)) refl, e)

IsFull-IsLine : (l : Bytes) → IsFull l → IsLine l
IsFull-IsLine [] h = tt
IsFull-IsLine (x ∷ l) h = h

-- The header ends behind the first blank line.
pub header_end_loop-render :
    (l : Bytes) (ls : List Bytes) (rest : Bytes) (i : ℕ)
    → IsFull l
    → All IsFull ls
    → header_end_loop (render (l ∷ ls) ++ (crlf ++ rest)) i
      ≡ some (i + length (render (l ∷ ls)) + 2)
unfolding header_end_loop at_blank_line
header_end_loop-render l [] rest i h hs =
    ap (λ t. header_end_loop t i) (append_assoc l crlf (crlf ++ rest))
    ∙ header_end_loop-text l (crlf ++ (crlf ++ rest)) i (IsFull-IsLine l h)
    ∙ ap some (omega (arith, length-append l crlf))
header_end_loop-render l (m ∷ ls) rest i h hs =
    let more = render (m ∷ ls) in
    let same : more ++ (crlf ++ rest) ≡ m ++ ((crlf ++ render ls) ++ (crlf ++ rest)) =
      append_assoc m (crlf ++ render ls) (crlf ++ rest) in
    ap (λ t. header_end_loop t i) (append_assoc l (crlf ++ more) (crlf ++ rest))
    ∙ header_end_loop-text l (crlf ++ (more ++ (crlf ++ rest))) i (IsFull-IsLine l h)
    ∙ ap (λ t. header_end_loop (13 ∷ 10 ∷ t) (i + length l)) same
    ∙ header_end_loop-next m ((crlf ++ render ls) ++ (crlf ++ rest)) (i + length l) hs.0
    ∙ ap (λ t. header_end_loop t (i + length l + 2)) (sym same)
    ∙ header_end_loop-render m ls rest (i + length l + 2) hs.0 hs.1
    ∙ ap some (omega (arith, length-append l (crlf ++ more)))

note_line-field :
    (seen : Seen) (name raw : Bytes)
    → No (λ c. c == 58) name
    → note_line seen (name ++ (58 ∷ raw)) ≡ some (note_header seen name (trim_span raw))
unfolding note_line
note_line-field seen name raw h =
    let n = name_length-name name raw h in
    let inside : leb (length (name ++ (58 ∷ raw))) (length name) ≡ false =
      ground (arith, length-append name (58 ∷ raw)) in
    let value : drop (length name + 1) (name ++ (58 ∷ raw)) ≡ raw =
      sym (drop-drop 1 (length name) (name ++ (58 ∷ raw)))
      ∙ ap (drop 1) (drop-append name (58 ∷ raw)) in
    rw (n, inside, value, take-append name (58 ∷ raw))

headers_loop-round :
    (fuel x y : ℕ) (xs : Bytes) (seen seen' : Seen)
    → at_crlf (x ∷ y ∷ xs) ≡ false
    → note_line seen (take (line_length (x ∷ y ∷ xs)) (x ∷ y ∷ xs)) ≡ some seen'
    → headers_loop (suc fuel) (x ∷ y ∷ xs) seen
      ≡ headers_loop fuel (drop (line_length (x ∷ y ∷ xs) + 2) (x ∷ y ∷ xs)) seen'
unfolding headers_loop
headers_loop-round fuel x y xs seen seen' a n = rw (headers_loop, a, n)

-- A round of the loop over the header lines, on a line that is not empty.
headers_loop-line :
    (fuel : ℕ) (l t : Bytes) (seen seen' : Seen)
    → IsFull l
    → note_line seen l ≡ some seen'
    → headers_loop (suc fuel) (l ++ (13 ∷ 10 ∷ t)) seen ≡ headers_loop fuel t seen'
unfolding at_crlf
headers_loop-line fuel l t seen seen' h e = go l h taken ∙ ap (λ r. headers_loop fuel r seen') left
  where
    all : Bytes
    all = l ++ (13 ∷ 10 ∷ t)

    n : line_length all ≡ length l
    n = line_length-line l t (IsFull-IsLine l h)

    taken : note_line seen (take (line_length all) all) ≡ some seen'
    taken =
        ap (λ k. note_line seen (take k all)) n
        ∙ ap (note_line seen) (take-append l (13 ∷ 10 ∷ t))
        ∙ e

    left : drop (line_length all + 2) all ≡ t
    left =
        ap (λ k. drop (k + 2) all) n
        ∙ sym (drop-drop 2 (length l) all)
        ∙ ap (drop 2) (drop-append l (13 ∷ 10 ∷ t))

    go :
        (l : Bytes)
        → IsFull l
        → note_line seen (take (line_length (l ++ (13 ∷ 10 ∷ t))) (l ++ (13 ∷ 10 ∷ t))) ≡ some seen'
        → headers_loop (suc fuel) (l ++ (13 ∷ 10 ∷ t)) seen
          ≡ headers_loop fuel
              (drop (line_length (l ++ (13 ∷ 10 ∷ t)) + 2) (l ++ (13 ∷ 10 ∷ t)))
              seen'
    go [] h k = absurd h
    go (x ∷ []) h k = headers_loop-round fuel x 13 (10 ∷ t) seen seen' (rw h.0) k
    go (x ∷ y ∷ l) h k = headers_loop-round fuel x y (l ++ (13 ∷ 10 ∷ t)) seen seen' (rw h.0) k

field_line-IsFull : (f : Field) → IsField f → IsFull (field_line f)
field_line-IsFull ([], raw) h = (refl, h.2)
field_line-IsFull (x ∷ name, raw) h =
    (h.1.0, All-append (λ c. (c == 13) ≡ false) name (58 ∷ raw) h.1.1 (refl, h.2))

headers_loop-end : (fuel : ℕ) (seen : Seen) → headers_loop (suc fuel) crlf seen ≡ some (some seen)
unfolding headers_loop at_crlf
headers_loop-end fuel seen = refl

-- The loop reads every field.
pub headers_loop-fields :
    (fuel : ℕ) (fields : List Field) (seen : Seen)
    → All IsField fields
    → length fields < fuel
    → headers_loop fuel (render (map field_line fields) ++ crlf) seen
      ≡ some (some (read_fields seen fields))
unfolding read_fields
headers_loop-fields zero fields seen h k = absurd (omega arith)
headers_loop-fields (suc fuel) [] seen h k = headers_loop-end fuel seen
headers_loop-fields (suc fuel) ((name, raw) ∷ fields) seen h k =
    let l = name ++ (58 ∷ raw) in
    let t = render (map field_line fields) in
    ap (λ r. headers_loop (suc fuel) r seen) (append_assoc l (crlf ++ t) crlf)
    ∙ headers_loop-line fuel l (t ++ crlf) seen (note_header seen name (trim_span raw))
        (field_line-IsFull (name, raw) h.0) (note_line-field seen name raw h.0.0)
    ∙ headers_loop-fields fuel fields (note_header seen name (trim_span raw)) h.1 (omega arith)

pub lines-IsFull : (fields : List Field) → All IsField fields → All IsFull (map field_line fields)
lines-IsFull [] h = tt
lines-IsFull (f ∷ fields) h = (field_line-IsFull f h.0, lines-IsFull fields h.1)

pub length-fields : (fields : List Field) → length fields ≤ length (render (map field_line fields))
length-fields [] = omega arith
length-fields (f ∷ fields) = omega (
  arith,
  length-fields fields,
  length-append (field_line f) (crlf ++ render (map field_line fields)),
)
