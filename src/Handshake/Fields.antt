-- ===== src/Handshake/Fields.antt =====
-- What the header fields of a request show, apart from the code's one pass over them.
use mathlib.Core.List.{map}
use sockify.Prelude.{
  ℕ, suc, ◌≡◌, ◌<◌, ◌⊎◌, refl, sym, ap, ◌∙◌, inl, inr, Bool, true, false, ◌&&◌, ◌||◌, List, [], ◌∷◌,
  Bytes, arith, codes, zero, leb, ◌==◌, ◌+◌, ◌≤◌, get_or, if◌then◌else◌, same_text, same_text_iff,
  length, ltb, ◌!=◌, Bool-cases,
}
use mathlib.Core.Path.{subst}
use sockify.Handshake.{Seen, nothing_seen, note_header}
use sockify.Handshake.Loops.{Field, read_fields}
use sockify.Text.{
  ascii_tolower, ci_equal_string_n, ci_contains_token, trim_span, trim_left, trim_right, is_blank,
}
use sockify.Text.Laws.{ci_equal_n-map}

-- The small letter for a capital one of ASCII.
abbrev lower : ℕ → ℕ
lower c = if leb 65 c && leb c 90 then c + 32 else c

-- A space or a tab.
abbrev blank : ℕ → Bool
blank c = c == 32 || c == 9

-- A text without the blanks before it, and one without the blanks behind it.
unfoldable pub without_front : Bytes → Bytes
without_front [] = []
without_front (x ∷ xs) = if blank x then without_front xs else x ∷ xs

-- What stands before a text without blanks behind it.
abbrev put_front : ℕ → Bytes → Bytes
put_front x [] = if blank x then [] else x ∷ []
put_front x (y ∷ ys) = x ∷ y ∷ ys

unfoldable pub without_end : Bytes → Bytes
without_end [] = []
without_end (x ∷ xs) = put_front x (without_end xs)

abbrev pub bare : Bytes → Bytes
bare text = without_end (without_front text)

trim_left-without_front : (xs : Bytes) → trim_left xs ≡ without_front xs
unfolding trim_left without_front is_blank
trim_left-without_front [] = refl
trim_left-without_front (x ∷ xs) = rw (trim_left-without_front xs)

-- The end of a span is looked at alone.
trim_right-cons :
    (n x : ℕ) (xs : Bytes)
    → n ≤ length xs
    → trim_right (suc n) (x ∷ xs) ≡ put_front x (trim_right n xs)
unfolding trim_right is_blank
trim_right-cons zero x xs h = refl
trim_right-cons (suc n) x [] h = absurd (omega arith)
trim_right-cons (suc n) x (y ∷ ys) h = elim (Bool-cases (is_blank (get_or (y ∷ ys) n 0))) [
  | inl e ↦ rw e (trim_right-cons n x (y ∷ ys) (omega arith))
  | inr e ↦ rw e refl
]

trim_right-without_end : (xs : Bytes) → trim_right (length xs) xs ≡ without_end xs
unfolding trim_right without_end
trim_right-without_end [] = refl
trim_right-without_end (x ∷ xs) =
    trim_right-cons (length xs) x xs (omega arith) ∙ ap (put_front x) (trim_right-without_end xs)

trim_span-bare : (xs : Bytes) → trim_span xs ≡ bare xs
unfolding trim_span
trim_span-bare xs =
    ap (λ l. trim_right (length l) l) (trim_left-without_front xs)
    ∙ trim_right-without_end (without_front xs)

-- Two texts that differ in the case of ASCII letters at most.
unfoldable pub same_name : Bytes → Bytes → Bool
same_name a b = same_text (map lower a) (map lower b)

-- Whether a field of that name has a value, without the blanks round it, that passes the test.
unfoldable pub shows : Bytes → (Bytes → Bool) → List Field → Bool
shows wanted test [] = false
shows wanted test ((name, raw) ∷ fields) =
    (same_name name wanted && test (bare raw)) || shows wanted test fields

abbrev pub is_websocket : Bytes → Bool
is_websocket value = same_name value (codes "websocket")

abbrev pub is_upgraded : Bytes → Bool
is_upgraded value = ci_contains_token value (codes "upgrade")

abbrev pub is_version : Bytes → Bool
is_version value = same_text value (codes "13")

abbrev pub is_key : Bytes → Bool
is_key value = length value != 0 && ltb (length value) 128

length-map : (xs : Bytes) → length (map lower xs) ≡ length xs
length-map [] = refl
length-map (x ∷ xs) = ap suc (length-map xs)

same_name-length : (a b : Bytes) → same_name a b ≡ true → length a ≡ length b
unfolding same_name
same_name-length a b e =
    sym (length-map a) ∙ ap (length {A = ℕ}) ((same_text_iff _ _).0 e) ∙ length-map b

ci_equal_string_n-same_name : (a b : Bytes) → ci_equal_string_n a b ≡ same_name a b
unfolding ci_equal_string_n same_name ascii_tolower
ci_equal_string_n-same_name a b = elim (Bool-cases (length a != length b)) [
  | inr e ↦ let l : length a ≡ length b = ground (arith, e) in rw e (ci_equal_n-map a b l)
  | inl e ↦ elim (Bool-cases (same_text (map lower a) (map lower b))) [
    | inr other ↦ rw (e, other) refl
    | inl same ↦ absurd (ground (arith, e, same_name-length a b same))
  ]
]

-- A name is one of two different names at most.
other_name :
    (name a b : Bytes) → same_name name a ≡ true → same_name a b ≡ false → same_name name b ≡ false
unfolding same_name
other_name name a b e d = rw ((same_text_iff (map lower name) (map lower a)).0 e) d

-- What fields add to what was seen before, from the four tests on them.
abbrev Adds : Seen → Seen → (Bytes → (Bytes → Bool) → Bool) → Type 0
Adds seen after by =
    (after.saw_upgrade ≡ (seen.saw_upgrade || by (codes "Upgrade") is_websocket))
    × (after.saw_connection ≡ (seen.saw_connection || by (codes "Connection") is_upgraded))
    × (after.saw_version ≡ (seen.saw_version || by (codes "Sec-WebSocket-Version") is_version))
    × (after.saw_key ≡ (seen.saw_key || by (codes "Sec-WebSocket-Key") is_key))

abbrev one_field : Bytes → Bytes → Bytes → (Bytes → Bool) → Bool
one_field name value wanted test = same_name name wanted && test value

upgrade_others :
    (same_name (codes "Upgrade") (codes "Connection") ≡ false)
    × (same_name (codes "Upgrade") (codes "Sec-WebSocket-Version") ≡ false)
    × (same_name (codes "Upgrade") (codes "Sec-WebSocket-Key") ≡ false)
unfolding same_name same_text
upgrade_others = (refl, refl, refl)

connection_others :
    (same_name (codes "Connection") (codes "Sec-WebSocket-Version") ≡ false)
    × (same_name (codes "Connection") (codes "Sec-WebSocket-Key") ≡ false)
unfolding same_name same_text
connection_others = (refl, refl)

version_others : same_name (codes "Sec-WebSocket-Version") (codes "Sec-WebSocket-Key") ≡ false
unfolding same_name same_text
version_others = refl

note_header-Adds :
    (seen : Seen) (name value : Bytes)
    → Adds seen (note_header seen name value) (one_field name value)
unfolding note_header
note_header-Adds seen name value =
    let u = ci_equal_string_n-same_name name (codes "Upgrade") in
    let c = ci_equal_string_n-same_name name (codes "Connection") in
    let v = ci_equal_string_n-same_name name (codes "Sec-WebSocket-Version") in
    let k = ci_equal_string_n-same_name name (codes "Sec-WebSocket-Key") in
    let w = ci_equal_string_n-same_name value (codes "websocket") in
    elim (Bool-cases (same_name name (codes "Upgrade"))) [
      | inl is_u ↦
          let other = other_name name (codes "Upgrade") in
          let not_c = other (codes "Connection") is_u upgrade_others.0 in
          let not_v = other (codes "Sec-WebSocket-Version") is_u upgrade_others.1 in
          let not_k = other (codes "Sec-WebSocket-Key") is_u upgrade_others.2 in
          rw (u, w, is_u, not_c, not_v, not_k) (ground arith)
      | inr not_u ↦ elim (Bool-cases (same_name name (codes "Connection"))) [
        | inl is_c ↦
            let other = other_name name (codes "Connection") in
            let not_v = other (codes "Sec-WebSocket-Version") is_c connection_others.0 in
            let not_k = other (codes "Sec-WebSocket-Key") is_c connection_others.1 in
            rw (u, c, not_u, is_c, not_v, not_k) (ground arith)
        | inr not_c ↦ elim (Bool-cases (same_name name (codes "Sec-WebSocket-Version"))) [
          | inl is_v ↦
              let not_k =
                other_name name (codes "Sec-WebSocket-Version") (codes "Sec-WebSocket-Key") is_v
                  version_others in
              rw (u, c, v, not_u, not_c, is_v, not_k) (ground arith)
          | inr not_v ↦ rw (u, c, v, k, not_u, not_c, not_v) (ground arith)
        ]
      ]
    ]

read_fields-Adds :
    (seen : Seen) (fields : List Field)
    → Adds seen (read_fields seen fields) (λ wanted test. shows wanted test fields)
unfolding read_fields shows
read_fields-Adds seen [] = ground arith
read_fields-Adds seen ((name, raw) ∷ fields) =
    let one =
      subst (λ v. Adds seen (note_header seen name (trim_span raw)) (one_field name v))
        (trim_span-bare raw) (note_header-Adds seen name (trim_span raw)) in
    let later = read_fields-Adds (note_header seen name (trim_span raw)) fields in
    ground (arith, one, later)

-- What the pass over the header fields of a request records. An upgrade was seen if and only if some
-- field named `Upgrade` has the value `websocket`, both in any case; a connection, if and only if in some
-- `Connection` field `ci_contains_token` finds `upgrade`; the version, if and only if some
-- `Sec-WebSocket-Version` field has the value 13; and a key, if and only if some `Sec-WebSocket-Key` field
-- has a value of 1 to 127 bytes. Blanks round a value do not count.
pub read_fields-shows :
    (fields : List Field)
    → let seen = read_fields nothing_seen fields in
      (seen.saw_upgrade ≡ shows (codes "Upgrade") is_websocket fields)
      × (seen.saw_connection ≡ shows (codes "Connection") is_upgraded fields)
      × (seen.saw_version ≡ shows (codes "Sec-WebSocket-Version") is_version fields)
      × (seen.saw_key ≡ shows (codes "Sec-WebSocket-Key") is_key fields)
read_fields-shows fields = read_fields-Adds nothing_seen fields

-- The bounds of a key that was seen.
abbrev HasKey : Seen → Type 0
HasKey seen = (seen.saw_key ≡ false) ⊎ (0 < length seen.key) × (length seen.key < 128)

note_header-HasKey :
    (seen : Seen) (name value : Bytes) → HasKey seen → HasKey (note_header seen name value)
unfolding note_header
note_header-HasKey seen name value h = ground arith

pub read_fields-HasKey :
    (seen : Seen) (fields : List Field) → HasKey seen → HasKey (read_fields seen fields)
unfolding read_fields
read_fields-HasKey seen [] h = h
read_fields-HasKey seen ((name, raw) ∷ fields) h =
    read_fields-HasKey (note_header seen name (trim_span raw)) fields
      (note_header-HasKey seen name (trim_span raw) h)

pub seen_key :
    (fields : List Field)
    → let seen = read_fields nothing_seen fields in
      seen.saw_key ≡ true → (0 < length seen.key) × (length seen.key < 128)
seen_key fields e = elim (read_fields-HasKey nothing_seen fields (inl refl)) [
  | inl h ↦ absurd (cc (e, h))
  | inr h ↦ h
]
