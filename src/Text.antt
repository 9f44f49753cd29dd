-- ===== src/Text.antt =====
-- src/ws/ws_handshake.c: the helpers on spans of text. A span is the list of its bytes, its length
-- is the list's, and a byte behind its end reads as 0.
pub mod Laws
mod Tests
use sockify.Prelude.{
  ℕ, zero, suc, ◌+◌, ◌-◌, Bool, true, false, not, ◌&&◌, ◌||◌, List, [], ◌∷◌, Bytes, codes,
  same_text, leb, ltb, ◌==◌, ◌!=◌, if◌then◌else◌, length, get_or, take, drop,
}

unfoldable pub ascii_tolower : ℕ → ℕ
ascii_tolower c = if leb 65 c && leb c 90 then c + 32 else c

unfoldable pub ci_equal_n : Bytes → Bytes → ℕ → Bool
unfolding ascii_tolower
ci_equal_n a b zero = true
ci_equal_n a b (suc n) =
    if ascii_tolower (get_or a 0 0) == ascii_tolower (get_or b 0 0)
    then ci_equal_n (drop 1 a) (drop 1 b) n
    else false

unfoldable pub ci_equal_string_n : Bytes → Bytes → Bool
unfolding ci_equal_n
ci_equal_string_n a b = if length a != length b then false else ci_equal_n a b (length a)

unfoldable pub is_token_sep : ℕ → Bool
is_token_sep c = c == 44 || c == 32 || c == 9 || c == 13 || c == 10

-- `while (i < value_len && is_token_sep(value[i])) i++;` on `value[i..value_len)`
unfoldable pub skip_seps : Bytes → Bytes
unfolding is_token_sep
skip_seps [] = []
skip_seps (x ∷ xs) = if is_token_sep x then skip_seps xs else x ∷ xs

-- `value[i..j)` where `j` stands at the next separator or at the end.
unfoldable pub token_at : Bytes → Bytes
unfolding is_token_sep
token_at [] = []
token_at (x ∷ xs) = if is_token_sep x then [] else x ∷ token_at xs

-- The loop of `ci_contains_token` on `value[i..value_len)`. A round goes on behind the separator
-- that ends its token, so the length bounds the rounds.
unfoldable pub token_loop : ℕ → Bytes → Bytes → Bool
unfolding skip_seps token_at ci_equal_n
token_loop zero rest token = false
token_loop (suc fuel) [] token = false
token_loop (suc fuel) (x ∷ xs) token =
    let at_token = skip_seps (x ∷ xs) in
    let found = token_at at_token in
    let later = token_loop fuel (drop (length found + 1) at_token) token in
    if length found == length token && ci_equal_n at_token token (length token) then true else later

unfoldable pub ci_contains_token : Bytes → Bytes → Bool
unfolding token_loop
ci_contains_token value token = token_loop (length value) value token

unfoldable pub is_blank : ℕ → Bool
is_blank c = c == 32 || c == 9

unfoldable pub trim_left : Bytes → Bytes
unfolding is_blank
trim_left [] = []
trim_left (x ∷ xs) = if is_blank x then trim_left xs else x ∷ xs

-- `while (n != 0 && blank(s[n - 1])) n--;`, and the span that is left.
unfoldable pub trim_right : ℕ → Bytes → Bytes
unfolding is_blank
trim_right zero s = []
trim_right (suc n) s =
    let rest = trim_right n s in if is_blank (get_or s n 0) then rest else take (suc n) s

unfoldable pub trim_span : Bytes → Bytes
unfolding trim_left trim_right
trim_span s = let rest = trim_left s in trim_right (length rest) rest

-- The loop of `memory_contains` on `haystack[i..hay_len)`.
unfoldable pub contains_loop : Bytes → Bytes → Bool
contains_loop [] needle = false
contains_loop (x ∷ xs) needle =
    let later = contains_loop xs needle in
    if leb (length needle) (length (x ∷ xs))
    then if same_text (take (length needle) (x ∷ xs)) needle then true else later
    else false

unfoldable pub memory_contains : Bytes → Bytes → Bool
unfolding contains_loop
memory_contains haystack needle =
    if length needle == 0
    then true
    else if ltb (length haystack) (length needle)
    then false
    else contains_loop haystack needle
