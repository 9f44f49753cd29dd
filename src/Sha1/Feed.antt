-- ===== src/Sha1/Feed.antt =====
-- What bytes do to the hash and the block that is being filled, one by one and block by block, as the
-- updates and the loops of `sha1_final` feed them.
use sockify.Prelude.{
  ℕ, zero, suc, ◌+◌, ◌-◌, ◌*◌, ◌%◌, ◌<◌, ◌≡◌, refl, sym, ap, ◌∙◌, true, false, [], ◌∷◌, ◌++◌,
  append_assoc, Bytes, arith, length, length-append, length-take, take, drop, take-append-drop,
  replicate, u64, ◌==◌, ◌!=◌, if◌then◌else◌, Bool-cases, inl, inr,
}
use sockify.ByteOrder.{byte_of}
use sockify.Sha1.{Hash, Ctx, process, update_byte, update_loop, update, pad_loop, length_loop}

-- The hash of `n` blocks at the front of `bytes`.
unfoldable pub hash_blocks : ℕ → Hash → Bytes → Hash
hash_blocks zero h bytes = h
hash_blocks (suc n) h bytes = hash_blocks n (process h (take 64 bytes)) (drop 64 bytes)

-- Only the hash and the block matter to what follows.
abbrev pub state : Ctx → Hash × Bytes
state ctx = (ctx.hash, ctx.block)

abbrev pub feed : Hash × Bytes → Bytes → Hash × Bytes
feed s [] = s
feed (h, block) (x ∷ xs) =
    if length (block ++ (x ∷ [])) == 64
    then feed (process h (block ++ (x ∷ [])), []) xs
    else feed (h, block ++ (x ∷ [])) xs

pub feed-append : (s : Hash × Bytes) (xs ys : Bytes) → feed s (xs ++ ys) ≡ feed (feed s xs) ys
feed-append s [] ys = refl
feed-append (h, block) (x ∷ xs) ys = elim (Bool-cases (length (block ++ (x ∷ [])) == 64)) [
  | inl e ↦ rw e (feed-append (process h (block ++ (x ∷ [])), []) xs ys)
  | inr e ↦ rw e (feed-append (h, block ++ (x ∷ [])) xs ys)
]

-- Bytes that end a block.
feed-block :
    (h : Hash) (block xs : Bytes)
    → length block + length xs ≡ 64
    → 0 < length xs
    → feed (h, block) xs ≡ (process h (block ++ xs), [])
feed-block h block [] e p = absurd (omega arith)
feed-block h block (x ∷ []) e p =
    let ended : (length (block ++ (x ∷ [])) == 64) ≡ true =
      ground (arith, length-append block (x ∷ [])) in
    rw ended
feed-block h block (x ∷ y ∷ xs) e p =
    let going : (length (block ++ (x ∷ [])) == 64) ≡ false =
      ground (arith, length-append block (x ∷ [])) in
    rw going (
      feed-block h (block ++ (x ∷ [])) (y ∷ xs) (omega (arith, length-append block (x ∷ [])))
        (omega arith)
      ∙ ap (λ l. (process h l, [])) (append_assoc block (x ∷ []) (y ∷ xs)))

update_loop-feed : (ctx : Ctx) (xs : Bytes) → state (update_loop ctx xs) ≡ feed (state ctx) xs
unfolding update_loop update_byte
update_loop-feed ctx [] = refl
update_loop-feed ctx (x ∷ xs) = elim (Bool-cases (length (ctx.block ++ (x ∷ [])) == 64)) [
  | inl e ↦
      rw (update_loop, e)
        (update_loop-feed
          (record ctx { hash = process ctx.hash (ctx.block ++ (x ∷ [])); block = [] }) xs)
  | inr e ↦ rw (update_loop, e) (update_loop-feed (record ctx { block = ctx.block ++ (x ∷ []) }) xs)
]

pub update-feed : (ctx : Ctx) (xs : Bytes) → state (update ctx xs) ≡ feed (state ctx) xs
unfolding update
update-feed ctx xs =
    update_loop-feed (record ctx { total_len = u64 (ctx.total_len + length xs) }) xs

pub total-update_loop : (ctx : Ctx) (xs : Bytes) → (update_loop ctx xs).total_len ≡ ctx.total_len
unfolding update_loop update_byte
total-update_loop ctx [] = refl
total-update_loop ctx (x ∷ xs) = elim (Bool-cases (length (ctx.block ++ (x ∷ [])) == 64)) [
  | inl e ↦
      rw (update_loop, e)
        (total-update_loop
          (record ctx { hash = process ctx.hash (ctx.block ++ (x ∷ [])); block = [] }) xs)
  | inr e ↦
      rw (update_loop, e) (total-update_loop (record ctx { block = ctx.block ++ (x ∷ []) }) xs)
]

pub length-feed :
    (h : Hash) (block xs : Bytes)
    → length block < 64
    → length (feed (h, block) xs).1 ≡ (length block + length xs) % 64
length-feed h block [] lt = omega arith
length-feed h block (x ∷ xs) lt = elim (Bool-cases (length (block ++ (x ∷ [])) == 64)) [
  | inl e ↦
      let whole : length block ≡ 63 = ground (arith, length-append block (x ∷ [])) in
      rw e (length-feed (process h (block ++ (x ∷ []))) [] xs (omega arith) ∙ omega (arith, whole))
  | inr e ↦
      let one_more : length (block ++ (x ∷ [])) ≡ length block + 1 = length-append block (x ∷ []) in
      let below : length (block ++ (x ∷ [])) < 64 = ground (arith, one_more) in
      rw e (length-feed h (block ++ (x ∷ [])) xs below ∙ omega (arith, one_more))
]

-- The padding loop feeds zeros until 56 bytes of a block are there.
pub pad_loop-feed :
    (z fuel : ℕ) (ctx : Ctx)
    → z < fuel
    → length ctx.block < 64
    → z ≡ (120 - length ctx.block) % 64
    → state (pad_loop fuel ctx) ≡ feed (state ctx) (replicate z 0)
unfolding pad_loop
pad_loop-feed z zero ctx lt b e = absurd (omega arith)
pad_loop-feed zero (suc fuel) ctx lt b e =
    let there : (length ctx.block != 56) ≡ false = ground arith in rw (pad_loop, there)
pad_loop-feed (suc z) (suc fuel) ctx lt b e =
    let missing : (length ctx.block != 56) ≡ true = ground arith in
    let fed = update-feed ctx (0 ∷ []) in
    let longer : length (update ctx (0 ∷ [])).block ≡ (length ctx.block + 1) % 64 =
      ap (λ s. length s.1) fed ∙ length-feed ctx.hash ctx.block (0 ∷ []) b in
    rw (pad_loop, missing)
      (pad_loop-feed z fuel (update ctx (0 ∷ [])) (omega arith) (omega (arith, longer))
          (omega (arith, longer))
        ∙ ap (λ s. feed s (replicate z 0)) fed
        ∙ sym (feed-append (state ctx) (0 ∷ []) (replicate z 0)))

-- The bytes of `bit_len` from byte `i - 1` down.
abbrev pub bytes_down : ℕ → ℕ → Bytes
bytes_down bit_len zero = []
bytes_down bit_len (suc i) = byte_of bit_len (i * 8) ∷ bytes_down bit_len i

pub length_loop-feed :
    (bit_len i : ℕ) (ctx : Ctx)
    → state (length_loop bit_len i ctx) ≡ feed (state ctx) (bytes_down bit_len i)
unfolding length_loop
length_loop-feed bit_len zero ctx = refl
length_loop-feed bit_len (suc i) ctx =
    let x = byte_of bit_len (i * 8) in
    length_loop-feed bit_len i (update ctx (x ∷ []))
    ∙ ap (λ s. feed s (bytes_down bit_len i)) (update-feed ctx (x ∷ []))
    ∙ sym (feed-append (state ctx) (x ∷ []) (bytes_down bit_len i))

pub feed-hash_blocks :
    (n : ℕ) (h : Hash) (xs : Bytes)
    → length xs ≡ n * 64
    → feed (h, []) xs ≡ (hash_blocks n h xs, [])
unfolding hash_blocks
feed-hash_blocks zero h [] e = refl
feed-hash_blocks zero h (x ∷ xs) e = absurd (omega arith)
feed-hash_blocks (suc n) h xs e =
    let cut = take-append-drop 64 xs in
    let size : length (take 64 xs) ≡ 64 = omega (arith, length-take 64 xs) in
    ap (feed (h, [])) (sym cut)
    ∙ feed-append (h, []) (take 64 xs) (drop 64 xs)
    ∙ ap (λ s. feed s (drop 64 xs)) (feed-block h [] (take 64 xs) (omega arith) (omega arith))
    ∙ feed-hash_blocks n (process h (take 64 xs)) (drop 64 xs)
        (omega (arith, ap (length {A = ℕ}) cut, length-append (take 64 xs) (drop 64 xs)))
