-- ===== src/Sha1.antt =====
-- src/core/sha1.c: the hash of the handshake. A word is a number below 2 ^ 32.
pub mod Feed
pub mod Padding
mod Tests
use sockify.Prelude.{
  ℕ, zero, suc, ◌+◌, ◌-◌, ◌*◌, ◌/◌, ◌%◌, ◌^◌, bit_or, bit_and, bit_xor, Bool, Option, List, [], ◌∷◌,
  ◌++◌, Bytes, u32, u64, ◌<<<◌, ◌>>>◌, ltb, ◌==◌, ◌!=◌, if◌then◌else◌, get_or, drop, length,
}
use sockify.ByteOrder.{byte_of, read_be32, write_be32}

abbrev pub Hash : Type 0
Hash = ℕ × ℕ × ℕ × ℕ × ℕ

-- `struct sha1_ctx`; `block` is `block[0..block_len)`.
pub record Ctx : Type 0 where
  pub hash : Hash
  pub total_len : ℕ
  pub block : Bytes

unfoldable pub rotl32 : ℕ → ℕ → ℕ
rotl32 value bits = bit_and (bit_or (u32 (value <<< bits)) (value >>> (32 - bits))) 0xffffffff

-- `sha1_init`
abbrev pub init_hash : Hash
init_hash = (0x67452301, 0xefcdab89, 0x98badcfe, 0x10325476, 0xc3d2e1f0)

-- `w[i]`, where `w` holds the words so far, for `n` more.
unfoldable pub first_words : ℕ → Bytes → List ℕ
first_words zero block = []
first_words (suc n) block = read_be32 block ∷ first_words n (drop 4 block)

unfoldable pub more_words : ℕ → List ℕ → List ℕ
more_words zero w = w
more_words (suc n) w =
    let i = length w in
    more_words n (
      w
      ++ (rotl32
            (bit_xor
              (bit_xor (bit_xor (get_or w (i - 3) 0) (get_or w (i - 8) 0)) (get_or w (i - 14) 0))
              (get_or w (i - 16) 0))
            1
          ∷ []))

-- `~b` on 32 bits
abbrev complement : ℕ → ℕ
complement b = bit_xor b 0xffffffff

unfoldable pub round_function : ℕ → ℕ → ℕ → ℕ → ℕ
round_function i b c d =
    if ltb i 20
    then bit_or (bit_and b c) (bit_and (complement b) d)
    else if ltb i 40
    then bit_xor (bit_xor b c) d
    else if ltb i 60
    then bit_or (bit_or (bit_and b c) (bit_and b d)) (bit_and c d)
    else bit_xor (bit_xor b c) d

abbrev pub round_constant : ℕ → ℕ
round_constant i =
    if ltb i 20
    then 0x5a827999
    else if ltb i 40
    then 0x6ed9eba1
    else if ltb i 60
    then 0x8f1bbcdc
    else 0xca62c1d6

-- The rounds from `i` on, over the words that are left.
unfoldable pub rounds : ℕ → List ℕ → Hash → Hash
unfolding rotl32 round_function
rounds i [] h = h
rounds i (w ∷ ws) (a, b, c, d, e) =
    let temp =
      bit_and (u32 (rotl32 a 5 + round_function i b c d + e + round_constant i + w)) 0xffffffff in
    rounds (suc i) ws (temp, a, rotl32 b 30, c, d)

abbrev add_word : ℕ → ℕ → ℕ
add_word x y = bit_and (u32 (x + y)) 0xffffffff

-- `sha1_process`
unfoldable pub process : Hash → Bytes → Hash
unfolding first_words more_words rounds
process (h0, h1, h2, h3, h4) block =
    let (a, b, c, d, e) = rounds 0 (more_words 64 (first_words 16 block)) (h0, h1, h2, h3, h4) in
    (add_word h0 a, add_word h1 b, add_word h2 c, add_word h3 d, add_word h4 e)

-- One round of the loop of `sha1_update`.
unfoldable pub update_byte : Ctx → ℕ → Ctx
update_byte ctx x =
    let block = ctx.block ++ (x ∷ []) in
    if length block == 64
    then record ctx { hash = process ctx.hash block; block = [] }
    else record ctx { block = block }

unfoldable pub update_loop : Ctx → Bytes → Ctx
unfolding update_byte
update_loop ctx [] = ctx
update_loop ctx (x ∷ xs) = update_loop (update_byte ctx x) xs

-- `sha1_update`
unfoldable pub update : Ctx → Bytes → Ctx
unfolding update_loop
update ctx bytes = update_loop (record ctx { total_len = u64 (ctx.total_len + length bytes) }) bytes

-- `while (ctx->block_len != 56U) sha1_update(ctx, &pad, 1U);` on fuel.
unfoldable pub pad_loop : ℕ → Ctx → Ctx
unfolding update
pad_loop zero ctx = ctx
pad_loop (suc fuel) ctx =
    if length ctx.block != 56 then pad_loop fuel (update ctx (0 ∷ [])) else ctx

-- The loop over `i` from 7 down.
unfoldable pub length_loop : ℕ → ℕ → Ctx → Ctx
unfolding update
length_loop bit_len zero ctx = ctx
length_loop bit_len (suc i) ctx = length_loop bit_len i (update ctx (byte_of bit_len (i * 8) ∷ []))

-- `sha1_final`. A block has 64 bytes, so 64 rounds of the padding loop are enough.
unfoldable pub final : Ctx → Bytes
unfolding pad_loop length_loop write_be32
final ctx =
    let bit_len = u64 (ctx.total_len * 8) in
    let padded = pad_loop 64 (update ctx (0x80 ∷ [])) in
    let (a, b, c, d, e) = (length_loop bit_len 8 padded).hash in
    write_be32 a ++ (write_be32 b ++ (write_be32 c ++ (write_be32 d ++ write_be32 e)))

-- `ctx` where `sockify_sha1` calls `sha1_final`.
unfoldable pub absorbed : Bytes → Ctx
absorbed input =
    let ctx : Ctx = record { hash = init_hash; total_len = 0; block = [] } in
    if length input != 0 then update ctx input else ctx

-- `sockify_sha1`
unfoldable pub sha1 : Bytes → Bytes
sha1 input = final (absorbed input)
