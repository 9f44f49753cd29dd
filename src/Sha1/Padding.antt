-- ===== src/Sha1/Padding.antt =====
-- The hash by blocks, as RFC 3174 has it: the padded message is cut into blocks of 64 bytes. The
-- compression of one block is the code's own `process`.
use sockify.Prelude.{
  ℕ, ◌+◌, ◌-◌, ◌*◌, ◌/◌, ◌%◌, ◌<◌, ◌≡◌, refl, sym, ap, ◌∙◌, [], ◌∷◌, ◌++◌, Bytes, arith, length,
  length-append, replicate, length-replicate, u64, ◌!=◌, Bool-cases, inl, inr,
}
use sockify.ByteOrder.{write_be32, write_be64}
use sockify.Sha1.{Hash, Ctx, init_hash, update, pad_loop, final, absorbed, sha1}
use sockify.Sha1.Feed.{
  hash_blocks, state, feed, feed-append, length-feed, pad_loop-feed, length_loop-feed, update-feed,
  feed-hash_blocks, total-update_loop,
}

-- How many zeros stand between 0x80 and the length.
abbrev pub zeros : ℕ → ℕ
zeros n = (119 - n % 64) % 64

-- The message with its padding.
unfoldable pub padded : Bytes → Bytes
padded input =
    input ++ (0x80 ∷ (replicate (zeros (length input)) 0 ++ write_be64 (u64 (length input * 8))))

-- The words of a hash, most significant byte first.
unfoldable pub digest : Hash → Bytes
digest (a, b, c, d, e) =
    write_be32 a ++ (write_be32 b ++ (write_be32 c ++ (write_be32 d ++ write_be32 e)))

final-feed :
    (ctx : Ctx)
    → length ctx.block < 64
    → final ctx
      ≡ digest
          (feed (state ctx) (
            0x80
            ∷ (replicate ((119 - length ctx.block) % 64) 0
                ++ write_be64 (u64 (ctx.total_len * 8))))).0
unfolding final digest write_be64
final-feed ctx b =
    let z = (119 - length ctx.block) % 64 in
    let bit_len = u64 (ctx.total_len * 8) in
    let marked = update ctx (0x80 ∷ []) in
    let fed = update-feed ctx (0x80 ∷ []) in
    let longer : length marked.block ≡ (length ctx.block + 1) % 64 =
      ap (λ s. length s.1) fed ∙ length-feed ctx.hash ctx.block (0x80 ∷ []) b in
    let zeroed =
      pad_loop-feed z 64 marked (omega arith) (omega (arith, longer)) (omega (arith, longer)) in
    let all =
      length_loop-feed bit_len 8 (pad_loop 64 marked)
      ∙ ap (λ s. feed s (write_be64 bit_len)) (zeroed ∙ ap (λ s. feed s (replicate z 0)) fed)
      ∙ sym (feed-append (feed (state ctx) (0x80 ∷ [])) (replicate z 0) (write_be64 bit_len))
      ∙ sym (feed-append (state ctx) (0x80 ∷ []) (replicate z 0 ++ write_be64 bit_len)) in
    ap (λ s. digest s.0) all

length-padded : (input : Bytes) → length (padded input) % 64 ≡ 0
unfolding padded write_be64
length-padded input =
    let z = zeros (length input) in
    let tail = replicate z 0 ++ write_be64 (u64 (length input * 8)) in
    omega (
      arith,
      length-append input (0x80 ∷ tail),
      length-append (replicate z 0) (write_be64 (u64 (length input * 8))),
      length-replicate {A = ℕ} z 0,
    )

final-padded :
    (input : Bytes) (ctx : Ctx)
    → state ctx ≡ feed (init_hash, []) input
    → u64 (ctx.total_len * 8) ≡ u64 (length input * 8)
    → final ctx ≡ digest (hash_blocks (length (padded input) / 64) init_hash (padded input))
unfolding padded
final-padded input ctx started counted =
    let z = (119 - length ctx.block) % 64 in
    let held : length ctx.block ≡ length input % 64 =
      ap (λ s. length s.1) started ∙ length-feed init_hash [] input (omega arith) ∙ omega arith in
    let same_zeros : z ≡ zeros (length input) = omega (arith, held) in
    let tail = 0x80 ∷ (replicate (zeros (length input)) 0 ++ write_be64 (u64 (length input * 8))) in
    let whole : feed (init_hash, []) (padded input)
        ≡ (hash_blocks (length (padded input) / 64) init_hash (padded input), []) =
      feed-hash_blocks (length (padded input) / 64) init_hash (padded input)
        (omega (arith, length-padded input)) in
    final-feed ctx (omega (arith, held))
    ∙ ap
        (λ k.
          digest
            (feed (state ctx) (0x80 ∷ (replicate k 0 ++ write_be64 (u64 (ctx.total_len * 8))))).0)
        same_zeros
    ∙ ap
        (λ b.
          digest (feed (state ctx) (0x80 ∷ (replicate (zeros (length input)) 0 ++ write_be64 b))).0)
        counted
    ∙ ap (λ s. digest (feed s tail).0) started
    ∙ ap (λ s. digest s.0) (sym (feed-append (init_hash, []) input tail) ∙ whole)

nil_of : (xs : Bytes) → length xs ≡ 0 → xs ≡ []
nil_of [] e = refl
nil_of (x ∷ xs) e = absurd (omega arith)

abbrev empty_ctx : Ctx
empty_ctx = record { hash = init_hash; total_len = 0; block = [] }

-- Before the padding, the message has been fed, and its length counted.
absorbed-feed :
    (input : Bytes)
    → (state (absorbed input) ≡ feed (init_hash, []) input)
      × (u64 ((absorbed input).total_len * 8) ≡ u64 (length input * 8))
unfolding absorbed update
absorbed-feed input = elim (Bool-cases (length input != 0)) [
  | inl given ↦
      let same : absorbed input ≡ update empty_ctx input = rw given in
      let total : (update empty_ctx input).total_len ≡ u64 (0 + length input) =
        total-update_loop (record empty_ctx { total_len = u64 (0 + length input) }) input in
      (
        ap state same ∙ update-feed empty_ctx input,
        ap (λ ctx. u64 (ctx.total_len * 8)) same ∙ omega (arith, total),
      )
  | inr missing ↦
      let nothing : input ≡ [] = nil_of input (ground arith) in rw (missing, nothing) (refl, refl)
]

-- `sockify_sha1` hashes the message with its padding, block by block: the streaming of
-- `sha1_update`, the loop that pads and the length give exactly the padded message of RFC 3174, a
-- whole number of blocks, for every input. The compression of a block is the code's `sha1_process`.
pub sha1-padded :
    (input : Bytes)
    → (length (padded input) % 64 ≡ 0)
      × (sha1 input ≡ digest (hash_blocks (length (padded input) / 64) init_hash (padded input)))
unfolding sha1
sha1-padded input =
    let (fed, counted) = absorbed-feed input in
    (length-padded input, final-padded input (absorbed input) fed counted)
