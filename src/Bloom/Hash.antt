-- ===== src/Bloom/Hash.antt =====
-- `detail::Hash64` of src/common/bloom_filter.cpp, on a little-endian host.
use vroot_kv.Base.{ℕ, ◌+◌, ◌*◌, ◌/◌, ◌^◌, bit_or, bit_xor, List, [], ◌∷◌, length}
use vroot_kv.Codec.Bytes.{u64}

-- The number that `memcpy` puts together from bytes, lowest byte first.
chunk : List ℕ → ℕ
chunk [] = 0
chunk (b ∷ bs) = b + 256 * chunk bs

-- `x ^= (x >> a); x *= b;`
abbrev xor_mul : ℕ → ℕ → ℕ → ℕ
xor_mul a b x = u64 (bit_xor x (x / 2 ^ a) * b)

-- One round of the loop over eight bytes.
mix : ℕ → ℕ → ℕ
mix x k =
    let summed = u64 (x + u64 (k + 0x9E3779B97F4A7C15)) in
    xor_mul 27 0x94D049BB133111EB (xor_mul 30 0xBF58476D1CE4E5B9 summed)

-- `while (i < s.size()) tail |= p[i] << shift`
tail_loop : ℕ → ℕ → List ℕ → ℕ
tail_loop tail shift [] = tail
tail_loop tail shift (b ∷ bs) = tail_loop (bit_or tail (u64 (b * 2 ^ shift))) (shift + 8) bs

final_mix : ℕ → ℕ
final_mix x =
    let mixed = xor_mul 27 0x94D049BB133111EB (xor_mul 30 0xBF58476D1CE4E5B9 x) in
    bit_xor mixed (mixed / 2 ^ 31)

-- The rest of the string, eight bytes a round, then the tail.
mix_all : ℕ → List ℕ → ℕ
unfolding chunk mix tail_loop final_mix
mix_all x (b0 ∷ b1 ∷ b2 ∷ b3 ∷ b4 ∷ b5 ∷ b6 ∷ b7 ∷ rest) =
    mix_all (mix x (chunk (b0 ∷ b1 ∷ b2 ∷ b3 ∷ b4 ∷ b5 ∷ b6 ∷ b7 ∷ []))) rest
mix_all x tail = final_mix (u64 (x + tail_loop 0 0 tail))

pub hash64 : List ℕ → ℕ → ℕ
unfolding mix_all
hash64 s seed = mix_all (bit_xor seed (u64 (0x9E3779B97F4A7C15 + length s))) s
