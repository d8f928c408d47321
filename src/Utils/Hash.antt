-- ===== src/Utils/Hash.antt =====
-- pkg/utils/hash.go: the 32-bit FNV-1a hash of hash/fnv, over the UTF-8 bytes of a text.
use Prim.Native.Nat.{bit_xor}
use discoblock.Base.{
  ℕ, ◌+◌, ◌*◌, ◌/◌, ◌%◌, ◌^◌, ◌<◌, code, String, ◌≡◌, refl, List, [], ◌∷◌, ◌++◌, arith, ltb,
  if◌then◌else◌,
}

-- UTF-8 of one character
encode : ℕ → List ℕ
encode c =
    if ltb c 0x80
    then c ∷ []
    else if ltb c 0x800
    then (0xc0 + c / 64) ∷ (0x80 + c % 64) ∷ []
    else if ltb c 0x10000
    then (0xe0 + c / 4096) ∷ (0x80 + c / 64 % 64) ∷ (0x80 + c % 64) ∷ []
    else (0xf0 + c / 262144) ∷ (0x80 + c / 4096 % 64) ∷ (0x80 + c / 64 % 64) ∷ (0x80 + c % 64) ∷ []

bytes : String → List ℕ
unfolding encode
bytes String.[] = []
bytes (String.◌∷◌ c s) = encode (code c) ++ bytes s

-- `Write`: each byte is mixed in, in uint32
write : ℕ → List ℕ → ℕ
write h [] = h
write h (b ∷ s) = write (bit_xor h b * 16777619 % 2 ^ 32) s

unfoldable pub hash : String → ℕ
unfolding bytes write
hash s = write 2166136261 (bytes s)

write-lt : (h : ℕ) (s : List ℕ) → h < 2 ^ 32 → write h s < 2 ^ 32
unfolding write
write-lt h [] lt = lt
write-lt h (b ∷ s) lt = write-lt (bit_xor h b * 16777619 % 2 ^ 32) s (omega arith)

-- The hash is a uint32.
pub hash-lt : (s : String) → hash s < 2 ^ 32
unfolding hash
hash-lt s = write-lt 2166136261 (bytes s) (omega arith)

-- The published test vectors of FNV-1a.
hash_runs : (hash "" ≡ 0x811c9dc5) × (hash "a" ≡ 0xe40c292c) × (hash "foobar" ≡ 0xbf9cf968)
unfolding hash
hash_runs = (refl, refl, refl)
