-- ===== src/ServerUtils/Hash.antt =====
-- The printing of a hash (`hash_SHA_256`, server_utils.cxx).
use inferno_game_server.Base.{
  ℕ, ◌*◌, ◌/◌, ◌%◌, ◌<◌, ◌≡◌, ◌↔◌, refl, ap, List, [], ◌∷◌, All, arith, length,
}
use inferno_game_server.ServerUtils.{hex_digit, print_hash, hash_sha_256}

abbrev pub IsByte : ℕ → Type 0
IsByte b = b < 256

length-print_hash : (bs : List ℕ) → length (print_hash bs) ≡ 2 * length bs
unfolding print_hash
length-print_hash [] = refl
length-print_hash (b ∷ bs) = omega (arith, length-print_hash bs)

hex_digit_inj : (m n : ℕ) → m < 16 → n < 16 → hex_digit m ≡ hex_digit n → m ≡ n
hex_digit_inj m n h k e = ground arith

print_hash_inj : (a b : List ℕ) → All IsByte a → All IsByte b → print_hash a ≡ print_hash b → a ≡ b
unfolding print_hash
print_hash_inj [] [] h k e = refl
print_hash_inj [] (y ∷ b) h k e = cc
print_hash_inj (x ∷ a) [] h k e = cc
print_hash_inj (x ∷ a) (y ∷ b) h k e =
    let hi : hex_digit (x / 16) ≡ hex_digit (y / 16) = cc in
    let lo : hex_digit (x % 16) ≡ hex_digit (y % 16) = cc in
    let rest : print_hash a ≡ print_hash b = cc in
    let same : x ≡ y = omega (
      arith,
      hex_digit_inj (x / 16) (y / 16) (omega (arith, h.0)) (omega (arith, k.0)) hi,
      hex_digit_inj (x % 16) (y % 16) (omega arith) (omega arith) lo,
    ) in
    λ i. same i ∷ print_hash_inj a b h.1 k.1 rest i

-- If the digest is always 32 bytes, the printed hash has 64 characters, as the tokens that the servers
-- exchange, and two inputs have the same printed hash exactly if they have the same digest.
pub hash_sha_256_faithful :
    (sha256 : List ℕ → List ℕ) (a b : List ℕ)
    → ((input : List ℕ) → (length (sha256 input) ≡ 32) × All IsByte (sha256 input))
    → (length (hash_sha_256 sha256 a) ≡ 64)
      × ((hash_sha_256 sha256 a ≡ hash_sha_256 sha256 b) ↔ (sha256 a ≡ sha256 b))
unfolding hash_sha_256
hash_sha_256_faithful sha256 a b h = (
  omega (arith, length-print_hash (sha256 a), (h a).0),
  (print_hash_inj (sha256 a) (sha256 b) (h a).1 (h b).1, λ e. ap print_hash e),
)
