-- ===== src/ServerUtils/Examples.antt =====
-- The theorems about the servers' utilities on small inputs.
use inferno_game_server.Base.{
  ℕ, zero, suc, true, false, List, [], ◌∷◌, All, none, some, arith, replicate, if◌then◌else◌, ltb,
}
use inferno_game_server.ServerUtils.{Address}
use inferno_game_server.ServerUtils.Hash.{IsByte}

-- A digest for the example: the first byte, 32 times.
abbrev first_byte : List ℕ → ℕ
first_byte [] = 0
first_byte (b ∷ bs) = if ltb b 256 then b else 0

abbrev digest : List ℕ → List ℕ
digest input = replicate 32 (first_byte input)

first_byte-IsByte : (input : List ℕ) → IsByte (first_byte input)
first_byte-IsByte [] = omega arith
first_byte-IsByte (b ∷ bs) = ground arith

replicate-All : (n b : ℕ) → IsByte b → All IsByte (replicate n b)
replicate-All zero b h = tt
replicate-All (suc n) b h = (h, replicate-All n b h)

abbrev addresses : List Address
addresses =
    record { fd = some 3; succeeds = false }
    ∷ record { fd = none; succeeds = false }
    ∷ record { fd = some 3; succeeds = true }
    ∷ []
