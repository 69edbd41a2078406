-- ===== src/Packets/Memory.antt =====
-- The bytes of a packet buffer (Packets/*.cxx: `memcpy` between a buffer and a field).
use inferno_game_server.Base.{
  ℕ, zero, suc, ◌+◌, ◌-◌, ◌*◌, ◌/◌, ◌%◌, ◌^◌, ◌≤◌, ◌<◌, ◌≡◌, ◌&&◌, arith, ltb, leb, if◌then◌else◌,
}

-- The array that `data` points at, by the offset from `data`.
abbrev pub Buffer : Type 0
Buffer = ℕ → ℕ

-- Byte `k` of a value, the low byte first (x86).
abbrev pub byte : ℕ → ℕ → ℕ
byte k v = v / 256 ^ k % 256

-- memcpy(data + at, &v, n)
abbrev pub store : ℕ → ℕ → ℕ → Buffer → Buffer
store at n v b = λ a. if leb at a && ltb a (at + n) then byte (a - at) v else b a

-- memcpy(&v, data + at, n)
abbrev pub load : ℕ → ℕ → Buffer → ℕ
load at zero b = 0
load at (suc n) b = b at + 256 * load (suc at) n b

pub byte_1 : (v : ℕ) → v < 256 → byte 0 v + 0 ≡ v
byte_1 v h = omega arith

pub bytes_2 : (v : ℕ) → v < 65536 → byte 0 v + 256 * (byte 1 v + 0) ≡ v
bytes_2 v h = omega arith

pub bytes_4 :
    (v : ℕ)
    → v < 4294967296
    → byte 0 v + 256 * (byte 1 v + 256 * (byte 2 v + 256 * (byte 3 v + 0))) ≡ v
bytes_4 v h = omega arith

-- The two buffers agree from `n` on.
abbrev pub AgreeFrom : ℕ → Buffer → Buffer → Type 0
AgreeFrom n b c = (a : ℕ) → n ≤ a → b a ≡ c a
