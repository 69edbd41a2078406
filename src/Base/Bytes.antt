-- ===== src/Base/Bytes.antt =====
-- Byte strings: C strings in arrays, and the std::string that is made of them.
use Prim.Native.Nat.{ℕ, zero, suc}
use mathlib.Core.Path.{◌≡◌, refl}
use mathlib.Core.Logic.{◌↔◌}
use mathlib.Core.Bool.{Bool, true, false, ◌&&◌}
use mathlib.Core.List.{List, [], ◌∷◌}
use mathlib.Core.Option.{Option, none, some}
use mathlib.Core.Option
use Prim.Native.Char.{code}
use Prim.Native.String.{String}
use native.Mathlib.Omega.{arith}
use inferno_game_server.Base.Tests.{◌==◌, if◌then◌else◌}

-- std::string's ==
unfoldable pub same : List ℕ → List ℕ → Bool
same [] [] = true
same [] (y ∷ ys) = false
same (x ∷ xs) [] = false
same (x ∷ xs) (y ∷ ys) = x == y && same xs ys

pub same_refl : (xs : List ℕ) → same xs xs ≡ true
unfolding same
same_refl [] = refl
same_refl (x ∷ xs) = ground (arith, same_refl xs)

pub same→eq : (xs ys : List ℕ) → same xs ys ≡ true → xs ≡ ys
unfolding same
same→eq [] [] h = refl
same→eq [] (y ∷ ys) h = cc
same→eq (x ∷ xs) [] h = cc
same→eq (x ∷ xs) (y ∷ ys) h = ground (arith, same→eq xs ys)

pub same_iff : (xs ys : List ℕ) → (same xs ys ≡ true) ↔ (xs ≡ ys)
same_iff xs ys = (same→eq xs ys, λ e. rw e (same_refl ys))

-- The C string at the start of an array; `none` if no NUL ends it within the array.
unfoldable pub c_string : List ℕ → Option (List ℕ)
c_string [] = none
c_string (c ∷ s) =
    let rest = Option.map (λ r. c ∷ r) (c_string s) in if c == 0 then some [] else rest

unfoldable pub strlen : List ℕ → Option ℕ
strlen [] = none
strlen (c ∷ s) = let rest = Option.map suc (strlen s) in if c == 0 then some 0 else rest

-- memset(s, 0, n) within the array
unfoldable pub clear : ℕ → List ℕ → List ℕ
clear zero s = s
clear (suc n) [] = []
clear (suc n) (c ∷ s) = 0 ∷ clear n s

-- memcpy(s, bs, length bs) within the array
unfoldable pub overlay : List ℕ → List ℕ → List ℕ
overlay [] s = s
overlay (b ∷ bs) [] = []
overlay (b ∷ bs) (c ∷ s) = b ∷ overlay bs s

-- The character codes of a text.
abbrev pub codes : String → List ℕ
codes String.[] = []
codes (String.◌∷◌ c s) = code c ∷ codes s
