-- ===== src/Base/Arrays.antt =====
-- Parts of an array, and writes into it.
use Prim.Native.Nat.{ℕ, zero, suc, ◌≤◌}
use mathlib.Core.Path.{◌≡◌, refl, ap, subst}
use mathlib.Core.List.{List, [], ◌∷◌, ◌++◌}
use native.Mathlib.Omega.{arith}
use inferno_game_server.Base.Lists.{length, take, drop}
use inferno_game_server.Base.Bytes.{overlay}

pub take-length : (xs ys : List ℕ) → take (length xs) (xs ++ ys) ≡ xs
take-length [] ys = refl
take-length (x ∷ xs) ys = ap (λ l. x ∷ l) (take-length xs ys)

pub drop-length : (xs ys : List ℕ) → drop (length xs) (xs ++ ys) ≡ ys
drop-length [] ys = refl
drop-length (x ∷ xs) ys = drop-length xs ys

pub overlay-drop : (bs s : List ℕ) → length bs ≤ length s → overlay bs s ≡ bs ++ drop (length bs) s
unfolding overlay
overlay-drop [] s h = refl
overlay-drop (b ∷ bs) [] h = absurd (omega arith)
overlay-drop (b ∷ bs) (x ∷ s) h = ap (λ l. b ∷ l) (overlay-drop bs s (omega arith))

pub take-all : (n : ℕ) (xs : List ℕ) → length xs ≤ n → take n xs ≡ xs
take-all zero [] h = refl
take-all zero (x ∷ xs) h = absurd (omega arith)
take-all (suc n) [] h = refl
take-all (suc n) (x ∷ xs) h = ap (λ l. x ∷ l) (take-all n xs (omega arith))

pub length-overlay : (bs s : List ℕ) → length (overlay bs s) ≡ length s
unfolding overlay
length-overlay [] s = refl
length-overlay (b ∷ bs) [] = refl
length-overlay (b ∷ bs) (x ∷ s) = omega (arith, length-overlay bs s)

pub take_fits : (n : ℕ) (xs : List ℕ) → length (take n xs) ≤ n
take_fits zero [] = omega arith
take_fits zero (x ∷ xs) = omega arith
take_fits (suc n) [] = omega arith
take_fits (suc n) (x ∷ xs) = omega (arith, take_fits n xs)

-- A write that fills the array.
pub overlay-whole : (bs s : List ℕ) → length bs ≡ length s → overlay bs s ≡ bs
unfolding overlay
overlay-whole [] [] h = refl
overlay-whole [] (x ∷ s) h = absurd (omega arith)
overlay-whole (b ∷ bs) [] h = absurd (omega arith)
overlay-whole (b ∷ bs) (x ∷ s) h = ap (λ l. b ∷ l) (overlay-whole bs s (omega arith))

-- memcpy(s + n, bs, length bs) within the array
abbrev pub put : ℕ → List ℕ → List ℕ → List ℕ
put n bs s = take n s ++ overlay bs (drop n s)

pub put-append :
    (n : ℕ) (before bs s : List ℕ)
    → length before ≡ n
    → length bs ≤ length s
    → put n bs (before ++ s) ≡ before ++ (bs ++ drop (length bs) s)
put-append n before bs s e h =
    subst (λ k. put k bs (before ++ s) ≡ before ++ (bs ++ drop (length bs) s)) e
      (rw (take-length before s, drop-length before s)
        (ap (λ l. before ++ l) (overlay-drop bs s h)))
