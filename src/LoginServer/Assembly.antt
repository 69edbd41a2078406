-- ===== src/LoginServer/Assembly.antt =====
-- What the receiving loops make of input that comes in several reads (LoginServer.cxx).
use inferno_game_server.Base.{
  ℕ, zero, suc, ◌+◌, ◌-◌, ◌≤◌, ◌<◌, ◌≡◌, ◌≢◌, refl, ap, sym, subst, inl, inr, Option-cases, ◌∙◌,
  List, [], ◌∷◌, ◌++◌, map, some, ok, arith, length, drop, replicate, get_or, All, length-append,
  le→leb, lt→ltb,
}
use mathlib.Core.List.{append_assoc}
use inferno_game_server.Base.Int.{pos, ◌+ℤ◌}
use inferno_game_server.Base.Arrays.{take-all, take-length, drop-length, overlay-drop}
use inferno_game_server.Base.Bytes.{c_string, overlay}
use inferno_game_server.LoginServer.Reads.{got, read_name, read_password, write_at}

-- All that the reads bring.
abbrev pub joined : List (List ℕ) → List ℕ
joined [] = []
joined (c ∷ cs) = c ++ joined cs

write-behind :
    (before bs s : List ℕ)
    → 0 < length bs
    → length bs ≤ length s
    → write_at (pos (length before)) bs (before ++ s) ≡ ok (before ++ (bs ++ drop (length bs) s))
unfolding write_at
write-behind before [] s p h = absurd (omega arith)
write-behind before (b ∷ bs) s p h =
    rw (take-length before s, drop-length before s)
      (rw
        (le→leb (length before + length (b ∷ bs)) (length (before ++ s))
          (omega (arith, length-append before s)))
        (ap (λ l. ok (before ++ l)) (overlay-drop (b ∷ bs) s h)))

drop-nil : (n : ℕ) → drop {A = ℕ} n [] ≡ []
drop-nil zero = refl
drop-nil (suc n) = refl

drop-append : (c t s : List ℕ) → drop (length t) (drop (length c) s) ≡ drop (length (c ++ t)) s
drop-append [] t s = refl
drop-append (x ∷ c) t [] = drop-nil (length t)
drop-append (x ∷ c) t (y ∷ s) = drop-append c t s

length-drop : (c s : List ℕ) → length (drop (length c) s) ≡ length s - length c
length-drop [] s = omega arith
length-drop (x ∷ c) [] = omega arith
length-drop (x ∷ c) (y ∷ s) = omega (arith, length-drop c s)

pos-length-append : (xs ys : List ℕ) → pos (length xs) +ℤ pos (length ys) ≡ pos (length (xs ++ ys))
unfolding ◌+ℤ◌
pos-length-append xs ys = ground (arith, length-append xs ys)

-- What a read may bring at most, and at least.
abbrev pub IsChunk : ℕ → List ℕ → Type 0
IsChunk n c = (0 < length c) × (length c ≤ n)

reassemble :
    (before : List ℕ) (cs : List (List ℕ)) (s : List ℕ) (n : ℕ)
    → All (IsChunk 64) cs
    → length (before ++ joined cs) ≡ n
    → length (joined cs) ≤ length s
    → read_password (pos n) (pos (length before)) (before ++ s) (map got cs)
      ≡ ok (before ++ (joined cs ++ drop (length (joined cs)) s))
unfolding read_password
reassemble before [] s n h e fits = ground (arith, length-append before [])
reassemble before (c ∷ cs) s n h e fits =
    let more = length-append c (joined cs) in
    let all = length-append before (c ++ joined cs) in
    rw (take-all 64 c h.0.1, lt→ltb (length before + 0) (n + 0) (omega arith))
      (rw
        (
          write-behind before c s h.0.0 (omega arith),
          pos-length-append before c,
          ← append_assoc before c (drop (length c) s),
        )
        (reassemble (before ++ c) cs (drop (length c) s) n h.1
            (omega (
              arith,
              e,
              more,
              all,
              length-append (before ++ c) (joined cs),
              length-append before c,
            ))
            (omega (arith, length-drop c s))
          ∙ ap ok (
              append_assoc before c _
              ∙ ap (λ l. before ++ l)
                  (ap (λ l. c ++ (joined cs ++ l)) (drop-append c (joined cs) s)
                    ∙ sym (append_assoc c (joined cs) (drop (length (c ++ joined cs)) s))))))

-- A password of at most 64 bytes that comes in any number of non-empty reads is put together in order:
-- the array ends up with its bytes, and zeroes behind them.
pub read_password_reassembles :
    (cs : List (List ℕ))
    → All (IsChunk 64) cs
    → length (joined cs) ≤ 64
    → read_password (pos (length (joined cs))) (pos 0) (replicate 64 0) (map got cs)
      ≡ ok (joined cs ++ drop (length (joined cs)) (replicate 64 0))
read_password_reassembles cs h fits =
    reassemble [] cs (replicate 64 0) (length (joined cs)) h refl fits

get_or-overlay : (bs s : List ℕ) (i : ℕ) → length bs ≤ i → get_or (overlay bs s) i 0 ≡ get_or s i 0
unfolding overlay
get_or-overlay [] s i h = refl
get_or-overlay (b ∷ bs) [] zero h = refl
get_or-overlay (b ∷ bs) [] (suc i) h = refl
get_or-overlay (b ∷ bs) (x ∷ s) zero h = absurd (omega arith)
get_or-overlay (b ∷ bs) (x ∷ s) (suc i) h = get_or-overlay bs s i (omega arith)

get_or-replicate : (n i : ℕ) → get_or {A = ℕ} (replicate n 0) i 0 ≡ 0
get_or-replicate zero i = refl
get_or-replicate (suc n) zero = refl
get_or-replicate (suc n) (suc i) = get_or-replicate n i

c_string-length :
    (s : List ℕ) (i : ℕ) {r : List ℕ} → c_string s ≡ some r → get_or s i 0 ≡ 0 → length r ≤ i
unfolding c_string
c_string-length [] i h z = cc
c_string-length (zero ∷ s) i {r} h z =
    let e : [] ≡ r = cc in subst (λ t. length t ≤ i) e (omega arith)
c_string-length (suc x ∷ s) zero h z = absurd (omega arith)
c_string-length (suc x ∷ s) (suc i) {r} h z = elim (Option-cases (c_string s)) [
  | inl e ↦ ground arith
  | inr (t, e) ↦
      let same : suc x ∷ t ≡ r = ground arith in
      subst (λ u. length u ≤ suc i) same (omega (arith, c_string-length s i e z))
]

-- A name that comes in two non-empty reads, of at most 16 bytes each, is stored with the second over the
-- first, and never read back as what the client sent.
pub read_name_garbles :
    (a b : List ℕ)
    → IsChunk 16 a
    → IsChunk 16 b
    → (s : List ℕ) × (read_name
          (pos (length (a ++ b)))
          (pos 0)
          (replicate 16 0)
          (got a ∷ got b ∷ [])
        ≡ ok s)
      × (c_string s ≢ some (a ++ b))
unfolding read_name ◌+ℤ◌
read_name_garbles a b ha hb =
    let sum = length-append a b in
    let last = length a + length b - 1 in
    let zeros = replicate 16 0 in
    let stored = overlay b (overlay a zeros) in
    (
      stored,
      rw (take-all 16 a ha.1, take-all 16 b hb.1) (ground (arith, sum)),
      λ e.
          let z =
            get_or-overlay b (overlay a zeros) last (omega arith)
            ∙ (get_or-overlay a zeros last (omega arith) ∙ get_or-replicate 16 last) in
          absurd (omega (arith, sum, c_string-length stored last e z)),
    )
