-- ===== src/MatchRequest/RoundTrip.antt =====
-- A match request on its way (Linear/serialization.cxx).
use mathlib.Core.List.{append_assoc}
use inferno_game_server.Base.{
  ℕ, zero, suc, ◌-◌, ◌≤◌, ◌≡◌, refl, ap, sym, ◌∙◌, List, [], ◌∷◌, ◌++◌, Option, none, some, arith,
  length, length-append, take, drop, subst, inl, inr, Bool-cases, replicate, leb,
}
use inferno_game_server.Base.Bytes.{overlay, c_string, strlen, clear}
use inferno_game_server.Base.Arrays.{
  length-overlay, overlay-whole, take-all, put, put-append, take-length, drop-length, overlay-drop,
}
use inferno_game_server.NavGraph.Text.{atoi}
use inferno_game_server.MatchRequest.{
  Position, magic_hybrid, physical_hybrid, support, glass_cannon, juggernaut, fill, MatchRequest,
  printed, received, parsed, build_match_request, written, serialize_match_request,
  deserialize_match_request,
}

-- The arrays have their sizes.
abbrev pub IsSized : MatchRequest → Type 0
IsSized mr = (length mr.token ≡ 64) × (length mr.username ≡ 16)

length-drop : (n : ℕ) (s : List ℕ) → length (drop n s) ≡ length s - n
length-drop zero s = omega arith
length-drop (suc n) [] = omega arith
length-drop (suc n) (x ∷ s) = omega (arith, length-drop n s)

laid_out :
    (mr : MatchRequest) (buffer : List ℕ)
    → IsSized mr
    → 82 ≤ length buffer
    → (rest : List ℕ) × (written mr buffer
        ≡ mr.token ++ (mr.username ++ (printed mr.position ++ rest)))
unfolding written
laid_out mr buffer h room =
    let behind = drop (length mr.token) buffer in
    let behind' = drop (length mr.username) behind in
    let l = length-drop (length mr.token) buffer in
    let l' = length-drop (length mr.username) behind in
    (
      drop 2 behind',
      ap (λ b. put 80 (printed mr.position) (put 64 mr.username b))
            (overlay-drop mr.token buffer (omega (arith, h.0)))
          ∙ (ap (put 80 (printed mr.position))
                (put-append 64 mr.token mr.username behind h.0 (omega (arith, h.0, h.1, l)))
              ∙ (ap (put 80 (printed mr.position)) (sym (append_assoc mr.token mr.username behind'))
                  ∙ (put-append 80 (mr.token ++ mr.username) (printed mr.position) behind'
                        (omega (arith, h.0, h.1, length-append mr.token mr.username))
                        (omega (arith, h.0, h.1, l, l'))
                      ∙ append_assoc mr.token mr.username _))),
    )

parsed-printed : (p : Position) (rest : List ℕ) → parsed (c_string (printed p ++ rest)) ≡ some p
unfolding c_string atoi
parsed-printed magic_hybrid rest = refl
parsed-printed physical_hybrid rest = refl
parsed-printed support rest = refl
parsed-printed glass_cannon rest = refl
parsed-printed juggernaut rest = refl
parsed-printed fill rest = refl

take-n : (n : ℕ) (xs ys : List ℕ) → length xs ≡ n → take n (xs ++ ys) ≡ xs
take-n n xs ys e = subst (λ k. take k (xs ++ ys) ≡ xs) e (take-length xs ys)

drop-n : (n : ℕ) (xs ys : List ℕ) → length xs ≡ n → drop n (xs ++ ys) ≡ ys
drop-n n xs ys e = subst (λ k. drop k (xs ++ ys) ≡ ys) e (drop-length xs ys)

received-eq :
    (mr : MatchRequest) (token username : List ℕ) (p : Option Position)
    → token ≡ mr.token
    → username ≡ mr.username
    → p ≡ some mr.position
    → received token username p ≡ some mr
received-eq mr token username p e f g =
    rw g (λ i. some (record { token = e i; username = f i; position = mr.position }))

-- A request whose arrays have their sizes, put into a buffer of at least 82 bytes, is taken out as it was.
deserialize-written :
    (mr : MatchRequest) (buffer : List ℕ)
    → IsSized mr
    → 82 ≤ length buffer
    → deserialize_match_request (written mr buffer) ≡ some mr
unfolding deserialize_match_request
deserialize-written mr buffer h room =
    let (rest, e) = laid_out mr buffer h room in
    let tail = printed mr.position ++ rest in
    let behind = drop-n 64 mr.token (mr.username ++ tail) h.0 in
    let text : drop 80 (mr.token ++ (mr.username ++ tail)) ≡ tail =
      ap (drop 80) (sym (append_assoc mr.token mr.username tail))
      ∙ drop-n 80 (mr.token ++ mr.username) tail
          (omega (arith, h.0, h.1, length-append mr.token mr.username)) in
    ap deserialize_match_request e
    ∙ received-eq mr _ _ _ (take-n 64 mr.token (mr.username ++ tail) h.0)
        (ap (take 16) behind ∙ take-n 16 mr.username tail h.1)
        (ap (λ b. parsed (c_string b)) text ∙ parsed-printed mr.position rest)

length-take : (n : ℕ) (xs : List ℕ) → n ≤ length xs → length (take n xs) ≡ n
length-take zero xs h = refl
length-take (suc n) [] h = absurd (omega arith)
length-take (suc n) (x ∷ xs) h = omega (arith, length-take n xs (omega arith))

build_match_request-IsSized :
    (auth_token uname : List ℕ) (p : Position) (mr : MatchRequest)
    → 64 ≤ length auth_token
    → build_match_request auth_token uname p ≡ some mr
    → IsSized mr
unfolding build_match_request
build_match_request-IsSized auth_token uname p mr h e = elim (Bool-cases (leb (length uname) 16)) [
  | inr long ↦ absurd (ground arith)
  | inl short ↦
      let same : record {
        token = take 64 auth_token;
        username = overlay uname (replicate 16 0);
        position = p;
      }
          ≡ mr =
        ground arith in
      subst IsSized same (length-take 64 auth_token h, length-overlay uname (replicate 16 0))
]

length-clear : (n : ℕ) (s : List ℕ) → length (clear n s) ≡ length s
unfolding clear
length-clear zero s = refl
length-clear (suc n) [] = refl
length-clear (suc n) (c ∷ s) = omega (arith, length-clear n s)

-- The name goes through the array as it is.
copied :
    (name memory : List ℕ) (n : ℕ)
    → length name ≡ 16
    → length memory ≡ 16
    → overlay (take 16 name) (clear n memory) ≡ name
copied name memory n h array =
    rw (take-all 16 name (omega (arith, h)))
      (overlay-whole name (clear n memory) (omega (arith, h, array, length-clear n memory)))

-- A request that is built from a token of at least 64 bytes arrives as it was built, if the array
-- that the name is copied through, which is not initialised, holds a NUL: put into a buffer of at
-- least 82 bytes and taken out again it has the same token, name and position. Without a NUL in
-- that array the code is undefined.
pub match_request_arrives :
    (auth_token uname memory : List ℕ) (p : Position) (mr : MatchRequest) (buffer : List ℕ)
    → 64 ≤ length auth_token
    → build_match_request auth_token uname p ≡ some mr
    → length memory ≡ 16
    → 82 ≤ length buffer
    → ((n : ℕ)
        → strlen memory ≡ some n
        → (b : List ℕ) × (serialize_match_request memory mr buffer ≡ some b)
          × (deserialize_match_request b ≡ some mr))
      × (strlen memory ≡ none → serialize_match_request memory mr buffer ≡ none)
unfolding serialize_match_request
match_request_arrives auth_token uname memory p mr buffer h e array room =
    let sized = build_match_request-IsSized auth_token uname p mr h e in
    (
      λ n ends. (
        written mr buffer,
        rw ends (
            ap (λ l. some (written (record mr { username = l }) buffer))
              (copied mr.username memory n sized.1 array)),
        deserialize-written mr buffer sized room,
      ),
      λ never. rw never refl,
    )
