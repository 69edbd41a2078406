-- ===== src/NavGraph/Parse.antt =====
-- The bodies of the line loops of `Graph::parse_vl_file` and `parse_al_file` (Server_AI/Graph.cxx). A
-- missing token is a null pointer, which `atoi` must not be given.
use inferno_game_server.Base.{
  ℕ, ◌-◌, ◌%◌, ◌≡◌, ◌⊎◌, subst, refl, true, false, inl, inr, Bool-cases, ap, List, [], ◌∷◌, ◌++◌,
  none, some, Option-cases, Result, ok, err, ◌>>=◌, or_err, arith, All,
}
use inferno_game_server.Base.Int.{ℤ, pos, negsuc}
use inferno_game_server.NavGraph.Text.{
  Token, is_delim, lead, skip, word, behind, strtok, atoi, token_at,
}
use inferno_game_server.NavGraph.{State, Fault, undefined, add_vertex, add_edge}

-- An int made a uint16_t.
abbrev pub to_id : ℤ → ℕ
to_id (pos n) = n % 65536
to_id (negsuc n) = 65535 - n % 65536

-- The loop body of `parse_vl_file`.
unfoldable pub parse_vl_line : List ℕ → State → Result Fault State
parse_vl_line line s = do
  t ← or_err undefined (strtok line)
  u ← or_err undefined (strtok t.saved)
  v ← or_err undefined (strtok u.saved)
  ok (add_vertex (atoi t.token) (atoi u.token) (atoi v.token) s).0

-- The loop body of `parse_al_file`: the second `strtok` starts at `line` again.
unfoldable pub parse_al_line : List ℕ → State → Result Fault State
parse_al_line line s = do
  t ← or_err undefined (strtok line)
  u ← or_err undefined (strtok t.line)
  add_edge (to_id (atoi t.token)) (to_id (atoi u.token)) s

skip-head : (s : List ℕ) {c : ℕ} {r : List ℕ} → skip s ≡ c ∷ r → is_delim c ≡ false
unfolding skip
skip-head [] h = cc
skip-head (x ∷ s) {c} {r} h = elim (Bool-cases (is_delim x)) [
  | inl e ↦ skip-head s {c = c} {r = r} (rw e at h)
  | inr e ↦ ground arith
]

skip-lead : (s : List ℕ) (c : ℕ) (w : List ℕ) → is_delim c ≡ false → skip (lead s ++ c ∷ w) ≡ c ∷ w
unfolding skip lead
skip-lead [] c w h = rw h
skip-lead (x ∷ s) c w h = elim (Bool-cases (is_delim x)) [
  | inl e ↦ rw (e, e) (skip-lead s c w h)
  | inr e ↦ rw (e, h)
]

word-word : (s : List ℕ) → word (word s) ≡ word s
unfolding word
word-word [] = refl
word-word (x ∷ s) = elim (Bool-cases (is_delim x)) [
  | inl e ↦ rw e
  | inr e ↦ rw (e, e) (ap (λ w. x ∷ w) (word-word s))
]

behind-word : (s : List ℕ) → behind (word s) ≡ []
unfolding word behind
behind-word [] = refl
behind-word (x ∷ s) = elim (Bool-cases (is_delim x)) [
  | inl e ↦ rw e refl
  | inr e ↦ rw (e, e) (behind-word s)
]

cut-again :
    (s : List ℕ) (c : ℕ) (r : List ℕ)
    → skip s ≡ c ∷ r
    → (u : Token) × (strtok (lead s ++ word (c ∷ r)) ≡ some u)
      × (u.token ≡ word (c ∷ r))
      × (u.saved ≡ [])
unfolding strtok word behind
cut-again s c r h =
    let plain = skip-head s h in
    let x = lead s ++ c ∷ word r in
    (
      record {
        token = c ∷ word (word r);
        line = lead x ++ c ∷ word (word r);
        saved = behind (c ∷ word r);
      },
      rw plain (rw (skip-lead s c (word r) plain) (rw plain)),
      rw (plain, word-word r),
      rw plain (behind-word r),
    )

-- Starting again at a line that `strtok` has cut finds the same token again, and nothing behind it.
pub strtok-again :
    (s : List ℕ) (t : Token)
    → strtok s ≡ some t
    → (u : Token) × (strtok t.line ≡ some u) × (u.token ≡ t.token) × (u.saved ≡ [])
strtok-again s t h = go (skip s) refl (unfold strtok in h)
  where
    go :
        (r : List ℕ)
        → skip s ≡ r
        → token_at (lead s) (skip s) ≡ some t
        → (u : Token) × (strtok t.line ≡ some u) × (u.token ≡ t.token) × (u.saved ≡ [])
    go [] e q = cc
    go (c ∷ r) e q =
        let f : token_at (lead s) (c ∷ r) ≡ some t = rw e at q in
        let same : record {
          token = word (c ∷ r);
          line = lead s ++ word (c ∷ r);
          saved = behind (c ∷ r);
        }
            ≡ t =
          cc in
        subst
          (λ (t' : Token).
            (u : Token) × (strtok t'.line ≡ some u) × (u.token ≡ t'.token) × (u.saved ≡ []))
          same (cut-again s c r e)

-- Every line of an adjacency file that has a token joins the vertex that its first token names to
-- itself, whatever the line's second token is; a line of delimiters only is undefined.
pub parse_al_line_loops :
    (line : List ℕ) (s : State)
    → ((strtok line ≡ none) × (parse_al_line line s ≡ err undefined))
      ⊎ ((t : Token) × (strtok line ≡ some t)
          × (parse_al_line line s ≡ add_edge (to_id (atoi t.token)) (to_id (atoi t.token)) s))
unfolding parse_al_line
parse_al_line_loops line s = elim (Option-cases (strtok line)) [
  | inl e ↦ inl (e, rw e)
  | inr (t, e) ↦ let (u, f, same, none_left) = strtok-again line t e in inr (t, e, rw (e, f, same))
]

-- Characters that no delimiter is among, and at least one.
abbrev pub IsWord : List ℕ → Type 0
IsWord [] = ⊥
IsWord (c ∷ w) = All (λ x. is_delim x ≡ false) (c ∷ w)

word-stop :
    (w : List ℕ) (d : ℕ) (rest : List ℕ)
    → All (λ x. is_delim x ≡ false) w
    → is_delim d ≡ true
    → word (w ++ d ∷ rest) ≡ w
unfolding word
word-stop [] d rest hw hd = rw hd
word-stop (c ∷ w) d rest hw hd = rw hw.0 (ap (λ v. c ∷ v) (word-stop w d rest hw.1 hd))

behind-stop :
    (w : List ℕ) (d : ℕ) (rest : List ℕ)
    → All (λ x. is_delim x ≡ false) w
    → is_delim d ≡ true
    → behind (w ++ d ∷ rest) ≡ rest
unfolding behind
behind-stop [] d rest hw hd = rw hd
behind-stop (c ∷ w) d rest hw hd = rw hw.0 (behind-stop w d rest hw.1 hd)

strtok-word :
    (w : List ℕ) (d : ℕ) (rest : List ℕ)
    → IsWord w
    → is_delim d ≡ true
    → strtok (w ++ d ∷ rest) ≡ some (record { token = w; line = w; saved = rest })
unfolding strtok lead skip
strtok-word [] d rest hw hd = absurd hw
strtok-word (c ∷ w) d rest hw hd =
    rw hw.0 (rw (word-stop (c ∷ w) d rest hw hd, behind-stop (c ∷ w) d rest hw hd))

-- A line of a vertex file that holds three words, each closed by a comma or the end of the line, adds
-- the vertex with their values for coordinates, and does nothing else.
pub parse_vl_line_adds :
    (x y z rest : List ℕ) (c d e : ℕ) (s : State)
    → IsWord x
    → IsWord y
    → IsWord z
    → is_delim c ≡ true
    → is_delim d ≡ true
    → is_delim e ≡ true
    → parse_vl_line (x ++ c ∷ (y ++ d ∷ (z ++ e ∷ rest))) s
      ≡ ok (add_vertex (atoi x) (atoi y) (atoi z) s).0
unfolding parse_vl_line
parse_vl_line_adds x y z rest c d e s hx hy hz hc hd he =
    rw (strtok-word x c _ hx hc) (rw (strtok-word y d _ hy hd) (rw (strtok-word z e rest hz he)))
