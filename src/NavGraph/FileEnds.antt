-- ===== src/NavGraph/FileEnds.antt =====
-- How the reading of a graph's files ends (Server_AI/Graph.cxx).
use inferno_game_server.Base.{
  ℕ, zero, suc, ◌<◌, ◌≡◌, ◌⊎◌, refl, inl, inr, Option-cases, List, [], ◌∷◌, Option, none, some,
  Result, ok, err, All, arith, length,
}
use inferno_game_server.NavGraph.Text.{atoi, lead, skip, strtok}
use inferno_game_server.NavGraph.Parse.{parse_vl_line, parse_al_line, strtok-again}
use inferno_game_server.NavGraph.{State, Fault, undefined, add_vertex}
use inferno_game_server.NavGraph.Files.{
  cut, Run, returns, goes_on, faults, after_turn, parse_loop, parse_vl_file, parse_al_file,
  vl_parse_exception, throws, fails, load,
}

abbrev pub IsEndless : Run → Type 0
IsEndless (returns b s) = ⊥
IsEndless (goes_on s) = Unit
IsEndless (faults e) = Unit

-- Lines as `getline` gives them: none is empty.
abbrev pub AreLines : List (List ℕ) → Type 0
AreLines lines = All (λ l. 0 < length l) lines

module _ (body : List ℕ → State → Result Fault State) where
  after_turn-IsEndless :
      (r : Result Fault State) (next : State → Run)
      → ((s : State) → IsEndless (next s))
      → IsEndless (after_turn r next)
  after_turn-IsEndless (ok s) next h = h s
  after_turn-IsEndless (err e) next h = tt

  parse_loop-IsEndless :
      (fuel : ℕ) (lines : List (List ℕ)) (buffer : List ℕ) (s : State)
      → AreLines lines
      → IsEndless (parse_loop body fuel lines buffer s)
  unfolding parse_loop
  parse_loop-IsEndless zero lines buffer s h = tt
  parse_loop-IsEndless (suc fuel) [] buffer s h =
      after_turn-IsEndless (body buffer s) _ (λ s'. parse_loop-IsEndless fuel [] (cut buffer) s' tt)
  parse_loop-IsEndless (suc fuel) ([] ∷ lines) buffer s h = absurd (omega (arith, h.0))
  parse_loop-IsEndless (suc fuel) ((c ∷ l) ∷ lines) buffer s h =
      after_turn-IsEndless (body (c ∷ l) s) _
        (λ s'. parse_loop-IsEndless fuel lines (cut (c ∷ l)) s' h.1)

-- Neither function returns from a file that it could open, whatever its lines, none of which is empty, and
-- the turns of its loop: `getline` is compared with 0, which it does not return at the end of a file.
pub parse_files_never_return :
    (lines : List (List ℕ)) (fuel : ℕ) (s : State)
    → AreLines lines
    → IsEndless (parse_vl_file (some lines) fuel s) × IsEndless (parse_al_file (some lines) fuel s)
unfolding parse_vl_file parse_al_file
parse_files_never_return lines fuel s h = (
  parse_loop-IsEndless parse_vl_line fuel lines [] s h,
  parse_loop-IsEndless parse_al_line fuel lines [] s h,
)

nothing_cut : strtok [] ≡ none
unfolding strtok lead skip
nothing_cut = refl

-- A vertex line that was read once has one token only.
parse_vl_line-cut : (l : List ℕ) (s : State) → parse_vl_line (cut l) s ≡ err undefined
unfolding parse_vl_line cut
parse_vl_line-cut l s = elim (Option-cases (strtok l)) [
  | inl e ↦ rw e (rw e refl)
  | inr (t, e) ↦ let (u, f, same, left) = strtok-again l t e in rw e (rw f (rw left refl))
]

parse_vl_line-cases :
    (l : List ℕ) (s : State)
    → (parse_vl_line l s ≡ err undefined) ⊎ ((s' : State) × (parse_vl_line l s ≡ ok s'))
unfolding parse_vl_line
parse_vl_line-cases l s = elim (Option-cases (strtok l)) [
  | inl e ↦ inl (rw e refl)
  | inr (t, e) ↦ elim (Option-cases (strtok t.saved)) [
    | inl f ↦ inl (rw e (rw f refl))
    | inr (u, f) ↦ elim (Option-cases (strtok u.saved)) [
      | inl g ↦ inl (rw e (rw f (rw g refl)))
      | inr (v, g) ↦
          inr
            ((add_vertex (atoi t.token) (atoi u.token) (atoi v.token) s).0, rw e (rw f (rw g refl)))
    ]
  ]
]

parse_loop-undefined :
    (lines : List (List ℕ)) (buffer : List ℕ) (s : State)
    → AreLines lines
    → ((s' : State) → parse_vl_line buffer s' ≡ err undefined)
    → parse_loop parse_vl_line (suc (length lines)) lines buffer s ≡ faults undefined
unfolding parse_loop
parse_loop-undefined [] buffer s h spent = rw (spent s) refl
parse_loop-undefined ([] ∷ lines) buffer s h spent = absurd (omega (arith, h.0))
parse_loop-undefined ((c ∷ l) ∷ lines) buffer s h spent = elim (parse_vl_line-cases (c ∷ l) s) [
  | inl e ↦ rw e refl
  | inr (s', e) ↦ rw e (parse_loop-undefined lines (cut (c ∷ l)) s' h.1 (parse_vl_line-cut (c ∷ l)))
]

empty_spent : (s : State) → parse_vl_line [] s ≡ err undefined
unfolding parse_vl_line
empty_spent s = rw nothing_cut refl

-- The constructor of a graph from two files never gives a graph: without a vertex file it throws
-- VL_PARSE_EXCEPTION, and from any vertex file, whatever its lines are as long as none is empty, its
-- behaviour is undefined at the latest in the turn after the last line, which reads that line's first
-- token again and no second.
pub load_fails :
    (vl : List (List ℕ)) (al : Option (List (List ℕ))) (fuel : ℕ) (s : State)
    → AreLines vl
    → (load none al fuel s ≡ throws vl_parse_exception)
      × (load (some vl) al (suc (length vl)) s ≡ fails undefined)
unfolding load parse_vl_file
load_fails vl al fuel s h = (refl, rw (parse_loop-undefined vl [] s h empty_spent) refl)
