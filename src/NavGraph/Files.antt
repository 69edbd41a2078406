-- ===== src/NavGraph/Files.antt =====
-- The whole of `Graph::parse_vl_file` and `parse_al_file`, and the constructor from two files
-- (Server_AI/Graph.cxx). A file is the list of its lines, each with its newline, or none where it cannot be
-- opened. Fuel is the turns of a loop that are made.
use inferno_game_server.Base.{
  ℕ, zero, suc, Bool, true, false, List, [], ◌∷◌, Option, none, some, Result, ok, err, length,
  if◌then◌else◌,
}
use inferno_game_server.Base.Int.{ℤ, pos, negsuc}
use inferno_game_server.NavGraph.Text.{Token, strtok}
use inferno_game_server.NavGraph.Parse.{parse_vl_line, parse_al_line}
use inferno_game_server.NavGraph.{State, Fault}

-- `getline`: what it returns, the buffer and the lines that remain. At the end of the file it
-- returns -1 and leaves the buffer as it is.
abbrev pub getline : List (List ℕ) → List ℕ → ℤ × List ℕ × List (List ℕ)
getline [] buffer = (negsuc 0, buffer, [])
getline (l ∷ lines) buffer = (pos (length l), l, lines)

-- while(getline(..))
abbrev pub is_true : ℤ → Bool
is_true (pos zero) = false
is_true (pos (suc n)) = true
is_true (negsuc n) = true

abbrev cut_at : Option Token → List ℕ → List ℕ
cut_at none line = line
cut_at (some t) line = t.line

-- The C string in the buffer after the turn's calls of `strtok`.
unfoldable pub cut : List ℕ → List ℕ
unfolding strtok
cut line = cut_at (strtok line) line

pub data Run : Type 0 where
  -- the function returns a truth value
  returns : Bool → State → Run
  -- the fuel is used up
  goes_on : State → Run
  faults : Fault → Run

abbrev pub after_turn : Result Fault State → (State → Run) → Run
after_turn (ok s) next = next s
after_turn (err e) next = faults e

unfoldable pub parse_loop :
    (List ℕ → State → Result Fault State) → ℕ → List (List ℕ) → List ℕ → State → Run
unfolding cut
parse_loop body zero lines buffer s = goes_on s
parse_loop body (suc fuel) lines buffer s =
    let (got, line, rest) = getline lines buffer in
    let next = after_turn (body line s) (λ s'. parse_loop body fuel rest (cut line) s') in
    if is_true got then next else returns true s

-- `line` and `len` are not initialised: the first `getline` is taken to find a null pointer there.
unfoldable pub parse_vl_file : Option (List (List ℕ)) → ℕ → State → Run
unfolding parse_loop parse_vl_line
parse_vl_file none fuel s = returns false s
parse_vl_file (some lines) fuel s = parse_loop parse_vl_line fuel lines [] s

unfoldable pub parse_al_file : Option (List (List ℕ)) → ℕ → State → Run
unfolding parse_loop parse_al_line
parse_al_file none fuel s = returns false s
parse_al_file (some lines) fuel s = parse_loop parse_al_line fuel lines [] s

pub data GraphException : Type 0 where
  vl_parse_exception al_parse_exception : GraphException

pub data Loaded : Type 0 where
  loaded unfinished : State → Loaded
  throws : GraphException → Loaded
  fails : Fault → Loaded

abbrev pub then_load : Run → GraphException → (State → Loaded) → Loaded
then_load (returns true s) e next = next s
then_load (returns false s) e next = throws e
then_load (goes_on s) e next = unfinished s
then_load (faults f) e next = fails f

-- Graph::Graph(std::string, std::string), at a count of vertices so far.
unfoldable pub load : Option (List (List ℕ)) → Option (List (List ℕ)) → ℕ → State → Loaded
unfolding parse_vl_file parse_al_file
load vl al fuel empty =
    then_load (parse_vl_file vl fuel empty) vl_parse_exception
      (λ s. then_load (parse_al_file al fuel s) al_parse_exception loaded)
