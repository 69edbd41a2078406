-- ===== src/NavGraph/Text.antt =====
-- `strtok` and `atoi`, as `Graph::parse_vl_file` and `parse_al_file` (Server_AI/Graph.cxx) use them on a
-- line: text is a list of character codes, without the final NUL.
use inferno_game_server.Base.{
  ℕ, ◌+◌, ◌-◌, ◌*◌, Bool, ◌&&◌, ◌||◌, List, [], ◌∷◌, ◌++◌, Option, none, some, leb, ◌==◌,
  if◌then◌else◌,
}
use inferno_game_server.Base.Int.{ℤ, pos, sub_ℕ}

-- One of ",\n".
abbrev pub is_delim : ℕ → Bool
is_delim c = c == b',' || c == 10

unfoldable pub lead : List ℕ → List ℕ
lead [] = []
lead (c ∷ s) = let rest = lead s in if is_delim c then c ∷ rest else []

unfoldable pub skip : List ℕ → List ℕ
skip [] = []
skip (c ∷ s) = let rest = skip s in if is_delim c then rest else c ∷ s

unfoldable pub word : List ℕ → List ℕ
word [] = []
word (c ∷ s) = let rest = word s in if is_delim c then [] else c ∷ rest

-- What stands behind the delimiter that ends the first word.
unfoldable pub behind : List ℕ → List ℕ
behind [] = []
behind (c ∷ s) = let rest = behind s in if is_delim c then s else rest

-- A call of `strtok` that finds a token: the token, what the C string at its argument is afterwards (the
-- delimiter behind the token is overwritten by NUL), and where the next `strtok(NULL, ..)` goes on.
pub record Token : Type 0 where
  pub token : List ℕ
  pub line : List ℕ
  pub saved : List ℕ

abbrev pub token_at : List ℕ → List ℕ → Option Token
token_at before [] = none
token_at before (c ∷ s) =
    some (record { token = word (c ∷ s); line = before ++ word (c ∷ s); saved = behind (c ∷ s) })

-- `none` is the null pointer.
unfoldable pub strtok : List ℕ → Option Token
unfolding lead skip word behind
strtok s = token_at (lead s) (skip s)

abbrev is_space : ℕ → Bool
is_space c = c == 32 || leb 9 c && leb c 13

skip_spaces : List ℕ → List ℕ
skip_spaces [] = []
skip_spaces (c ∷ s) = let rest = skip_spaces s in if is_space c then rest else c ∷ s

digits_from : ℕ → List ℕ → ℕ
digits_from acc [] = acc
digits_from acc (c ∷ s) =
    let rest = digits_from (acc * 10 + (c - b'0')) s in
    if leb b'0' c && leb c b'9' then rest else acc

signed : List ℕ → ℤ
unfolding digits_from
signed [] = pos 0
signed (c ∷ s) =
    if c == b'-'
    then sub_ℕ 0 (digits_from 0 s)
    else if c == b'+'
    then pos (digits_from 0 s)
    else pos (digits_from 0 (c ∷ s))

unfoldable pub atoi : List ℕ → ℤ
unfolding skip_spaces signed
atoi s = signed (skip_spaces s)
