-- ===== src/LoginServer/Directory.antt =====
-- The specification of the login server over its whole life: a directory, in which the first sign-up of a
-- name fixes its password (LoginServer.cxx).
use inferno_game_server.Base.{
  ℕ, ◌≡◌, ◌≢◌, refl, ap, sym, ◌∙◌, subst, inl, inr, true, false, List, [], ◌∷◌, ◌++◌, Option, none,
  some, All, if◌then◌else◌, Bool-cases,
}
use inferno_game_server.Base.Bytes.{same, same_refl, same→eq}
use inferno_game_server.LoginServer.Handler.{Action, blocked, overflow, unterminated, sql_exception}
use inferno_game_server.LoginServer.Login.{query}
use inferno_game_server.LoginServer.Requests.{
  Server, Accept, refused, accepted, unforked, End, exits, leaves_loop, faulted, serve, rounds,
}
use inferno_game_server.LoginServer.Children.{children, rounds-children}
use inferno_game_server.LoginServer.Inserts.{Row, rows, Commits, serve-Commits}
use inferno_game_server.LoginServer.Database.{
  Database, IsPlain, IsTable, attach, committed, used, in_turn, after, accepts,
}

-- The hash in the first row with a name.
abbrev pub entry : List ℕ → List Row → Option (List ℕ)
entry u [] = none
entry u (row ∷ rs) = if same row.username u then some row.password_hash else entry u rs

abbrev pub or_else : Option (List ℕ) → Option (List ℕ) → Option (List ℕ)
or_else none o = o
or_else (some h) o = some h

abbrev pub HasPlainName : Row → Type 0
HasPlainName row = IsPlain row.username

HasPlainName-split :
    (a b : List Row) → All HasPlainName (a ++ b) → All HasPlainName a × All HasPlainName b
HasPlainName-split [] b h = (tt, h)
HasPlainName-split (row ∷ a) b h = let (ha, hb) = HasPlainName-split a b h.1 in ((h.0, ha), hb)

-- A child that spares the session: it exits, waits for ever, or is ended by an exception. It does
-- not return from `main`, and its behaviour is defined.
abbrev pub Spares : End → Type 0
Spares exits = Unit
Spares leaves_loop = ⊥
Spares (faulted blocked) = Unit
Spares (faulted sql_exception) = Unit
Spares (faulted overflow) = ⊥
Spares (faulted unterminated) = ⊥

abbrev pub AllSpare : List (End × List Action) → Type 0
AllSpare = All (λ q. Spares q.0)

-- The rows that children insert, in order.
abbrev pub inserts : List (End × List Action) → List Row
inserts [] = []
inserts ((e, log) ∷ served) = rows log ++ inserts served

pub entry-append :
    (u : List ℕ) (a b : List Row) → entry u (a ++ b) ≡ or_else (entry u a) (entry u b)
entry-append u [] b = refl
entry-append u (row ∷ a) b = elim (Bool-cases (same row.username u)) [
  | inl e ↦ rw e refl
  | inr e ↦ rw e (entry-append u a b)
]

not-same : (v u : List ℕ) → same v u ≡ false → v ≢ u
not-same v u e q = let e' : same v u ≡ true = rw q (same_refl u) in cc

accepted-state : {D : Type 0} (o : Option D) → accepts o ≡ true → (d' : D) × (o ≡ some d')
accepted-state none h = cc
accepted-state (some d') h = (d', refl)

or_else-none : (o : Option (List ℕ)) → or_else o none ≡ o
or_else-none none = refl
or_else-none (some h) = refl

or_else_assoc : (a b c : Option (List ℕ)) → or_else (or_else a b) c ≡ or_else a (or_else b c)
or_else_assoc none b c = refl
or_else_assoc (some h) b c = refl

module _ {D : Type 0} (db : Database D) (table : IsTable db) where
  -- One executed INSERT, in the database and in the directory.
  execute-own :
      (u h : List ℕ) (d d' : D) (o : Option (List ℕ))
      → IsPlain u
      → db.execute_query (query u) d ≡ o
      → db.execute u h d ≡ some d'
      → db.execute_query (query u) d' ≡ or_else o (some h)
  execute-own u h d d' none p q e = table.found u h d d' p q e
  execute-own u h d d' (some k) p q e = table.kept u k h d d' p q e

  execute-entry :
      (u : List ℕ) (row : Row) (d d' : D)
      → IsPlain u
      → HasPlainName row
      → db.execute row.username row.password_hash d ≡ some d'
      → db.execute_query (query u) d' ≡ or_else (db.execute_query (query u) d) (entry u (row ∷ []))
  execute-entry u row d d' pu pv e = elim (Bool-cases (same row.username u)) [
    | inr other ↦
        table.apart u row.username row.password_hash d d' pu pv (not-same _ _ other) e
        ∙ rw other (sym (or_else-none (db.execute_query (query u) d)))
    | inl it ↦ rw it (
        execute-own u row.password_hash d d' (db.execute_query (query u) d) pu refl
          (rw (← same→eq row.username u it) e))
  ]

  committed-entry :
      (u : List ℕ) (rs : List Row) (d : D)
      → IsPlain u
      → All HasPlainName rs
      → Commits (λ v h. accepts (db.execute v h d)) rs
      → db.execute_query (query u) (committed db rs d)
        ≡ or_else (db.execute_query (query u) d) (entry u rs)
  unfolding committed
  committed-entry u rs d pu pv (inl e) = rw e (sym (or_else-none (db.execute_query (query u) d)))
  committed-entry u rs d pu pv (inr (row, e, put)) =
      let (d', put') = accepted-state (db.execute row.username row.password_hash d) put in
      let pv' : All HasPlainName (row ∷ []) = subst (λ l. All HasPlainName l) e pv in
      rw (e, put') (execute-entry u row d d' pu pv'.0 put')

  committed-answers :
      (u : List ℕ) (rs : List Row) (d : D)
      → IsPlain u
      → Commits (λ v h. accepts (db.execute v h d)) rs
      → db.throws (query u) d ≡ false
      → db.throws (query u) (committed db rs d) ≡ false
  unfolding committed
  committed-answers u rs d pu (inl e) a = rw e a
  committed-answers u rs d pu (inr (row, e, put)) a =
      let (d', put') = accepted-state (db.execute row.username row.password_hash d) put in
      rw (e, put') (table.answers u row.username row.password_hash d d' pu a put')

  used-spared :
      (q : End × List Action) (d : D) → Spares q.0 → used db q d ≡ committed db (rows q.1) d
  unfolding used
  used-spared (exits, log) d h = refl
  used-spared (leaves_loop, log) d h = absurd h
  used-spared (faulted e, log) d h = refl

  -- While no child closes the session, a query that is answered at first is answered.
  children-answers :
      (s : Server) (as' : List Accept) (d : D) (u : List ℕ)
      → IsPlain u
      → AllSpare (children s (in_turn db s as' d))
      → db.throws (query u) d ≡ false
      → db.throws (query u) (after db s as' d) ≡ false
  unfolding in_turn after
  children-answers s [] d u pu sp a = a
  children-answers s (refused ∷ as') d u pu sp a = children-answers s as' d u pu sp a
  children-answers s (unforked fd ∷ as') d u pu sp a = children-answers s as' d u pu sp a
  children-answers s (accepted fd c ∷ as') d u pu sp a =
      let q = serve s (attach db d c) in
      children-answers s as' (used db q d) u pu sp.1 (
        rw (used-spared q d sp.0)
          (committed-answers u (rows q.1) d pu (serve-Commits s (attach db d c)) a))

  pub rounds-answers :
      (s : Server) (as' : List Accept) (d : D) (u : List ℕ)
      → IsPlain u
      → AllSpare (rounds s (in_turn db s as' d)).1
      → db.throws (query u) d ≡ false
      → db.throws (query u) (after db s as' d) ≡ false
  rounds-answers s as' d u pu =
      rw (rounds-children s (in_turn db s as' d)) (λ sp. children-answers s as' d u pu sp)

  -- The database after any children follows the directory of the rows that they inserted.
  children-entry :
      (s : Server) (as' : List Accept) (d : D) (u : List ℕ)
      → IsPlain u
      → AllSpare (children s (in_turn db s as' d))
      → All HasPlainName (inserts (children s (in_turn db s as' d)))
      → db.execute_query (query u) (after db s as' d)
        ≡ or_else
            (db.execute_query (query u) d)
            (entry u (inserts (children s (in_turn db s as' d))))
  unfolding in_turn after
  children-entry s [] d u pu sp pv = sym (or_else-none (db.execute_query (query u) d))
  children-entry s (refused ∷ as') d u pu sp pv = children-entry s as' d u pu sp pv
  children-entry s (unforked fd ∷ as') d u pu sp pv = children-entry s as' d u pu sp pv
  children-entry s (accepted fd c ∷ as') d u pu sp pv =
      let q = serve s (attach db d c) in
      let rs = rows q.1 in
      let d' = used db q d in
      let more = inserts (children s (in_turn db s as' d')) in
      let (pv0, pv1) = HasPlainName-split rs more pv in
      children-entry s as' d' u pu sp.1 pv1
      ∙ (ap (λ o. or_else o (entry u more))
            (rw (used-spared q d sp.0)
              (committed-entry u rs d pu pv0 (serve-Commits s (attach db d c))))
          ∙ (or_else_assoc (db.execute_query (query u) d) (entry u rs) (entry u more)
              ∙ ap (or_else (db.execute_query (query u) d)) (sym (entry-append u rs more))))

  -- The database implements a directory. Let the database be a table as SQL promises, and let the
  -- names that are inserted be lower-case letters and digits. After any connections, taken in the
  -- order in which their children use it and whatever their clients send, as long as no child
  -- returns from `main` or does what is undefined, the query for such a name gives what it gave at
  -- first, if there was a row, and else the hash in the first of the rows with that name that the
  -- children inserted.
  pub rounds_refine :
      (s : Server) (as' : List Accept) (d : D) (u : List ℕ)
      → IsPlain u
      → let served = (rounds s (in_turn db s as' d)).1 in
        AllSpare served
        → All HasPlainName (inserts served)
        → db.execute_query (query u) (after db s as' d)
          ≡ or_else (db.execute_query (query u) d) (entry u (inserts served))
  rounds_refine s as' d u pu =
      rw (rounds-children s (in_turn db s as' d)) (λ sp pv. children-entry s as' d u pu sp pv)
