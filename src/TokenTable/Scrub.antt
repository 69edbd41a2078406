-- ===== src/TokenTable/Scrub.antt =====
-- `scrub_list` (GameServer/ChatServer/ChatServer.cxx): which users it drops, and when it runs off the
-- end of the deque.
use inferno_game_server.Base.{
  ℕ, ◌≤◌, ◌<◌, ◌≡◌, ◌↔◌, refl, true, false, ◌||◌, ◌&&◌, Bool, List, [], ◌∷◌, none, some, ok, err,
  arith, ltb, All, inl, inr, Bool-cases, if◌then◌else◌,
}
use inferno_game_server.Base.Bytes.{same}
use inferno_game_server.TokenTable.{
  undefined, User, Expiry, Table, Timeval, find, erase, scrub, scrub_list, micros,
}
use inferno_game_server.TokenTable.Users.{find-erase}

-- Whether an entry of the deque names the user.
unfoldable pub listed : List ℕ → List Expiry → Bool
listed name [] = false
listed name (e ∷ es) = same e.username name || listed name es

-- Whether an entry that names the user has run out.
unfoldable pub expired : ℕ → List ℕ → List Expiry → Bool
expired now name [] = false
expired now name (e ∷ es) = ltb e.time now && same e.username name || expired now name es

-- Every user has an expiry.
abbrev pub IsCovered : List User → List Expiry → Type 0
IsCovered us es = (name token : List ℕ) → find name us ≡ some token → listed name es ≡ true

-- The times do not fall from the front of the deque on.
abbrev pub IsOrdered : List Expiry → Type 0
IsOrdered [] = Unit
IsOrdered (e ∷ es) = All (λ f. e.time ≤ f.time) es × IsOrdered es

erase-IsCovered :
    (us : List User) (e : Expiry) (es : List Expiry)
    → IsCovered us (e ∷ es)
    → IsCovered (erase e.username us) es
unfolding listed
erase-IsCovered us e es h name token q = ground (arith, find-erase name e.username us, h name token)

-- How the loop comes to return `t`: it drops entries that have run out, and stops before one that has
-- not.
pub data Scrubs (now : ℕ) (t : Table) : List User → List Expiry → Type 0 where
  stop :
      {us : List User} {es : List Expiry} (e : Expiry)
      → now ≤ e.time
      → t ≡ record { current_users = us; expiry = e ∷ es }
      → Scrubs now t us (e ∷ es)
  drop :
      {us : List User} {es : List Expiry} (e : Expiry)
      → e.time < now
      → Scrubs now t (erase e.username us) es
      → Scrubs now t us (e ∷ es)

pub scrub-Scrubs :
    (now : ℕ) (us : List User) (es : List Expiry) (t : Table)
    → scrub now us es ≡ ok t
    → Scrubs now t us es
unfolding scrub
scrub-Scrubs now us [] t q = cc
scrub-Scrubs now us (e ∷ es) t q = elim (Bool-cases (ltb e.time now)) [
  | inl old ↦ drop e (ground arith) (scrub-Scrubs now (erase e.username us) es t (rw old at q))
  | inr new ↦ stop e (ground arith) (ground arith)
]

Scrubs-IsCovered :
    (now : ℕ) (t : Table) {us : List User} {es : List Expiry}
    → Scrubs now t us es
    → IsCovered us es
    → IsCovered t.current_users t.expiry
Scrubs-IsCovered now t (stop e new q) h = rw q h
Scrubs-IsCovered now t {us} (drop {es = es} e old r) h =
    Scrubs-IsCovered now t r (erase-IsCovered us e es h)

pub later :
    (a b : ℕ) (fs : List Expiry) → a ≤ b → All (λ f. b ≤ f.time) fs → All (λ f. a ≤ f.time) fs
later a b [] l k = tt
later a b (f ∷ fs) l k = (omega arith, later a b fs l k.1)

Scrubs-live :
    (now : ℕ) (t : Table) {us : List User} {es : List Expiry}
    → Scrubs now t us es
    → IsOrdered es
    → IsOrdered t.expiry × All (λ e. now ≤ e.time) t.expiry
Scrubs-live now t {us} (stop {es = es} e new q) h = rw q (h, (new, later now e.time es new h.0))
Scrubs-live now t (drop e old r) h = Scrubs-live now t r h.1

not_expired :
    (now : ℕ) (name : List ℕ) (es : List Expiry)
    → All (λ e. now ≤ e.time) es
    → expired now name es ≡ false
unfolding expired
not_expired now name [] h = refl
not_expired now name (e ∷ es) h = ground (arith, not_expired now name es h.1)

Scrubs-find :
    (now : ℕ) (t : Table) {us : List User} {es : List Expiry} (name : List ℕ)
    → Scrubs now t us es
    → IsOrdered es
    → find name t.current_users ≡ (if expired now name es then none else find name us)
unfolding expired
Scrubs-find now t name (stop {es = es} e new q) h =
    ground (arith, q, not_expired now name es (later now e.time es new h.0))
Scrubs-find now t {us} name (drop {es = es} e old r) h =
    ground (arith, Scrubs-find now t name r h.1, find-erase name e.username us)

-- The table after any mix of logins and scrubs: users have expiries, in the order of time.
pub record IsConsistent (t : Table) : Type 0 where
  pub covered : IsCovered t.current_users t.expiry
  pub ordered : IsOrdered t.expiry

-- When `scrub_list` returns on a consistent table, the table is consistent, every expiry that is left is
-- still to come, and exactly the users of whom an expiry had run out are gone: every other is found with
-- the token it had.
pub scrub_list_drops_expired :
    (tv : Timeval) (t t' : Table)
    → IsConsistent t
    → scrub_list tv t ≡ ok t'
    → IsConsistent t'
      × All (λ e. micros tv ≤ e.time) t'.expiry
      × ((name : List ℕ)
          → find name t'.current_users
            ≡ (if expired (micros tv) name t.expiry then none else find name t.current_users))
unfolding scrub_list
scrub_list_drops_expired tv t t' c h =
    let r = scrub-Scrubs (micros tv) t.current_users t.expiry t' h in
    let (ordered, live) = Scrubs-live (micros tv) t' r c.ordered in
    (
      record { covered = Scrubs-IsCovered (micros tv) t' r c.covered; ordered = ordered },
      live,
      λ name. Scrubs-find (micros tv) t' name r c.ordered,
    )

scrub-past :
    (now : ℕ) (us : List User) (es : List Expiry)
    → All (λ e. e.time < now) es
    → scrub now us es ≡ err undefined
unfolding scrub
scrub-past now us [] h = refl
scrub-past now us (e ∷ es) h = ground (arith, scrub-past now (erase e.username us) es h.1)

past-scrub :
    (now : ℕ) (us : List User) (es : List Expiry)
    → scrub now us es ≡ err undefined
    → All (λ e. e.time < now) es
unfolding scrub
past-scrub now us [] h = tt
past-scrub now us (e ∷ es) h = elim (Bool-cases (ltb e.time now)) [
  | inl old ↦ (ground arith, past-scrub now (erase e.username us) es (rw old at h))
  | inr new ↦ ground arith
]

-- `scrub_list` reads the front of an empty deque exactly when no expiry is still to come; with no user
-- logged in, that is on every call.
pub scrub_list_undefined :
    (tv : Timeval) (t : Table)
    → (scrub_list tv t ≡ err undefined) ↔ All (λ e. e.time < micros tv) t.expiry
unfolding scrub_list
scrub_list_undefined tv t = (
  past-scrub (micros tv) t.current_users t.expiry,
  scrub-past (micros tv) t.current_users t.expiry,
)
