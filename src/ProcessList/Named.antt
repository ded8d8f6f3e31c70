-- ===== src/ProcessList/Named.antt =====
-- macos/ProcessList.h: `username` answers as it would without its map.
use cctop.Prelude.{
  ℕ, String, none, some, List, [], ◌∷◌, map, ◌≡◌, refl, ◌∙◌, ap, sym, ◌==◌, ==_iff, Bool-cases,
  Option-cases, inl, inr,
}
use cctop.Map.{nat_key, lookup, insert}
use cctop.Map.Laws.{lookup-insert}
use cctop.ProcessList.Users.{Accounts, Caches, username, groupname}

-- The name of a user, asked of the database.
unfoldable pub name_of : Accounts → ℕ → String
name_of accounts uid = elim (accounts.getpwuid uid) [
  | none ↦ accounts.decimal uid
  | some name ↦ name
]

-- The names that are shown for some processes, each given by its user and its group, in their order.
unfoldable pub names_shown : Accounts → List (ℕ × ℕ) → Caches → List String
names_shown accounts [] c = []
names_shown accounts ((uid, gid) ∷ ps) c =
    let (name, c') = username accounts uid c in
    name ∷ names_shown accounts ps (groupname accounts gid c').1

-- Every entry is what the database says.
abbrev Agrees : Accounts → Caches → Type 0
Agrees accounts c =
    (k : ℕ) (name : String) → lookup k c.uids ≡ some name → accounts.getpwuid k ≡ some name

Agrees-insert :
    (accounts : Accounts) (uid : ℕ) (name : String) (c : Caches)
    → accounts.getpwuid uid ≡ some name
    → Agrees accounts c
    → Agrees accounts (record c { uids = insert uid name c.uids })
Agrees-insert accounts uid name c e a k n h = elim (Bool-cases (uid == k)) [
  | inl same ↦
      let found : some name ≡ some n = sym (lookup-insert uid k name c.uids ∙ rw same refl) ∙ h in
      sym (ap accounts.getpwuid ((==_iff uid k).0 same)) ∙ e ∙ found
  | inr other ↦ a k n (sym (lookup-insert uid k name c.uids ∙ rw other refl) ∙ h)
]

username_lem :
    (accounts : Accounts) (uid : ℕ) (c : Caches)
    → Agrees accounts c
    → ((username accounts uid c).0 ≡ name_of accounts uid)
      × Agrees accounts (username accounts uid c).1
unfolding username name_of
username_lem accounts uid c a = elim (Option-cases (lookup uid c.uids)) [
  | inr (name, e) ↦ rw (e, username) (rw (name_of, a uid name e) refl, a)
  | inl new ↦ elim (Option-cases (accounts.getpwuid uid)) [
    | inl unknown ↦ rw (new, unknown, username, name_of) (refl, a)
    | inr (name, e) ↦ rw (new, e, username, name_of) (refl, Agrees-insert accounts uid name c e a)
  ]
]

uids-groupname :
    (accounts : Accounts) (gid : ℕ) (c : Caches) → (groupname accounts gid c).1.uids ≡ c.uids
unfolding groupname
uids-groupname accounts gid c = elim (Option-cases (lookup gid c.gids)) [
  | inr (name, e) ↦ rw (e, groupname) refl
  | inl new ↦ elim (Option-cases (accounts.getgrgid gid)) [
    | inl unknown ↦ rw (new, unknown, groupname) refl
    | inr (name, e) ↦ rw (new, e, groupname) refl
  ]
]

names_shown_lem :
    (accounts : Accounts) (ps : List (ℕ × ℕ)) (c : Caches)
    → Agrees accounts c
    → names_shown accounts ps c ≡ map (λ p. name_of accounts p.0) ps
unfolding names_shown
names_shown_lem accounts [] c a = refl
names_shown_lem accounts ((uid, gid) ∷ ps) c a =
    let (named, agrees) = username_lem accounts uid c a in
    let next = (groupname accounts gid (username accounts uid c).1).1 in
    let same = uids-groupname accounts gid (username accounts uid c).1 in
    rw named (
      ap (◌∷◌ (name_of accounts uid))
        (names_shown_lem accounts ps next (λ k n h. agrees k n (sym (ap (lookup k) same) ∙ h))))

no_entries : (accounts : Accounts) → Agrees accounts (record { uids = []; gids = [] })
unfolding lookup
no_entries accounts k name h = cc

-- From empty maps, and with a database that stays as it is: whatever processes are shown, one after the
-- other, each call of `username` answers the name that the database has for the user, or the number if
-- it has none, as if there were no map. (The calls of `groupname` between them make no difference.)
pub names_uncached :
    (accounts : Accounts) (ps : List (ℕ × ℕ))
    → names_shown accounts ps (record { uids = []; gids = [] }) ≡ map (λ p. name_of accounts p.0) ps
names_uncached accounts ps = names_shown_lem accounts ps _ (no_entries accounts)
