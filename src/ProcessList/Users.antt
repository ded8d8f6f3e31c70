-- ===== src/ProcessList/Users.antt =====
-- macos/ProcessList.h: `username` and `groupname`, with the maps that they keep.
use cctop.Prelude.{
  List, [], ◌∷◌, arith, ℕ, String, Option, none, some, ◌≡◌, refl, Option-cases, inl, inr, ==_iff,
  ◌∙◌,
}
use cctop.Map.{Map, nat_key, lookup, insert}
use cctop.Map.Laws.{lookup-insert}

-- `getpwuid` and `getgrgid`, and `sprintf(buf, "%d", n)`.
pub record Accounts : Type 0 where
  pub getpwuid : ℕ → Option String
  pub getgrgid : ℕ → Option String
  pub decimal : ℕ → String

-- The static maps of the two functions. The buffer that they return is copied before the next call.
pub record Caches : Type 0 where
  pub uids : Map ℕ String
  pub gids : Map ℕ String

unfoldable pub username : Accounts → ℕ → Caches → String × Caches
username accounts uid c = elim (lookup uid c.uids) [
  | some name ↦ (name, c)
  | none ↦ elim (accounts.getpwuid uid) [
    | some name ↦ (name, record c { uids = insert uid name c.uids })
    | none ↦ (accounts.decimal uid, c)
  ]
]

-- A group that is in the map already gets its number.
unfoldable pub groupname : Accounts → ℕ → Caches → String × Caches
groupname accounts gid c = elim (lookup gid c.gids) [
  | some _ ↦ (accounts.decimal gid, c)
  | none ↦ elim (accounts.getgrgid gid) [
    | some name ↦ (name, record c { gids = insert gid name c.gids })
    | none ↦ (accounts.decimal gid, c)
  ]
]

lookup-insert_self : (k : ℕ) (v : String) (m : Map ℕ String) → lookup k (insert k v m) ≡ some v
lookup-insert_self k v m = lookup-insert k k v m ∙ rw ((==_iff k k).1 refl) refl

-- A user that the database has keeps the name of the first call ever after, whatever the database
-- says then.
username_stays :
    (accounts later : Accounts) (uid : ℕ) (c : Caches) (name : String)
    → accounts.getpwuid uid ≡ some name
    → let (first, c') = username accounts uid c in (username later uid c').0 ≡ first
unfolding username
username_stays accounts later uid c name h = elim (Option-cases (lookup uid c.uids)) [
  | inl new ↦ rw (new, h, username) (rw (lookup-insert_self uid name c.uids, username) refl)
  | inr (old, e) ↦ rw (e, username) (rw (e, username) refl)
]

-- A call of one of the two functions, with what the databases say then.
pub data Call : Type 0 where
  of_user of_group : Accounts → ℕ → Call

unfoldable pub after : List Call → Caches → Caches
after [] c = c
after (of_user accounts uid ∷ calls) c = after calls (username accounts uid c).1
after (of_group accounts gid ∷ calls) c = after calls (groupname accounts gid c).1

-- A group that is in the map stays in it, with its name.
group_stays_user :
    (accounts : Accounts) (uid gid : ℕ) (c : Caches) (name : String)
    → lookup gid c.gids ≡ some name
    → lookup gid (username accounts uid c).1.gids ≡ some name
unfolding username
group_stays_user accounts uid gid c name h = ground (arith, h)

group_stays_group :
    (accounts : Accounts) (other gid : ℕ) (c : Caches) (name : String)
    → lookup gid c.gids ≡ some name
    → lookup gid (groupname accounts other c).1.gids ≡ some name
unfolding groupname
group_stays_group accounts other gid c name h = elim (Option-cases (lookup other c.gids)) [
  | inr (old, e) ↦ rw (e, groupname) h
  | inl new ↦ elim (Option-cases (accounts.getgrgid other)) [
    | inl unknown ↦ rw (new, unknown, groupname) h
    | inr (found, e) ↦
        rw (new, e, groupname)
          (lookup-insert other gid found c.gids ∙ ground (arith, h, new, ==_iff other gid))
  ]
]

group_stays :
    (calls : List Call) (gid : ℕ) (c : Caches) (name : String)
    → lookup gid c.gids ≡ some name
    → lookup gid (after calls c).gids ≡ some name
unfolding after
group_stays [] gid c name h = h
group_stays (of_user accounts uid ∷ calls) gid c name h =
    group_stays calls gid _ name (group_stays_user accounts uid gid c name h)
group_stays (of_group accounts other ∷ calls) gid c name h =
    group_stays calls gid _ name (group_stays_group accounts other gid c name h)

-- A group that the database has is named the first time that it is asked for, and is a number every
-- time after that, whatever users and groups have been asked for in between, and whatever the
-- databases have said then and say now.
pub groupname_once :
    (accounts later : Accounts) (gid : ℕ) (c : Caches) (name : String) (calls : List Call)
    → lookup gid c.gids ≡ none
    → accounts.getgrgid gid ≡ some name
    → let (first, c') = groupname accounts gid c in
      (first ≡ name) × ((groupname later gid (after calls c')).0 ≡ later.decimal gid)
unfolding groupname
groupname_once accounts later gid c name calls new h =
    let stays =
      group_stays calls gid (record c { gids = insert gid name c.gids }) name
        (lookup-insert_self gid name c.gids) in
    rw (new, h, groupname) (refl, rw stays refl)
