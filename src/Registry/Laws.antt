-- ===== src/Registry/Laws.antt =====
-- What the registry keeps, and what its searches find.
use apicorex.Base.{
  ℕ, ◌≡◌, ◌≢◌, ◌↔◌, ◌⊎◌, refl, sym, ap, ◌∙◌, Bool, true, ◌&&◌, Option, none, some, [], ◌∷◌, arith,
  Bool-cases, Option-cases, In, OnSome, inl, inr, if◌then◌else◌,
}
use mathlib.Core.Bool.{false≢true}
use apicorex.Text.{Bytes, ◌==◌}
use apicorex.Text.Laws.{==_iff}
use apicorex.Manifest.{Manifest}
use apicorex.Map.{Map, lookup, insert}
use apicorex.Map.Unique.{IsUnique, delete-IsUnique, insert-IsUnique, In-of_lookup, lookup-eq_of_In}
use apicorex.Map.Entries.{AllEntries, AllEntries-lookup, AllEntries-delete, AllEntries-insert}
use apicorex.Registry.{
  Status, healthy, unhealthy, PluginEntry, Target, Registry, register, heartbeat, deregister,
  mark_dead, find_by_name, find_named, ids_by_name, named_ids, new_entry, beat, kill,
}

abbrev status_of : Bool → Status
status_of alive = if alive then healthy else unhealthy

-- An entry is filed under its own id, and its status says whether it is alive.
pub record IsFiled (id : Bytes) (e : PluginEntry) : Type 0 where
  pub filed : e.info.plugin_id ≡ id
  pub address : e.info.base_url ≡ e.base_url
  pub status : e.info.status ≡ status_of e.alive

pub record IsValid (r : Registry) : Type 0 where
  pub unique : IsUnique r.plugins
  pub all_filed : AllEntries IsFiled r.plugins

insert-IsValid :
    (id : Bytes) (e : PluginEntry) (r : Registry)
    → IsFiled id e
    → IsValid r
    → IsValid (record r { plugins = insert id e r.plugins })
insert-IsValid id e r f v = record {
  unique = insert-IsUnique id e r.plugins v.unique;
  all_filed = AllEntries-insert IsFiled id e r.plugins f v.all_filed;
}

pub deregister-IsValid : (id : Bytes) (r : Registry) → IsValid r → IsValid (deregister id r)
unfolding deregister
deregister-IsValid id r v = record {
  unique = delete-IsUnique id r.plugins v.unique;
  all_filed = AllEntries-delete IsFiled id r.plugins v.all_filed;
}

pub register-IsValid :
    (parse_url : Bytes → Option Target) (id name base_url version : Bytes) (m : Manifest) (now : ℕ)
    (r : Registry)
    → IsValid r
    → OnSome IsValid (register parse_url id name base_url version m now r)
unfolding register
register-IsValid parse_url id name base_url version m now r v =
    elim (Option-cases (parse_url base_url)) [
      | inl bad ↦ rw (bad, register) tt
      | inr (target, good) ↦
          rw (good, register)
            (insert-IsValid id (new_entry id name base_url version m target now) r
              (record { filed = refl; address = refl; status = refl }) v)
    ]

pub heartbeat-IsValid :
    (id : Bytes) (now : ℕ) (r : Registry) → IsValid r → OnSome IsValid (heartbeat id now r)
unfolding heartbeat
heartbeat-IsValid id now r v = elim (Option-cases (lookup id r.plugins)) [
  | inl missing ↦ rw (missing, heartbeat) tt
  | inr (e, found) ↦
      let f = AllEntries-lookup IsFiled id e r.plugins v.all_filed found in
      rw (found, heartbeat)
        (insert-IsValid id (beat now e) r
          (record { filed = f.filed; address = f.address; status = refl }) v)
]

pub mark_dead-IsValid : (id : Bytes) (r : Registry) → IsValid r → IsValid (mark_dead id r)
unfolding mark_dead
mark_dead-IsValid id r v = elim (Option-cases (lookup id r.plugins)) [
  | inl missing ↦ rw (missing, mark_dead) v
  | inr (e, found) ↦
      let f = AllEntries-lookup IsFiled id e r.plugins v.all_filed found in
      rw (found, mark_dead)
        (insert-IsValid id (kill e) r
          (record { filed = f.filed; address = f.address; status = refl }) v)
]

-- The test of FindByName.
abbrev answers : Bytes → PluginEntry → Bool
answers name e = e.info.plugin_name == name && e.alive

answers_iff :
    (name : Bytes) (e : PluginEntry)
    → (answers name e ≡ true) ↔ ((e.info.plugin_name ≡ name) × (e.alive ≡ true))
answers_iff name e = ground (arith, ==_iff e.info.plugin_name name)

find_named_sound :
    (name : Bytes) (e : PluginEntry) (m : Map PluginEntry)
    → find_named name m ≡ some e
    → (id : Bytes) × In (id, e) m × (answers name e ≡ true)
unfolding find_named
find_named_sound name e [] h = cc
find_named_sound name e ((id, f) ∷ m) h = elim (Bool-cases (answers name f)) [
  | inl hit ↦
      let same : f ≡ e = cc (rw (hit, find_named) at h) in
      (id, inl (ap (λ (g : PluginEntry). (id, g)) same), rw (← same) hit)
  | inr miss ↦
      let (j, there, good) = find_named_sound name e m (rw (miss, find_named) at h) in
      (j, inr there, good)
]

find_named_complete :
    (name id : Bytes) (e : PluginEntry) (m : Map PluginEntry)
    → In (id, e) m
    → answers name e ≡ true
    → find_named name m ≢ none
unfolding find_named
find_named_complete name id e [] h a = elim h [ ]
find_named_complete name id e ((j, f) ∷ m) (inl p) a =
    let hit : answers name f ≡ true = ap (λ (q : Bytes × PluginEntry). answers name q.1) p ∙ a in
    λ h. cc (rw (hit, find_named) at h)
find_named_complete name id e ((j, f) ∷ m) (inr there) a = elim (Bool-cases (answers name f)) [
  | inl hit ↦ λ h. cc (rw (hit, find_named) at h)
  | inr miss ↦ λ h. find_named_complete name id e m there a (rw (miss, find_named) at h)
]

-- A plugin that FindByName returns from a valid registry is registered under its own id, bears the
-- name and is alive.
pub find_by_name_sound :
    (name : Bytes) (r : Registry) (e : PluginEntry)
    → IsValid r
    → find_by_name name r ≡ some e
    → (lookup e.info.plugin_id r.plugins ≡ some e) × (e.info.plugin_name ≡ name) × (e.alive ≡ true)
unfolding find_by_name
find_by_name_sound name r e v h =
    let (id, there, good) = find_named_sound name e r.plugins h in
    let found = lookup-eq_of_In id e r.plugins v.unique there in
    let f = AllEntries-lookup IsFiled id e r.plugins v.all_filed found in
    let (named, live) = (answers_iff name e).0 good in (simp f.filed found, named, live)

-- FindByName finds a plugin whenever one that bears the name and is alive is registered under some
-- id.
pub find_by_name_complete :
    (name id : Bytes) (r : Registry) (e : PluginEntry)
    → lookup id r.plugins ≡ some e
    → e.info.plugin_name ≡ name
    → e.alive ≡ true
    → find_by_name name r ≢ none
unfolding find_by_name
find_by_name_complete name id r e h named live =
    find_named_complete name id e r.plugins (In-of_lookup id e r.plugins h)
      ((answers_iff name e).1 (named, live))

ids_sound :
    (name id : Bytes) (m : Map PluginEntry)
    → In id (named_ids name m)
    → (e : PluginEntry) × In (id, e) m × (e.info.plugin_name ≡ name)
unfolding named_ids
ids_sound name id [] h = elim h [ ]
ids_sound name id ((j, f) ∷ m) h = elim (Bool-cases (f.info.plugin_name == name)) [
  | inl hit ↦
      let h' : (j ≡ id) ⊎ In id (named_ids name m) = rw hit at h in
      elim h' [
        | inl here ↦ (
          f,
          inl (ap (λ (k : Bytes). let p : Bytes × PluginEntry = (k, f) in p) here),
          (==_iff _ _).0 hit,
        )
        | inr there ↦ let (e, inside, named) = ids_sound name id m there in (e, inr inside, named)
      ]
  | inr miss ↦ let (e, inside, named) = ids_sound name id m (rw miss at h) in (e, inr inside, named)
]

ids_complete :
    (name id : Bytes) (e : PluginEntry) (m : Map PluginEntry)
    → In (id, e) m
    → e.info.plugin_name ≡ name
    → In id (named_ids name m)
unfolding named_ids
ids_complete name id e [] h n = elim h [ ]
ids_complete name id e ((j, f) ∷ m) h n = elim (Bool-cases (f.info.plugin_name == name)) [
  | inl hit ↦ rw hit (elim h [
    | inl here ↦ inl (ap (λ (p : Bytes × PluginEntry). p.0) here)
    | inr there ↦ inr (ids_complete name id e m there n)
  ])
  | inr miss ↦ rw miss (elim h [
    | inl here ↦
        let same : f.info.plugin_name ≡ name =
          ap (λ (p : Bytes × PluginEntry). p.1.info.plugin_name) here ∙ n in
        absurd (false≢true (sym miss ∙ (==_iff _ _).1 same))
    | inr there ↦ ids_complete name id e m there n
  ])
]

-- IDsByName lists exactly the ids under which a plugin of the name is registered, alive or not.
pub ids_by_name_iff :
    (name id : Bytes) (r : Registry)
    → IsValid r
    → In id (ids_by_name name r)
      ↔ ((e : PluginEntry) × (lookup id r.plugins ≡ some e) × (e.info.plugin_name ≡ name))
unfolding ids_by_name
ids_by_name_iff name id r v = (
  λ h.
      let (e, inside, named) = ids_sound name id r.plugins h in
      (e, lookup-eq_of_In id e r.plugins v.unique inside, named),
  λ w. ids_complete name id w.0 r.plugins (In-of_lookup id w.0 r.plugins w.1) w.2,
)
