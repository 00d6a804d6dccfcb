-- ===== src/ControlPlane/Regions/Alone.antt =====
-- The turns of a registration that nothing overlaps are register.
use apicorex.Base.{
  ℕ, zero, suc, ◌≡◌, refl, ap, ◌∙◌, Option, none, some, List, [], ◌∷◌, Bool-cases, inl, inr,
}
use apicorex.Text.{Bytes, lit}
use apicorex.Manifest.{Manifest}
use apicorex.Registry
use apicorex.Registry.{Registry, ids_by_name}
use apicorex.Dispatcher.Gateway.{Gateway, add_plugin}
use apicorex.ControlPlane.Handlers.{
  Handlers, Reply, refused, Env, is_unlisted, new_id, evict_all, admit_plugin, register_manifest,
}
use apicorex.ControlPlane.Regions.{Stage, listing, evicting, over, on_register, turn, turns}

-- The turns from the eviction on.
abbrev pub rounds : List Bytes → ℕ
rounds [] = 3
rounds (id ∷ ids) = suc (suc (rounds ids))

module _ (env : Env) (h : Handlers) (base_url : Bytes) (now second : ℕ) where
  abbrev answered : Reply × Gateway → Stage × Gateway
  answered (r, g) = (over r, g)

  turns-over :
      (n : ℕ) (r : Reply) (g : Gateway)
      → turns env h base_url now second n (over r, g) ≡ (over r, g)
  unfolding turns
  turns-over zero r g = refl
  turns-over (suc n) r g = turns-over n r g

  turns-registered :
      (m : Manifest) (g : Gateway) (o : Option Registry)
      → Registry.register env.parse_url (new_id env m) m.name base_url m.version m now g.registry
        ≡ o
      → turns env h base_url now second 2 (on_register m g o)
        ≡ answered (admit_plugin env h base_url m now second g)
  unfolding turns admit_plugin add_plugin
  turns-registered m g none e = rw (e, admit_plugin) refl
  turns-registered m g (some r) e = rw (e, admit_plugin) refl

  turns-evicting :
      (m : Manifest) (ids : List Bytes) (g : Gateway)
      → turns env h base_url now second (rounds ids) (evicting m ids, g)
        ≡ answered (admit_plugin env h base_url m now second (evict_all ids g))
  unfolding turns evict_all
  turns-evicting m [] g = turns-registered m g _ refl
  turns-evicting m (id ∷ ids) g = turns-evicting m ids _

  pub first_turn :
      (n : ℕ) (s : Stage) (g : Gateway) (p : Stage × Gateway)
      → turn env h base_url now second s g ≡ p
      → turns env h base_url now second (suc n) (s, g) ≡ turns env h base_url now second n p
  unfolding turns
  first_turn n s g p e = ap (turns env h base_url now second n) e

-- A registration with nothing in between, with two turns for every stale plugin of its name and four
-- more, does to the gateway what register does with the manifest, and answers the same.
pub turns-register_manifest :
    (env : Env) (h : Handlers) (base_url : Bytes) (now second : ℕ) (m : Manifest) (g : Gateway)
    → turns env h base_url now second (suc (rounds (ids_by_name m.name g.registry))) (listing m, g)
      ≡ (
        over (register_manifest env h base_url m now second g).0,
        (register_manifest env h base_url m now second g).1,
      )
unfolding turn register_manifest
turns-register_manifest env h base_url now second m g =
    let ids = ids_by_name m.name g.registry in
    let go = first_turn env h base_url now second (rounds ids) (listing m) g in
    elim (Bool-cases (is_unlisted h m.name)) [
      | inl unlisted ↦
          let refusal = refused 403 (lit "not in allowlist") in
          go (over refusal, g) (simp unlisted refl)
          ∙ turns-over env h base_url now second (rounds ids) refusal g
          ∙ simp unlisted refl
      | inr listed ↦
          go (evicting m ids, g) (simp listed refl)
          ∙ turns-evicting env h base_url now second m ids g
          ∙ simp listed refl
    ]
