-- ===== src/Dispatcher/Routes/Kept.antt =====
-- The routes of a plugin after another one came or left.
use apicorex.Base.{◌≡◌, ap, false, List, [], ◌∷◌, ◌++◌, map, In, Bool-cases, inl, inr}
use apicorex.Text.{Bytes, ◌==◌}
use apicorex.Manifest.{Route}
use apicorex.Dispatcher.Routes.{RouteEntry, new_route, remove_routes, add_routes}

In-append_left : {A : Type 0} (a : A) (xs ys : List A) → In a xs → In a (xs ++ ys)
In-append_left a [] ys h = elim h [ ]
In-append_left a (x ∷ xs) ys (inl here) = inl here
In-append_left a (x ∷ xs) ys (inr there) = inr (In-append_left a xs ys there)

In-append_right : {A : Type 0} (a : A) (xs ys : List A) → In a ys → In a (xs ++ ys)
In-append_right a [] ys h = h
In-append_right a (x ∷ xs) ys h = inr (In-append_right a xs ys h)

In-map : {A B : Type 0} (f : A → B) (a : A) (xs : List A) → In a xs → In (f a) (map f xs)
In-map f a [] h = elim h [ ]
In-map f a (x ∷ xs) (inl here) = inl (ap f here)
In-map f a (x ∷ xs) (inr there) = inr (In-map f a xs there)

In-remove_routes :
    (r : RouteEntry) (id : Bytes) (rs : List RouteEntry)
    → (r.plugin_id == id) ≡ false
    → In r rs
    → In r (remove_routes id rs)
unfolding remove_routes
In-remove_routes r id [] apart h = elim h [ ]
In-remove_routes r id (x ∷ rs) apart (inl here) =
    simp (ap (λ (x : RouteEntry). x.plugin_id) here, apart) (inl here)
In-remove_routes r id (x ∷ rs) apart (inr there) = elim (Bool-cases (x.plugin_id == id)) [
  | inl gone ↦ simp gone (In-remove_routes r id rs apart there)
  | inr kept ↦ simp kept (inr (In-remove_routes r id rs apart there))
]

-- The routes that a plugin adds are in the table.
pub add_routes-own :
    (id name : Bytes) (r : Route) (routes : List Route) (table : List RouteEntry)
    → In r routes
    → In (new_route id name r) (add_routes id name routes table)
unfolding add_routes
add_routes-own id name r routes table h =
    In-append_right (new_route id name r) (remove_routes id table) (map (new_route id name) routes)
      (In-map (new_route id name) r routes h)

-- Those of another plugin stay.
pub add_routes-other :
    (id name : Bytes) (r : RouteEntry) (routes : List Route) (table : List RouteEntry)
    → (r.plugin_id == id) ≡ false
    → In r table
    → In r (add_routes id name routes table)
unfolding add_routes
add_routes-other id name r routes table apart h =
    In-append_left r (remove_routes id table) (map (new_route id name) routes)
      (In-remove_routes r id table apart h)
