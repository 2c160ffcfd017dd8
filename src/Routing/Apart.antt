-- ===== src/Routing/Apart.antt =====
-- No two routes have a part of a hostname in common.
use Prim.Native.String.{String}
use shipwick.Base.{ℕ, refl, Bool, List, [], ◌∷◌, ◌++◌, length, drop, drop-append, All, All-append}
use shipwick.Routing.{
  Taken, Route, Plan, claim_hosts, route_plan, route_plans, routes_for, claim_routes,
  route_hostnames, hostnames_of_routes,
}
use shipwick.Routing.Texts.{Within, Avoids, Within-nil, Within-append, Avoids-append, Avoids-within}
use shipwick.Routing.Claims.{claim_lem}
use shipwick.Routing.Turns.{
  route_served, IsApart, AreApart, IsBeyond, IsBeyond-Grows, covered-IsApart, route_plan-IsRouted,
}

module _ (path_key : String → String) where
  module _ (itoa : ℕ → String) (ready : String → Bool) (running : ℕ → Bool)
      (names : ℕ → List String) where
    All-imply :
        {P Q : Route → Type 0} (rs : List Route) → ((r : Route) → P r → Q r) → All P rs → All Q rs
    All-imply [] f h = tt
    All-imply (r ∷ rs) f h = (f r h.0, All-imply rs f h.1)

    route_plans-IsBeyond :
        (ps : List Plan) (c : Taken)
        → All (IsBeyond path_key c) (route_plans path_key itoa ready running names ps c)
    unfolding route_plans
    route_plans-IsBeyond [] c = tt
    route_plans-IsBeyond (p ∷ ps) c =
        let one = route_plan path_key itoa ready running names p c in
        let h = route_plan-IsRouted path_key itoa ready running names p c in
        All-append (IsBeyond path_key c) one.0
          (route_plans path_key itoa ready running names ps one.1) h.beyond
          (All-imply (route_plans path_key itoa ready running names ps one.1)
            (λ r b. IsBeyond-Grows path_key c one.1 r h.grows b) (route_plans-IsBeyond ps one.1))

    beyond-Avoids :
        (c : Taken) (taken : List String) (rs : List Route)
        → Within taken c.taken
        → All (IsBeyond path_key c) rs
        → All (λ r. Avoids (route_hostnames r) taken) rs
    beyond-Avoids c taken rs w = All-imply rs (λ r b.
        Avoids-append (route_served r) r.redirects taken
          (Avoids-within (route_served r) taken c.taken w b.untaken)
          (Avoids-within r.redirects taken c.taken w b.redirects_untaken))

    AreApart-append :
        (taken : List String) (rs ss : List Route)
        → AreApart path_key taken rs
        → AreApart path_key taken ss
        → All (λ r. All (IsApart path_key r) ss) rs
        → AreApart path_key taken (rs ++ ss)
    AreApart-append taken [] ss a b h = b
    AreApart-append taken (r ∷ rs) ss a b h =
        (a.0, All-append (IsApart path_key r) rs ss a.1 h.0, AreApart-append taken rs ss a.2 b h.1)

    route_plans-AreApart :
        (ps : List Plan) (c : Taken) (taken : List String)
        → Within taken c.taken
        → AreApart path_key taken (route_plans path_key itoa ready running names ps c)
    unfolding route_plans
    route_plans-AreApart [] c taken w = tt
    route_plans-AreApart (p ∷ ps) c taken w =
        let one = route_plan path_key itoa ready running names p c in
        let h = route_plan-IsRouted path_key itoa ready running names p c in
        let rest = route_plans path_key itoa ready running names ps one.1 in
        AreApart-append taken one.0 rest (h.single taken (beyond-Avoids c taken one.0 w h.beyond))
          (route_plans-AreApart ps one.1 taken (λ t k. h.grows.taken_grow t (w t k)))
          (All-imply one.0
            (λ r k.
              All-imply rest (λ s b. covered-IsApart path_key one.1 r s k b)
                (route_plans-IsBeyond ps one.1))
            h.covered)

  claim_routes-Within :
      (extra : List Route) (taken : List String)
      → Within taken (claim_routes extra taken)
        × Within (hostnames_of_routes extra) (claim_routes extra taken)
  unfolding claim_routes
  claim_routes-Within [] taken = (λ t k. k, Within-nil taken)
  claim_routes-Within (r ∷ rs) taken =
      let k = claim_lem (route_hostnames r) taken in
      let (grow, rest) = claim_routes-Within rs (claim_hosts (route_hostnames r) taken).1 in
      (
        λ t h. grow t (k.grows t h),
        Within-append (route_hostnames r) (hostnames_of_routes rs)
            (claim_routes rs (claim_hosts (route_hostnames r) taken).1)
            (λ t h. grow t (k.all_taken t h)) rest,
      )

  -- Whatever the plans are: behind the routes of the operator, the proxy is told routes of which no
  -- two serve one part of a hostname, none serves or redirects what another one redirects, none
  -- redirects what another one serves, and none has a hostname of the operator's routes.
  pub routes_for-AreApart :
      (itoa : ℕ → String) (ready : String → Bool) (running : ℕ → Bool) (names : ℕ → List String)
      (extra : List Route) (plans : List Plan)
      → AreApart path_key
          (hostnames_of_routes extra)
          (drop (length extra) (routes_for path_key itoa ready running names extra plans))
  unfolding routes_for
  routes_for-AreApart itoa ready running names extra plans =
      let c : Taken = record { taken = claim_routes extra []; parts = []; shared = [] } in
      let new = route_plans path_key itoa ready running names plans c in
      rw (drop-append (length extra) extra new refl) (
        route_plans-AreApart itoa ready running names plans c (hostnames_of_routes extra)
          (claim_routes-Within extra []).1)
