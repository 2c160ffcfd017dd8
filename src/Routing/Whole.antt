-- ===== src/Routing/Whole.antt =====
-- Nothing that is free and ready is left out.
use Prim.Native.String.{String}
use text.Mathlib.Text.{◌==◌ as str_eq}
use shipwick.Base.{
  ℕ, ◌≡◌, refl, ap, Bool, false, not, ◌&&◌, ◌||◌, inl, inr, none, List, [], ◌∷◌, ◌++◌, keep,
  if◌then◌else◌, Bool-cases, both_branches,
}
use shipwick.Routing.{
  Hosts, Plan, Route, Taken, part, parts_of, hostnames_of_routes, route_hostnames, free_one,
  free_hosts, claim_one, claim_hosts, claim_routes, add_backends,
}
use shipwick.Routing.Texts.{
  has_text, Within, Avoids, Within-trans, Within-append, Within-left, Within-right, has_text-keep,
  has_first, Avoids-new, Within-later, Within-cons,
}
use shipwick.Routing.Domains.{check_domain}
use shipwick.Routing.Passed.{listed, apps_of, redirects_of, served_of, plan_parts}

-- No text twice.
abbrev pub AreNew : List String → Type 0
AreNew [] = Unit
AreNew (x ∷ xs) = (has_text x xs ≡ false) × AreNew xs

-- The hostnames of an application are all different.
abbrev pub IsOwn : (String → String) → Hosts → Type 0
IsOwn path_key h =
    AreNew (parts_of path_key h.path (h.domain ∷ h.aliases)) × AreNew (h.domain ∷ h.redirects)

Within-swap :
    (x : String) (xs ys zs : List String) → Within ys (x ∷ zs) → Within (xs ++ ys) (x ∷ xs ++ zs)
Within-swap x xs ys zs w =
    Within-append xs ys (x ∷ xs ++ zs) (Within-later x xs (xs ++ zs) (Within-left xs zs))
      (Within-trans ys (x ∷ zs) (x ∷ xs ++ zs) w (Within-cons x zs (xs ++ zs) (Within-right xs zs)))

module _ (path_key : String → String) where
  pub free_all :
      (path : String) (hosts : List String) (c : Taken)
      → Avoids hosts c.taken
      → Avoids (parts_of path_key path hosts) c.parts
      → AreNew (parts_of path_key path hosts)
      → (free_hosts path_key path hosts c).0 ≡ hosts
  unfolding free_hosts free_one
  free_all path [] c t p n = refl
  free_all path (h ∷ hs) c t p n =
      let hp = part path_key h path in
      let untaken = t h (has_first h hs) in
      let unshared = p hp (has_first hp (parts_of path_key path hs)) in
      let d : Taken = record c { parts = hp ∷ c.parts; shared = h ∷ c.shared } in
      let rest =
        free_all path hs d (λ u k. t u (Within-right (h ∷ []) hs u k))
          (Avoids-new hp (parts_of path_key path hs) c.parts n.0
            (λ u k. p u (Within-right (hp ∷ []) (parts_of path_key path hs) u k)))
          n.1 in
      simp (untaken, unshared) (ap (λ l. h ∷ l) rest)

  free_one_bound :
      (path h : String) (c : Taken)
      → Within ((free_one path_key path h c).1.parts) (part path_key h path ∷ c.parts)
        × Within ((free_one path_key path h c).1.shared) (h ∷ c.shared)
  unfolding free_one
  free_one_bound path h c =
      let hp = part path_key h path in
      let given : List String × Taken =
        (h ∷ [], record c { parts = hp ∷ c.parts; shared = h ∷ c.shared }) in
      both_branches (λ r. Within r.1.parts (hp ∷ c.parts) × Within r.1.shared (h ∷ c.shared))
        (has_text h c.taken || has_text hp c.parts) ([], c) given
        (λ e. (Within-right (hp ∷ []) c.parts, Within-right (h ∷ []) c.shared))
        (λ e. (λ t k. k, λ t k. k))

  pub free_bound :
      (path : String) (hosts : List String) (c : Taken)
      → Within
          ((free_hosts path_key path hosts c).1.parts)
          (parts_of path_key path hosts ++ c.parts)
        × Within ((free_hosts path_key path hosts c).1.shared) (hosts ++ c.shared)
  unfolding free_hosts
  free_bound path [] c = (λ t k. k, λ t k. k)
  free_bound path (h ∷ hs) c =
      let hp = part path_key h path in
      let one = free_one path_key path h c in
      let f = free_one_bound path h c in
      let g = free_bound path hs one.1 in
      (
        λ t k. Within-swap hp (parts_of path_key path hs) one.1.parts c.parts f.0 t (g.0 t k),
        λ t k. Within-swap h hs one.1.shared c.shared f.1 t (g.1 t k),
      )

pub claim_all :
    (hosts taken : List String)
    → Avoids hosts taken
    → AreNew hosts
    → (claim_hosts hosts taken).0 ≡ hosts
unfolding claim_hosts claim_one
claim_all [] taken a n = refl
claim_all (h ∷ hs) taken a n =
    let rest =
      claim_all hs (h ∷ taken)
        (Avoids-new h hs taken n.0 (λ u k. a u (Within-right (h ∷ []) hs u k))) n.1 in
    simp (a h (has_first h hs)) (ap (λ l. h ∷ l) rest)

claim_one_bound : (h : String) (taken : List String) → Within (claim_one h taken).1 (h ∷ taken)
unfolding claim_one
claim_one_bound h taken =
    both_branches (λ (r : List String × List String). Within r.1 (h ∷ taken)) (has_text h taken)
      ([], taken) (h ∷ [], h ∷ taken) (λ e. Within-right (h ∷ []) taken) (λ e t k. k)

pub claim_bound : (hosts taken : List String) → Within (claim_hosts hosts taken).1 (hosts ++ taken)
unfolding claim_hosts
claim_bound [] taken = λ t k. k
claim_bound (h ∷ hs) taken = λ t k.
    Within-swap h hs (claim_one h taken).1 taken (claim_one_bound h taken) t
      (claim_bound hs (claim_one h taken).1 t k)

pub routes_bound :
    (extra : List Route) (taken : List String)
    → Within (claim_routes extra taken) (hostnames_of_routes extra ++ taken)
unfolding claim_routes
routes_bound [] taken = λ t k. k
routes_bound (r ∷ rs) taken = λ t k.
    let own = route_hostnames r in
    let rest = hostnames_of_routes rs in
    let together = hostnames_of_routes (r ∷ rs) in
    Within-append rest (claim_hosts own taken).1 (together ++ taken)
      (λ u i. Within-left together taken u (Within-right own rest u i))
      (λ u i.
        Within-append own taken (together ++ taken)
          (λ v j. Within-left together taken v (Within-left own rest v j))
          (Within-right together taken) u (claim_bound own taken u i))
      t (routes_bound rs (claim_hosts own taken).1 t k)

-- The route of a plan of which nothing is left out but what is not ready.
abbrev pub full_route :
    (ℕ → String) → (String → Bool) → (ℕ → Bool) → (ℕ → List String) → Plan → Route
full_route itoa ready running names p = record {
  domain = p.hosts.domain;
  aliases = keep ready p.hosts.aliases;
  redirects = keep ready p.hosts.redirects;
  path = p.hosts.path;
  backends = add_backends itoa running names p.app p.members [];
}

-- The routes of plans whose hostnames do not meet.
unfoldable pub full_routes :
    (ℕ → String) → (String → Bool) → (ℕ → Bool) → (ℕ → List String) → List Plan → List Route
full_routes itoa ready running names [] = []
full_routes itoa ready running names (p ∷ ps) =
    let rest = full_routes itoa ready running names ps in
    if not (str_eq p.hosts.domain "") && (ready p.hosts.domain && p.hashed)
    then full_route itoa ready running names p ∷ rest
    else rest

-- Each plan has hostnames that differ, another name than those before it, and passes the check
-- against them.
abbrev pub ArePassed : (String → String) → List Route → List Plan → List Plan → Type 0
ArePassed path_key extra earlier [] = Unit
ArePassed path_key extra earlier (p ∷ ps) =
    IsOwn path_key p.hosts
    × (has_text p.app (apps_of earlier) ≡ false)
    × (check_domain path_key p.app p.hosts (listed earlier) extra ≡ none)
    × ArePassed path_key extra (p ∷ earlier) ps

pub not_in :
    (x : String) (xs ys : List String)
    → Within xs ys
    → has_text x ys ≡ false
    → has_text x xs ≡ false
not_in x xs ys w h = elim (Bool-cases (has_text x xs)) [
  | inl is_in ↦ absurd (cc (w x is_in, h))
  | inr out ↦ out
]

pub parts-keep :
    (path_key : String → String) (path : String) (ready : String → Bool) (hs : List String)
    → Within (parts_of path_key path (keep ready hs)) (parts_of path_key path hs)
parts-keep path_key path ready [] = λ t k. k
parts-keep path_key path ready (h ∷ hs) =
    let hp = part path_key h path in
    both_branches (λ l. Within (parts_of path_key path l) (parts_of path_key path (h ∷ hs)))
      (ready h) (h ∷ keep ready hs) (keep ready hs)
      (λ e.
        Within-cons hp (parts_of path_key path (keep ready hs)) (parts_of path_key path hs)
          (parts-keep path_key path ready hs))
      (λ e.
        Within-later hp (parts_of path_key path (keep ready hs)) (parts_of path_key path hs)
          (parts-keep path_key path ready hs))

pub AreNew-keep : (ready : String → Bool) (hs : List String) → AreNew hs → AreNew (keep ready hs)
AreNew-keep ready [] n = n
AreNew-keep ready (h ∷ hs) n =
    both_branches AreNew (ready h) (h ∷ keep ready hs) (keep ready hs)
      (λ e. (not_in h (keep ready hs) hs (has_text-keep ready hs) n.0, AreNew-keep ready hs n.1))
      (λ e. AreNew-keep ready hs n.1)

module _ (path_key : String → String) where
  pub AreNew-parts-keep :
      (path : String) (ready : String → Bool) (hs : List String)
      → AreNew (parts_of path_key path hs)
      → AreNew (parts_of path_key path (keep ready hs))
  AreNew-parts-keep path ready [] n = n
  AreNew-parts-keep path ready (h ∷ hs) n =
      both_branches (λ l. AreNew (parts_of path_key path l)) (ready h) (h ∷ keep ready hs)
        (keep ready hs)
        (λ e. (
          not_in (part path_key h path) (parts_of path_key path (keep ready hs))
              (parts_of path_key path hs) (parts-keep path_key path ready hs) n.0,
          AreNew-parts-keep path ready hs n.1,
        ))
        (λ e. AreNew-parts-keep path ready hs n.1)

  pub record IsBounded (earlier : List Plan) (extra : List Route) (c : Taken) : Type 0 where
    pub taken_from : Within c.taken (redirects_of earlier ++ hostnames_of_routes extra)
    pub parts_from : Within c.parts (plan_parts path_key earlier)
    pub shared_from : Within c.shared (served_of earlier)
