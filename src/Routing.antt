-- ===== src/Routing.antt =====
-- What the proxy is told: agent/internal/deploy/routing.go. `ready` says whether a hostname's DNS
-- points here, `path_key` is `PathKey` (strings.ToLower) and `itoa` strconv.Itoa. Fields that a route
-- only carries over from its plan are left out.
pub mod Texts
pub mod Claims
pub mod Turns
pub mod Apart
pub mod Conflicts
pub mod Passed
pub mod Plans
pub mod Complete
pub mod Domains
pub mod Whole
use Prim.Native.String.{String, ◌++◌ as str_append}
use text.Mathlib.Text.{◌==◌ as str_eq}
use shipwick.Base.{
  ℕ, ◌+◌, Bool, true, false, not, ◌&&◌, ◌||◌, Option, none, some, List, [], ◌∷◌, ◌++◌, map, ◌==◌,
  if◌then◌else◌, any, keep,
}
use shipwick.Routing.Texts.{has_text}

pub record Hosts : Type 0 where
  pub domain : String
  pub aliases : List String
  pub redirects : List String
  pub path : String

pub record Backend : Type 0 where
  pub name : String
  pub port : ℕ

pub record Route : Type 0 where
  pub domain : String
  pub aliases : List String
  pub redirects : List String
  pub path : String
  pub backends : List Backend

pub record Member : Type 0 where
  pub container : ℕ
  pub port : ℕ

-- `hashed` says whether the passwords of its basic-auth accounts could be hashed.
pub record Plan : Type 0 where
  pub app : String
  pub hosts : Hosts
  pub members : List Member
  pub hashed : Bool

-- The hostnames nobody else may have any part of, the parts that are served, and their hostnames.
pub record Taken : Type 0 where
  pub taken : List String
  pub parts : List String
  pub shared : List String

abbrev pub filled : String → List String
filled domain = if str_eq domain "" then [] else domain ∷ []

abbrev pub served_hosts : Hosts → List String
served_hosts h = filled h.domain ++ h.aliases

abbrev pub list : Hosts → List String
list h = served_hosts h ++ h.redirects

abbrev pub route_hostnames : Route → List String
route_hostnames r = (r.domain ∷ []) ++ r.aliases ++ r.redirects

abbrev pub hostnames_of_routes : List Route → List String
hostnames_of_routes [] = []
hostnames_of_routes (r ∷ rs) = route_hostnames r ++ hostnames_of_routes rs

module _ (path_key : String → String) where
  abbrev pub part : String → String → String
  part host path = str_append host (path_key path)

  abbrev pub parts_of : String → List String → List String
  parts_of path hosts = map (λ h. part h path) hosts

  -- One turn of the loop of `free`: the host if it is free, and what is taken then.
  unfoldable pub free_one : String → String → Taken → List String × Taken
  free_one path h c =
      if has_text h c.taken || has_text (part h path) c.parts
      then ([], c)
      else (h ∷ [], record c { parts = part h path ∷ c.parts; shared = h ∷ c.shared })

  unfoldable pub free_hosts : String → List String → Taken → List String × Taken
  unfolding free_one
  free_hosts path [] c = ([], c)
  free_hosts path (h ∷ hs) c =
      let one = free_one path h c in
      let rest = free_hosts path hs one.1 in (one.0 ++ rest.0, rest.1)

unfoldable pub claim_one : String → List String → List String × List String
claim_one h taken = if has_text h taken then ([], taken) else (h ∷ [], h ∷ taken)

unfoldable pub claim_hosts : List String → List String → List String × List String
unfolding claim_one
claim_hosts [] taken = ([], taken)
claim_hosts (h ∷ hs) taken =
    let one = claim_one h taken in let rest = claim_hosts hs one.1 in (one.0 ++ rest.0, rest.1)

unfoldable pub claim_routes : List Route → List String → List String
unfolding claim_hosts
claim_routes [] taken = taken
claim_routes (r ∷ rs) taken = claim_routes rs (claim_hosts (route_hostnames r) taken).1

-- `backendName` and `serviceNames`; an application without a port gets no names.
abbrev pub backend_name : (ℕ → String) → String → ℕ → String
backend_name itoa app port = str_append app (str_append "_" (itoa port))

unfoldable pub service_names : (ℕ → String) → String → ℕ → List String
service_names itoa app port = if port == 0 then [] else app ∷ backend_name itoa app port ∷ []

abbrev pub same_backend : Backend → Backend → Bool
same_backend a b = str_eq a.name b.name && a.port == b.port

-- The backends of a plan: the names of its members that run and carry them, each once.
unfoldable pub add_backends :
    (ℕ → String)
    → (ℕ → Bool)
    → (ℕ → List String)
    → String
    → List Member
    → List Backend
    → List Backend
unfolding has_text
add_backends itoa running names app [] found = found
add_backends itoa running names app (m ∷ ms) found =
    let b : Backend = record { name = backend_name itoa app m.port; port = m.port } in
    add_backends itoa running names app ms (
      if running m.container
        && (has_text b.name (names m.container) && not (any (λ a. same_backend a b) found))
      then found ++ b ∷ []
      else found)

module _ (path_key : String → String) (itoa : ℕ → String) (ready : String → Bool)
    (running : ℕ → Bool) (names : ℕ → List String) where
  -- The rest of a turn of the loop of `routesFor`, for a plan whose domain is free and ready.
  unfoldable pub serve : Plan → Taken → List Route × Taken
  unfolding free_hosts claim_hosts add_backends
  serve p c =
      let redirects = keep (λ h. not (has_text h c.shared)) (keep ready p.hosts.redirects) in
      let aliases = free_hosts path_key p.hosts.path (keep ready p.hosts.aliases) c in
      let claimed = claim_hosts redirects aliases.1.taken in
      let after : Taken = record aliases.1 { taken = claimed.1 } in
      if p.hashed
      then (
        record {
          domain = p.hosts.domain;
          aliases = aliases.0;
          redirects = claimed.0;
          path = p.hosts.path;
          backends = add_backends itoa running names p.app p.members [];
        }
            ∷ [],
        after,
      )
      else ([], after)

  unfoldable pub serve_free : Plan → List String × Taken → List Route × Taken
  unfolding serve
  serve_free p ([], c) = ([], c)
  serve_free p (h ∷ hs, c) = if ready p.hosts.domain then serve p c else ([], c)

  unfoldable pub route_plan : Plan → Taken → List Route × Taken
  unfolding serve_free free_hosts
  route_plan p c =
      if str_eq p.hosts.domain ""
      then ([], c)
      else serve_free p (free_hosts path_key p.hosts.path (p.hosts.domain ∷ []) c)

  unfoldable pub route_plans : List Plan → Taken → List Route
  unfolding route_plan
  route_plans [] c = []
  route_plans (p ∷ ps) c = let one = route_plan p c in one.0 ++ route_plans ps one.1

  unfoldable pub routes_for : List Route → List Plan → List Route
  unfolding route_plans claim_routes
  routes_for extra plans =
      extra ++ route_plans plans (record { taken = claim_routes extra []; parts = []; shared = [] })
