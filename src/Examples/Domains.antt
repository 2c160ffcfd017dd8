-- ===== src/Examples/Domains.antt =====
-- Two applications that share a hostname.
use Prim.Native.String.{String}
use shipwick.Base.{ℕ, ◌≡◌, refl, true, Bool, List, [], ◌∷◌, ◌++◌, length, drop}
use shipwick.Routing.{
  Plan, Route, free_one, free_hosts, claim_one, claim_hosts, claim_routes, add_backends, serve,
  serve_free, route_plan, route_plans, routes_for, hostnames_of_routes,
}
use shipwick.Routing.Texts.{has_text}
use shipwick.Routing.Turns.{AreApart}
use shipwick.Routing.Apart.{routes_for-AreApart}
use shipwick.Routing.Domains.{
  owner_of, mark, numbered, all_named, note_active, note_apps, owners, conflict_at, check_field,
  check_host, check_hosts, check_domain,
}
use shipwick.Routing.Whole.{full_routes, ArePassed}
use shipwick.Routing.Complete.{routes_for-full_routes}

abbrev path_key : String → String
path_key p = p

abbrev itoa : ℕ → String
itoa n = "8080"

abbrev ready : String → Bool
ready h = true

abbrev running : ℕ → Bool
running c = true

abbrev names : ℕ → List String
names c = "shop" ∷ "shop_8080" ∷ []

abbrev dashboard : List Route
dashboard =
    record { domain = "ship.example"; aliases = []; redirects = []; path = ""; backends = [] } ∷ []

abbrev shop : Plan
shop = record {
  app = "shop";
  hosts = record {
    domain = "example.com";
    aliases = "shop.example" ∷ [];
    redirects = "www.example.com" ∷ [];
    path = "";
  };
  members = record { container = 1; port = 8080 } ∷ record { container = 2; port = 8080 } ∷ [];
  hashed = true;
}

abbrev blog : Plan
blog = record {
  app = "blog";
  hosts = record { domain = "example.com"; aliases = []; redirects = []; path = "/blog" };
  members = [];
  hashed = true;
}

abbrev plans : List Plan
plans = shop ∷ blog ∷ []

passed : ArePassed path_key dashboard [] plans
unfolding has_text owner_of mark numbered all_named note_active note_apps owners conflict_at
    check_field check_host check_hosts check_domain
passed = (
  ((refl, (refl, tt)), (refl, (refl, tt))),
  refl,
  refl,
  (((refl, tt), (refl, tt)), refl, refl, tt),
)

routes_for-full_routes_example :
    routes_for path_key itoa ready running names dashboard plans
    ≡ dashboard ++ full_routes itoa ready running names plans
routes_for-full_routes_example =
    routes_for-full_routes path_key itoa ready running names dashboard plans passed

routes_for-AreApart_example : AreApart path_key (hostnames_of_routes dashboard) (
    drop
      (length dashboard)
      (routes_for path_key itoa ready running names dashboard (blog ∷ blog ∷ plans)))
routes_for-AreApart_example =
    routes_for-AreApart path_key itoa ready running names dashboard (blog ∷ blog ∷ plans)

-- The second plan with the same part of the hostname is left out.
apart_routes :
    length (routes_for path_key itoa ready running names dashboard (blog ∷ blog ∷ plans)) ≡ 3
unfolding routes_for route_plans route_plan serve_free serve free_hosts free_one claim_hosts
    claim_one claim_routes add_backends has_text
apart_routes = refl
