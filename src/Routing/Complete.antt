-- ===== src/Routing/Complete.antt =====
-- Plans whose hostnames do not meet, against what the proxy is told of them.
use Prim.Native.String.{String}
use text.Mathlib.Text.{◌==◌ as str_eq}
use shipwick.Base.{
  ℕ, ◌≡◌, ◌∙◌, sym, subst, refl, ap, Bool, true, false, not, ◌&&◌, inl, inr, List, [], ◌∷◌, ◌++◌,
  if◌then◌else◌, Bool-cases, if_true,
}
use shipwick.Routing.{
  Plan, Route, Taken, parts_of, served_hosts, hostnames_of_routes, free_hosts, claim_routes,
  serve_free, route_plan, route_plans, routes_for,
}
use shipwick.Routing.Texts.{Within-nil, Within-append, Within-left, Within-right}
use shipwick.Routing.Passed.{redirects_of, served_of, plan_parts, IsFreeOf, check_domain-IsFreeOf}
use shipwick.Routing.Whole.{IsOwn, IsBounded, routes_bound, full_route, full_routes, ArePassed}
use shipwick.Routing.Plans.{route_named}

module _ (path_key : String → String) (itoa : ℕ → String) (ready : String → Bool)
    (running : ℕ → Bool) (names : ℕ → List String) (extra : List Route) where
  route_unnamed :
      (p : Plan) (c : Taken)
      → str_eq p.hosts.domain "" ≡ true
      → route_plan path_key itoa ready running names p c ≡ ([], c)
  unfolding route_plan
  route_unnamed p c unnamed =
      if_true (str_eq p.hosts.domain "") ([], c)
        (serve_free path_key itoa ready running names p
          (free_hosts path_key p.hosts.path (p.hosts.domain ∷ []) c))
        unnamed

  IsBounded-later :
      (p : Plan) (earlier : List Plan) (c : Taken)
      → IsBounded path_key earlier extra c
      → IsBounded path_key (p ∷ earlier) extra c
  IsBounded-later p earlier c b = record {
    taken_from = λ t k.
        Within-append (redirects_of earlier) (hostnames_of_routes extra)
          (redirects_of (p ∷ earlier) ++ hostnames_of_routes extra)
          (λ u i.
            Within-left (redirects_of (p ∷ earlier)) (hostnames_of_routes extra) u
              (Within-right p.hosts.redirects (redirects_of earlier) u i))
          (Within-right (redirects_of (p ∷ earlier)) (hostnames_of_routes extra)) t
          (b.taken_from t k);
    parts_from = λ t k.
        Within-right (parts_of path_key p.hosts.path (served_hosts p.hosts))
          (plan_parts path_key earlier) t (b.parts_from t k);
    shared_from =
        λ t k. Within-right (served_hosts p.hosts) (served_of earlier) t (b.shared_from t k);
  }

  -- One plan, whether it has a domain or not.
  route_plan_full :
      (p : Plan) (earlier : List Plan) (c : Taken)
      → IsOwn path_key p.hosts
      → IsFreeOf path_key p.hosts earlier extra
      → IsBounded path_key earlier extra c
      → ((route_plan path_key itoa ready running names p c).0 ≡ (
          if not (str_eq p.hosts.domain "") && (ready p.hosts.domain && p.hashed)
          then full_route itoa ready running names p ∷ []
          else []))
        × IsBounded path_key
            (p ∷ earlier)
            extra
            (route_plan path_key itoa ready running names p c).1
  route_plan_full p earlier c own f b = elim (Bool-cases (str_eq p.hosts.domain "")) [
    | inr named ↦
        let (out, bounded) =
          route_named path_key itoa ready running names extra p earlier c own f b named in
        (out ∙ simp named refl, bounded)
    | inl unnamed ↦
        let same = route_unnamed p c unnamed in
        (
          ap (λ r. r.0) same ∙ simp unnamed refl,
          subst (λ r. IsBounded path_key (p ∷ earlier) extra r.1) (sym same)
              (IsBounded-later p earlier c b),
        )
  ]

  if_cons :
      (b : Bool) (r : Route) (rest : List Route)
      → ((if b then r ∷ [] else []) ++ rest) ≡ (if b then r ∷ rest else rest)
  if_cons true r rest = refl
  if_cons false r rest = refl

  route_plans_full :
      (ps earlier : List Plan) (c : Taken)
      → ArePassed path_key extra earlier ps
      → IsBounded path_key earlier extra c
      → route_plans path_key itoa ready running names ps c ≡ full_routes itoa ready running names ps
  unfolding route_plans full_routes
  route_plans_full [] earlier c h b = refl
  route_plans_full (p ∷ ps) earlier c h b =
      let f = check_domain-IsFreeOf path_key p.app p.hosts earlier extra h.1 h.2 in
      let (out, bounded) = route_plan_full p earlier c h.0 f b in
      let one = route_plan path_key itoa ready running names p c in
      let rest = route_plans_full ps (p ∷ earlier) one.1 h.3 bounded in
      ap (λ l. l ++ route_plans path_key itoa ready running names ps one.1) out
      ∙ ap
          (λ l.
            (if not (str_eq p.hosts.domain "") && (ready p.hosts.domain && p.hashed)
              then full_route itoa ready running names p ∷ []
              else [])
            ++ l)
          rest
      ∙ if_cons (not (str_eq p.hosts.domain "") && (ready p.hosts.domain && p.hashed))
          (full_route itoa ready running names p) (full_routes itoa ready running names ps)

  -- When no plan names a hostname twice, and each was let pass by `check_domain` against the operator's
  -- routes and the plans before it, the proxy is told, behind the operator's routes, one route for
  -- each plan whose domain is ready and whose passwords could be hashed, in the order of the plans,
  -- with all of its aliases and redirects that are ready.
  pub routes_for-full_routes :
      (plans : List Plan)
      → ArePassed path_key extra [] plans
      → routes_for path_key itoa ready running names extra plans
        ≡ extra ++ full_routes itoa ready running names plans
  unfolding routes_for
  routes_for-full_routes plans h =
      ap (λ l. extra ++ l)
        (route_plans_full plans []
          (record { taken = claim_routes extra []; parts = []; shared = [] }) h
          (record {
            taken_from = λ t k.
                Within-append (hostnames_of_routes extra) [] (hostnames_of_routes extra) (λ u i. i)
                  (Within-nil (hostnames_of_routes extra)) t (routes_bound extra [] t k);
            parts_from = Within-nil [];
            shared_from = Within-nil [];
          }))
