-- ===== src/Routing/Plans.antt =====
-- A plan of which nothing meets what is taken, against its route.
use Prim.Native.String.{String}
use text.Mathlib.Text.{◌==◌ as str_eq}
use shipwick.Base.{
  ℕ, ◌≡◌, ◌∙◌, sym, subst, refl, ap, Bool, true, false, not, ◌&&◌, inl, inr, List, [], ◌∷◌, ◌++◌,
  keep, if◌then◌else◌, Bool-cases, if_true, if_false,
}
use shipwick.Routing.{
  Plan, Route, Taken, part, parts_of, filled, served_hosts, hostnames_of_routes, free_one,
  free_hosts, claim_hosts, serve, serve_free, route_plan,
}
use shipwick.Routing.Texts.{
  has_text, Within, Avoids, Within-append, Within-left, Within-right, has_text-keep, Avoids-within,
  has_first, Avoids-new, Within-cons, Avoids-both, keep_all,
}
use shipwick.Routing.Claims.{free_lem, parts_of-append}
use shipwick.Routing.Passed.{redirects_of, served_of, plan_parts, IsFreeOf}
use shipwick.Routing.Whole.{
  IsOwn, IsBounded, AreNew-parts-keep, AreNew-keep, parts-keep, free_all, free_bound, claim_all,
  claim_bound, full_route,
}

module _ (path_key : String → String) (itoa : ℕ → String) (ready : String → Bool)
    (running : ℕ → Bool) (names : ℕ → List String) (extra : List Route) where
  -- A plan with a domain that meets nothing of the earlier ones.
  module _ (p : Plan) (earlier : List Plan) (c : Taken) (own : IsOwn path_key p.hosts)
      (f : IsFreeOf path_key p.hosts earlier extra) (b : IsBounded path_key earlier extra c)
      (named : str_eq p.hosts.domain "" ≡ false) where
    served_named : served_hosts p.hosts ≡ p.hosts.domain ∷ p.hosts.aliases
    served_named =
        ap (λ l. l ++ p.hosts.aliases)
          (if_false (str_eq p.hosts.domain "") [] (p.hosts.domain ∷ []) named)

    hosts_untaken : Avoids (p.hosts.domain ∷ p.hosts.aliases) c.taken
    hosts_untaken =
        subst (λ l. Avoids l c.taken) served_named
          (Avoids-within (served_hosts p.hosts) c.taken
            (redirects_of earlier ++ hostnames_of_routes extra) b.taken_from
            (Avoids-both (served_hosts p.hosts) (redirects_of earlier) (hostnames_of_routes extra)
              f.served_free f.served_extra))

    hosts_unshared :
        Avoids (parts_of path_key p.hosts.path (p.hosts.domain ∷ p.hosts.aliases)) c.parts
    hosts_unshared =
        subst (λ l. Avoids (parts_of path_key p.hosts.path l) c.parts) served_named
          (Avoids-within (parts_of path_key p.hosts.path (served_hosts p.hosts)) c.parts
            (plan_parts path_key earlier) b.parts_from f.parts_apart)

    redirects_untaken : Avoids p.hosts.redirects c.taken
    redirects_untaken =
        Avoids-within p.hosts.redirects c.taken (redirects_of earlier ++ hostnames_of_routes extra)
          b.taken_from
          (Avoids-both p.hosts.redirects (redirects_of earlier) (hostnames_of_routes extra)
            f.redirects_apart f.redirects_extra)

    opened_claims : Taken
    opened_claims = record c {
      parts = part path_key p.hosts.domain p.hosts.path ∷ c.parts;
      shared = p.hosts.domain ∷ c.shared;
    }

    free_domain :
        free_hosts path_key p.hosts.path (p.hosts.domain ∷ []) c
        ≡ (p.hosts.domain ∷ [], opened_claims)
    unfolding free_hosts free_one opened_claims
    free_domain =
        let d = p.hosts.domain in
        let hp = part path_key d p.hosts.path in
        simp
          (
            hosts_untaken d (has_first d p.hosts.aliases),
            hosts_unshared hp (has_first hp (parts_of path_key p.hosts.path p.hosts.aliases)),
          )
          refl

    aliases_kept :
        (free_hosts path_key p.hosts.path (keep ready p.hosts.aliases) opened_claims).0
        ≡ keep ready p.hosts.aliases
    unfolding opened_claims
    aliases_kept =
        let hp = part path_key p.hosts.domain p.hosts.path in
        let kept = keep ready p.hosts.aliases in
        let parts = parts_of path_key p.hosts.path p.hosts.aliases in
        free_all path_key p.hosts.path kept opened_claims
          (λ t k. hosts_untaken t (
            Within-right (p.hosts.domain ∷ []) p.hosts.aliases t
              (has_text-keep ready p.hosts.aliases t k)))
          (λ t k.
            Avoids-new hp parts c.parts own.0.0
              (λ u i. hosts_unshared u (Within-right (hp ∷ []) parts u i)) t
              (parts-keep path_key p.hosts.path ready p.hosts.aliases t k))
          (AreNew-parts-keep path_key p.hosts.path ready p.hosts.aliases own.0.1)

    redirects_kept :
        keep (λ h. not (has_text h opened_claims.shared)) (keep ready p.hosts.redirects)
        ≡ keep ready p.hosts.redirects
    unfolding opened_claims
    redirects_kept = keep_all opened_claims.shared (keep ready p.hosts.redirects) (λ t k.
        Avoids-new p.hosts.domain p.hosts.redirects c.shared own.1.0
          (Avoids-within p.hosts.redirects c.shared (served_of earlier) b.shared_from
            f.redirects_unserved)
          t (has_text-keep ready p.hosts.redirects t k))

    same_taken :
        (free_hosts path_key p.hosts.path (keep ready p.hosts.aliases) opened_claims).1.taken
        ≡ c.taken
    unfolding opened_claims
    same_taken =
        (free_lem path_key p.hosts.path (keep ready p.hosts.aliases) opened_claims).taken_same

    redirects_claimed :
        (claim_hosts (keep ready p.hosts.redirects) c.taken).0 ≡ keep ready p.hosts.redirects
    redirects_claimed =
        claim_all (keep ready p.hosts.redirects) c.taken
          (λ t k. redirects_untaken t (has_text-keep ready p.hosts.redirects t k))
          (AreNew-keep ready p.hosts.redirects own.1.1)

    serve_full :
        (serve path_key itoa ready running names p opened_claims).0
        ≡ (if p.hashed then full_route itoa ready running names p ∷ [] else [])
    unfolding serve
    serve_full = elim (Bool-cases p.hashed) [
      | inl yes' ↦ simp (yes', aliases_kept, redirects_kept, same_taken, redirects_claimed) refl
      | inr no' ↦ simp no' refl
    ]

    after : Taken
    after =
        let wanted =
          keep (λ h. not (has_text h opened_claims.shared)) (keep ready p.hosts.redirects) in
        let aliases = free_hosts path_key p.hosts.path (keep ready p.hosts.aliases) opened_claims in
        record aliases.1 { taken = (claim_hosts wanted aliases.1.taken).1 }

    serve_after : (serve path_key itoa ready running names p opened_claims).1 ≡ after
    unfolding serve after
    serve_after = elim (Bool-cases p.hashed) [ inl yes' ↦ simp yes' refl | inr no' ↦ simp no' refl ]

    parts_later :
        Within
          (part path_key p.hosts.domain p.hosts.path ∷ c.parts)
          (plan_parts path_key (p ∷ earlier))
    parts_later =
        let parts = parts_of path_key p.hosts.path (p.hosts.domain ∷ p.hosts.aliases) in
        let later = plan_parts path_key earlier in
        subst
          (λ l.
            Within (part path_key p.hosts.domain p.hosts.path ∷ c.parts)
              (parts_of path_key p.hosts.path l ++ later))
          (sym served_named)
          (Within-cons (part path_key p.hosts.domain p.hosts.path) c.parts
            (parts_of path_key p.hosts.path p.hosts.aliases ++ later)
            (λ t k.
              Within-right (parts_of path_key p.hosts.path p.hosts.aliases) later t
                (b.parts_from t k)))

    shared_later : Within (p.hosts.domain ∷ c.shared) (served_of (p ∷ earlier))
    shared_later =
        let later = served_of earlier in
        subst (λ l. Within (p.hosts.domain ∷ c.shared) (l ++ later)) (sym served_named)
          (Within-cons p.hosts.domain c.shared (p.hosts.aliases ++ later)
            (λ t k. Within-right p.hosts.aliases later t (b.shared_from t k)))

    taken_later : Within c.taken (redirects_of (p ∷ earlier) ++ hostnames_of_routes extra)
    taken_later t k =
        Within-append (redirects_of earlier) (hostnames_of_routes extra)
          (redirects_of (p ∷ earlier) ++ hostnames_of_routes extra)
          (λ u i.
            Within-left (redirects_of (p ∷ earlier)) (hostnames_of_routes extra) u
              (Within-right p.hosts.redirects (redirects_of earlier) u i))
          (Within-right (redirects_of (p ∷ earlier)) (hostnames_of_routes extra)) t
          (b.taken_from t k)

    opened_claims-IsBounded : IsBounded path_key (p ∷ earlier) extra opened_claims
    unfolding opened_claims
    opened_claims-IsBounded = record {
      taken_from = taken_later;
      parts_from = parts_later;
      shared_from = shared_later;
    }

    after-IsBounded : IsBounded path_key (p ∷ earlier) extra after
    unfolding after opened_claims
    after-IsBounded =
        let kept = keep ready p.hosts.aliases in
        let wanted =
          keep (λ h. not (has_text h opened_claims.shared)) (keep ready p.hosts.redirects) in
        let bound = free_bound path_key p.hosts.path kept opened_claims in
        let aliases = free_hosts path_key p.hosts.path kept opened_claims in
        record {
          taken_from = λ t k.
              Within-append wanted aliases.1.taken
                (redirects_of (p ∷ earlier) ++ hostnames_of_routes extra)
                (λ u i. Within-left (redirects_of (p ∷ earlier)) (hostnames_of_routes extra) u (
                  Within-left p.hosts.redirects (redirects_of earlier) u (
                    has_text-keep ready p.hosts.redirects u (
                      has_text-keep (λ h. not (has_text h opened_claims.shared))
                        (keep ready p.hosts.redirects) u i))))
                (subst (λ l. Within l (redirects_of (p ∷ earlier) ++ hostnames_of_routes extra))
                  (sym same_taken) taken_later)
                t (claim_bound wanted aliases.1.taken t k);
          parts_from = λ t k.
              Within-append (parts_of path_key p.hosts.path kept) opened_claims.parts
                (plan_parts path_key (p ∷ earlier))
                (λ u i.
                  Within-left (parts_of path_key p.hosts.path (served_hosts p.hosts))
                    (plan_parts path_key earlier) u
                    (subst (λ l. has_text u l ≡ true)
                      (sym (
                        parts_of-append path_key p.hosts.path (filled p.hosts.domain)
                          p.hosts.aliases))
                      (Within-right (parts_of path_key p.hosts.path (filled p.hosts.domain))
                        (parts_of path_key p.hosts.path p.hosts.aliases) u
                        (parts-keep path_key p.hosts.path ready p.hosts.aliases u i))))
                parts_later t (bound.0 t k);
          shared_from = λ t k.
              Within-append kept opened_claims.shared (served_of (p ∷ earlier))
                (λ u i. Within-left (served_hosts p.hosts) (served_of earlier) u (
                  Within-right (filled p.hosts.domain) p.hosts.aliases u
                    (has_text-keep ready p.hosts.aliases u i)))
                shared_later t (bound.1 t k);
        }

    pub route_named :
        ((route_plan path_key itoa ready running names p c).0 ≡ (
          if ready p.hosts.domain && p.hashed
          then full_route itoa ready running names p ∷ []
          else []))
        × IsBounded path_key
            (p ∷ earlier)
            extra
            (route_plan path_key itoa ready running names p c).1
    unfolding route_plan serve_free
    route_named =
        let step : route_plan path_key itoa ready running names p c ≡ (
            if ready p.hosts.domain
            then serve path_key itoa ready running names p opened_claims
            else ([], opened_claims)) =
          if_false (str_eq p.hosts.domain "") ([], c)
            (serve_free path_key itoa ready running names p
              (free_hosts path_key p.hosts.path (p.hosts.domain ∷ []) c))
            named
          ∙ ap (serve_free path_key itoa ready running names p) free_domain in
        let served_now = serve path_key itoa ready running names p opened_claims in
        elim (Bool-cases (ready p.hosts.domain)) [
          | inl is_ready ↦
              let now =
                step ∙ if_true (ready p.hosts.domain) served_now ([], opened_claims) is_ready in
              (
                ap (λ r. r.0) now ∙ serve_full ∙ simp is_ready refl,
                subst (λ r. IsBounded path_key (p ∷ earlier) extra r.1) (sym now)
                    (subst (IsBounded path_key (p ∷ earlier) extra) (sym serve_after)
                      after-IsBounded),
              )
          | inr not_ready ↦
              let now =
                step ∙ if_false (ready p.hosts.domain) served_now ([], opened_claims) not_ready in
              (
                ap (λ r. r.0) now ∙ simp not_ready refl,
                subst (λ r. IsBounded path_key (p ∷ earlier) extra r.1) (sym now)
                    opened_claims-IsBounded,
              )
        ]
