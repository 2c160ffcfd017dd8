-- ===== src/Routing/Turns.antt =====
-- What one plan adds to the routes, against what was taken before it and after it.
use Prim.Native.String.{String}
use text.Mathlib.Text.{◌==◌ as str_eq}
use shipwick.Base.{
  ℕ, ◌≡◌, ◌∙◌, sym, subst, refl, ap, Bool, true, not, List, [], ◌∷◌, ◌++◌, keep, All, both_branches,
}
use shipwick.Routing.{
  Taken, Route, Plan, Hosts, part, parts_of, free_hosts, claim_hosts, serve, serve_free, route_plan,
  route_hostnames, add_backends,
}
use shipwick.Routing.Texts.{
  has_text, Within, Avoids, Within-append, Avoids-append, Avoids-within, has_text-one, Avoids-keep,
  has_first,
}
use shipwick.Routing.Claims.{IsFree, free_lem, claim_lem}

-- What a route serves itself.
abbrev pub route_served : Route → List String
route_served r = (r.domain ∷ []) ++ r.aliases

module _ (path_key : String → String) where
  abbrev pub route_parts : Route → List String
  route_parts r = parts_of path_key r.path (route_served r)

  -- Of two routes, the parts that are served differ, and what one redirects the other neither serves
  -- nor redirects.
  pub record IsApart (r s : Route) : Type 0 where
    pub parts : Avoids (route_parts s) (route_parts r)
    pub redirected : Avoids (route_served s) r.redirects
    pub redirects : Avoids s.redirects (route_served r)
    pub both : Avoids s.redirects r.redirects

  -- Nothing of a route is among the hostnames that are taken, and its routes are apart pairwise.
  abbrev pub AreApart : List String → List Route → Type 0
  AreApart taken [] = Unit
  AreApart taken (r ∷ rs) =
      Avoids (route_hostnames r) taken × All (IsApart r) rs × AreApart taken rs

  -- A route against what was taken before it, and against what is taken after it.
  pub record IsBeyond (c : Taken) (r : Route) : Type 0 where
    pub untaken : Avoids (route_served r) c.taken
    pub unshared : Avoids (route_parts r) c.parts
    pub redirects_untaken : Avoids r.redirects c.taken
    pub redirects_unshared : Avoids r.redirects c.shared

  pub record IsCovered (c : Taken) (r : Route) : Type 0 where
    pub parts_in : Within (route_parts r) c.parts
    pub shared_in : Within (route_served r) c.shared
    pub redirects_in : Within r.redirects c.taken

  pub record Grows (c d : Taken) : Type 0 where
    pub taken_grow : Within c.taken d.taken
    pub parts_grow : Within c.parts d.parts
    pub shared_grow : Within c.shared d.shared

  Grows-refl : (c : Taken) → Grows c c
  Grows-refl c = record { taken_grow = λ t k. k; parts_grow = λ t k. k; shared_grow = λ t k. k }

  Grows-trans : (b c d : Taken) → Grows b c → Grows c d → Grows b d
  Grows-trans b c d f g = record {
    taken_grow = λ t k. g.taken_grow t (f.taken_grow t k);
    parts_grow = λ t k. g.parts_grow t (f.parts_grow t k);
    shared_grow = λ t k. g.shared_grow t (f.shared_grow t k);
  }

  pub IsBeyond-Grows : (c d : Taken) (r : Route) → Grows c d → IsBeyond d r → IsBeyond c r
  IsBeyond-Grows c d r g b = record {
    untaken = Avoids-within (route_served r) c.taken d.taken g.taken_grow b.untaken;
    unshared = Avoids-within (route_parts r) c.parts d.parts g.parts_grow b.unshared;
    redirects_untaken = Avoids-within r.redirects c.taken d.taken g.taken_grow b.redirects_untaken;
    redirects_unshared =
        Avoids-within r.redirects c.shared d.shared g.shared_grow b.redirects_unshared;
  }

  pub covered-IsApart : (c : Taken) (r s : Route) → IsCovered c r → IsBeyond c s → IsApart r s
  covered-IsApart c r s k b = record {
    parts = Avoids-within (route_parts s) (route_parts r) c.parts k.parts_in b.unshared;
    redirected = Avoids-within (route_served s) r.redirects c.taken k.redirects_in b.untaken;
    redirects =
        Avoids-within s.redirects (route_served r) c.shared k.shared_in b.redirects_unshared;
    both = Avoids-within s.redirects r.redirects c.taken k.redirects_in b.redirects_untaken;
  }

  pub record IsRouted (c : Taken) (out : List Route × Taken) : Type 0 where
    pub beyond : All (IsBeyond c) out.0
    pub covered : All (IsCovered out.1) out.0
    pub grows : Grows c out.1
    pub single :
        (taken : List String)
        → All (λ r. Avoids (route_hostnames r) taken) out.0
        → AreApart taken out.0

  none-IsRouted : (c d : Taken) → Grows c d → IsRouted c ([], d)
  none-IsRouted c d g = record { beyond = tt; covered = tt; grows = g; single = λ taken h. tt }

  -- The domain of a plan was free, and is taken now.
  pub record IsOpened (h : Hosts) (c d : Taken) : Type 0 where
    pub grows : Grows c d
    domain_untaken : Avoids (h.domain ∷ []) c.taken
    domain_unshared : Avoids (parts_of path_key h.path (h.domain ∷ [])) c.parts
    domain_part : Within (parts_of path_key h.path (h.domain ∷ [])) d.parts
    domain_shared : Within (h.domain ∷ []) d.shared

  module _ (itoa : ℕ → String) (ready : String → Bool) (running : ℕ → Bool)
      (names : ℕ → List String) where
    serve-IsRouted :
        (p : Plan) (c d : Taken)
        → IsOpened p.hosts c d
        → IsRouted c (serve path_key itoa ready running names p d)
    unfolding serve
    serve-IsRouted p c d o =
        let wanted = keep (λ h. not (has_text h d.shared)) (keep ready p.hosts.redirects) in
        let aliases = free_hosts path_key p.hosts.path (keep ready p.hosts.aliases) d in
        let f = free_lem path_key p.hosts.path (keep ready p.hosts.aliases) d in
        let claimed = claim_hosts wanted aliases.1.taken in
        let k = claim_lem wanted aliases.1.taken in
        let after : Taken = record aliases.1 { taken = claimed.1 } in
        let r : Route = record {
          domain = p.hosts.domain;
          aliases = aliases.0;
          redirects = claimed.0;
          path = p.hosts.path;
          backends = add_backends itoa running names p.app p.members [];
        } in
        let g : Grows d after = record {
          taken_grow = λ t h. k.grows t (subst (λ l. has_text t l ≡ true) (sym f.taken_same) h);
          parts_grow = f.parts_grow;
          shared_grow = f.shared_grow;
        } in
        let grown = Grows-trans c d after o.grows g in
        let beyond' : IsBeyond c r = record {
          untaken =
              Avoids-append (p.hosts.domain ∷ []) aliases.0 c.taken o.domain_untaken
                (Avoids-within aliases.0 c.taken d.taken o.grows.taken_grow f.untaken);
          unshared =
              Avoids-append (parts_of path_key p.hosts.path (p.hosts.domain ∷ []))
                (parts_of path_key p.hosts.path aliases.0) c.parts o.domain_unshared
                (Avoids-within (parts_of path_key p.hosts.path aliases.0) c.parts d.parts
                  o.grows.parts_grow f.unshared);
          redirects_untaken =
              Avoids-within claimed.0 c.taken d.taken o.grows.taken_grow
                (subst (Avoids claimed.0) f.taken_same k.new);
          redirects_unshared = λ t h.
              Avoids-within wanted c.shared d.shared o.grows.shared_grow
                (Avoids-keep d.shared (keep ready p.hosts.redirects)) t (k.claimed t h);
        } in
        let covered' : IsCovered after r = record {
          parts_in =
              Within-append (parts_of path_key p.hosts.path (p.hosts.domain ∷ []))
                (parts_of path_key p.hosts.path aliases.0) after.parts
                (λ t h. f.parts_grow t (o.domain_part t h)) f.parts_in;
          shared_in =
              Within-append (p.hosts.domain ∷ []) aliases.0 after.shared
                (λ t h. f.shared_grow t (o.domain_shared t h)) f.shared_in;
          redirects_in = k.now_taken;
        } in
        both_branches (IsRouted c) p.hashed (r ∷ [], after) ([], after)
          (λ e. record {
            beyond = (beyond', tt);
            covered = (covered', tt);
            grows = grown;
            single = λ taken h. (h.0, tt, tt);
          })
          (λ e. none-IsRouted c after grown)

    free_hosts-IsOpened :
        (h : Hosts) (c : Taken) (first : String) (rest : List String) (d : Taken)
        → free_hosts path_key h.path (h.domain ∷ []) c ≡ (first ∷ rest, d)
        → IsOpened h c d
    free_hosts-IsOpened h c first rest d e =
        let f =
          subst (IsFree path_key h.path (h.domain ∷ []) c) e
            (free_lem path_key h.path (h.domain ∷ []) c) in
        let is : h.domain ≡ first =
          has_text-one first h.domain (f.given first (has_first first rest)) in
        let host : Within (h.domain ∷ []) (first ∷ rest) = λ t k.
          subst (λ v. has_text v (first ∷ rest) ≡ true) (sym is ∙ has_text-one t h.domain k)
            (has_first first rest) in
        let of_host : Within (parts_of path_key h.path (h.domain ∷ []))
            (parts_of path_key h.path (first ∷ rest)) =
          λ t k.
            subst (λ v. has_text v (parts_of path_key h.path (first ∷ rest)) ≡ true)
              (ap (λ v. part path_key v h.path) (sym is)
                ∙ has_text-one t (part path_key h.domain h.path) k)
              (has_first (part path_key first h.path) (parts_of path_key h.path rest)) in
        record {
          grows = record {
            taken_grow = λ t k. subst (λ l. has_text t l ≡ true) (sym f.taken_same) k;
            parts_grow = f.parts_grow;
            shared_grow = f.shared_grow;
          };
          domain_untaken = λ t k. f.untaken t (host t k);
          domain_unshared = λ t k. f.unshared t (of_host t k);
          domain_part = λ t k. f.parts_in t (of_host t k);
          domain_shared = λ t k. f.shared_in t (host t k);
        }

    pub route_plan-IsRouted :
        (p : Plan) (c : Taken) → IsRouted c (route_plan path_key itoa ready running names p c)
    unfolding route_plan serve_free
    route_plan-IsRouted p c =
        both_branches (IsRouted c) (str_eq p.hosts.domain "") ([], c)
          (serve_free path_key itoa ready running names p
            (free_hosts path_key p.hosts.path (p.hosts.domain ∷ []) c))
          (λ e. none-IsRouted c c (Grows-refl c))
          (λ e. by_free (free_hosts path_key p.hosts.path (p.hosts.domain ∷ []) c) refl)
      where
        by_free :
            (r : List String × Taken)
            → free_hosts path_key p.hosts.path (p.hosts.domain ∷ []) c ≡ r
            → IsRouted c (serve_free path_key itoa ready running names p r)
        by_free ([], d) e =
            let f =
              subst (IsFree path_key p.hosts.path (p.hosts.domain ∷ []) c) e
                (free_lem path_key p.hosts.path (p.hosts.domain ∷ []) c) in
            none-IsRouted c d (record {
              taken_grow = λ t k. subst (λ l. has_text t l ≡ true) (sym f.taken_same) k;
              parts_grow = f.parts_grow;
              shared_grow = f.shared_grow;
            })
        by_free (first ∷ rest, d) e =
            let o = free_hosts-IsOpened p.hosts c first rest d e in
            both_branches (IsRouted c) (ready p.hosts.domain)
              (serve path_key itoa ready running names p d) ([], d) (λ is. serve-IsRouted p c d o)
              (λ is. none-IsRouted c d o.grows)
