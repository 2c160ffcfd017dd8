-- ===== src/Routing/Passed.antt =====
-- Applications that `check_domain` lets pass, against the plans of others.
use Prim.Native.String.{String}
use text.Mathlib.Text.{◌==◌ as str_eq}
use shipwick.Base.{◌≡◌, sym, subst, ap, false, none, some, List, [], ◌∷◌, ◌++◌, arith, if_false}
use shipwick.Routing.{Hosts, Plan, Route, parts_of, served_hosts, hostnames_of_routes}
use shipwick.Routing.Texts.{has_text, Within, Avoids, Within-nil, Within-append, Avoids-within}
use shipwick.Routing.Domains.{
  application, shipwick_itself, Listed, Owners, note_active, note_apps, owners, check_domain,
}
use shipwick.Routing.Conflicts.{texts, mark-Within, check_hosts-IsPassed}

-- The plans of applications as `check_domain` lists them.
abbrev pub listed : List Plan → List Listed
listed [] = []
listed (p ∷ ps) = record { name = p.app; active = some p.hosts } ∷ listed ps

abbrev pub apps_of : List Plan → List String
apps_of [] = []
apps_of (p ∷ ps) = p.app ∷ apps_of ps

abbrev pub redirects_of : List Plan → List String
redirects_of [] = []
redirects_of (p ∷ ps) = p.hosts.redirects ++ redirects_of ps

abbrev pub served_of : List Plan → List String
served_of [] = []
served_of (p ∷ ps) = served_hosts p.hosts ++ served_of ps

abbrev pub plan_parts : (String → String) → List Plan → List String
plan_parts path_key [] = []
plan_parts path_key (p ∷ ps) =
    parts_of path_key p.hosts.path (served_hosts p.hosts) ++ plan_parts path_key ps

pub record HasPlans (path_key : String → String) (ps : List Plan) (old m : Owners) : Type 0 where
  pub whole_in : Within (redirects_of ps) (texts m.whole)
  pub parts_in : Within (plan_parts path_key ps) (texts m.parts)
  pub shared_in : Within (served_of ps) (texts m.shared)
  pub whole_old : Within (texts old.whole) (texts m.whole)
  pub parts_old : Within (texts old.parts) (texts m.parts)
  pub shared_old : Within (texts old.shared) (texts m.shared)

module _ (path_key : String → String) where
  note_apps-HasPlans :
      (mine : String) (ps : List Plan) (m : Owners)
      → has_text mine (apps_of ps) ≡ false
      → HasPlans path_key ps m (note_apps path_key mine (listed ps) m)
  unfolding note_apps note_active has_text
  note_apps-HasPlans mine [] m h = record {
    whole_in = Within-nil (texts m.whole);
    parts_in = Within-nil (texts m.parts);
    shared_in = Within-nil (texts m.shared);
    whole_old = λ t k. k;
    parts_old = λ t k. k;
    shared_old = λ t k. k;
  }
  note_apps-HasPlans mine (p ∷ ps) m h =
      let other : str_eq p.app mine ≡ false = ground (arith, h) in
      let others : has_text mine (apps_of ps) ≡ false = ground (arith, h) in
      let n = note_active path_key p.app (some p.hosts) m in
      let k = note_apps-HasPlans mine ps n others in
      let last = note_apps path_key mine (listed ps) n in
      let w = mark-Within (application p.app) p.hosts.redirects m.whole in
      let q =
        mark-Within (application p.app) (parts_of path_key p.hosts.path (served_hosts p.hosts))
          m.parts in
      let v = mark-Within (application p.app) (served_hosts p.hosts) m.shared in
      let step : note_apps path_key mine (listed (p ∷ ps)) m ≡ last =
        ap (note_apps path_key mine (listed ps)) (if_false (str_eq p.app mine) m n other) in
      subst (HasPlans path_key (p ∷ ps) m) (sym step) (record {
        whole_in =
            Within-append p.hosts.redirects (redirects_of ps) (texts last.whole)
              (λ t i. k.whole_old t (w.0 t i)) k.whole_in;
        parts_in =
            Within-append (parts_of path_key p.hosts.path (served_hosts p.hosts))
              (plan_parts path_key ps) (texts last.parts) (λ t i. k.parts_old t (q.0 t i))
              k.parts_in;
        shared_in =
            Within-append (served_hosts p.hosts) (served_of ps) (texts last.shared)
              (λ t i. k.shared_old t (v.0 t i)) k.shared_in;
        whole_old = λ t i. k.whole_old t (w.1 t i);
        parts_old = λ t i. k.parts_old t (q.1 t i);
        shared_old = λ t i. k.shared_old t (v.1 t i);
      })

  -- An application that the check lets pass against those of some plans and the operator's routes has
  -- nothing of them.
  pub record IsFreeOf (mine : Hosts) (ps : List Plan) (extra : List Route) : Type 0 where
    pub served_free : Avoids (served_hosts mine) (redirects_of ps)
    pub served_extra : Avoids (served_hosts mine) (hostnames_of_routes extra)
    pub parts_apart :
        Avoids (parts_of path_key mine.path (served_hosts mine)) (plan_parts path_key ps)
    pub redirects_apart : Avoids mine.redirects (redirects_of ps)
    pub redirects_extra : Avoids mine.redirects (hostnames_of_routes extra)
    pub redirects_unserved : Avoids mine.redirects (served_of ps)

  pub check_domain-IsFreeOf :
      (name : String) (mine : Hosts) (ps : List Plan) (extra : List Route)
      → has_text name (apps_of ps) ≡ false
      → check_domain path_key name mine (listed ps) extra ≡ none
      → IsFreeOf mine ps extra
  unfolding check_domain owners
  check_domain-IsFreeOf name mine ps extra fresh h =
      let m =
        note_apps path_key name (listed ps) (record { whole = []; parts = []; shared = [] }) in
      let all' = owners path_key name (listed ps) extra in
      let k = note_apps-HasPlans name ps (record { whole = []; parts = []; shared = [] }) fresh in
      let w = mark-Within shipwick_itself (hostnames_of_routes extra) m.whole in
      let q = check_hosts-IsPassed path_key mine all' h in
      record {
        served_free =
            Avoids-within (served_hosts mine) (redirects_of ps) (texts all'.whole)
              (λ t i. w.1 t (k.whole_in t i)) q.whole_free;
        served_extra =
            Avoids-within (served_hosts mine) (hostnames_of_routes extra) (texts all'.whole) w.0
              q.whole_free;
        parts_apart =
            Avoids-within (parts_of path_key mine.path (served_hosts mine)) (plan_parts path_key ps)
              (texts all'.parts) k.parts_in q.parts_free;
        redirects_apart =
            Avoids-within mine.redirects (redirects_of ps) (texts all'.whole)
              (λ t i. w.1 t (k.whole_in t i)) q.redirects_free;
        redirects_extra =
            Avoids-within mine.redirects (hostnames_of_routes extra) (texts all'.whole) w.0
              q.redirects_free;
        redirects_unserved =
            Avoids-within mine.redirects (served_of ps) (texts all'.shared) k.shared_in
              q.redirects_unshared;
      }
