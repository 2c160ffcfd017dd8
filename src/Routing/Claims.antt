-- ===== src/Routing/Claims.antt =====
-- What `free_hosts` and `claim_hosts` give, and what they leave.
use Prim.Native.String.{String}
use shipwick.Base.{
  ◌≡◌, ◌∙◌, sym, subst, refl, ap, Bool, true, false, ◌||◌, List, [], ◌∷◌, ◌++◌, arith,
  both_branches,
}
use shipwick.Routing.{Taken, part, parts_of, free_one, free_hosts, claim_one, claim_hosts}
use shipwick.Routing.Texts.{
  has_text, Within, Avoids, has_text-one, Within-nil, Within-trans, Within-append, Within-left,
  Within-right, Avoids-nil, Avoids-append, Avoids-within, Avoids-one,
}

module _ (path_key : String → String) where
  pub record IsFree (path : String) (hosts : List String) (c : Taken) (r : List String × Taken)
      : Type 0 where
    pub taken_same : r.1.taken ≡ c.taken
    pub given : Within r.0 hosts
    pub parts_in : Within (parts_of path_key path r.0) r.1.parts
    pub shared_in : Within r.0 r.1.shared
    pub parts_grow : Within c.parts r.1.parts
    pub shared_grow : Within c.shared r.1.shared
    pub untaken : Avoids r.0 c.taken
    pub unshared : Avoids (parts_of path_key path r.0) c.parts

  free_one-IsFree :
      (path h : String) (c : Taken) → IsFree path (h ∷ []) c (free_one path_key path h c)
  unfolding free_one
  free_one-IsFree path h c =
      let given' : List String × Taken =
        (h ∷ [], record c { parts = part path_key h path ∷ c.parts; shared = h ∷ c.shared }) in
      both_branches (IsFree path (h ∷ []) c)
        (has_text h c.taken || has_text (part path_key h path) c.parts) ([], c) given'
        (λ yes'. record {
          taken_same = refl;
          given = Within-nil (h ∷ []);
          parts_in = Within-nil c.parts;
          shared_in = Within-nil c.shared;
          parts_grow = λ t k. k;
          shared_grow = λ t k. k;
          untaken = Avoids-nil c.taken;
          unshared = Avoids-nil c.parts;
        })
        (λ no'. record {
          taken_same = refl;
          given = λ t k. k;
          parts_in = Within-left (part path_key h path ∷ []) c.parts;
          shared_in = Within-left (h ∷ []) c.shared;
          parts_grow = Within-right (part path_key h path ∷ []) c.parts;
          shared_grow = Within-right (h ∷ []) c.shared;
          untaken =
              Avoids-one h c.taken
                (neither_left (has_text h c.taken) (has_text (part path_key h path) c.parts) no');
          unshared =
              Avoids-one (part path_key h path) c.parts
                (neither_right (has_text h c.taken) (has_text (part path_key h path) c.parts) no');
        })
    where
      neither_left : (a b : Bool) → (a || b) ≡ false → a ≡ false
      neither_left a b k = ground arith

      neither_right : (a b : Bool) → (a || b) ≡ false → b ≡ false
      neither_right a b k = ground arith

  pub parts_of-append :
      (path : String) (xs ys : List String)
      → parts_of path_key path (xs ++ ys) ≡ parts_of path_key path xs ++ parts_of path_key path ys
  parts_of-append path [] ys = refl
  parts_of-append path (x ∷ xs) ys = ap (λ l. part path_key x path ∷ l) (parts_of-append path xs ys)

  pub free_lem :
      (path : String) (hosts : List String) (c : Taken)
      → IsFree path hosts c (free_hosts path_key path hosts c)
  unfolding free_hosts
  free_lem path [] c = record {
    taken_same = refl;
    given = Within-nil [];
    parts_in = Within-nil c.parts;
    shared_in = Within-nil c.shared;
    parts_grow = λ t k. k;
    shared_grow = λ t k. k;
    untaken = Avoids-nil c.taken;
    unshared = Avoids-nil c.parts;
  }
  free_lem path (h ∷ hs) c =
      let one = free_one path_key path h c in
      let rest = free_hosts path_key path hs one.1 in
      let f = free_one-IsFree path h c in
      let g = free_lem path hs one.1 in
      record {
        taken_same = g.taken_same ∙ f.taken_same;
        given =
            Within-append one.0 rest.0 (h ∷ hs)
              (Within-trans one.0 (h ∷ []) (h ∷ hs) f.given (Within-left (h ∷ []) hs))
              (Within-trans rest.0 hs (h ∷ hs) g.given (Within-right (h ∷ []) hs));
        parts_in =
            subst (λ l. Within l rest.1.parts) (sym (parts_of-append path one.0 rest.0))
              (Within-append (parts_of path_key path one.0) (parts_of path_key path rest.0)
                rest.1.parts
                (Within-trans (parts_of path_key path one.0) one.1.parts rest.1.parts f.parts_in
                  g.parts_grow)
                g.parts_in);
        shared_in =
            Within-append one.0 rest.0 rest.1.shared
              (Within-trans one.0 one.1.shared rest.1.shared f.shared_in g.shared_grow) g.shared_in;
        parts_grow = Within-trans c.parts one.1.parts rest.1.parts f.parts_grow g.parts_grow;
        shared_grow = Within-trans c.shared one.1.shared rest.1.shared f.shared_grow g.shared_grow;
        untaken =
            Avoids-append one.0 rest.0 c.taken f.untaken
              (subst (Avoids rest.0) f.taken_same g.untaken);
        unshared =
            subst (λ l. Avoids l c.parts) (sym (parts_of-append path one.0 rest.0))
              (Avoids-append (parts_of path_key path one.0) (parts_of path_key path rest.0) c.parts
                f.unshared
                (Avoids-within (parts_of path_key path rest.0) c.parts one.1.parts f.parts_grow
                  g.unshared));
      }

pub record IsClaimed (hosts taken : List String) (r : List String × List String) : Type 0 where
  pub claimed : Within r.0 hosts
  pub now_taken : Within r.0 r.1
  pub grows : Within taken r.1
  pub new : Avoids r.0 taken
  pub all_taken : Within hosts r.1

claim_one-IsClaimed :
    (h : String) (taken : List String) → IsClaimed (h ∷ []) taken (claim_one h taken)
unfolding claim_one
claim_one-IsClaimed h taken =
    both_branches (IsClaimed (h ∷ []) taken) (has_text h taken) ([], taken) (h ∷ [], h ∷ taken)
      (λ in_it. record {
        claimed = Within-nil (h ∷ []);
        now_taken = Within-nil taken;
        grows = λ t k. k;
        new = Avoids-nil taken;
        all_taken = λ t k. subst (λ v. has_text v taken ≡ true) (has_text-one t h k) in_it;
      })
      (λ not_in. record {
        claimed = λ t k. k;
        now_taken = Within-left (h ∷ []) taken;
        grows = Within-right (h ∷ []) taken;
        new = Avoids-one h taken not_in;
        all_taken = Within-left (h ∷ []) taken;
      })

pub claim_lem : (hosts taken : List String) → IsClaimed hosts taken (claim_hosts hosts taken)
unfolding claim_hosts
claim_lem [] taken = record {
  claimed = Within-nil [];
  now_taken = Within-nil taken;
  grows = λ t k. k;
  new = Avoids-nil taken;
  all_taken = Within-nil taken;
}
claim_lem (h ∷ hs) taken =
    let one = claim_one h taken in
    let rest = claim_hosts hs one.1 in
    let f = claim_one-IsClaimed h taken in
    let g = claim_lem hs one.1 in
    record {
      claimed =
          Within-append one.0 rest.0 (h ∷ hs)
            (Within-trans one.0 (h ∷ []) (h ∷ hs) f.claimed (Within-left (h ∷ []) hs))
            (Within-trans rest.0 hs (h ∷ hs) g.claimed (Within-right (h ∷ []) hs));
      now_taken =
          Within-append one.0 rest.0 rest.1 (Within-trans one.0 one.1 rest.1 f.now_taken g.grows)
            g.now_taken;
      grows = Within-trans taken one.1 rest.1 f.grows g.grows;
      new = Avoids-append one.0 rest.0 taken f.new (Avoids-within rest.0 taken one.1 f.grows g.new);
      all_taken =
          Within-append (h ∷ []) hs rest.1 (Within-trans (h ∷ []) one.1 rest.1 f.all_taken g.grows)
            g.all_taken;
    }
