-- ===== src/Routing/Conflicts.antt =====
-- What an application that `check_domain` lets pass does not have.
use Prim.Native.String.{String}
use text.Mathlib.Text.{◌==◌ as str_eq}
use shipwick.Base.{
  ℕ, ◌+◌, ◌≡◌, sym, subst, refl, false, inl, inr, Option, none, some, List, [], ◌∷◌, ◌++◌,
  if◌then◌else◌, arith, Bool-cases, Option-cases,
}
use shipwick.Routing.{Hosts, part, parts_of, filled, served_hosts}
use shipwick.Routing.Texts.{
  has_text, Within, Avoids, Within-nil, Within-append, Within-left, Within-right, Avoids-nil,
  Avoids-append, Avoids-one,
}
use shipwick.Routing.Claims.{parts_of-append}
use shipwick.Routing.Domains.{
  Owner, Field, domain_field, alias_field, redirect_field, NamedHost, DomainConflict, OwnerEntry,
  Owners, owner_of, mark, numbered, all_named, check_field, check_host, check_hosts, or_conflict,
  conflict_at, at_path,
}

abbrev pub texts : List OwnerEntry → List String
texts [] = []
texts (e ∷ es) = e.text ∷ texts es

owner_of-none :
    (t : String) (es : List OwnerEntry) → owner_of t es ≡ none → has_text t (texts es) ≡ false
unfolding owner_of has_text
owner_of-none t [] h = refl
owner_of-none t (e ∷ es) h = elim (Bool-cases (str_eq e.text t)) [
  | inl is ↦ absurd (ground (arith, is, h))
  | inr other ↦ simp other (owner_of-none t es (ground (arith, other, h)))
]

pub mark-Within :
    (o : Owner) (ts : List String) (es : List OwnerEntry)
    → Within ts (texts (mark o ts es)) × Within (texts es) (texts (mark o ts es))
unfolding mark
mark-Within o [] es = (Within-nil (texts es), λ t k. k)
mark-Within o (t ∷ ts) es =
    let e : OwnerEntry = record { text = t; owner = o } in
    let (new, old) = mark-Within o ts (e ∷ es) in
    (
      Within-append (t ∷ []) ts (texts (mark o ts (e ∷ es)))
          (λ u k. old u (Within-left (t ∷ []) (texts es) u k)) new,
      λ u k. old u (Within-right (t ∷ []) (texts es) u k),
    )

or_conflict-none : (a b : Option DomainConflict) → or_conflict a b ≡ none → (a ≡ none) × (b ≡ none)
or_conflict-none none b h = (refl, h)
or_conflict-none (some c) b h = absurd (cc)

conflict_at-none :
    (t host path : String) (field : Field) (es : List OwnerEntry)
    → conflict_at host path field (owner_of t es) ≡ none
    → has_text t (texts es) ≡ false
unfolding conflict_at
conflict_at-none t host path field es h = elim (Option-cases (owner_of t es)) [
  | inl free ↦ owner_of-none t es free
  | inr (o, is) ↦ absurd (cc (h, is))
]

-- What has passed: its hostnames are not taken whole, its parts not served, and its redirects not
-- shared.
pub record IsPassed (path_key : String → String) (mine : Hosts) (m : Owners) : Type 0 where
  pub whole_free : Avoids (served_hosts mine) (texts m.whole)
  pub parts_free : Avoids (parts_of path_key mine.path (served_hosts mine)) (texts m.parts)
  pub redirects_free : Avoids mine.redirects (texts m.whole)
  pub redirects_unshared : Avoids mine.redirects (texts m.shared)

module _ (path_key : String → String) (mine : Hosts) (m : Owners) where
  check_host-none :
      (n : NamedHost)
      → check_host path_key mine m n ≡ none
      → (has_text n.host (texts m.whole) ≡ false)
        × (check_field path_key mine m n.field n.host ≡ none)
  unfolding check_host
  check_host-none n h =
      let (whole, field) =
        or_conflict-none (conflict_at n.host "" n.field (owner_of n.host m.whole))
          (check_field path_key mine m n.field n.host) h in
      (conflict_at-none n.host n.host "" n.field m.whole whole, field)

  check_hosts-append :
      (xs ys : List NamedHost)
      → check_hosts path_key mine m (xs ++ ys) ≡ none
      → (check_hosts path_key mine m xs ≡ none) × (check_hosts path_key mine m ys ≡ none)
  unfolding check_hosts
  check_hosts-append [] ys h = (refl, h)
  check_hosts-append (x ∷ xs) ys h =
      let (first, rest) =
        or_conflict-none (check_host path_key mine m x) (check_hosts path_key mine m (xs ++ ys))
          h in
      let (front, back) = check_hosts-append xs ys rest in (rw (first, front) refl, back)

  check_hosts-aliases :
      (i : ℕ) (hs : List String)
      → check_hosts path_key mine m (numbered alias_field i hs) ≡ none
      → Avoids hs (texts m.whole) × Avoids (parts_of path_key mine.path hs) (texts m.parts)
  unfolding check_hosts numbered check_field
  check_hosts-aliases i [] h = (Avoids-nil (texts m.whole), Avoids-nil (texts m.parts))
  check_hosts-aliases i (x ∷ xs) h =
      let n : NamedHost = record { field = alias_field i; host = x } in
      let (first, rest) =
        or_conflict-none (check_host path_key mine m n)
          (check_hosts path_key mine m (numbered alias_field (i + 1) xs)) h in
      let (whole, field) = check_host-none n first in
      let (others, parts) = check_hosts-aliases (i + 1) xs rest in
      (
        Avoids-append (x ∷ []) xs (texts m.whole) (Avoids-one x (texts m.whole) whole) others,
        Avoids-append (part path_key x mine.path ∷ []) (parts_of path_key mine.path xs)
            (texts m.parts)
            (Avoids-one (part path_key x mine.path) (texts m.parts) (
              conflict_at-none (part path_key x mine.path) x mine.path (alias_field i) m.parts
                field))
            parts,
      )

  check_hosts-redirects :
      (i : ℕ) (hs : List String)
      → check_hosts path_key mine m (numbered redirect_field i hs) ≡ none
      → Avoids hs (texts m.whole) × Avoids hs (texts m.shared)
  unfolding check_hosts numbered check_field
  check_hosts-redirects i [] h = (Avoids-nil (texts m.whole), Avoids-nil (texts m.shared))
  check_hosts-redirects i (x ∷ xs) h =
      let n : NamedHost = record { field = redirect_field i; host = x } in
      let (first, rest) =
        or_conflict-none (check_host path_key mine m n)
          (check_hosts path_key mine m (numbered redirect_field (i + 1) xs)) h in
      let (whole, field) = check_host-none n first in
      let (others, shared) = check_hosts-redirects (i + 1) xs rest in
      (
        Avoids-append (x ∷ []) xs (texts m.whole) (Avoids-one x (texts m.whole) whole) others,
        Avoids-append (x ∷ []) xs (texts m.shared)
            (Avoids-one x (texts m.shared)
              (conflict_at-none x x "" (redirect_field i) m.shared field))
            shared,
      )

  check_hosts-domain :
      check_hosts path_key mine m (
          if str_eq mine.domain ""
          then []
          else record { field = domain_field; host = mine.domain } ∷ [])
        ≡ none
      → Avoids (filled mine.domain) (texts m.whole)
        × Avoids (parts_of path_key mine.path (filled mine.domain)) (texts m.parts)
  unfolding check_hosts check_field
  check_hosts-domain h = elim (Bool-cases (str_eq mine.domain "")) [
    | inl empty ↦ simp empty (Avoids-nil (texts m.whole), Avoids-nil (texts m.parts))
    | inr named ↦
        let n : NamedHost = record { field = domain_field; host = mine.domain } in
        let now : check_hosts path_key mine m (n ∷ []) ≡ none = simp named at h in
        let (first, rest) = or_conflict-none (check_host path_key mine m n) none now in
        let (whole, field) = check_host-none n first in
        simp named (
          Avoids-one mine.domain (texts m.whole) whole,
          Avoids-one (part path_key mine.domain mine.path) (texts m.parts) (
              conflict_at-none (part path_key mine.domain mine.path) mine.domain mine.path
                (at_path mine.path domain_field) m.parts field),
        )
  ]

  pub check_hosts-IsPassed :
      check_hosts path_key mine m (all_named mine) ≡ none → IsPassed path_key mine m
  unfolding all_named
  check_hosts-IsPassed h =
      let front : List NamedHost =
        if str_eq mine.domain ""
        then []
        else record { field = domain_field; host = mine.domain } ∷ [] in
      let (rest, redirects) =
        check_hosts-append (front ++ numbered alias_field 0 mine.aliases)
          (numbered redirect_field 0 mine.redirects) h in
      let (domain, aliases) = check_hosts-append front (numbered alias_field 0 mine.aliases) rest in
      let d = check_hosts-domain domain in
      let a = check_hosts-aliases 0 mine.aliases aliases in
      let r = check_hosts-redirects 0 mine.redirects redirects in
      record {
        whole_free = Avoids-append (filled mine.domain) mine.aliases (texts m.whole) d.0 a.0;
        parts_free =
            subst (λ l. Avoids l (texts m.parts))
              (sym (parts_of-append path_key mine.path (filled mine.domain) mine.aliases))
              (Avoids-append (parts_of path_key mine.path (filled mine.domain))
                (parts_of path_key mine.path mine.aliases) (texts m.parts) d.1 a.1);
        redirects_free = r.0;
        redirects_unshared = r.1;
      }
