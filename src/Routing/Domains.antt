-- ===== src/Routing/Domains.antt =====
-- Who has a hostname already: `checkDomain` of agent/internal/deploy/routing.go. A map from texts to
-- owners is the list of what was written to it, newest first.
use Prim.Native.String.{String}
use text.Mathlib.Text.{◌==◌ as str_eq}
use shipwick.Base.{ℕ, ◌+◌, Option, none, some, List, [], ◌∷◌, ◌++◌, if◌then◌else◌}
use shipwick.Routing.{Hosts, Route, part, parts_of, served_hosts, hostnames_of_routes}

pub data Owner : Type 0 where
  application : String → Owner
  shipwick_itself : Owner

pub data Field : Type 0 where
  domain_field path_field : Field
  alias_field redirect_field : ℕ → Field

pub record NamedHost : Type 0 where
  pub field : Field
  pub host : String

pub record DomainConflict : Type 0 where
  pub domain : String
  pub path : String
  pub field : Field
  pub owner : Owner

-- An application, with the hostnames of its active deployment if it has one.
pub record Listed : Type 0 where
  pub name : String
  pub active : Option Hosts

pub record OwnerEntry : Type 0 where
  pub text : String
  pub owner : Owner

pub record Owners : Type 0 where
  pub whole : List OwnerEntry
  pub parts : List OwnerEntry
  pub shared : List OwnerEntry

unfoldable pub owner_of : String → List OwnerEntry → Option Owner
owner_of t [] = none
owner_of t (e ∷ es) = if str_eq e.text t then some e.owner else owner_of t es

unfoldable pub mark : Owner → List String → List OwnerEntry → List OwnerEntry
mark o [] es = es
mark o (t ∷ ts) es = mark o ts (record { text = t; owner = o } ∷ es)

unfoldable pub numbered : (ℕ → Field) → ℕ → List String → List NamedHost
numbered field i [] = []
numbered field i (h ∷ hs) = record { field = field i; host = h } ∷ numbered field (i + 1) hs

-- `all`
unfoldable pub all_named : Hosts → List NamedHost
unfolding numbered
all_named h =
    (if str_eq h.domain "" then [] else record { field = domain_field; host = h.domain } ∷ [])
    ++ numbered alias_field 0 h.aliases
    ++ numbered redirect_field 0 h.redirects

abbrev pub at_path : String → Field → Field
at_path path domain_field = if str_eq path "" then domain_field else path_field
at_path path other = other

unfoldable pub conflict_at : String → String → Field → Option Owner → Option DomainConflict
conflict_at host path field none = none
conflict_at host path field (some o) =
    some (record { domain = host; path = path; field = field; owner = o })

-- The first conflict is the answer.
abbrev pub or_conflict : Option DomainConflict → Option DomainConflict → Option DomainConflict
or_conflict (some c) later = some c
or_conflict none later = later

module _ (path_key : String → String) where
  unfoldable pub note_active : String → Option Hosts → Owners → Owners
  unfolding mark
  note_active name none m = m
  note_active name (some h) m = record {
    whole = mark (application name) h.redirects m.whole;
    parts = mark (application name) (parts_of path_key h.path (served_hosts h)) m.parts;
    shared = mark (application name) (served_hosts h) m.shared;
  }

  unfoldable pub note_apps : String → List Listed → Owners → Owners
  unfolding note_active
  note_apps mine [] m = m
  note_apps mine (a ∷ rest) m =
      note_apps mine rest (if str_eq a.name mine then m else note_active a.name a.active m)

  unfoldable pub owners : String → List Listed → List Route → Owners
  unfolding note_apps mark
  owners mine apps extra =
      let m = note_apps mine apps (record { whole = []; parts = []; shared = [] }) in
      record m { whole = mark shipwick_itself (hostnames_of_routes extra) m.whole }

  -- A hostname of `mine` against the owners of parts, or of a shared hostname if it is a redirect.
  unfoldable pub check_field : Hosts → Owners → Field → String → Option DomainConflict
  unfolding owner_of conflict_at
  check_field mine m (redirect_field i) h =
      conflict_at h "" (redirect_field i) (owner_of h m.shared)
  check_field mine m path_field h = none
  check_field mine m domain_field h =
      conflict_at h mine.path (at_path mine.path domain_field)
        (owner_of (part path_key h mine.path) m.parts)
  check_field mine m (alias_field i) h =
      conflict_at h mine.path (alias_field i) (owner_of (part path_key h mine.path) m.parts)

  unfoldable pub check_host : Hosts → Owners → NamedHost → Option DomainConflict
  unfolding check_field owner_of conflict_at
  check_host mine m n =
      or_conflict (conflict_at n.host "" n.field (owner_of n.host m.whole))
        (check_field mine m n.field n.host)

  unfoldable pub check_hosts : Hosts → Owners → List NamedHost → Option DomainConflict
  unfolding check_host
  check_hosts mine m [] = none
  check_hosts mine m (n ∷ ns) = or_conflict (check_host mine m n) (check_hosts mine m ns)

  -- The list of applications and their active deployments could be read.
  unfoldable pub check_domain : String → Hosts → List Listed → List Route → Option DomainConflict
  unfolding check_hosts owners all_named
  check_domain name mine apps extra = check_hosts mine (owners name apps extra) (all_named mine)
