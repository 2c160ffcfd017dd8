-- ===== src/Sealing.antt =====
-- What the database seals, and under what: agent/internal/store/crypto.go. Texts are lists of
-- bytes, keys are numbers. AES-GCM and base64 are parameters, a `Cipher`; the nonces that the
-- random source gave are an argument. A spec is the three of its fields that hold secrets, as
-- lists of values with the name that each is bound to.
pub mod Values
pub mod Legacy
use shipwick.Base.{
  ℕ, zero, suc, ◌+◌, Bool, true, false, not, ◌&&◌, Option, none, some, List, [], ◌∷◌, ◌++◌, ltb,
  leb, ◌==◌, if◌then◌else◌, length, take, drop,
}

abbrev pub Text : Type 0
Text = List ℕ

-- What a value is bound to: the label or key of its row, a variable, the position of a password,
-- an option of the logs.
pub data Name : Type 0 where
  row_key variable log_option : Text → Name
  password : ℕ → Name

pub record Cipher : Type 0 where
  pub nonce_size : ℕ
  pub lock : ℕ → Text → Text → Name → Text
  pub unlock : ℕ → Text → Text → Name → Option Text
  pub encode : Text → Text
  pub decode : Text → Option Text

abbrev pub starts_with : Text → Text → Bool
starts_with [] text = true
starts_with (x ∷ xs) [] = false
starts_with (x ∷ xs) (y ∷ ys) = x == y && starts_with xs ys

-- enc1:
abbrev pub enc_prefix : Text
enc_prefix = 101 ∷ 110 ∷ 99 ∷ 49 ∷ 58 ∷ []

abbrev pub is_sealed : Text → Bool
is_sealed value = starts_with enc_prefix value

abbrev pub trim_prefix : Text → Text
trim_prefix text = if starts_with enc_prefix text then drop 5 text else text

unfoldable pub seal : Cipher → ℕ → Text → Name → Text → Text
seal c key nonce name value = enc_prefix ++ c.encode (nonce ++ c.lock key nonce value name)

-- What is behind the base64: the nonce and the ciphertext.
abbrev pub open_raw : Cipher → ℕ → Name → Option Text → Option Text
open_raw c key name none = none
open_raw c key name (some raw) =
    if ltb (length raw) c.nonce_size
    then none
    else c.unlock key (take c.nonce_size raw) (drop c.nonce_size raw) name

unfoldable pub open_value : Cipher → ℕ → Name → Text → Option Text
open_value c key name stored = open_raw c key name (c.decode (trim_prefix stored))

abbrev pub Values : Type 0
Values = List (Name × Text)

abbrev pub Nonces : Type 0
Nonces = Name → Text

abbrev pub cons_opened : Name → Option Text → Option Values → Option Values
cons_opened name none rest = none
cons_opened name (some value) none = none
cons_opened name (some value) (some rest) = some ((name, value) ∷ rest)

unfoldable pub seal_values : Cipher → ℕ → Nonces → Values → Values
seal_values c key drawn [] = []
seal_values c key drawn ((name, value) ∷ values) =
    (name, seal c key (drawn name) name value) ∷ seal_values c key drawn values

-- Only among the options of the logs (`lenient`) may a value stand as it is.
unfoldable pub open_values : Cipher → Bool → ℕ → Values → Option Values
open_values c lenient key [] = some []
open_values c lenient key ((name, value) ∷ values) =
    let rest = open_values c lenient key values in
    if is_sealed value
    then cons_opened name (open_value c key name value) rest
    else if lenient
    then cons_opened name (some value) rest
    else none

pub record Spec : Type 0 where
  pub env : Values
  pub basic_auth : Values
  pub options : Values

unfoldable pub seal_spec : Cipher → ℕ → Nonces → Spec → Spec
seal_spec c key drawn app = record {
  env = seal_values c key drawn app.env;
  basic_auth = seal_values c key drawn app.basic_auth;
  options = seal_values c key drawn app.options;
}

abbrev pub spec_of : Option Values → Option Values → Option Values → Option Spec
spec_of (some options) (some env) (some basic_auth) =
    some (record { env = env; basic_auth = basic_auth; options = options })
spec_of _ _ _ = none

unfoldable pub open_spec : Cipher → ℕ → Spec → Option Spec
open_spec c key app =
    spec_of (open_values c true key app.options) (open_values c false key app.env)
      (open_values c false key app.basic_auth)
