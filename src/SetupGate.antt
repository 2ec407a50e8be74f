-- ===== src/SetupGate.antt =====
-- `handle` and `trusted_authority` of src-tauri/src/setup_server.rs: which requests of the setup page
-- are answered, and how. `reqwest::Url` is a parameter; the handlers themselves stand as actions.
pub mod Requests
pub mod Writes
mod Examples
use privacy_lodge.Prelude.{
  ℕ, ◌+◌, ◌*◌, Bool, true, false, not, ◌&&◌, ◌||◌, Option, none, some, [], ◌∷◌, ◌++◌, ltb, ◌==◌,
  if◌then◌else◌,
}
use privacy_lodge.Text.{Str, codes, str_eq, is_empty}
use privacy_lodge.Backup.{max_envelope_bytes}

-- `MAX_ENVELOPE_BYTES` of backup.rs
abbrev pub max_form_bytes : ℕ
max_form_bytes = 3 * max_envelope_bytes + 4096

pub record Url : Type 0 where
  pub host_str : Option Str
  pub username : Str
  pub password : Option Str
  pub path : Str
  pub query : Option Str
  pub fragment : Option Str

pub data Method : Type 0 where
  get post other : Method

-- The headers that are looked at, each empty if it is missing or no text.
pub record SetupRequest : Type 0 where
  pub method : Method
  pub path : Str
  pub host : Str
  pub origin : Str
  pub fetch_site : Str
  pub setup_token : Str
  pub body_length : Option ℕ

pub data Action : Type 0 where
  respond : ℕ → Action
  page status provision restore : Action

abbrev is_none : Option Str → Bool
is_none none = true
is_none (some s) = false

abbrev is_loopback : Option Str → Bool
is_loopback none = false
is_loopback (some h) =
    str_eq h (codes "127.0.0.1") || (str_eq h (codes "localhost") || str_eq h (codes "[::1]"))

abbrev is_bare : Url → Bool
is_bare u =
    is_loopback u.host_str
    && (is_empty u.username
        && (is_none u.password
            && (str_eq u.path (codes "/") && (is_none u.query && is_none u.fragment))))

abbrev is_bare_url : Option Url → Bool
is_bare_url none = false
is_bare_url (some u) = is_bare u

abbrev pub is_post : Method → Bool
is_post post = true
is_post _ = false

unfoldable pub too_long : Option ℕ → Bool
too_long none = true
too_long (some n) = ltb max_form_bytes n

-- `split('?').next()`
unfoldable pub before_query : Str → Str
before_query [] = []
before_query (c ∷ s) = let rest = before_query s in if c == b'?' then [] else c ∷ rest

unfoldable pub route : Method → Str → Action
route get path =
    if str_eq path (codes "/")
    then page
    else if str_eq path (codes "/status")
    then status
    else respond 404
route post path =
    if str_eq path (codes "/provision")
    then provision
    else if str_eq path (codes "/restore")
    then restore
    else respond 404
route other path = respond 404

module _ (parse_url : Str → Option Url) where
  unfoldable pub trusted_authority : Str → Bool
  trusted_authority host = is_bare_url (parse_url (codes "http://" ++ host))

  unfoldable pub is_foreign : SetupRequest → Bool
  is_foreign r =
      not (trusted_authority r.host)
      || ((not (is_empty r.origin) && not (str_eq r.origin (codes "http://" ++ r.host)))
          || str_eq r.fetch_site (codes "cross-site"))

  -- `csrf` is the token of the page; `is_free`: no other request holds the lock for writing.
  unfoldable pub handle : Str → Bool → SetupRequest → Action
  handle csrf is_free r =
      if is_foreign r
      then respond 403
      else if is_post r.method && not (str_eq r.setup_token csrf)
      then respond 403
      else if is_post r.method && too_long r.body_length
      then respond 413
      else if is_post r.method && not is_free
      then respond 409
      else route r.method (before_query r.path)
