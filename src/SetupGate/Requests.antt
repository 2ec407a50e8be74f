-- ===== src/SetupGate/Requests.antt =====
-- What the tests of `handle` say of a request.
use mathlib.Core.Option.{some-injective}
use privacy_lodge.Prelude.{
  ℕ, ◌+◌, ◌*◌, ◌≤◌, ◌≡◌, ◌≢◌, ◌↔◌, ◌⊎◌, inl, inr, refl, ap, Bool, true, false, not, ◌&&◌, Option,
  none, some, [], ◌∷◌, ◌++◌, arith, ◌==◌, any, if◌then◌else◌, Bool-cases, subst,
}
use privacy_lodge.Text.{Str, codes, is_empty}
use privacy_lodge.Text.Laws.{str_eq_iff}
use privacy_lodge.SetupGate.{
  Url, Method, get, post, other, SetupRequest, Action, respond, provision, restore, is_post,
  is_bare, is_bare_url, is_none, is_loopback, too_long, before_query, route, trusted_authority,
  is_foreign,
}

-- A URL of this machine, with nothing but a host and a port.
abbrev pub IsBare : Url → Type 0
IsBare u =
    ((u.host_str ≡ some (codes "127.0.0.1"))
      ⊎ ((u.host_str ≡ some (codes "localhost")) ⊎ (u.host_str ≡ some (codes "[::1]"))))
    × (u.username ≡ [])
    × (u.password ≡ none)
    × (u.path ≡ codes "/")
    × (u.query ≡ none)
    × (u.fragment ≡ none)

-- The path of the request is p, before a query if there is one.
abbrev pub IsAt : Str → Str → Type 0
IsAt p path = (path ≡ p) ⊎ ((query : Str) × (path ≡ p ++ b'?' ∷ query))

abbrev pub HasLength : ℕ → Option ℕ → Type 0
HasLength most length = (n : ℕ) × (length ≡ some n) × (n ≤ most)

-- What a request to the path p must be to reach its handler.
abbrev pub IsAdmitted : (Str → Option Url) → Str → Bool → Str → SetupRequest → Type 0
IsAdmitted parse_url csrf is_free p r =
    ((u : Url) × (parse_url (codes "http://" ++ r.host) ≡ some u) × IsBare u)
    × ((r.origin ≡ []) ⊎ (r.origin ≡ codes "http://" ++ r.host))
    × (r.fetch_site ≢ codes "cross-site")
    × (r.method ≡ post)
    × (r.setup_token ≡ csrf)
    × HasLength (3 * (1024 * 1024) + 4096) r.body_length
    × (is_free ≡ true)
    × IsAt p r.path

is_empty_iff : (s : Str) → (is_empty s ≡ true) ↔ (s ≡ [])
is_empty_iff [] = ground arith
is_empty_iff (c ∷ s) = ground arith

is_none_iff : (o : Option Str) → (is_none o ≡ true) ↔ (o ≡ none)
is_none_iff none = ground arith
is_none_iff (some s) = ground arith

is_loopback_iff :
    (o : Option Str)
    → (is_loopback o ≡ true) ↔ (
        (o ≡ some (codes "127.0.0.1"))
        ⊎ ((o ≡ some (codes "localhost")) ⊎ (o ≡ some (codes "[::1]"))))
is_loopback_iff none = ground arith
is_loopback_iff (some h) = ground (
  arith,
  str_eq_iff h (codes "127.0.0.1"),
  str_eq_iff h (codes "localhost"),
  str_eq_iff h (codes "[::1]"),
)

is_bare_iff : (u : Url) → (is_bare u ≡ true) ↔ IsBare u
is_bare_iff u = ground (
  arith,
  is_loopback_iff u.host_str,
  is_empty_iff u.username,
  is_none_iff u.password,
  str_eq_iff u.path (codes "/"),
  is_none_iff u.query,
  is_none_iff u.fragment,
)

is_bare_url_iff : (o : Option Url) → (is_bare_url o ≡ true) ↔ ((u : Url) × (o ≡ some u) × IsBare u)
is_bare_url_iff none = ((λ h. cc), (λ (u, e, b). cc))
is_bare_url_iff (some u) = (
  (λ h. (u, refl, (is_bare_iff u).0 h)),
  (λ (v, e, b). rw (some-injective _ _ e) ((is_bare_iff v).1 b)),
)

pub too_long_iff : (o : Option ℕ) → (too_long o ≡ false) ↔ HasLength (3 * (1024 * 1024) + 4096) o
unfolding too_long
too_long_iff none = ((λ h. cc), (λ (n, e, le). cc))
too_long_iff (some n) = (
  (λ h. (n, refl, ground arith)),
  (λ (m, e, le). let eq_m = some-injective _ _ e in ground arith),
)

before_query-IsAt : (s : Str) → IsAt (before_query s) s
unfolding before_query
before_query-IsAt [] = inl refl
before_query-IsAt (c ∷ s) = elim (Bool-cases (c == b'?')) [
  | inl mark ↦ rw mark (inr (s, ap (λ d. d ∷ s) (ground arith)))
  | inr no_mark ↦ rw no_mark (elim (before_query-IsAt s) [
    | inl e ↦ inl (ap (◌∷◌ c) e)
    | inr (q, e) ↦ inr (q, ap (◌∷◌ c) e)
  ])
]

before_query-whole : (p : Str) → any (λ c. c == b'?') p ≡ false → before_query p ≡ p
unfolding before_query
before_query-whole [] h = refl
before_query-whole (c ∷ p) h = ground (arith, before_query-whole p)

before_query-append :
    (p q : Str) → any (λ c. c == b'?') p ≡ false → before_query (p ++ b'?' ∷ q) ≡ p
unfolding before_query
before_query-append [] q h = refl
before_query-append (c ∷ p) q h = ground (arith, before_query-append p q)

IsAt-before_query : (p s : Str) → any (λ c. c == b'?') p ≡ false → IsAt p s → before_query s ≡ p
IsAt-before_query p s h (inl e) = rw e (before_query-whole p h)
IsAt-before_query p s h (inr (q, e)) = rw e (before_query-append p q h)

pub IsAt-iff : (p s : Str) → any (λ c. c == b'?') p ≡ false → IsAt p s ↔ (before_query s ≡ p)
IsAt-iff p s h = (IsAt-before_query p s h, (λ e. subst (λ b. IsAt b s) e (before_query-IsAt s)))

pub route_iff :
    (m : Method) (p : Str)
    → ((route m p ≡ provision) ↔ ((m ≡ post) × (p ≡ codes "/provision")))
      × ((route m p ≡ restore) ↔ ((m ≡ post) × (p ≡ codes "/restore")))
unfolding route
route_iff get p = ground arith
route_iff post p =
    ground (arith, str_eq_iff p (codes "/provision"), str_eq_iff p (codes "/restore"))
route_iff other p = ground arith

pub is_post_iff : (m : Method) → (is_post m ≡ true) ↔ (m ≡ post)
is_post_iff get = ground arith
is_post_iff post = ground arith
is_post_iff other = ground arith

module _ (parse_url : Str → Option Url) where
  trusted_authority_iff :
      (host : Str)
      → (trusted_authority parse_url host ≡ true)
        ↔ ((u : Url) × (parse_url (codes "http://" ++ host) ≡ some u) × IsBare u)
  unfolding trusted_authority
  trusted_authority_iff host = is_bare_url_iff (parse_url (codes "http://" ++ host))

  abbrev IsOwn : SetupRequest → Type 0
  IsOwn r =
      ((u : Url) × (parse_url (codes "http://" ++ r.host) ≡ some u) × IsBare u)
      × ((r.origin ≡ []) ⊎ (r.origin ≡ codes "http://" ++ r.host))
      × (r.fetch_site ≢ codes "cross-site")

  pub is_foreign_iff : (r : SetupRequest) → (is_foreign parse_url r ≡ false) ↔ IsOwn r
  unfolding is_foreign
  is_foreign_iff r = ground (
    arith,
    trusted_authority_iff r.host,
    is_empty_iff r.origin,
    str_eq_iff r.origin (codes "http://" ++ r.host),
    str_eq_iff r.fetch_site (codes "cross-site"),
  )

-- An action that is no refusal comes out of the guards where they all let a POST pass.
pub guards :
    (f p t l i : Bool) (a x : Action)
    → ((n : ℕ) → respond n ≢ x)
    → (a ≡ x → p ≡ true)
    → ((if f
          then respond 403
          else if p && not t
          then respond 403
          else if p && l
          then respond 413
          else if p && not i
          then respond 409
          else a)
        ≡ x)
      ↔ ((f ≡ false) × (t ≡ true) × (l ≡ false) × (i ≡ true) × (a ≡ x))
guards true p t l i a x h k = ground (arith, h 403)
guards false false t l i a x h k = ground arith
guards false true false l i a x h k = ground (arith, h 403)
guards false true true true i a x h k = ground (arith, h 413)
guards false true true false false a x h k = ground (arith, h 409)
guards false true true false true a x h k = ground arith
