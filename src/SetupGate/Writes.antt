-- ===== src/SetupGate/Writes.antt =====
-- The requests that reach the two handlers that change the box.
use privacy_lodge.Prelude.{ℕ, ◌≡◌, ◌≢◌, ◌↔◌, refl, Bool, false, Option, arith, ◌==◌, any}
use privacy_lodge.Text.{Str, codes, str_eq}
use privacy_lodge.Text.Laws.{str_eq_iff}
use privacy_lodge.SetupGate.{
  Url, post, SetupRequest, Action, respond, provision, restore, is_post, too_long, before_query,
  route, is_foreign, handle,
}
use privacy_lodge.SetupGate.Requests.{
  is_foreign_iff, IsAdmitted, too_long_iff, IsAt-iff, route_iff, is_post_iff, guards,
}

reached :
    (parse_url : Str → Option Url) (csrf : Str) (is_free : Bool) (r : SetupRequest)
    → (x : Action) (p : Str) → ((n : ℕ) → respond n ≢ x)
    → any (λ c. c == b'?') p ≡ false
    → (route r.method (before_query r.path) ≡ x) ↔ ((r.method ≡ post) × (before_query r.path ≡ p))
    → (handle parse_url csrf is_free r ≡ x) ↔ IsAdmitted parse_url csrf is_free p r
unfolding handle
reached parse_url csrf is_free r x p h no_mark routed =
    let guarded =
      guards (is_foreign parse_url r) (is_post r.method) (str_eq r.setup_token csrf)
        (too_long r.body_length) is_free (route r.method (before_query r.path)) x h
        (λ e. (is_post_iff r.method).1 (routed.0 e).0) in
    let own = is_foreign_iff parse_url r in
    let token = str_eq_iff r.setup_token csrf in
    let short = too_long_iff r.body_length in
    let at = IsAt-iff p r.path no_mark in
    (
      (λ e.
          let passed = guarded.0 e in
          let source = own.0 passed.0 in
          let to = routed.0 passed.4 in
          (
            source.0,
            source.1,
            source.2,
            to.0,
            token.0 passed.1,
            short.0 passed.2,
            passed.3,
            at.1 to.1,
          )),
      (λ (u, o, s, m, t, n, i, a).
          guarded.1 (own.1 (u, o, s), token.1 t, short.1 n, i, routed.1 (m, at.0 a))),
    )

-- Provisioning and restoring are reached by the requests that are admitted to their paths, and by
-- no others: a POST to the path, for a loopback host, without a foreign `Origin` (it may be missing)
-- and not marked `cross-site`, with the token of the page and a length within the limit, while no
-- other write is going on.
pub handle-IsAdmitted :
    (parse_url : Str → Option Url) (csrf : Str) (is_free : Bool) (r : SetupRequest)
    → ((handle parse_url csrf is_free r ≡ provision)
        ↔ IsAdmitted parse_url csrf is_free (codes "/provision") r)
      × ((handle parse_url csrf is_free r ≡ restore)
          ↔ IsAdmitted parse_url csrf is_free (codes "/restore") r)
handle-IsAdmitted parse_url csrf is_free r = (
  reached parse_url csrf is_free r provision (codes "/provision") (λ n. ground arith) refl
      (route_iff r.method (before_query r.path)).0,
  reached parse_url csrf is_free r restore (codes "/restore") (λ n. ground arith) refl
      (route_iff r.method (before_query r.path)).1,
)
