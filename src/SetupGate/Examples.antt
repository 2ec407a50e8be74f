-- ===== src/SetupGate/Examples.antt =====
-- Tests and an instance for the setup page's guards, with a parser of two URLs.
use privacy_lodge.Prelude.{◌≡◌, ◌↔◌, refl, true, Option, none, some, [], if◌then◌else◌}
use privacy_lodge.Text.{Str, codes, str_eq}
use privacy_lodge.SetupGate.{
  Url, post, SetupRequest, respond, provision, restore, handle, route, is_foreign,
  trusted_authority, too_long, before_query,
}
use privacy_lodge.SetupGate.Requests.{IsAdmitted}
use privacy_lodge.SetupGate.Writes.{handle-IsAdmitted}

abbrev url_of : Str → Url
url_of h = record {
  host_str = some h;
  username = [];
  password = none;
  path = codes "/";
  query = none;
  fragment = none;
}

abbrev parse : Str → Option Url
parse s =
    if str_eq s (codes "http://localhost:8080")
    then some (url_of (codes "localhost"))
    else if str_eq s (codes "http://localhost.evil.org")
    then some (url_of (codes "localhost.evil.org"))
    else none

abbrev request_for : Str → SetupRequest
request_for host = record {
  method = post;
  path = codes "/provision?x";
  host = host;
  origin = [];
  fetch_site = codes "same-origin";
  setup_token = codes "t";
  body_length = some 20;
}

provisions : handle parse (codes "t") true (request_for (codes "localhost:8080")) ≡ provision
unfolding handle is_foreign trusted_authority too_long before_query route
provisions = refl

-- A name that begins like a loopback name is turned away.
rebound : handle parse (codes "t") true (request_for (codes "localhost.evil.org")) ≡ respond 403
unfolding handle is_foreign trusted_authority
rebound = refl

handle-IsAdmitted_example :
    ((handle parse (codes "t") true (request_for (codes "localhost:8080")) ≡ provision)
      ↔ IsAdmitted parse
          (codes "t")
          true
          (codes "/provision")
          (request_for (codes "localhost:8080")))
    × ((handle parse (codes "t") true (request_for (codes "localhost:8080")) ≡ restore)
        ↔ IsAdmitted parse
            (codes "t")
            true
            (codes "/restore")
            (request_for (codes "localhost:8080")))
handle-IsAdmitted_example =
    handle-IsAdmitted parse (codes "t") true (request_for (codes "localhost:8080"))
