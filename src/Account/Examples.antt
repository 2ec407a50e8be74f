-- ===== src/Account/Examples.antt =====
-- Tests and instances for the registration.
use privacy_lodge.Prelude.{◌≡◌, refl, none, some, [], ok, is_ok, ◌&&◌, ◌||◌}
use privacy_lodge.Text.{codes}
use privacy_lodge.Http.{answered}
use privacy_lodge.Json.{Json}
use privacy_lodge.Json.Sample.{Tree, tree_json, obj, member, no_members, str}
use privacy_lodge.Account.{
  create_admin, create_admin_lem, second_step, is_registered, is_some, session_of, requests,
}

abbrev json : Json
json = tree_json (λ t. []) (λ s. none)

abbrev asks : Tree
asks = obj (member (codes "session") (str (codes "x")) no_members)

creates :
    (create_admin json
      (codes "ada")
      (codes "pw")
      (codes "t")
      (answered 401 (some asks))
      (answered 200 none)).outcome
    ≡ ok tt
unfolding create_admin second_step
creates = refl

create_admin_lem_example :
    (is_ok
        (create_admin json
          (codes "ada")
          (codes "pw")
          (codes "t")
          (answered 401 (some asks))
          (answered 200 none)).outcome
      ≡ (is_registered json (codes "ada") (codes "pw") (codes "t") (answered 401 (some asks))
          || (is_some json
                (codes "ada")
                (codes "pw")
                (codes "t")
                (session_of json (codes "ada") (codes "pw") (codes "t") (answered 401 (some asks)))
              && is_registered json (codes "ada") (codes "pw") (codes "t") (answered 200 none))))
    × ((create_admin json
          (codes "ada")
          (codes "pw")
          (codes "t")
          (answered 401 (some asks))
          (answered 200 none)).sent
        ≡ requests json
            (codes "ada")
            (codes "pw")
            (codes "t")
            (is_registered json (codes "ada") (codes "pw") (codes "t") (answered 401 (some asks)))
            (session_of json (codes "ada") (codes "pw") (codes "t") (answered 401 (some asks))))
create_admin_lem_example =
    create_admin_lem json (codes "ada") (codes "pw") (codes "t") (answered 401 (some asks))
      (answered 200 none)
