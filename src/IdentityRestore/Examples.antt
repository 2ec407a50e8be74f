-- ===== src/IdentityRestore/Examples.antt =====
-- Tests and instances for restoring: the identity of a small box, and the seeding of its pairings.
use privacy_lodge.Prelude.{◌≡◌, none, [], is_ok, ◌&&◌, ◌||◌}
use privacy_lodge.Http.{answered}
use privacy_lodge.Json.{Json}
use privacy_lodge.Json.Sample.{tree_json}
use privacy_lodge.IdentityRestore.Seed.{
  initialize_pairings, initialize_pairings_lem, is_absent, has_record, accepts,
}

abbrev json : Json
json = tree_json (λ t. []) (λ s. none)

-- Both records are absent, and the homeserver takes the pairings.
initialize_pairings_lem_example :
    ((initialize_pairings json (answered 404 none) (answered 404 none) (answered 200 none)).sent
      ≡ (is_absent json (answered 404 none) && is_absent json (answered 404 none)))
    × (is_ok
          (initialize_pairings json
            (answered 404 none)
            (answered 404 none)
            (answered 200 none)).outcome
        ≡ (has_record json (answered 404 none)
            || (is_absent json (answered 404 none)
                && (has_record json (answered 404 none)
                    || (is_absent json (answered 404 none) && accepts json (answered 200 none))))))
initialize_pairings_lem_example =
    initialize_pairings_lem json (answered 404 none) (answered 404 none) (answered 200 none)
