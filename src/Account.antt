-- ===== src/Account.antt =====
-- src-tauri/src/account.rs: the administrator's account is registered with the homeserver, in two
-- steps. What the two requests are answered is an argument; the bodies that are sent are a result.
mod Examples
use privacy_lodge.Prelude.{
  ◌≡◌, refl, Bool, true, false, not, ◌&&◌, ◌||◌, Option, none, some, List, [], ◌∷◌, Option-cases,
  inl, inr, if◌then◌else◌, Result, ok, err, is_ok, arith, Bool-cases,
}
use privacy_lodge.Text.{Str, codes, str_eq}
use privacy_lodge.Http.{Answer, silent, answered, is_success}
use privacy_lodge.Json.{Json, str_at}

pub data Error : Type 0 where
  unreachable step_1 no_session step_2 refused : Error

module _ (J : Json) where
  open J use {Value, string, boolean, object}

  -- What came of it, and the bodies of the requests.
  pub record Registered : Type 0 where
    pub outcome : Result Error (Unit {0})
    pub sent : List Value

  module _ (username password token : Str) where
    unfoldable pub first_body : Value
    first_body = object (
        (codes "username", string username)
        ∷ (codes "password", string password)
        ∷ (codes "inhibit_login", boolean true)
        ∷ [])

    unfoldable pub second_body : Str → Value
    second_body session = object (
        (codes "username", string username)
        ∷ (codes "password", string password)
        ∷ (codes "inhibit_login", boolean true)
        ∷ (
          codes "auth",
          object (
              (codes "type", string (codes "m.login.registration_token"))
              ∷ (codes "token", string token)
              ∷ (codes "session", string session)
              ∷ []),
        )
        ∷ [])

    abbrev is_text : Str → Option Str → Bool
    is_text s none = false
    is_text s (some t) = str_eq t s

    -- `errcode(&v) == Some("M_USER_IN_USE")`
    abbrev pub is_in_use : Value → Bool
    is_in_use v = is_text (codes "M_USER_IN_USE") (str_at J (codes "errcode") v)

    abbrev second_read : Option Value → Result Error (Unit {0})
    second_read none = err step_2
    second_read (some v) = if is_in_use v then ok tt else err refused

    unfoldable pub second_step : Answer Value → Result Error (Unit {0})
    second_step silent = err step_2
    second_step (answered status body) = if is_success status then ok tt else second_read body

    abbrev with_session : Answer Value → Option Str → Registered
    with_session second none = record { outcome = err no_session; sent = first_body ∷ [] }
    with_session second (some session) = record {
      outcome = second_step second;
      sent = first_body ∷ second_body session ∷ [];
    }

    abbrev first_read : Answer Value → Option Value → Registered
    first_read second none = record { outcome = err step_1; sent = first_body ∷ [] }
    first_read second (some v) =
        let rest = with_session second (str_at J (codes "session") v) in
        if is_in_use v then record { outcome = ok tt; sent = first_body ∷ [] } else rest

    unfoldable pub create_admin : Answer Value → Answer Value → Registered
    unfolding first_body second_body second_step
    create_admin silent second = record { outcome = err unreachable; sent = first_body ∷ [] }
    create_admin (answered status body) second =
        let rest = first_read second body in
        if is_success status then record { outcome = ok tt; sent = first_body ∷ [] } else rest

    abbrev tells_in_use : Option Value → Bool
    tells_in_use none = false
    tells_in_use (some v) = is_in_use v

    -- The account is there: it was made now, or before.
    abbrev pub is_registered : Answer Value → Bool
    is_registered silent = false
    is_registered (answered status body) = is_success status || tells_in_use body

    abbrev session_in : Option Value → Option Str
    session_in none = none
    session_in (some v) = str_at J (codes "session") v

    abbrev pub session_of : Answer Value → Option Str
    session_of silent = none
    session_of (answered status body) = session_in body

    abbrev pub is_some : Option Str → Bool
    is_some none = false
    is_some (some s) = true

    -- The body of the first request: it does not hold the token.
    abbrev pub without_token : Value
    without_token = object (
        (codes "username", string username)
        ∷ (codes "password", string password)
        ∷ (codes "inhibit_login", boolean true)
        ∷ [])

    -- The body that completes a session with the token.
    abbrev pub with_token : Str → Value
    with_token session =
        let auth = object (
          (codes "type", string (codes "m.login.registration_token"))
          ∷ (codes "token", string token)
          ∷ (codes "session", string session)
          ∷ []) in
        object (
          (codes "username", string username)
          ∷ (codes "password", string password)
          ∷ (codes "inhibit_login", boolean true)
          ∷ (codes "auth", auth)
          ∷ [])

    -- What is sent after a first answer: the token only where the account is not there and a
    -- session is offered.
    abbrev pub requests : Bool → Option Str → List Value
    requests registered none = without_token ∷ []
    requests true (some session) = without_token ∷ []
    requests false (some session) = without_token ∷ with_token session ∷ []

    second_step_lem : (second : Answer Value) → is_ok (second_step second) ≡ is_registered second
    unfolding second_step
    second_step_lem silent = refl
    second_step_lem (answered status none) = ground arith
    second_step_lem (answered status (some v)) = ground arith

    abbrev Behaves : Bool → Option Str → Answer Value → Registered → Type 0
    Behaves registered session second r =
        (is_ok r.outcome ≡ (registered || (is_some session && is_registered second)))
        × (r.sent ≡ requests registered session)

    with_session_lem :
        (second : Answer Value) (o : Option Str) → Behaves false o second (with_session second o)
    unfolding first_body second_body
    with_session_lem second none = (refl, refl)
    with_session_lem second (some session) = (second_step_lem second, refl)

    registered_lem :
        (o : Option Str) (second : Answer Value)
        → Behaves true o second (record { outcome = ok tt; sent = without_token ∷ [] })
    registered_lem none second = (refl, refl)
    registered_lem (some s) second = (refl, refl)

    by_success :
        (b c : Bool) (o : Option Str) (second : Answer Value) (r : Registered)
        → Behaves c o second r
        → Behaves
            (b || c)
            o
            second
            (if b then record { outcome = ok tt; sent = without_token ∷ [] } else r)
    by_success true c o second r h = registered_lem o second
    by_success false c o second r h = h

    by_use :
        (b : Bool) (o : Option Str) (second : Answer Value)
        → Behaves b o second (
            if b
            then record { outcome = ok tt; sent = without_token ∷ [] }
            else with_session second o)
    unfolding first_body second_body
    by_use true o second = registered_lem o second
    by_use false o second = with_session_lem second o

    -- The registration succeeds exactly if the first answer says that the account is there, or one
    -- with a session came and the second says so. The first request carries the name, the password
    -- and `inhibit_login`, without the token; a second follows only where the first answer does not
    -- say that the account is there and offers a session, and adds the token and that session.
    pub create_admin_lem :
        (first second : Answer Value)
        → (is_ok (create_admin first second).outcome
            ≡ (is_registered first || (is_some (session_of first) && is_registered second)))
          × ((create_admin first second).sent ≡ requests (is_registered first) (session_of first))
    unfolding create_admin first_body second_body
    create_admin_lem silent second = (refl, refl)
    create_admin_lem (answered status none) second =
        by_success (is_success status) false none second
          (record { outcome = err step_1; sent = without_token ∷ [] }) (refl, refl)
    create_admin_lem (answered status (some v)) second =
        by_success (is_success status) (is_in_use v) (str_at J (codes "session") v) second _
          (by_use (is_in_use v) (str_at J (codes "session") v) second)
