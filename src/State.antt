-- ===== src/State.antt =====
-- src-tauri/src/state.rs: what the box knows about itself, what of it is kept in box.json and
-- secrets.json, and what the interface is told. `Secrets` seals and reads secrets.json, `Persist`
-- writes both files, `Startup` reads them at launch.
pub mod Secrets
pub mod RoundTrip
pub mod Persist
pub mod Startup
pub mod Sample
mod Examples
use privacy_lodge.Prelude.{ℕ, Bool, false, Option, none, some, List, [], ◌∷◌}
use privacy_lodge.Text.{Str, codes}

-- `broken` is `Error`.
pub data Phase : Type 0 where
  fresh setting_up running stopped broken : Phase

pub data SetupStage : Type 0 where
  starting_services minting_address ready : SetupStage

pub data ServiceState : Type 0 where
  starting healthy down failing : ServiceState

pub record Service : Type 0 where
  pub name : Str
  pub state : ServiceState

-- What the interface polls.
pub record Status : Type 0 where
  pub phase : Phase
  pub error : Option Str
  pub onion : Option Str
  pub demo_mode : Bool
  pub setup_stage : Option SetupStage
  pub services : List Service
  pub people_count : ℕ
  pub paired_count : ℕ
  pub box_name : Str

pub record PersistedBox : Type 0 where
  pub box_name : Str
  pub username : Str
  pub created : Str
  pub onion : Option Str
  pub admin_created : Bool
  pub restore_pairings_pending : Bool

pub record PersistedSecrets : Type 0 where
  pub phrase : List Str
  pub token : Str
  pub turn_secret : Str
  pub join_token : Str
  pub livekit_api_key : Str
  pub livekit_api_secret : Str
  pub admin_password : Str

abbrev pub no_secrets : PersistedSecrets
no_secrets = record {
  phrase = [];
  token = [];
  turn_secret = [];
  join_token = [];
  livekit_api_key = [];
  livekit_api_secret = [];
  admin_password = [];
}

-- `Inner`, its fields grouped: those of box.json, those of secrets.json, and the rest.
pub record Inner : Type 0 where
  pub phase : Phase
  pub error : Option Str
  pub demo_mode : Bool
  pub setup_stage : Option SetupStage
  pub homeserver : ServiceState
  pub tor : ServiceState
  pub voice : ServiceState
  pub people_count : ℕ
  pub paired_count : ℕ
  pub boxed : PersistedBox
  pub secrets : PersistedSecrets

abbrev pub no_box : PersistedBox
no_box = record {
  box_name = [];
  username = [];
  created = [];
  onion = none;
  admin_created = false;
  restore_pairings_pending = false;
}

-- `Inner::default`
abbrev pub default : Inner
default = record {
  phase = fresh;
  error = none;
  demo_mode = false;
  setup_stage = none;
  homeserver = down;
  tor = down;
  voice = down;
  people_count = 0;
  paired_count = 0;
  boxed = no_box;
  secrets = no_secrets;
}

abbrev pub services_of : Inner → List Service
services_of i =
    record { name = codes "homeserver"; state = i.homeserver }
    ∷ record { name = codes "tor"; state = i.tor }
    ∷ record { name = codes "voice"; state = i.voice }
    ∷ []

unfoldable pub status : Inner → Status
status i = record {
  phase = i.phase;
  error = i.error;
  onion = i.boxed.onion;
  demo_mode = i.demo_mode;
  setup_stage = i.setup_stage;
  services = services_of i;
  people_count = i.people_count;
  paired_count = i.paired_count;
  box_name = i.boxed.box_name;
}

-- Both parts that are kept.
pub record IdentitySnapshot : Type 0 where
  pub boxed : PersistedBox
  pub secrets : PersistedSecrets

unfoldable pub identity_snapshot : Inner → IdentitySnapshot
identity_snapshot i = record { boxed = i.boxed; secrets = i.secrets }
