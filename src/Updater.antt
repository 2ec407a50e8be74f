-- ===== src/Updater.antt =====
-- src-tauri/src/updater.rs: signed update manifests, fetched over Tor, and the binary that one
-- names. Here: the manifest's data and errors. `Version` compares versions, `Verify` checks the
-- signatures, `Fetch` reads bounded responses and decides, `Install` replaces the binary.
pub mod Version
pub mod Hex
pub mod Verify
pub mod Fetch
pub mod Build
pub mod Install
mod Examples
use privacy_lodge.Prelude.{ℕ, Option, List, ◌*◌}
use privacy_lodge.Text.{Str}

pub record DockerRelease : Type 0 where
  pub image : Str
  pub agent_image : Option Str

pub record NativeRelease : Type 0 where
  pub url : Str
  pub sha256 : Str
  pub size : ℕ

-- `native` is a map from build targets.
pub record Manifest : Type 0 where
  pub version : Str
  pub released : Str
  pub notes : List Str
  pub docker : Option DockerRelease
  pub native : List (Str × NativeRelease)

pub data Error : Type 0 where
  no_pq_key bad_key bad_pq_key pq_not_base64 pq_wrong_length pq_mismatch : Error
  not_base64 not_64_bytes mismatch : Error
  no_pq_signature bad_json no_version : Error
  unreachable bad_status too_large download_failed sig_not_text : Error
  no_build implausible wrong_size bad_checksum : Error
  not_located not_written not_executable not_replaced : Error

abbrev pub max_manifest_bytes : ℕ
max_manifest_bytes = 64 * 1024

abbrev pub max_binary_bytes : ℕ
max_binary_bytes = 512 * 1024 * 1024
