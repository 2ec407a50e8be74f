-- ===== src/Lib.antt =====
-- Privacy Lodge, the box: a verification library for its Rust code under src-tauri/src.
--
-- The box supervises a Matrix homeserver and its helpers, reachable over Tor only. Other boxes
-- talk to it through a gate that admits paired peers; the owner's phone sends it commands.
--   Text           Rust's str (characters, with lengths and slices in bytes), white space,
--                  splitting, lossy UTF-8 decoding
--   Io             fallible operations on a disk and crashes: each operation meets one fault of a
--                  schedule, and a schedule that has run out lets everything work
--   Pairing        src-tauri/src/pairing.rs: is_valid_onion; Code has mint_code and parse_code,
--                  Store has load, load_strict, save, add, remove and onions
--   FedAuth        src-tauri/src/fedauth.rs: read_request and claimed_origin are decide,
--                  extract_origin with split_params and unquote, handle_conn
--   PrivateFile    write_private of src-tauri/src/state.rs
--   CommandJournal src-tauri/src/command_journal.rs: claim, handled, finish, pending, published
--   Updater        src-tauri/src/updater.rs: Version has is_newer, Hex the hex codecs, Fetch has
--                  fetch_bounded and read_bounded, Verify has verify_signature,
--                  verify_pq_signature, verify_manifest_hybrid and check, Build and Install have
--                  install_native up to the disk and on it
--   LifecycleTasks src-tauri/src/lifecycle.rs: cancel, register, the drop of a lease, drain
--   SetupForm      parse_form, urldecode and hex_val of src-tauri/src/setup_server.rs
--   SetupGate      handle and trusted_authority of src-tauri/src/setup_server.rs: who may write
--   EnvCompat      src-tauri/src/envcompat.rs: var and warn_once
--   CommandGate    validate_command of src-tauri/src/supervisor.rs
--   OnionAddress   onion of src-tauri/src/identity_restore.rs
--   Crypto         src-tauri/src/crypto.rs: where the keys of secrets are kept, encrypt, decrypt
--   State          src-tauri/src/state.rs: the state of the box; Secrets has load_secrets and
--                  documents, Persist has persist, Startup load_persisted and reset_to_fresh
--   IdentityRestore the rest of src-tauri/src/identity_restore.rs: validate, and in Seed
--                  initialize_pairings
--   Backup         src-tauri/src/backup.rs: create and open; Restore has restore
--   IdentityTransaction src-tauri/src/identity_transaction.rs: Commit has prepare, install_one,
--                  save_journal and commit, Recover has recover
--   Account        src-tauri/src/account.rs: create_admin
--   Json, Http     the values of serde_json, as a record of operations and laws; what a
--                  request is answered
-- The gate asks the allowlist that Pairing.Store keeps; the journal writes by PrivateFile, and
-- claims the commands that CommandGate lets pass. The state's secrets are sealed by Crypto, a
-- backup is the state under a passphrase, and its payload is what IdentityRestore validates; restoring
-- it goes through IdentityTransaction.
--
-- The operations of the disk, the clock, sockets, signatures, SHA-256, base64, serde_json and
-- random bytes are arguments. Laws of a library are fields of the record that stands for it, each
-- with a concrete value in the modules called Sample and Examples. Error messages are
-- constructors. Loops recur on the data that they read, but for the one that gives out the letters
-- of an onion address: it runs as often as there are bits, which is shown to be enough. Locks are
-- taken for granted: calls follow one another. That a completed operation survives a crash (fsync),
-- file modes other than the execute bit of an update, and the windows, processes and HTTP calls
-- around these parts are not modelled.
pub mod Prelude
pub mod Text
pub mod Io
pub mod Pairing
pub mod FedAuth
pub mod PrivateFile
pub mod CommandJournal
pub mod Updater
pub mod LifecycleTasks
pub mod SetupForm
pub mod SetupGate
pub mod EnvCompat
pub mod Crypto
pub mod State
pub mod CommandGate
pub mod OnionAddress
pub mod Json
pub mod IdentityRestore
pub mod Backup
pub mod IdentityTransaction
pub mod Http
pub mod Account
