-- ===== src/Http.antt =====
-- What a request to a server is answered.
use privacy_lodge.Prelude.{ℕ, Bool, ◌&&◌, Option, leb, ltb}

-- `Err` of a request is `silent`; a body that is no JSON is `none`.
pub data Answer (V : Type 0) : Type 0 where
  silent : Answer V
  answered : ℕ → Option V → Answer V

abbrev pub is_success : ℕ → Bool
is_success status = leb 200 status && ltb status 300
