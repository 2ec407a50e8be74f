-- ===== src/FedAuth.antt =====
-- src-tauri/src/fedauth.rs: the gate that Caddy asks about each federation request. It takes the
-- `origin` out of the `X-Matrix` Authorization header and looks it up in the allowlist.
pub mod Params
pub mod Values
pub mod Origin
pub mod Slicing
pub mod Gate
mod Examples
use privacy_lodge.Prelude.{
  ℕ, ◌+◌, ◌*◌, Bool, true, false, not, ◌&&◌, ◌||◌, Option, none, some, List, [], ◌∷◌, ◌++◌, ltb,
  leb, ◌==◌, if◌then◌else◌, Result, ok, err, ◌>>=◌, any, length,
}
use privacy_lodge.Text.{
  Str, codes, len, str_eq, trim, trim_start, is_empty, eq_ignore_ascii_case, split_once, split_at,
  strip_suffix,
}
use privacy_lodge.Text.Utf8.{from_utf8_lossy}
use privacy_lodge.Io.{Fault, Reply, done, failed, crashed}
use privacy_lodge.Pairing.Store.{Codec, Disk, onions}

abbrev pub max_header_bytes : ℕ
max_header_bytes = 16 * 1024

-- What a read of the socket gives: some bytes (none at the end of the stream), or an error.
pub data Recv : Type 0 where
  chunk : List ℕ → Recv
  broken : Recv

-- A slice of a text inside a character stops the task.
pub data Panic : Type 0 where
  not_char_boundary : Panic

pub data Response : Type 0 where
  ok_200 deny_403 aborted : Response

abbrev is_prefix : List ℕ → List ℕ → Bool
is_prefix [] s = true
is_prefix (p ∷ ps) [] = false
is_prefix (p ∷ ps) (c ∷ s) = p == c && is_prefix ps s

unfoldable pub has_subslice : List ℕ → List ℕ → Bool
has_subslice needle [] = is_prefix needle []
has_subslice needle (b ∷ hay) = is_prefix needle (b ∷ hay) || has_subslice needle hay

-- The loop of `decide`: `none` is an error of the socket, passed on by `?`.
pub read_request : List ℕ → List Recv → Option (List ℕ)
read_request buf [] = some buf
read_request buf (broken ∷ rest) = none
read_request buf (chunk [] ∷ rest) = some buf
read_request buf (chunk (b ∷ bs) ∷ rest) =
    let buf' = buf ++ b ∷ bs in
    let more = read_request buf' rest in
    if has_subslice (codes "\r\n\r\n") buf' || ltb max_header_bytes (length buf')
    then some buf'
    else more

abbrev cons_to_head : ℕ → List Str → List Str
cons_to_head c [] = (c ∷ []) ∷ []
cons_to_head c (l ∷ ls) = (c ∷ l) ∷ ls

-- `req.split("\r\n")`
unfoldable pub split_lines : Str → List Str
split_lines [] = [] ∷ []
split_lines (c ∷ []) = (c ∷ []) ∷ []
split_lines (c ∷ d ∷ s) = elim (c == 13 && d == 10) [
  | true ↦ [] ∷ split_lines s
  | false ↦ cons_to_head c (split_lines (d ∷ s))
]

abbrev authorization_value : Option (Str × Str) → Option Str
authorization_value none = none
authorization_value (some (name, value)) =
    if eq_ignore_ascii_case (trim name) (codes "authorization") then some (trim value) else none

abbrev or_else : Option Str → Option Str → Option Str
or_else none o = o
or_else (some v) o = some v

find_in_lines : List Str → Option Str
find_in_lines [] = none
find_in_lines (line ∷ rest) =
    if is_empty line
    then none
    else or_else (authorization_value (split_once b':' line)) (find_in_lines rest)

abbrev tail_lines : List Str → List Str
tail_lines [] = []
tail_lines (l ∷ ls) = ls

pub find_auth_header : Str → Option Str
unfolding find_in_lines split_lines
find_auth_header req = find_in_lines (tail_lines (split_lines req))

-- Whether the text behind the character `c` is quoted.
abbrev pub toggle : ℕ → Bool → Bool
toggle c q = if c == b'"' then not q else q

-- The text so far of the parameter that is being read is `cur`.
split_from : Bool → Str → Str → List Str
split_from in_quotes cur [] = if not (is_empty (trim cur)) then cur ∷ [] else []
split_from in_quotes cur (c ∷ s) =
    let rest = split_from false [] s in
    let on = split_from (toggle c in_quotes) (cur ++ c ∷ []) s in
    if c == b',' && not in_quotes then cur ∷ rest else on

pub split_params : Str → List Str
unfolding split_from
split_params s = split_from false [] s

abbrev inside : Str → Option Str → Str
inside v none = v
inside v (some m) = m

abbrev unquote_trimmed : Str → Str
unquote_trimmed [] = []
unquote_trimmed (c ∷ s) = if c == b'"' then inside (c ∷ s) (strip_suffix (codes "\"") s) else c ∷ s

-- The text between two quotes, if it has them at both ends and is two bytes long at least.
unfoldable pub unquote : Str → Str
unquote v = unquote_trimmed (trim v)

abbrev value_or_none : Str → Option Str
value_or_none v = if is_empty v then none else some v

-- The loop of `extract_origin`: the first parameter called `origin` decides.
first_origin : List Str → Option Str
first_origin [] = none
first_origin (param ∷ rest) = elim (split_once b'=' param) [
  | none ↦ first_origin rest
  | some (key, val) ↦
      (let later = first_origin rest in
        if eq_ignore_ascii_case (trim key) (codes "origin")
        then value_or_none (unquote (trim val))
        else later)
]

abbrev origin_of_split : Option (Str × Str) → Result Panic (Option Str)
origin_of_split none = err not_char_boundary
origin_of_split (some (scheme, params)) =
    if not (eq_ignore_ascii_case scheme (codes "X-Matrix"))
    then ok none
    else ok (first_origin (split_params (trim_start params)))

abbrev origin_of_trimmed : Str → Result Panic (Option Str)
origin_of_trimmed auth = if ltb (len auth) 8 then ok none else origin_of_split (split_at 8 auth)

pub extract_origin : Str → Result Panic (Option Str)
extract_origin auth = origin_of_trimmed (trim auth)

abbrev origin_of_header : Option Str → Result Panic (Option Str)
origin_of_header none = ok none
origin_of_header (some value) = extract_origin value

-- The origin that a request claims; a socket error claims none.
abbrev origin_of_request : Option (List ℕ) → Result Panic (Option Str)
origin_of_request none = ok none
origin_of_request (some buf) = origin_of_header (find_auth_header (from_utf8_lossy buf))

pub claimed_origin : List Recv → Result Panic (Option Str)
claimed_origin recvs = origin_of_request (read_request [] recvs)

abbrev answer : Bool → Response
answer true = ok_200
answer false = deny_403

abbrev answer_for : Str → Reply privacy_lodge.Pairing.Error (List Str) → Response
answer_for origin (done peers) = answer (any (str_eq origin) peers)
answer_for origin (failed e) = deny_403
answer_for origin crashed = aborted

module _ (c : Codec) where
  abbrev decide_origin : Result Panic (Option Str) → Disk → List Fault → Response
  decide_origin (err p) d fs = aborted
  decide_origin (ok none) d fs = deny_403
  decide_origin (ok (some origin)) d fs = answer_for origin (onions c d fs).0

  -- The allowlist is read anew for each request.
  pub handle_conn : List Recv → Disk → List Fault → Response
  handle_conn recvs d fs = decide_origin (claimed_origin recvs) d fs
