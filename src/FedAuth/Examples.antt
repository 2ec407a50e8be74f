-- ===== src/FedAuth/Examples.antt =====
-- Tests and instances for the federation gate.
use privacy_lodge.Prelude.{
  false, ◌≡◌, refl, Bool, true, none, some, List, [], ◌∷◌, ◌++◌, arith, ok, err, not, All,
  if◌then◌else◌,
}
use privacy_lodge.Text.{
  Str, codes, trim, is_empty, is_whitespace, split_once, split_at, eq_ignore_ascii_case,
  strip_suffix,
}
use privacy_lodge.Text.Utf8.{from_utf8_lossy}
use privacy_lodge.Pairing.Store.Atomic.{paired}
use privacy_lodge.Pairing.Sample.{sample_codec}
use privacy_lodge.Pairing.Examples.{onion_a, peers_a, disk_a, disk_a-Reads}
use privacy_lodge.FedAuth.{
  Recv, chunk, ok_200, not_char_boundary, extract_origin, split_params, handle_conn, claimed_origin,
  read_request, find_auth_header, unquote, has_subslice, first_origin,
}
use privacy_lodge.FedAuth.Params.{scan, IsParam, with_commas, split_params_lossless}
use privacy_lodge.FedAuth.Values.{value, ending}
use privacy_lodge.FedAuth.Origin.{IsOther, extract_origin_first}
use privacy_lodge.FedAuth.Slicing.{extract_origin_panics}
use privacy_lodge.FedAuth.Gate.{handle_conn_exact, handle_conn_sound}

abbrev attacker : Str
attacker = codes "zzz.onion"

-- A paired address inside the quoted signature is not the origin.
buried :
    extract_origin (codes "X-Matrix origin=\"zzz.onion\",key=k,sig=\"zzorigin=abc.onion zz\"")
    ≡ ok (some attacker)
unfolding extract_origin trim is_whitespace split_at eq_ignore_ascii_case first_origin split_params
    split_once unquote strip_suffix
buried = refl

unquoted : extract_origin (codes "x-matrix sig=abc, origin=zzz.onion") ≡ ok (some attacker)
unfolding extract_origin trim is_whitespace split_at eq_ignore_ascii_case first_origin split_params
    split_once unquote strip_suffix
unquoted = refl

other_scheme : extract_origin (codes "Bearer sometoken") ≡ ok none
unfolding extract_origin trim is_whitespace split_at eq_ignore_ascii_case
other_scheme = refl

split_params_lossless_example :
    (front : List Str) × (last : Str) × (codes "a=\"1,2\",b=3, " ≡ with_commas front ++ last)
    × All IsParam front
    × ((q : Bool) × (scan false last ≡ some q))
    × (split_params (codes "a=\"1,2\",b=3, ")
        ≡ front ++ (if not (is_empty (trim last)) then last ∷ [] else []))
split_params_lossless_example = split_params_lossless (codes "a=\"1,2\",b=3, ")

abbrev sig : Str
sig = codes "sig=\"x,origin=y\""

sig-IsOther : IsOther sig
unfolding split_once is_whitespace trim eq_ignore_ascii_case
sig-IsOther = record { one = refl; key = refl }

extract_origin_first_example :
    extract_origin (
      codes "X-Matrix "
      ++ ((with_commas (sig ∷ []) ++ codes " ")
          ++ (codes "origin="
              ++ (value false attacker ++ ending (some (codes "origin=\"a.onion\" "))))))
    ≡ ok (some attacker)
unfolding is_whitespace
extract_origin_first_example =
    extract_origin_first (sig ∷ []) (codes " ") false attacker (some (codes "origin=\"a.onion\" "))
      (sig-IsOther, tt) refl refl refl refl

-- "X-Matri" and "é".
extract_origin_panics_example :
    extract_origin (codes "X-Matri" ++ 233 ∷ codes " origin=a") ≡ err not_char_boundary
unfolding is_whitespace
extract_origin_panics_example =
    extract_origin_panics b'X' (codes "-Matri") 233 (codes " origin=a") refl refl refl (omega arith)
      refl

abbrev request : Str → List Recv
request onion =
    chunk (
      codes "GET /check HTTP/1.1\r\nHost: x\r\nauthorization: X-Matrix origin=\""
      ++ (onion ++ codes "\",sig=\"x\"\r\n\r\n"))
    ∷ []

claims_a : claimed_origin (request onion_a) ≡ ok (some onion_a)
unfolding claimed_origin read_request has_subslice from_utf8_lossy find_auth_header split_once
    extract_origin trim is_whitespace split_at eq_ignore_ascii_case first_origin split_params
    unquote strip_suffix
claims_a = refl

handle_conn_exact_example : handle_conn sample_codec (request onion_a) disk_a [] ≡ ok_200
handle_conn_exact_example =
    (handle_conn_exact sample_codec peers_a (request onion_a) disk_a disk_a-Reads).1
      (onion_a, claims_a, refl)

handle_conn_sound_example :
    (o : Str) × (claimed_origin (request onion_a) ≡ ok (some o)) × (paired o peers_a ≡ true)
handle_conn_sound_example =
    handle_conn_sound sample_codec peers_a (request onion_a) disk_a disk_a-Reads []
      handle_conn_exact_example
