-- ===== src/Node/Api.antt =====
-- src/node_api/api.rs: the management API of a node, from a request to a response and the users after
-- it. The JSON reader of a body and the percent decoding of a path are parameters, as is the digest of a
-- password; a response has a status and what its JSON says, with the texts of errors left out.
pub mod Access
pub mod Order
use Prim.Native.Nat.{bit_or, bit_xor}
use anytls_rs_legacy.Common.{
  ℕ, ◌*◌, ◌+◌, ◌-◌, ◌^◌, Bool, true, false, not, ◌&&◌, ◌||◌, Option, none, some, List, [], ◌∷◌,
  ◌++◌, map, length, ltb, leb, ◌==◌, if◌then◌else◌, Text, codes, text_same, text_key, Result, ok,
  err,
}
use anytls_rs_legacy.Common.Int.{ℤ}
use anytls_rs_legacy.Common.Bytes.{Bytes}
use anytls_rs_legacy.Common.Map.{Map, lookup, insert}
use anytls_rs_legacy.Core.Text.Search.{strip_prefix, contains_char}
use anytls_rs_legacy.Node.Users.{UserSpec, UserEntry, quota_used, reset_quota}
use anytls_rs_legacy.Node.Registry.{Registry, replace, put_entry}

abbrev pub max_body_bytes : ℕ
max_body_bytes = 8 * 1024 * 1024

pub record StatsUser : Type 0 where
  pub connections : ℤ
  pub bytes_in : ℕ
  pub bytes_out : ℕ
  pub quota_used_now : ℕ
  pub quota_bytes : ℕ
  pub expires_unix : ℤ

pub record UsersPutEntry : Type 0 where
  pub password : Text
  pub quota_bytes : ℕ
  pub expires_unix : ℤ

abbrev pub spec_of : Text × UsersPutEntry → UserSpec
spec_of (email, e) = record {
  email = email;
  password = e.password;
  quota_bytes = e.quota_bytes;
  expires_unix = e.expires_unix;
}

-- The order of texts by their bytes.
unfoldable pub text_leb : Text → Text → Bool
text_leb [] b = true
text_leb (x ∷ a) [] = false
text_leb (x ∷ a) (y ∷ b) = ltb x y || ((x == y) && text_leb a b)

unfoldable pub insert_spec : UserSpec → List UserSpec → List UserSpec
insert_spec s [] = s ∷ []
insert_spec s (t ∷ ts) = if text_leb s.email t.email then s ∷ t ∷ ts else t ∷ insert_spec s ts

unfoldable pub sort_specs : List UserSpec → List UserSpec
sort_specs [] = []
sort_specs (s ∷ ss) = insert_spec s (sort_specs ss)

unfoldable pub into_specs : List (Text × UsersPutEntry) → List UserSpec
into_specs users = sort_specs (map spec_of users)

abbrev pub stats_of : UserEntry → StatsUser
stats_of e = record {
  connections = e.connections;
  bytes_in = e.up;
  bytes_out = e.down;
  quota_used_now = quota_used e;
  quota_bytes = e.quota_bytes;
  expires_unix = e.expires_unix;
}

unfoldable pub collect_stats_of :
    (ℕ → UserEntry) → Map Text ℕ → Map Text StatsUser → Map Text StatsUser
collect_stats_of entries [] users = users
collect_stats_of entries ((email, h) ∷ m) users =
    collect_stats_of entries m (insert (entries h).email (stats_of (entries h)) users)

unfoldable pub collect_stats : Registry → Map Text StatsUser
collect_stats r = collect_stats_of r.entries r.by_email []

pub data Method : Type 0 where
  get put post other_method : Method

-- The header is there or not, and readable as text or not. The body has an upper bound of its size if
-- one is known, and is read to its end or fails.
pub record Request : Type 0 where
  pub method : Method
  pub path : Text
  pub authorization : Option (Option Text)
  pub size_upper : Option ℕ
  pub body : Result Bytes

abbrev push_front : ℕ → Option Text → Option Text
push_front c none = none
push_front c (some t) = some (c ∷ t)

unfoldable pub strip_suffix : Text → Text → Option Text
strip_suffix s [] = if text_same s [] then some [] else none
strip_suffix s (c ∷ cs) =
    let rest = strip_suffix s cs in if text_same s (c ∷ cs) then some [] else push_front c rest

abbrev pub unwrap_or : Option Text → Text → Text
unwrap_or none t = t
unwrap_or (some s) t = s

-- The fold over the pairs of bytes, from the left.
unfoldable pub fold_differences : ℕ → Text → Text → ℕ
fold_differences acc [] b = acc
fold_differences acc (x ∷ a) [] = acc
fold_differences acc (x ∷ a) (y ∷ b) = fold_differences (bit_or acc (bit_xor x y)) a b

unfoldable pub same_token : Text → Text → Bool
same_token a b = if not (length a == length b) then false else fold_differences 0 a b == 0

unfoldable pub authorized : Request → Option Text → Bool
authorized req none = true
authorized req (some token) = elim req.authorization [
  | none ↦ false
  | some none ↦ false
  | some (some value) ↦ same_token (unwrap_or (strip_prefix (codes "Bearer ") value) value) token
]

abbrev is_empty : Text → Bool
is_empty [] = true
is_empty (c ∷ cs) = false

pub data Reply : Type 0 where
  an_error healthy : Reply
  stats : Map Text StatsUser → Reply
  user_count : ℕ → Reply
  quota_reset : Text → Reply

pub record Response : Type 0 where
  pub status : ℕ
  pub reply : Reply

abbrev pub error_response : ℕ → Response
error_response status = record { status = status; reply = an_error }

abbrev pub ok_response : Reply → Response
ok_response reply = record { status = 200; reply = reply }

abbrev pub size_or_most : Option ℕ → ℕ
size_or_most none = 2 ^ 64 - 1
size_or_most (some n) = n

module _ (decode : Text → Option Text) where
  -- `decode` is `percent_decode_str` with `decode_utf8`.
  unfoldable pub reset_quota_target : Text → Option Text
  reset_quota_target path = elim (strip_prefix (codes "/users/") path) [
    | none ↦ none
    | some tail ↦ elim (strip_suffix (codes "/reset-quota") tail) [
      | none ↦ none
      | some rest ↦ if is_empty rest || contains_char b'/' rest then none else decode rest
    ]
  ]

  unfoldable pub reset_quota_of : Text → Registry → Registry × Response
  reset_quota_of email r = elim (lookup email r.by_email) [
    | none ↦ (r, error_response 404)
    | some h ↦ (
      record r { entries = put_entry h (reset_quota (r.entries h)) r.entries },
      ok_response (quota_reset email),
    )
  ]

  unfoldable pub route_post : Text → Registry → Registry × Response
  route_post path r = elim (reset_quota_target path) [
    | none ↦ (r, error_response 404)
    | some email ↦ reset_quota_of email r
  ]

module _ (sha256 : Text → Bytes) (from_json : Bytes → Option (List (Text × UsersPutEntry))) where
  unfoldable pub put_users : Request → Registry → Registry × Response
  put_users req r =
      if ltb max_body_bytes (size_or_most req.size_upper)
      then (r, error_response 413)
      else elim req.body [
        | err e ↦ (r, error_response 400)
        | ok bytes ↦ elim (from_json bytes) [
          | none ↦ (r, error_response 400)
          | some users ↦
              let t = replace sha256 (into_specs users) r in
              (t, ok_response (user_count (length t.by_email)))
        ]
      ]

  -- The match of `route` on the method and the path.
  unfoldable pub dispatch : (Text → Option Text) → Method → Request → Registry → Registry × Response
  dispatch decode get req r =
      if text_same req.path (codes "/healthz")
      then (r, ok_response healthy)
      else if text_same req.path (codes "/stats")
      then (r, ok_response (stats (collect_stats r)))
      else (r, error_response 404)
  dispatch decode put req r =
      if text_same req.path (codes "/users") then put_users req r else (r, error_response 404)
  dispatch decode post req r = route_post decode req.path r
  dispatch decode other_method req r = (r, error_response 404)

  unfoldable pub route :
      (Text → Option Text) → Option Text → Request → Registry → Registry × Response
  route decode token req r =
      if not (authorized req token)
      then (r, error_response 401)
      else dispatch decode req.method req r
