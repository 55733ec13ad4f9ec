-- ===== src/Node/Api/Access.antt =====
-- src/node_api/api.rs: who may call, and which calls change the users.
use Prim.Native.Nat.{bit_or, bit_xor}
use anytls_rs_legacy.Common.{
  ltb, ℕ, ◌≡◌, ◌≢◌, ◌↔◌, refl, ◌∙◌, ap, true, false, Option, none, some, List, [], ◌∷◌, length,
  ◌==◌, Text, codes, text_same, text_key, arith, Bool-cases, Option-cases, Result-cases, inl, inr,
}
use anytls_rs_legacy.Common.Bits.{bit_or_zero, bit_xor_zero, bit_xor_same}
use anytls_rs_legacy.Common.Bytes.{Bytes}
use anytls_rs_legacy.Common.Map.{lookup}
use anytls_rs_legacy.Core.Text.Search.{strip_prefix}
use anytls_rs_legacy.Node.Registry.{Registry}
use anytls_rs_legacy.Node.Api.{
  dispatch, size_or_most, max_body_bytes, UsersPutEntry, Request, Method, get, put, post,
  other_method, Response, authorized, same_token, fold_differences, unwrap_or, route, route_post,
  reset_quota_of, reset_quota_target, put_users,
}

fold_differences_zero :
    (acc : ℕ) (a b : Text)
    → length a ≡ length b
    → fold_differences acc a b ≡ 0
    → (acc ≡ 0) × (a ≡ b)
unfolding fold_differences
fold_differences_zero acc [] [] l e = (e, refl)
fold_differences_zero acc [] (y ∷ b) l e = absurd (omega arith)
fold_differences_zero acc (x ∷ a) [] l e = absurd (omega arith)
fold_differences_zero acc (x ∷ a) (y ∷ b) l e =
    let (low, same) = fold_differences_zero (bit_or acc (bit_xor x y)) a b (omega arith) e in
    let (z, w) = bit_or_zero acc (bit_xor x y) low in (z, λ i. bit_xor_zero x y w i ∷ same i)

fold_differences_same : (a : Text) → fold_differences 0 a a ≡ 0
unfolding fold_differences
fold_differences_same [] = refl
fold_differences_same (x ∷ a) =
    ap (λ d. fold_differences (bit_or 0 d) a a) (bit_xor_same x) ∙ fold_differences_same a

-- The comparison that goes through all bytes is equality.
same_token_iff : (a b : Text) → (same_token a b ≡ true) ↔ (a ≡ b)
unfolding same_token
same_token_iff a b = elim (Bool-cases (length a == length b)) [
  | inl e ↦ (
    λ t. (fold_differences_zero 0 a b (ground arith) (ground arith)).1,
    λ t. rw (e, same_token, t, fold_differences_same b) (ground (arith, fold_differences_same b)),
  )
  | inr e ↦ (λ t. absurd (ground arith), λ t. absurd (ground (arith, ap length t)))
]

abbrev pub presented : Text → Text
presented value = unwrap_or (strip_prefix (codes "Bearer ") value) value

-- With a token configured, a request is authorised exactly if it has a readable header whose text, without
-- `Bearer ` in front, is the token.
pub authorized_iff :
    (req : Request) (token : Text)
    → (authorized req (some token) ≡ true)
      ↔ ((value : Text) × (req.authorization ≡ some (some value)) × (presented value ≡ token))
unfolding authorized
authorized_iff req token = elim (Option-cases req.authorization) [
  | inl e ↦ (λ t. absurd (ground (arith, e)), λ (v, f, g). absurd (ground (arith, e, f)))
  | inr (none, e) ↦ (λ t. absurd (ground (arith, e)), λ (v, f, g). absurd (ground (arith, e, f)))
  | inr (some value, e) ↦ (
    λ t. (value, e, (same_token_iff (presented value) token).0 (ground (arith, e))),
    λ (v, f, g).
        let same : value ≡ v = ground (arith, e, f) in
        rw (e, authorized) ((same_token_iff (presented value) token).1 (ap presented same ∙ g)),
  )
]

module _ (sha256 : Text → Bytes) (from_json : Bytes → Option (List (Text × UsersPutEntry)))
    (decode : Text → Option Text) where
  abbrev IsHarmless : Registry → Registry × Response → Type 0
  IsHarmless r (t, response) = response.status ≢ 200 → t ≡ r

  reset_quota_of-IsHarmless :
      (email : Text) (r : Registry) → IsHarmless r (reset_quota_of decode email r)
  unfolding reset_quota_of
  reset_quota_of-IsHarmless email r = elim (Option-cases (lookup email r.by_email)) [
    | inl e ↦ rw (e, reset_quota_of) (λ n. refl)
    | inr (h, e) ↦ rw (e, reset_quota_of) (λ n. absurd (n refl))
  ]

  route_post-IsHarmless : (path : Text) (r : Registry) → IsHarmless r (route_post decode path r)
  unfolding route_post
  route_post-IsHarmless path r = elim (Option-cases (reset_quota_target decode path)) [
    | inl e ↦ rw (e, route_post) (λ n. refl)
    | inr (email, e) ↦ rw (e, route_post) (reset_quota_of-IsHarmless email r)
  ]

  put_users-IsHarmless :
      (req : Request) (r : Registry) → IsHarmless r (put_users sha256 from_json req r)
  unfolding put_users
  put_users-IsHarmless req r =
      elim (Bool-cases (ltb max_body_bytes (size_or_most req.size_upper))) [
        | inl e ↦ rw (e, put_users) (λ n. refl)
        | inr e ↦ elim (Result-cases req.body) [
          | inr (x, f) ↦ rw (e, f, put_users) (λ n. refl)
          | inl (bytes, f) ↦ elim (Option-cases (from_json bytes)) [
            | inl g ↦ rw (e, f, g, put_users) (λ n. refl)
            | inr (users, g) ↦ rw (e, f, g, put_users) (λ n. absurd (n refl))
          ]
        ]
      ]

  dispatch-IsHarmless :
      (m : Method) (req : Request) (r : Registry)
      → IsHarmless r (dispatch sha256 from_json decode m req r)
        × (m ≡ get → (dispatch sha256 from_json decode m req r).0 ≡ r)
  unfolding dispatch
  dispatch-IsHarmless get req r = elim (Bool-cases (text_same req.path (codes "/healthz"))) [
    | inl e ↦ rw (e, dispatch) (λ n. refl, λ m. refl)
    | inr e ↦ elim (Bool-cases (text_same req.path (codes "/stats"))) [
      | inl f ↦ rw (e, f, dispatch) (λ n. refl, λ m. refl)
      | inr f ↦ rw (e, f, dispatch) (λ n. refl, λ m. refl)
    ]
  ]
  dispatch-IsHarmless put req r = elim (Bool-cases (text_same req.path (codes "/users"))) [
    | inl e ↦ rw (e, dispatch) (put_users-IsHarmless req r, λ m. absurd cc)
    | inr e ↦ rw (e, dispatch) (λ n. refl, λ m. refl)
  ]
  dispatch-IsHarmless post req r = (route_post-IsHarmless req.path r, λ m. absurd cc)
  dispatch-IsHarmless other_method req r = (λ n. refl, λ m. refl)

  -- What a request may do: without authority it is answered by 401 and changes nothing; nor does one
  -- that is not answered by 200, or one that only asks.
  pub route-changes :
      (token : Option Text) (req : Request) (r : Registry)
      → let (t, response) = route sha256 from_json decode token req r in
        (authorized req token ≡ false → (t ≡ r) × (response.status ≡ 401))
        × (response.status ≢ 200 → t ≡ r)
        × (req.method ≡ get → t ≡ r)
  unfolding route
  route-changes token req r = elim (Bool-cases (authorized req token)) [
    | inr e ↦ rw (e, route) (λ n. (refl, refl), λ n. refl, λ m. refl)
    | inl e ↦
        let (harmless, asks) = dispatch-IsHarmless req.method req r in
        rw (e, route) (λ n. absurd (ground arith), harmless, asks)
  ]
