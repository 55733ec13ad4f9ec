-- ===== src/Server/Preamble/ClientId.antt =====
-- src/client_runner.rs, `dail_out_callback`, against bin/server.rs, `extract_client_id_from_padding`.
use mathlib.Core.List.{flatten, map}
use anytls_rs_legacy.Common.{
  le→ltb, ltb→le, ltb, ◌==◌, if◌then◌else◌, ℕ, zero, suc, ◌-◌, ◌≤◌, ◌<◌, ◌≡◌, refl, ◌∙◌, sym, ap,
  true, false, Option, none, List, [], ◌∷◌, ◌++◌, take, drop, replicate, length, All, All-mono,
  Text, ok, arith, length-append, length-replicate, take-append, drop-append, Bool-cases, inl, inr,
  ◌⊎◌,
}
use anytls_rs_legacy.Common.Int.{ℤ, pos, negsuc}
use anytls_rs_legacy.Common.Bytes.{Bytes, put_u16, get_u16}
use anytls_rs_legacy.Core.Text.Strict.{
  trim_front, trim_back, is_whitespace, trim_front-kept, trim_back-kept, trim_back_matching,
  from_utf8_ascii, one_char,
}
use anytls_rs_legacy.Server.Preamble.{
  is_nul, first_size, Incoming, fill, padding_len, read_padding, read_client_id,
  extract_client_id_from_padding,
}
use anytls_rs_legacy.Server.Preamble.Reading.{fill_lem}

-- What is no white space and no NUL in ASCII.
abbrev pub IsVisible : ℕ → Type 0
IsVisible b = (32 < b) × (b < 128)

-- The two forms of the padding's start: the text of an identifier, or none.
abbrev pub IsIdText : Text → Type 0
IsIdText t = (t ≡ []) ⊎ ((length t ≡ 36) × All IsVisible t)

flatten-one_char : (t : Text) → flatten (map one_char t) ≡ t
unfolding flatten
flatten-one_char [] = refl
flatten-one_char (c ∷ cs) = ap (λ x. c ∷ x) (flatten-one_char cs)

visible_kept :
    (t : Text)
    → All IsVisible t
    → All (λ c. is_whitespace c ≡ false) (map one_char t)
      × All (λ c. is_nul c ≡ false) (map one_char t)
visible_kept [] h = (tt, tt)
visible_kept (b ∷ bs) h =
    let rest = visible_kept bs h.1 in ((ground (arith, h.0), rest.0), (ground (arith, h.0), rest.1))

nul_trimmed : (n : ℕ) → All (λ c. is_nul c ≡ true) (map one_char (replicate {A = ℕ} n 0))
nul_trimmed zero = tt
nul_trimmed (suc n) = (refl, nul_trimmed n)

nul_ascii : (n : ℕ) → All (λ b. b < 128) (replicate {A = ℕ} n 0)
nul_ascii zero = tt
nul_ascii (suc n) = (omega arith, nul_ascii n)

zeros_taken : (k n : ℕ) → k ≤ n → take {A = ℕ} k (replicate {A = ℕ} n 0) ≡ replicate {A = ℕ} k 0
zeros_taken zero n h = refl
zeros_taken (suc k) zero h = absurd (omega arith)
zeros_taken (suc k) (suc n) h = ap (λ x. 0 ∷ x) (zeros_taken k n (omega arith))

trimmed : List Text → Text
trimmed chars =
    flatten (trim_back is_whitespace (trim_front is_whitespace (trim_back is_nul chars)))

trimmed-text : (t : Text) → All IsVisible t → trimmed (map one_char t) ≡ t
unfolding trimmed
trimmed-text t v =
    let (white, nul) = visible_kept t v in
    rw
      (
        trim_back-kept is_nul (map one_char t) nul,
        trim_front-kept is_whitespace (map one_char t) white,
        trim_back-kept is_whitespace (map one_char t) white,
      )
      (flatten-one_char t)

trimmed-zeros : (n : ℕ) → trimmed (map one_char (replicate {A = ℕ} n 0)) ≡ []
unfolding trimmed trim_front trim_back flatten
trimmed-zeros n =
    rw (trim_back_matching is_nul (map one_char (replicate {A = ℕ} n 0)) (nul_trimmed n)) refl

module _ (parse_str : Text → Option ℕ) where
  -- A padding of 36 bytes or more that starts with ASCII.
  extract-ascii :
      (padding t u : Bytes)
      → 36 ≤ length padding
      → take 36 padding ≡ t
      → All (λ b. b < 128) t
      → trimmed (map one_char t) ≡ u
      → extract_client_id_from_padding parse_str padding
        ≡ (if length u == 36 then parse_str u else none)
  unfolding extract_client_id_from_padding trimmed
  extract-ascii padding t u l e a f =
      let long : ltb (length padding) 36 ≡ false = ground (arith, l) in
      rw (long, e, from_utf8_ascii t a, f) refl

  -- The text is read whatever zeros follow it.
  pub extract-text :
      (t : Text) (n : ℕ)
      → length t ≡ 36
      → All IsVisible t
      → extract_client_id_from_padding parse_str (t ++ replicate n 0) ≡ parse_str t
  extract-text t n l v =
      let first : take 36 (t ++ replicate n 0) ≡ t =
        ap (λ k. take k (t ++ replicate n 0)) (sym l) ∙ take-append t (replicate {A = ℕ} n 0) in
      extract-ascii (t ++ replicate n 0) t t
        (omega (arith, length-append t (replicate {A = ℕ} n 0), l)) first
        (All-mono (λ b h. h.1) t v) (trimmed-text t v)
      ∙ rw l refl

  -- Zeros alone hold no identifier.
  pub extract-zeros :
      (n : ℕ) → extract_client_id_from_padding parse_str (replicate {A = ℕ} n 0) ≡ none
  unfolding extract_client_id_from_padding
  extract-zeros n = elim (Bool-cases (ltb n 36)) [
    | inl e ↦ rw (length-replicate {A = ℕ} n 0, e) refl
    | inr e ↦
        extract-ascii (replicate {A = ℕ} n 0) (replicate {A = ℕ} 36 0) []
          (rw (length-replicate {A = ℕ} n 0) (ltb→le n 36 e)) (zeros_taken 36 n (ltb→le n 36 e))
          (nul_ascii 36) (trimmed-zeros 36)
  ]

  pub id_of : Text → Option ℕ
  id_of [] = none
  id_of (c ∷ cs) = parse_str (c ∷ cs)

  -- The padding that the client sends holds the identifier that it has, or none.
  extract-padding :
      (sizes : List ℤ) (t : Text)
      → IsIdText t
      → extract_client_id_from_padding parse_str
          (t ++ replicate {A = ℕ} (padding_len sizes t - length t) 0)
        ≡ id_of t
  unfolding id_of
  extract-padding sizes t (inl e) = rw e (extract-zeros (padding_len sizes [] - 0))
  extract-padding sizes [] (inr (l, v)) = absurd (omega arith)
  extract-padding sizes (c ∷ cs) (inr (l, v)) = extract-text (c ∷ cs) _ l v

empty : (b : Bytes) → length b ≡ 0 → b ≡ []
empty [] l = refl
empty (c ∷ cs) l = absurd (omega arith)

first_size_below : (sizes : List ℤ) → first_size sizes < 65536
first_size_below [] = omega arith
first_size_below (pos n ∷ zs) = omega arith
first_size_below (negsuc n ∷ zs) = omega arith

padding_len-bounds :
    (sizes : List ℤ) (t : Text)
    → IsIdText t
    → (length t ≤ padding_len sizes t) × (padding_len sizes t < 65536)
unfolding padding_len
padding_len-bounds sizes [] i = (omega arith, first_size_below sizes)
padding_len-bounds sizes (c ∷ cs) (inl e) = absurd (omega (arith, ap length e))
padding_len-bounds sizes (c ∷ cs) (inr (l, v)) =
    (omega (arith, first_size_below sizes), omega (arith, first_size_below sizes))

sent : List ℤ → Text → Bytes
sent sizes t = t ++ replicate {A = ℕ} (padding_len sizes t - length t) 0

length-sent : (sizes : List ℤ) (t : Text) → IsIdText t → length (sent sizes t) ≡ padding_len sizes t
unfolding sent
length-sent sizes t i =
    length-append t (replicate {A = ℕ} (padding_len sizes t - length t) 0)
    ∙ omega (
      arith,
      padding_len-bounds sizes t i,
      length-replicate {A = ℕ} (padding_len sizes t - length t) 0,
    )

module _ (parse_str : Text → Option ℕ) where
  id_of_empty : (t : Text) → length t ≡ 0 → id_of parse_str t ≡ none
  unfolding id_of
  id_of_empty [] l = refl
  id_of_empty (c ∷ cs) l = absurd (omega arith)

  -- The server reads the identifier that the client sent, and exactly the padding.
  pub read_client_id-sent :
      (sha : Bytes) (sizes : List ℤ) (t : Text) (s : Incoming) (rest : Bytes)
      → length sha ≡ 32
      → IsIdText t
      → flatten s ≡ (t ++ replicate {A = ℕ} (padding_len sizes t - length t) 0) ++ rest
      → (later : Incoming) × (read_client_id parse_str (sha ++ put_u16 (padding_len sizes t)) s
          ≡ ok (id_of parse_str t, later))
        × (flatten later ≡ rest)
  unfolding read_client_id read_padding sent
  read_client_id-sent sha sizes t s rest l i e =
      let n = padding_len sizes t in
      let size = length-sent sizes t i in
      let number : get_u16 (drop 32 (sha ++ put_u16 n)) ≡ n =
        ap (λ k. get_u16 (drop k (sha ++ put_u16 n))) (sym l)
        ∙ ap get_u16 (drop-append sha (put_u16 n))
        ∙ omega (arith, (padding_len-bounds sizes t i).1) in
      let (got, left) = fill_lem n n s (omega arith) in
      let got_all : (fill n n s).0 ≡ sent sizes t =
        got
        ∙ ap (λ x. take n x) e
        ∙ ap (λ k. take k (sent sizes t ++ rest)) (sym size)
        ∙ take-append (sent sizes t) rest in
      let left_all : flatten (fill n n s).1 ≡ rest =
        left
        ∙ ap (λ x. drop n x) e
        ∙ ap (λ k. drop k (sent sizes t ++ rest)) (sym size)
        ∙ drop-append (sent sizes t) rest in
      let found = extract-padding parse_str sizes t i in
      let full : ltb (length (sent sizes t)) n ≡ false =
        le→ltb (length (sent sizes t)) n (omega arith) in
      let answer : (later : Incoming) × (read_padding parse_str n s ≡ ok (id_of parse_str t, later))
          × (flatten later ≡ rest) =
        elim (Bool-cases (n == 0)) [
          | inl z ↦
              let zero_size : n ≡ 0 = ground (arith, z) in
              let nothing : sent sizes t ≡ [] = empty (sent sizes t) (size ∙ zero_size) in
              let no_id = id_of_empty t (omega (arith, padding_len-bounds sizes t i, zero_size)) in
              (s, rw (read_padding, z, no_id) refl, e ∙ ap (λ x. x ++ rest) nothing)
          | inr z ↦ ((fill n n s).1, rw (read_padding, z, got_all, full, found) refl, left_all)
        ] in
      let (later, r, f) = answer in (later, ap (λ k. read_padding parse_str k s) number ∙ r, f)
