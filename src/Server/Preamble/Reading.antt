-- ===== src/Server/Preamble/Reading.antt =====
-- bin/server.rs: what the server reads of the first bytes.
use mathlib.Core.List.{flatten}
use anytls_rs_legacy.Common.{
  ◌==◌, take-append-drop, ◌≢◌, ℕ, zero, suc, ◌-◌, ◌≤◌, ◌≡◌, refl, ◌∙◌, sym, ap, [], ◌∷◌, ◌++◌, take,
  drop, length, arith, append_assoc, length-take, Bool-cases, inl, inr,
}
use anytls_rs_legacy.Common.Bytes.{Bytes}
use anytls_rs_legacy.Server.Preamble.{Incoming, read_some, fill, is_empty_bytes}

part_nil : (n : ℕ) → (take {A = ℕ} n [] ≡ []) × (drop {A = ℕ} n [] ≡ [])
part_nil zero = (refl, refl)
part_nil (suc n) = (refl, refl)

take_part :
    (g t : Bytes) (n : ℕ)
    → length g ≤ n
    → (take n (g ++ t) ≡ g ++ take (n - length g) t) × (drop n (g ++ t) ≡ drop (n - length g) t)
take_part [] t n h = ground arith
take_part (x ∷ g) t zero h = absurd (omega arith)
take_part (x ∷ g) t (suc n) h =
    let rest = take_part g t n (omega arith) in
    let m : suc n - length (x ∷ g) ≡ n - length g = omega arith in ground (arith, rest, m)

read_some_lem :
    (n : ℕ) (s : Incoming)
    → let (got, later) = read_some n s in
      (got ++ flatten later ≡ flatten s) × (length got ≤ n) × (n ≢ 0 → got ≡ [] → flatten s ≡ [])
unfolding read_some flatten
read_some_lem n [] = (refl, omega arith, λ f e. refl)
read_some_lem n ([] ∷ cs) = read_some_lem n cs
read_some_lem n ((b ∷ bs) ∷ cs) = (
  sym (append_assoc (take n (b ∷ bs)) (drop n (b ∷ bs)) (flatten cs))
      ∙ ap (λ x. x ++ flatten cs) (take-append-drop n (b ∷ bs)),
  omega (arith, length-take n (b ∷ bs)),
  λ f e. absurd (omega (arith, length-take n (b ∷ bs), f, ap length e)),
)

-- The buffer gets the first bytes that come, however they are cut into reads, and all of them when
-- they end before it is full; what follows them is left.
pub fill_lem :
    (fuel n : ℕ) (s : Incoming)
    → n ≤ fuel
    → ((fill fuel n s).0 ≡ take n (flatten s)) × (flatten (fill fuel n s).1 ≡ drop n (flatten s))
unfolding fill
fill_lem zero n s h = ground arith
fill_lem (suc fuel) n s h =
    let got = (read_some n s).0 in
    let later = (read_some n s).1 in
    let (whole, fits, ends) = read_some_lem n s in
    elim (Bool-cases (n == 0)) [
      | inl e ↦ ground (arith, e)
      | inr e ↦ elim (Bool-cases (is_empty_bytes got)) [
        | inl f ↦
            let over : flatten s ≡ [] = ends (λ q. ground arith) (ground arith) in
            let later_over : flatten later ≡ [] = ground (arith, whole) in
            rw (e, f, over) (sym (part_nil n).0, later_over ∙ sym (part_nil n).1)
        | inr f ↦
            let some_byte : 1 ≤ length got = ground (arith, f) in
            let rest = fill_lem fuel (n - length got) later (omega arith) in
            let parts = take_part got (flatten later) n fits in
            ground (arith, e, f, whole, rest, parts)
      ]
    ]
