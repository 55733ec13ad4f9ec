-- ===== src/Node/Api/Order.antt =====
-- src/node_api/api.rs, `into_specs`: the order of the specs does not hang on the order in which the hash
-- map of a body lists its users.
use mathlib.Core.List.{Permᴰ}
use mathlib.Core.List.Permᴰ.{nil, cons, swap, trans}
use anytls_rs_legacy.Common.{
  ◌≡◌, ◌≢◌, refl, ◌∙◌, sym, ap, subst, true, false, List, [], ◌∷◌, map, Text, arith, All, All-mono,
}
use anytls_rs_legacy.Node.Users.{UserSpec}
use anytls_rs_legacy.Node.Api.{
  UsersPutEntry, spec_of, text_leb, insert_spec, sort_specs, into_specs,
}

text_leb_total : (a b : Text) → text_leb a b ≡ false → text_leb b a ≡ true
unfolding text_leb
text_leb_total [] b e = absurd (ground arith)
text_leb_total (x ∷ a) [] e = refl
text_leb_total (x ∷ a) (y ∷ b) e = ground (arith, text_leb_total a b)

text_leb_antisymm : (a b : Text) → text_leb a b ≡ true → text_leb b a ≡ true → a ≡ b
unfolding text_leb
text_leb_antisymm [] [] e f = refl
text_leb_antisymm [] (y ∷ b) e f = absurd (ground arith)
text_leb_antisymm (x ∷ a) [] e f = absurd (ground arith)
text_leb_antisymm (x ∷ a) (y ∷ b) e f = ground (arith, text_leb_antisymm a b)

text_leb_trans : (a b c : Text) → text_leb a b ≡ true → text_leb b c ≡ true → text_leb a c ≡ true
unfolding text_leb
text_leb_trans [] b c e f = refl
text_leb_trans (x ∷ a) [] c e f = absurd (ground arith)
text_leb_trans (x ∷ a) (y ∷ b) [] e f = absurd (ground arith)
text_leb_trans (x ∷ a) (y ∷ b) (z ∷ c) e f = ground (arith, text_leb_trans a b c)

insert_spec_comm :
    (s t : UserSpec) (us : List UserSpec)
    → s.email ≢ t.email
    → insert_spec s (insert_spec t us) ≡ insert_spec t (insert_spec s us)
unfolding insert_spec
insert_spec_comm s t [] n =
    ground (arith, text_leb_total s.email t.email, text_leb_antisymm s.email t.email)
insert_spec_comm s t (u ∷ us) n = ground (
  arith,
  text_leb_total s.email t.email,
  text_leb_antisymm s.email t.email,
  text_leb_trans t.email s.email u.email,
  text_leb_trans s.email t.email u.email,
  insert_spec_comm s t us n,
)

abbrev Users : Type 0
Users = List (Text × UsersPutEntry)

-- No email is listed twice.
abbrev pub IsDistinct : Users → Type 0
IsDistinct [] = Unit
IsDistinct (x ∷ xs) = All (λ y. x.0 ≢ y.0) xs × IsDistinct xs

All-perm : (P : Text × UsersPutEntry → Type 0) {xs ys : Users} → Permᴰ xs ys → All P xs → All P ys
All-perm P nil h = tt
All-perm P (cons e d) h = (subst P e h.0, All-perm P d h.1)
All-perm P (swap e f) h = (subst P f h.1.0, (subst P e h.0, h.1.1))
All-perm P (trans d e) h = All-perm P e (All-perm P d h)

perm-IsDistinct : {xs ys : Users} → Permᴰ xs ys → IsDistinct xs → IsDistinct ys
perm-IsDistinct nil h = tt
perm-IsDistinct (cons e d) h =
    (All-mono (λ y n m. n (ap (λ x. x.0) e ∙ m)) _ (All-perm _ d h.0), perm-IsDistinct d h.1)
perm-IsDistinct (swap e f) h = (
  (
    λ m. h.0.0 (ap (λ x. x.0) e ∙ sym m ∙ ap (λ x. x.0) (sym f)),
    All-mono (λ y n m. n (ap (λ x. x.0) f ∙ m)) _ h.1.0,
  ),
  (All-mono (λ y n m. n (ap (λ x. x.0) e ∙ m)) _ h.0.1, h.1.1),
)
perm-IsDistinct (trans d e) h = perm-IsDistinct e (perm-IsDistinct d h)

-- Two listings of the same users, each email once, come to the same specs in the same order.
pub into_specs-perm : (xs ys : Users) → IsDistinct xs → Permᴰ xs ys → into_specs xs ≡ into_specs ys
unfolding into_specs sort_specs
into_specs-perm xs ys h nil = refl
into_specs-perm xs ys h (cons {a = a} {l₂ = l₂} e d) =
    ap (λ us. insert_spec (spec_of a) us) (into_specs-perm _ _ h.1 d)
    ∙ ap (λ x. insert_spec (spec_of x) (sort_specs (map spec_of l₂))) e
into_specs-perm xs ys h (swap {a = a} {b = b} {a' = a'} {b' = b'} {l = l} e f) =
    insert_spec_comm (spec_of a) (spec_of b) (sort_specs (map spec_of l)) h.0.0
    ∙ ap (λ x. insert_spec (spec_of x) (insert_spec (spec_of a) (sort_specs (map spec_of l)))) f
    ∙ ap (λ x. insert_spec (spec_of a') (insert_spec (spec_of x) (sort_specs (map spec_of l)))) e
into_specs-perm xs ys h (trans d e) =
    into_specs-perm _ _ h d ∙ into_specs-perm _ _ (perm-IsDistinct d h) e
