-- ===== src/Runner/Mitm/Tunnel.antt =====
-- src/client_runner.rs: the tunnel that a proxy grants, however its answer is cut into chunks.
use mathlib.Core.List.{flatten}
use anytls_rs_legacy.Common.{
  text_same, ℕ, zero, suc, ◌<◌, ◌≤◌, ◌≡◌, ◌≢◌, refl, sym, ap, ◌∙◌, true, false, Option, none, some,
  List, [], ◌∷◌, ◌++◌, append_assoc, append-nil, All, All-append, length, length-append, Text,
  arith, ok, Option-cases, Bool-cases, ◌==◌, drop, subst, inl, inr,
}
use anytls_rs_legacy.Common.Bytes.{Bytes}
use anytls_rs_legacy.Core.Text.{split_once, push_front}
use anytls_rs_legacy.Core.Text.Utf8.{IsAscii}
use anytls_rs_legacy.Core.Text.Strict.{from_utf8_ascii}
use anytls_rs_legacy.Runner.Mitm.{
  Buffered, cut_line, checked_line, read_line, is_blank, skip_headers, is_accepted, behind_status,
  connect_via_mitm_proxy,
}

abbrev left_of : Buffered → Bytes
left_of b = b.buffer ++ flatten b.later

-- A text is cut where its line ends, or has no line end.
abbrev IsCut : Bytes → Option (Text × Text) → Type 0
IsCut buf none = All (λ x. x ≢ 10) buf
IsCut buf (some (line, rest)) = All (λ x. x ≢ 10) line × (buf ≡ line ++ (10 ∷ rest))

push_front-IsCut :
    (c : ℕ) (bs : Bytes) (o : Option (Text × Text))
    → c ≢ 10
    → IsCut bs o
    → IsCut (c ∷ bs) (push_front c o)
push_front-IsCut c bs none h g = (h, g)
push_front-IsCut c bs (some (line, rest)) h (w, e) = ((h, w), ap (λ x. c ∷ x) e)

split_once-IsCut : (buf : Bytes) → IsCut buf (split_once 10 buf)
unfolding split_once
split_once-IsCut [] = tt
split_once-IsCut (c ∷ bs) = elim (Bool-cases (c == 10)) [
  | inl e ↦ rw e (tt, ap (λ x. x ∷ bs) (ground (arith, e)))
  | inr e ↦
      rw e (push_front-IsCut c bs (split_once 10 bs) (ground (arith, e)) (split_once-IsCut bs))
]

-- A part without a line end stands at the start of the line.
line_part :
    (buf x l rest : Bytes)
    → All (λ c. c ≢ 10) buf
    → buf ++ x ≡ l ++ (10 ∷ rest)
    → (m : Bytes) × (l ≡ buf ++ m) × (x ≡ m ++ (10 ∷ rest))
line_part [] x l rest h e = (l, refl, e)
line_part (c ∷ buf) x [] rest h e = absurd (ground (arith, e, h.0))
line_part (c ∷ buf) x (d ∷ l) rest h e =
    let (m, f, g) = line_part buf x l rest h.1 (ap (drop 1) e) in
    let same : d ≡ c = ground (arith, e) in (m, ap (λ x. x ∷ l) same ∙ ap (λ x. c ∷ x) f, g)

-- The first line end is where both of two cuts have it.
same_line :
    (a b x y : Bytes)
    → All (λ c. c ≢ 10) a
    → All (λ c. c ≢ 10) b
    → a ++ (10 ∷ x) ≡ b ++ (10 ∷ y)
    → (a ≡ b) × (x ≡ y)
same_line [] [] x y ha hb e = (refl, ap (drop 1) e)
same_line [] (d ∷ b) x y ha hb e = absurd (ground (arith, e, hb.0))
same_line (c ∷ a) [] x y ha hb e = absurd (ground (arith, e, ha.0))
same_line (c ∷ a) (d ∷ b) x y ha hb e =
    let (f, g) = same_line a b x y ha.1 hb.1 (ap (drop 1) e) in
    let same : c ≡ d = ground (arith, e) in (ap (λ z. z ∷ a) same ∙ ap (λ z. d ∷ z) f, g)

without_part : (a b : Bytes) → All (λ c. c ≢ 10) (a ++ b) → All (λ c. c ≢ 10) b
without_part [] b h = h
without_part (c ∷ a) b h = without_part a b h.1

-- A line is read whole, however it is cut, and what follows it is left.
abbrev IsRead : Text → Bytes → Text × Buffered → Type 0
IsRead l rest (line, b) = (line ≡ l ++ (10 ∷ [])) × (left_of b ≡ rest)

no_line : (l rest : Bytes) → All (λ c. c ≢ 10) (l ++ (10 ∷ rest)) → ⊥
no_line [] rest h = h.0 refl
no_line (c ∷ l) rest h = no_line l rest h.1

cut_line-IsRead :
    (buf : Bytes) (chunks : List Bytes) (l rest : Bytes)
    → All (λ c. c ≢ 10) l
    → buf ++ flatten chunks ≡ l ++ (10 ∷ rest)
    → IsRead l rest (cut_line buf chunks)
unfolding cut_line flatten
cut_line-IsRead buf [] l rest h e = elim (Option-cases (split_once 10 buf)) [
  | inl f ↦ absurd (
      no_line l rest (
        subst (All (λ c. c ≢ 10)) (sym (append-nil buf) ∙ e)
          (subst (IsCut buf) f (split_once-IsCut buf))))
  | inr ((line, behind), f) ↦
      let (w, g) = subst (IsCut buf) f (split_once-IsCut buf) in
      let (p, q) = same_line line l behind rest w h (sym g ∙ sym (append-nil buf) ∙ e) in
      rw (cut_line, f) (ap (λ x. x ++ (10 ∷ [])) p, append-nil behind ∙ q)
]
cut_line-IsRead buf (chunk ∷ chunks) l rest h e = elim (Option-cases (split_once 10 buf)) [
  | inl f ↦
      let (m, p, q) =
        line_part buf (chunk ++ flatten chunks) l rest (subst (IsCut buf) f (split_once-IsCut buf))
          e in
      let (r, s) =
        cut_line-IsRead chunk chunks m rest (without_part buf m (subst (All (λ c. c ≢ 10)) p h))
          q in
      rw (cut_line, f)
        (
          ap (λ x. buf ++ x) r
              ∙ sym (append_assoc buf m (10 ∷ []))
              ∙ ap (λ x. x ++ (10 ∷ [])) (sym p),
          s,
        )
  | inr ((line, behind), f) ↦
      let (w, g) = subst (IsCut buf) f (split_once-IsCut buf) in
      let (p, q) = same_line line l (behind ++ (chunk ++ flatten chunks)) rest w h (
        sym (append_assoc line (10 ∷ behind) (chunk ++ flatten chunks))
        ∙ ap (λ x. x ++ (chunk ++ flatten chunks)) (sym g)
        ∙ e) in
      rw (cut_line, f) (ap (λ x. x ++ (10 ∷ [])) p, q)
]

-- Of the chunks, some were read whole, and then a part of one, which is not empty: the rest of it is in the buffer.
abbrev pub IsReached : List Bytes → Buffered → Type 0
IsReached chunks b =
    (front : List Bytes) × (last : Bytes) × (read : Bytes) × (chunks ≡ front ++ (last ∷ b.later))
    × (last ≡ read ++ b.buffer)
    × (read ≢ [])

more_read : (read line : Bytes) → (read ++ (line ++ (10 ∷ [])) ≢ [])
more_read [] [] e = absurd (ground (arith, e))
more_read [] (x ∷ line) e = absurd (ground (arith, e))
more_read (y ∷ read) line e = absurd (ground (arith, e))

cut_again :
    (read line buf behind : Bytes)
    → buf ≡ line ++ (10 ∷ behind)
    → read ++ buf ≡ (read ++ (line ++ (10 ∷ []))) ++ behind
cut_again read line buf behind g =
    ap (λ x. read ++ x) (g ∙ sym (append_assoc line (10 ∷ []) behind))
    ∙ sym (append_assoc read (line ++ (10 ∷ [])) behind)

-- A cut that finds its line end, from a buffer that is what is left of a chunk.
cut_line-IsReached :
    (front : List Bytes) (last read buf : Bytes) (later chunks : List Bytes) (l rest : Bytes)
    → All (λ c. c ≢ 10) l
    → buf ++ flatten later ≡ l ++ (10 ∷ rest)
    → chunks ≡ front ++ (last ∷ later)
    → last ≡ read ++ buf
    → IsReached chunks (cut_line buf later).1
unfolding cut_line flatten
cut_line-IsReached front last read buf [] chunks l rest h e c p =
    elim (Option-cases (split_once 10 buf)) [
      | inl f ↦ absurd (
          no_line l rest (
            subst (All (λ c. c ≢ 10)) (sym (append-nil buf) ∙ e)
              (subst (IsCut buf) f (split_once-IsCut buf))))
      | inr ((line, behind), f) ↦
          let (w, g) = subst (IsCut buf) f (split_once-IsCut buf) in
          rw (cut_line, f)
            (
              front,
              last,
              read ++ (line ++ (10 ∷ [])),
              c,
              p ∙ cut_again read line buf behind g,
              more_read read line,
            )
    ]
cut_line-IsReached front last read buf (chunk ∷ later) chunks l rest h e c p =
    elim (Option-cases (split_once 10 buf)) [
      | inl f ↦
          let (m, x, q) =
            line_part buf (chunk ++ flatten later) l rest
              (subst (IsCut buf) f (split_once-IsCut buf)) e in
          let next =
            cut_line-IsReached (front ++ (last ∷ [])) chunk [] chunk later chunks m rest
              (without_part buf m (subst (All (λ c. c ≢ 10)) x h)) q
              (c ∙ sym (append_assoc front (last ∷ []) (chunk ∷ later))) refl in
          rw (cut_line, f) next
      | inr ((line, behind), f) ↦
          let (w, g) = subst (IsCut buf) f (split_once-IsCut buf) in
          rw (cut_line, f)
            (
              front,
              last,
              read ++ (line ++ (10 ∷ [])),
              c,
              p ∙ cut_again read line buf behind g,
              more_read read line,
            )
    ]

read_line-IsRead :
    (b : Buffered) (l rest : Bytes)
    → All (λ c. c ≢ 10) l
    → IsAscii l
    → left_of b ≡ l ++ (10 ∷ rest)
    → (n : Buffered) × (read_line b ≡ ok (l ++ (10 ∷ []), n))
      × (left_of n ≡ rest)
      × (n ≡ (cut_line b.buffer b.later).1)
unfolding read_line checked_line
read_line-IsRead b l rest h a e =
    let (p, q) = cut_line-IsRead b.buffer b.later l rest h e in
    (
      (cut_line b.buffer b.later).1,
      rw
          (
            read_line,
            checked_line,
            p,
            from_utf8_ascii (l ++ (10 ∷ [])) (All-append _ l (10 ∷ []) a (ground arith, tt)),
          )
          (ap (λ x. ok (x, (cut_line b.buffer b.later).1)) p),
      q,
      refl,
    )

-- The same of a line that is read from where the chunks were reached.
read_on :
    (chunks : List Bytes) (b : Buffered) (l rest : Bytes)
    → All (λ c. c ≢ 10) l
    → IsAscii l
    → left_of b ≡ l ++ (10 ∷ rest)
    → IsReached chunks b
    → (n : Buffered) × (read_line b ≡ ok (l ++ (10 ∷ []), n))
      × (left_of n ≡ rest)
      × IsReached chunks n
read_on chunks b l rest h a e (front, last, read, c, p, z) =
    let (n, r, q, same) = read_line-IsRead b l rest h a e in
    (
      n,
      r,
      q,
      subst (IsReached chunks) (sym same)
          (cut_line-IsReached front last read b.buffer b.later chunks l rest h e c p),
    )

-- The first line is read from the first chunk on.
read_first :
    (chunks : List Bytes) (l rest : Bytes)
    → All (λ c. c ≢ 10) l
    → flatten chunks ≡ l ++ (10 ∷ rest)
    → IsReached chunks (cut_line [] chunks).1
unfolding flatten split_once cut_line
read_first [] l rest h e = absurd (no_line l rest (subst (All (λ c. c ≢ 10)) e tt))
read_first (chunk ∷ chunks) l rest h e =
    cut_line-IsReached [] chunk [] chunk chunks (chunk ∷ chunks) l rest h e refl refl

-- A line of the header, with what stands before its line feed.
abbrev pub IsHeader : Text → Type 0
IsHeader l = All (λ c. c ≢ 10) l × IsAscii l × (is_blank (l ++ (10 ∷ [])) ≡ false)

unfoldable pub header_bytes : List Text → Bytes
header_bytes [] = []
header_bytes (l ∷ ls) = l ++ (10 ∷ header_bytes ls)

header_bytes-le : (ls : List Text) → length ls ≤ length (header_bytes ls)
unfolding header_bytes
header_bytes-le [] = omega arith
header_bytes-le (l ∷ ls) =
    rw (length-append l (10 ∷ header_bytes ls)) (omega (arith, header_bytes-le ls))

skip_headers-done :
    (chunks : List Bytes) (fuel : ℕ) (ls : List Text) (b : Buffered) (rest : Bytes)
    → length ls < fuel
    → All IsHeader ls
    → left_of b ≡ header_bytes ls ++ (13 ∷ 10 ∷ rest)
    → IsReached chunks b
    → (n : Buffered) × (skip_headers fuel b ≡ ok n) × (left_of n ≡ rest) × IsReached chunks n
unfolding skip_headers header_bytes text_same
skip_headers-done chunks zero ls b rest f h e z = absurd (omega (arith, f))
skip_headers-done chunks (suc fuel) [] b rest f h e z =
    let (n, p, q, y) = read_on chunks b (13 ∷ []) rest (ground arith, tt) (ground arith, tt) e z in
    (n, rw (skip_headers, p) refl, q, y)
skip_headers-done chunks (suc fuel) (l ∷ ls) b rest f h e z =
    let (n, p, q, y) =
      read_on chunks b l (header_bytes ls ++ (13 ∷ 10 ∷ rest)) h.0.0 h.0.1
        (e ∙ append_assoc l (10 ∷ header_bytes ls) (13 ∷ 10 ∷ rest)) z in
    let (m, r, s, x) = skip_headers-done chunks fuel ls n rest (omega (arith, f)) h.1 q y in
    (m, rw (skip_headers, p, h.0.2) r, s, x)

enough_bytes :
    (status : Text) (ls : List Text) (rest : Bytes)
    → length ls < length (status ++ (10 ∷ (header_bytes ls ++ (13 ∷ 10 ∷ rest))))
enough_bytes status ls rest =
    rw
      (
        length-append status (10 ∷ (header_bytes ls ++ (13 ∷ 10 ∷ rest))),
        length-append (header_bytes ls) (13 ∷ 10 ∷ rest),
      )
      (omega (arith, header_bytes-le ls))

-- A proxy whose answer is an accepted status line, header lines and a blank line, in ASCII and cut into chunks anyhow, has its answer read to its end. What the connection still gives then are the chunks behind the one in which the answer ends: what the proxy sent behind the answer, without the part of it that came in that chunk.
pub connect_via_mitm_proxy-behind :
    (chunks : List Bytes) (status : Text) (ls : List Text) (rest : Bytes)
    → flatten chunks ≡ status ++ (10 ∷ (header_bytes ls ++ (13 ∷ 10 ∷ rest)))
    → IsHeader status
    → is_accepted (status ++ (10 ∷ [])) ≡ true
    → All IsHeader ls
    → (b : Buffered) × (connect_via_mitm_proxy chunks ≡ ok b.later)
      × (b.buffer ++ flatten b.later ≡ rest)
      × IsReached chunks b
unfolding connect_via_mitm_proxy behind_status
connect_via_mitm_proxy-behind chunks status ls rest e h a g =
    let after = header_bytes ls ++ (13 ∷ 10 ∷ rest) in
    let (b, p, q, same) =
      read_line-IsRead (record { buffer = []; later = chunks }) status after h.0 h.1 e in
    let z : IsReached chunks b =
      subst (IsReached chunks) (sym same) (read_first chunks status after h.0 e) in
    let size : length ls < length (flatten chunks) = rw e (enough_bytes status ls rest) in
    let (n, r, s, y) = skip_headers-done chunks (length (flatten chunks)) ls b rest size g q z in
    (n, rw (connect_via_mitm_proxy, p, behind_status, a, r) refl, s, y)
