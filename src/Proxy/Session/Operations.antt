-- ===== src/Proxy/Session/Operations.antt =====
-- src/proxy/session/inner.rs and stream.rs: each operation keeps the table in order.
use anytls_rs_legacy.Common.{
  ℕ, ◌+◌, ◌%◌, ◌^◌, ◌≡◌, ◌≢◌, refl, ◌∙◌, sym, inl, inr, true, false, ◌||◌, Option, none, some, List,
  [], ◌∷◌, map, arith, length, leb, ◌==◌, nat_key, Bool-cases, Option-cases, IoError, Result, ok,
  err,
}
use anytls_rs_legacy.Common.Bytes.{Bytes}
use anytls_rs_legacy.Common.Map.{lookup, lookup-insert, lookup-remove}
use anytls_rs_legacy.Core.Frame.{Frame, syn, fin, new_frame}
use anytls_rs_legacy.Proxy.Session.{
  insert_incoming, put_stream, keep_or_remove, Stream, Session, is_terminated, write_frame,
  add_stream, remove_stream, close_from_peer, announce_syn, open_stream, create_incoming_stream,
  close_all, terminate_session_wide, push_to, push_stream_data, close_stream, run_closing,
}
use anytls_rs_legacy.Proxy.Session.Table.{
  IsTable, other-IsTable, write_frame-IsTable, add_stream-IsTable, remove_stream-IsTable,
  store-IsTable, Outside, put-Outside, close_from_peer-IsTable, remove_stream-Outside,
}

write_frame-streams : (s : Session) (f : Frame) → (write_frame s f).0.streams ≡ s.streams
unfolding write_frame
write_frame-streams s f = ground arith

-- A failed SYN takes the stream back before it closes it.
pub keep_or_remove-IsTable :
    (s : Session) (sid h : ℕ) (r : Result ℕ)
    → IsTable s
    → lookup sid s.streams ≡ some h
    → IsTable (keep_or_remove s sid h r).0
unfolding keep_or_remove
keep_or_remove-IsTable s sid h (ok n) i e = i
keep_or_remove-IsTable s sid h (err x) i e =
    close_from_peer-IsTable (remove_stream s sid).0 h _ (remove_stream-Outside s sid h i e)
      (remove_stream-IsTable s sid i)

pub announce_syn-IsTable :
    (s : Session) (sid : ℕ)
    → sid ≢ 0
    → s.closed ≡ false
    → IsTable s
    → IsTable (announce_syn (add_stream s sid) sid).0
unfolding announce_syn
announce_syn-IsTable s sid z c i =
    let t = (add_stream s sid).0 in
    let same = write_frame-streams t (new_frame syn sid) in
    let here : lookup sid t.streams ≡ some s.next_handle =
      unfold add_stream in ground (arith, lookup-insert sid sid s.next_handle s.streams) in
    keep_or_remove-IsTable (write_frame t (new_frame syn sid)).0 sid (add_stream s sid).1
      (write_frame t (new_frame syn sid)).1
      (write_frame-IsTable t (new_frame syn sid) (add_stream-IsTable s sid z i))
      (rw same (unfold add_stream in here))

pub open_stream-IsTable : (s : Session) (max : ℕ) → IsTable s → IsTable (open_stream s max).0
unfolding open_stream
open_stream-IsTable s max i =
    let sid = (s.next_stream_id + 1) % 2 ^ 32 in
    let t = record s { next_stream_id = sid } in
    let j : IsTable t = record { idle_exact = i.idle_exact; entries = i.entries } in
    elim (Bool-cases (is_terminated s)) [
      | inl e ↦ simp e i
      | inr e ↦ elim (Bool-cases (leb max (length s.streams))) [
        | inl f ↦ simp (e, f) i
        | inr f ↦ elim (Bool-cases (sid == 0)) [
          | inl g ↦ simp (e, f, g) j
          | inr g ↦ simp (e, f, g) (announce_syn-IsTable t sid (ground arith) (ground arith) j)
        ]
      ]
    ]

pub insert_incoming-IsTable :
    (s : Session) (sid : ℕ) → sid ≢ 0 → IsTable s → IsTable (insert_incoming s sid).0
unfolding insert_incoming
insert_incoming-IsTable s sid z i = elim (Option-cases (lookup sid s.streams)) [
  | inl f ↦
      let j = add_stream-IsTable s sid z i in
      rw (insert_incoming, f) (record { idle_exact = j.idle_exact; entries = j.entries })
  | inr (h, f) ↦ rw (insert_incoming, f) i
]

pub create_incoming_stream-IsTable :
    (s : Session) (sid : ℕ) → IsTable s → IsTable (create_incoming_stream s sid).0
unfolding create_incoming_stream
create_incoming_stream-IsTable s sid i = elim (Bool-cases (sid == 0 || is_terminated s)) [
  | inl e ↦ simp e i
  | inr e ↦ simp e (insert_incoming-IsTable s sid (ground (arith, e)) i)
]

close_from_peer-streams :
    (s : Session) (h : ℕ) (error : Option IoError) → (close_from_peer s h error).streams ≡ s.streams
unfolding close_from_peer
close_from_peer-streams s h error = ground arith

pub close_all-IsTable :
    (s : Session) (hs : List ℕ) → IsTable s → s.streams ≡ [] → IsTable (close_all s hs)
unfolding close_all
close_all-IsTable s [] i e = i
close_all-IsTable s (h ∷ hs) i e =
    let out : Outside h s = λ sid q. absurd (unfold lookup in ground arith) in
    close_all-IsTable (close_from_peer s h none) hs (close_from_peer-IsTable s h none out i)
      (close_from_peer-streams s h none ∙ e)

pub terminate-IsTable : (s : Session) → IsTable s → IsTable (terminate_session_wide s)
unfolding terminate_session_wide
terminate-IsTable s i = elim (Bool-cases s.closed) [
  | inl c ↦ simp c i
  | inr c ↦
      let none_left : IsTable (record s { closed = true; streams = []; idle = true }) = record {
        idle_exact = refl;
        entries = λ k h e. absurd (unfold lookup in ground arith);
      } in
      simp c (close_all-IsTable _ (map (λ e. e.1) s.streams) none_left refl)
]

-- A change to a stream that keeps it open and keeps its identifier.
pub put_same-IsTable :
    (s : Session) (h : ℕ) (t : Stream)
    → t.id ≡ (s.store h).id
    → t.closed ≡ (s.store h).closed
    → IsTable s
    → IsTable (record s { store = put_stream h t s.store })
put_same-IsTable s h t same still i =
    store-IsTable s (put_stream h t s.store) i (λ k j e. ground arith)

pub push_to-IsTable : (s : Session) (h : ℕ) (b : Bytes) → IsTable s → IsTable (push_to s h b).0
unfolding push_to
push_to-IsTable s h b i = elim (Bool-cases (s.store h).closed) [
  | inl c ↦ simp c i
  | inr c ↦ simp c (put_same-IsTable s h _ refl (sym c) i)
]

pub push_stream_data-IsTable :
    (s : Session) (sid : ℕ) (b : Bytes) → IsTable s → IsTable (push_stream_data s sid b).0
unfolding push_stream_data
push_stream_data-IsTable s sid b i = elim (Option-cases (lookup sid s.streams)) [
  | inl f ↦ rw (f, push_stream_data) i
  | inr (h, f) ↦ rw (f, push_stream_data) (push_to-IsTable s h b i)
]

pub remove_own-Outside :
    (s : Session) (h : ℕ) → IsTable s → Outside h (remove_stream s (s.store h).id).0
unfolding remove_stream
remove_own-Outside s h i k e =
    ground (arith, lookup-remove (s.store h).id k s.streams, i.entries k h)

pub close_stream-IsTable : (s : Session) (h : ℕ) → IsTable s → IsTable (close_stream s h).0
unfolding close_stream
close_stream-IsTable s h i = elim (Bool-cases (s.store h).closed) [
  | inl c ↦ simp c i
  | inr c ↦
      let t = record (s.store h) { closed = true } in
      let u = (remove_stream s t.id).0 in
      let j : IsTable (record u { store = put_stream h t u.store }) =
        put-Outside u h t (remove_own-Outside s h i) (remove_stream-IsTable s t.id i) in
      let k = other-IsTable _ u.announced (h ∷ u.closing) u.sent j in
      simp c (write_frame-IsTable _ (new_frame fin t.id) (unfold remove_stream in k))
]

pub run_closing-IsTable : (s : Session) → IsTable s → IsTable (run_closing s)
unfolding run_closing
run_closing-IsTable s i = go s.closing refl
  where
    go : (hs : List ℕ) → s.closing ≡ hs → IsTable (run_closing s)
    go [] e = rw (e, run_closing) i
    go (h ∷ hs) e =
        rw (e, run_closing)
          (other-IsTable _ s.announced hs s.sent (put_same-IsTable s h _ refl refl i))
