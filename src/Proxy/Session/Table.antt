-- ===== src/Proxy/Session/Table.antt =====
-- src/proxy/session/inner.rs: the invariant of the table of streams, and the steps that keep it.
use anytls_rs_legacy.Common.{
  ℕ, ◌<◌, ◌≡◌, ◌≢◌, refl, sym, inl, inr, true, false, Option, none, some, List, [], ◌∷◌, arith,
  ◌==◌, nat_key, Bool-cases, IoError,
}
use anytls_rs_legacy.Common.Map.{Map, lookup, insert, remove, lookup-insert, lookup-remove}
use anytls_rs_legacy.Core.Frame.{Frame}
use anytls_rs_legacy.Proxy.Session.{
  put_stream, Stream, Store, Session, new_session, write_frame, is_empty_map, add_stream,
  remove_stream, close_from_peer, close_removed,
}

-- A stream of the table is open, and the table's identifier is its own and is not zero.
abbrev pub IsEntry : Session → ℕ → ℕ → Type 0
IsEntry s sid h =
    ((s.store h).id ≡ sid) × ((s.store h).closed ≡ false) × (h < s.next_handle) × (sid ≢ 0)

-- The table holds open streams only; the session is idle exactly when there are none.
pub record IsTable (s : Session) : Type 0 where
  pub idle_exact : s.idle ≡ is_empty_map s.streams
  pub entries : (sid h : ℕ) → lookup sid s.streams ≡ some h → IsEntry s sid h

pub new_session-IsTable : IsTable new_session
unfolding lookup
new_session-IsTable = record { idle_exact = refl; entries = λ sid h e. absurd (ground arith) }

is_empty-insert : (sid h : ℕ) (m : Map ℕ ℕ) → is_empty_map (insert sid h m) ≡ false
unfolding insert
is_empty-insert sid h [] = refl
is_empty-insert sid h ((k, v) ∷ m) = ground arith

is_empty-remove :
    (sid : ℕ) (m : Map ℕ ℕ) → is_empty_map m ≡ true → is_empty_map (remove sid m) ≡ true
unfolding remove
is_empty-remove sid [] e = refl
is_empty-remove sid (x ∷ m) e = absurd (ground arith)

-- Changes that leave the table alone.
pub other-IsTable :
    (s : Session) (next sid : List ℕ) (frames : List Frame)
    → IsTable s
    → IsTable (record s { sent = frames; announced = next; closing = sid })
other-IsTable s next sid frames i = record { idle_exact = i.idle_exact; entries = i.entries }

pub write_frame-IsTable : (s : Session) (f : Frame) → IsTable s → IsTable (write_frame s f).0
unfolding write_frame
write_frame-IsTable s f i = record {
  idle_exact = ground (arith, i.idle_exact);
  entries = λ k h e. ground (arith, i.entries k h);
}

pub add_stream-IsTable :
    (s : Session) (sid : ℕ) → sid ≢ 0 → IsTable s → IsTable (add_stream s sid).0
unfolding add_stream
add_stream-IsTable s sid z i = record {
  idle_exact = sym (is_empty-insert sid s.next_handle s.streams);
  entries = λ k h e. ground (arith, lookup-insert sid k s.next_handle s.streams, i.entries k h);
}

pub remove_stream-IsTable : (s : Session) (sid : ℕ) → IsTable s → IsTable (remove_stream s sid).0
unfolding remove_stream
remove_stream-IsTable s sid i = record {
  idle_exact = ground (arith, i.idle_exact, is_empty-remove sid s.streams);
  entries = λ k h e. ground (arith, lookup-remove sid k s.streams, i.entries k h);
}

-- Another store in which the streams of the table have the same identifiers and are open still.
pub store-IsTable :
    (s : Session) (f : Store)
    → IsTable s
    → ((sid h : ℕ)
        → lookup sid s.streams ≡ some h
        → ((f h).id ≡ (s.store h).id) × ((f h).closed ≡ (s.store h).closed))
    → IsTable (record s { store = f })
store-IsTable s f i same = record {
  idle_exact = i.idle_exact;
  entries = λ k h e. ground (arith, i.entries k h, same k h);
}

-- No stream of the table has the handle.
abbrev pub Outside : ℕ → Session → Type 0
Outside h s = (sid : ℕ) → lookup sid s.streams ≢ some h

pub put-Outside :
    (s : Session) (h : ℕ) (t : Stream)
    → Outside h s
    → IsTable s
    → IsTable (record s { store = put_stream h t s.store })
put-Outside s h t out i = store-IsTable s (put_stream h t s.store) i (λ k j e.
    elim (Bool-cases (j == h)) [
      | inl q ↦ absurd (ground (arith, out k))
      | inr q ↦ rw q (refl, refl)
    ])

pub close_from_peer-IsTable :
    (s : Session) (h : ℕ) (error : Option IoError)
    → Outside h s
    → IsTable s
    → IsTable (close_from_peer s h error)
unfolding close_from_peer
close_from_peer-IsTable s h error out i = elim (Bool-cases (s.store h).closed) [
  | inl c ↦ rw (c, close_from_peer) i
  | inr c ↦ rw (c, close_from_peer) (put-Outside s h _ out i)
]

pub remove_stream-Outside :
    (s : Session) (sid h : ℕ)
    → IsTable s
    → lookup sid s.streams ≡ some h
    → Outside h (remove_stream s sid).0
unfolding remove_stream
remove_stream-Outside s sid h i e k f =
    ground (arith, lookup-remove sid k s.streams, i.entries sid h, i.entries k h)

pub close_removed-IsTable :
    (s : Session) (sid : ℕ) (o : Option ℕ) (error : Option IoError)
    → IsTable s
    → lookup sid s.streams ≡ o
    → IsTable (close_removed ((remove_stream s sid).0, o) error)
unfolding close_removed
close_removed-IsTable s sid none error i e = remove_stream-IsTable s sid i
close_removed-IsTable s sid (some h) error i e =
    close_from_peer-IsTable (remove_stream s sid).0 h error (remove_stream-Outside s sid h i e)
      (remove_stream-IsTable s sid i)
