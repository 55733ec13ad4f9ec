-- ===== src/Proxy/Pipe/Order.antt =====
-- src/proxy/pipe/io_pipe.rs: bytes come out in the order in which they went in, whatever the steps of
-- readers, writers and closers are, and the end comes after all of them.
use anytls_rs_legacy.Common.{
  ℕ, ◌≡◌, refl, ◌∙◌, sym, ap, inl, inr, Option, none, some, List, [], ◌∷◌, ◌++◌, arith, take, drop,
  append-nil, append_assoc, take-append-drop, Bool-cases, IoError, Result, ok, err,
}
use anytls_rs_legacy.Common.Bytes.{Bytes}
use anytls_rs_legacy.Proxy.Pipe.{
  PipeEvent, bytes, stream_end, PipeInner, new_pipe, write, finish_stream, close_with_error, Look,
  returned, waiting, proceeding, look, take_receiver, Received, event, nothing, recv, finish_read,
  end_result,
}

-- Where the reader of a pipe is in its `read`, and the size of its buffer.
pub data Phase : Type 0 where
  idle : Phase
  looked waits : ℕ → Phase

-- A pipe with what its writers had taken, what its reader has got, and where that reader is.
pub record History : Type 0 where
  pub pipe : PipeInner
  pub accepted : Bytes
  pub got : Bytes
  pub phase : Phase

abbrev pub start : History
start = record { pipe = new_pipe; accepted = []; got = []; phase = idle }

abbrev gained : Result Bytes → Bytes
gained (ok b) = b
gained (err e) = []

abbrev taken : Result ℕ → Bytes → Bytes
taken (ok n) b = b
taken (err e) b = []

-- The steps of all tasks. Those of the reader are the parts of one `read` after another; an `arrive`
-- is the end of its wait on the channel, an `expire` its deadline. A step that its phase does not
-- allow does nothing.
pub data Step : Type 0 where
  writes : Bytes → Step
  finishes closes : Option IoError → Step
  begin : ℕ → Step
  takes arrive expire : Step

abbrev pub returns : History → PipeInner × Result Bytes → History
returns h (p, r) = record h { pipe = p; got = h.got ++ gained r; phase = idle }

abbrev pub begun : History → ℕ → PipeInner × Look → History
begun h n (p, returned r) = returns h (p, r)
begun h n (p, waiting) = record h { pipe = p; phase = idle }
begun h n (p, proceeding) = record h { pipe = p; phase = looked n }

abbrev pub took : History → ℕ → PipeInner × Result (Unit {0}) → History
took h n (p, ok _) = record h { pipe = p; phase = waits n }
took h n (p, err e) = record h { pipe = p; phase = idle }

abbrev pub arrived : History → ℕ → Option (PipeInner × Received) → History
arrived h n none = h
arrived h n (some (q, got)) = returns h (finish_read n q got)

unfoldable pub reader_step : History → Step → Phase → History
reader_step h (begin n) idle = begun h n (look n h.pipe)
reader_step h takes (looked n) = took h n (take_receiver h.pipe)
reader_step h arrive (waits n) = arrived h n (recv h.pipe)
reader_step h expire (waits n) = returns h (finish_read n h.pipe nothing)
reader_step h _ _ = h

unfoldable pub step : History → Step → History
step h (writes b) =
    let (p, r) = write h.pipe b in record h { pipe = p; accepted = h.accepted ++ taken r b }
step h (finishes e) = record h { pipe = finish_stream h.pipe e }
step h (closes e) = record h { pipe = close_with_error h.pipe e }
step h s = reader_step h s h.phase

unfoldable pub steps : History → List Step → History
steps h [] = h
steps h (s ∷ ss) = steps (step h s) ss

-- The bytes in the channel.
unfoldable pub queued : List PipeEvent → Bytes
queued [] = []
queued (bytes b ∷ es) = b ++ queued es
queued (stream_end e ∷ es) = queued es

queued-snoc : (es : List PipeEvent) (b : Bytes) → queued (es ++ (bytes b ∷ [])) ≡ queued es ++ b
unfolding queued
queued-snoc [] b = append-nil b
queued-snoc (bytes c ∷ es) b = rw (queued-snoc es b) (sym (append_assoc c (queued es) b))
queued-snoc (stream_end e ∷ es) b = queued-snoc es b

queued-snoc_end :
    (es : List PipeEvent) (e : Option IoError) → queued (es ++ (stream_end e ∷ [])) ≡ queued es
unfolding queued
queued-snoc_end [] e = refl
queued-snoc_end (bytes c ∷ es) e = rw (queued-snoc_end es e)
queued-snoc_end (stream_end f ∷ es) e = queued-snoc_end es e

abbrev Holds : Phase → Bytes → Type 0
Holds idle b = Unit {0}
Holds (looked n) b = b ≡ []
Holds (waits n) b = b ≡ []

-- Nothing is lost, doubled or swapped, and while the reader waits nothing is left in the buffer.
pub record IsOrdered (h : History) : Type 0 where
  pub kept : h.accepted ≡ h.got ++ (h.pipe.buffer ++ queued h.pipe.queue)
  pub holds : Holds h.phase h.pipe.buffer

write-buffer :
    (p : PipeInner) (b : Bytes)
    → let (q, r) = write p b in
      (q.buffer ≡ p.buffer) × (queued q.queue ≡ queued p.queue ++ taken r b)
unfolding write
write-buffer p b = ground (arith, queued-snoc p.queue b, append-nil (queued p.queue))

finish-buffer :
    (p : PipeInner) (e : Option IoError)
    → let q = finish_stream p e in (q.buffer ≡ p.buffer) × (queued q.queue ≡ queued p.queue)
unfolding finish_stream
finish-buffer p e = ground (arith, queued-snoc_end p.queue e)

regroup : (a b c d : Bytes) → (a ++ (b ++ c)) ++ d ≡ a ++ (b ++ (c ++ d))
regroup a b c d = append_assoc a (b ++ c) d ∙ ap (◌++◌ a) (append_assoc b c d)

returns-IsOrdered :
    (h : History) (q : PipeInner) (r : Result Bytes)
    → h.accepted ≡ (h.got ++ gained r) ++ (q.buffer ++ queued q.queue)
    → IsOrdered (returns h (q, r))
returns-IsOrdered h q r e = record { kept = e; holds = tt }

gained-end_result : (e : Option IoError) → gained (end_result e) ≡ []
gained-end_result none = refl
gained-end_result (some e) = refl

abbrev seen : Look → Bytes
seen (returned r) = gained r
seen waiting = []
seen proceeding = []

look-kept :
    (n : ℕ) (p : PipeInner) (b : Bytes)
    → p.buffer ≡ b
    → let (q, l) = look n p in
      (seen l ++ (q.buffer ++ queued q.queue) ≡ b ++ queued p.queue)
      × (l ≡ proceeding → q.buffer ≡ [])
unfolding look
look-kept n p [] e = rw (e, look) (ground (arith, gained-end_result p.read_error))
look-kept n p (c ∷ cs) e =
    rw (e, look)
      (
        sym (append_assoc (take n (c ∷ cs)) (drop n (c ∷ cs)) (queued p.queue))
            ∙ rw (take-append-drop n (c ∷ cs)),
        λ k. cc,
      )

begun-IsOrdered :
    (h : History) (n : ℕ) (q : PipeInner) (l : Look)
    → h.accepted ≡ h.got ++ (seen l ++ (q.buffer ++ queued q.queue))
    → (l ≡ proceeding → q.buffer ≡ [])
    → IsOrdered (begun h n (q, l))
begun-IsOrdered h n q (returned r) e f = record {
  kept = e ∙ sym (append_assoc h.got (gained r) (q.buffer ++ queued q.queue));
  holds = tt;
}
begun-IsOrdered h n q waiting e f = record { kept = e; holds = tt }
begun-IsOrdered h n q proceeding e f = record { kept = e; holds = f refl }

take-IsOrdered :
    (h : History) (n : ℕ)
    → IsOrdered h
    → h.pipe.buffer ≡ []
    → IsOrdered (took h n (take_receiver h.pipe))
unfolding take_receiver
take-IsOrdered h n o e = elim (Bool-cases h.pipe.receiver) [
  | inl r ↦ rw r (record { kept = o.kept; holds = e })
  | inr r ↦ rw r (record { kept = o.kept; holds = tt })
]

-- What the end of a wait leaves: the event's bytes, cut in two.
abbrev arriving : Received → Bytes
arriving (event (bytes b)) = b
arriving (event (stream_end e)) = []
arriving nothing = []

finish_read-kept :
    (n : ℕ) (p : PipeInner) (got : Received)
    → p.buffer ≡ []
    → let (q, r) = finish_read n p got in
      gained r ++ (q.buffer ++ queued q.queue) ≡ arriving got ++ queued p.queue
unfolding finish_read
finish_read-kept n p (event (bytes b)) e =
    rw (e, finish_read)
      (sym (append_assoc (take n b) (drop n b) (queued p.queue)) ∙ rw (take-append-drop n b))
finish_read-kept n p (event (stream_end x)) e = rw (gained-end_result x, e)
finish_read-kept n p nothing e = ground arith

queued-arriving :
    (e : PipeEvent) (es : List PipeEvent) → queued (e ∷ es) ≡ arriving (event e) ++ queued es
unfolding queued
queued-arriving (bytes b) es = refl
queued-arriving (stream_end x) es = refl

returns-finish_read :
    (h : History) (n : ℕ) (p : PipeInner) (got : Received)
    → p.buffer ≡ []
    → h.accepted ≡ h.got ++ (arriving got ++ queued p.queue)
    → IsOrdered (returns h (finish_read n p got))
returns-finish_read h n p got e k =
    let (q, r) = finish_read n p got in
    returns-IsOrdered h q r (
      k
      ∙ ap (◌++◌ h.got) (sym (finish_read-kept n p got e))
      ∙ sym (append_assoc h.got (gained r) (q.buffer ++ queued q.queue)))

arrived-IsOrdered :
    (h : History) (n : ℕ) (es : List PipeEvent)
    → h.pipe.queue ≡ es
    → IsOrdered h
    → h.accepted ≡ h.got ++ queued es
    → h.pipe.buffer ≡ []
    → IsOrdered (arrived h n (recv h.pipe))
unfolding recv
arrived-IsOrdered h n [] e o k f = elim (Bool-cases h.pipe.sender) [
  | inl s ↦
      let pending : recv h.pipe ≡ none = unfold recv in rw (e, recv) (rw (s, recv) refl) in
      rw pending o
  | inr s ↦
      let over : recv h.pipe ≡ some (h.pipe, nothing) = ground arith in
      rw over (returns-finish_read h n h.pipe nothing f (rw e k))
]
arrived-IsOrdered h n (x ∷ es) e o k f =
    rw (e, recv)
      (returns-finish_read h n (record h.pipe { queue = es }) (event x) f
        (k ∙ ap (◌++◌ h.got) (queued-arriving x es)))

reader_step-IsOrdered :
    (h : History) (s : Step) (phase : Phase)
    → IsOrdered h
    → Holds phase h.pipe.buffer
    → IsOrdered (reader_step h s phase)
unfolding reader_step
reader_step-IsOrdered h (begin n) idle o k =
    let (same, empty) = look-kept n h.pipe h.pipe.buffer refl in
    begun-IsOrdered h n (look n h.pipe).0 (look n h.pipe).1 (o.kept ∙ ap (◌++◌ h.got) (sym same))
      empty
reader_step-IsOrdered h takes (looked n) o k = take-IsOrdered h n o k
reader_step-IsOrdered h arrive (waits n) o k =
    arrived-IsOrdered h n h.pipe.queue refl o (o.kept ∙ (rw k)) k
reader_step-IsOrdered h expire (waits n) o k =
    returns-finish_read h n h.pipe nothing k (o.kept ∙ (rw k))
reader_step-IsOrdered h _ _ o k = o

step-IsOrdered : (h : History) (s : Step) → IsOrdered h → IsOrdered (step h s)
unfolding step reader_step
step-IsOrdered h (writes b) o =
    let (same, more) = write-buffer h.pipe b in
    record {
      kept =
          rw (same, more)
            (ap (λ x. x ++ taken (write h.pipe b).1 b) o.kept ∙ regroup h.got h.pipe.buffer _ _);
      holds = rw same o.holds;
    }
step-IsOrdered h (finishes e) o =
    let (same, more) = finish-buffer h.pipe e in
    record { kept = rw (same, more) o.kept; holds = rw same o.holds }
step-IsOrdered h (closes e) o = unfold close_with_error in record { kept = o.kept; holds = o.holds }
step-IsOrdered h (begin n) o = reader_step-IsOrdered h (begin n) h.phase o o.holds
step-IsOrdered h takes o = reader_step-IsOrdered h takes h.phase o o.holds
step-IsOrdered h arrive o = reader_step-IsOrdered h arrive h.phase o o.holds
step-IsOrdered h expire o = reader_step-IsOrdered h expire h.phase o o.holds

steps-IsOrdered : (h : History) (ss : List Step) → IsOrdered h → IsOrdered (steps h ss)
unfolding steps
steps-IsOrdered h [] o = o
steps-IsOrdered h (s ∷ ss) o = steps-IsOrdered (step h s) ss (step-IsOrdered h s o)

-- Whatever the writers, the closers and one reader do, in whatever order their steps run, what the
-- writers handed in is what the reader got, then what the buffer holds, then what the channel holds.
pub steps-kept :
    (ss : List Step)
    → let h = steps start ss in h.accepted ≡ h.got ++ (h.pipe.buffer ++ queued h.pipe.queue)
steps-kept ss =
    (steps-IsOrdered start ss (record { kept = unfold queued in refl; holds = tt })).kept
