-- ===== src/Transport/Recording/Reading.antt =====
-- src/transport/recording.cpp: a recording is read entry by entry, up to where it was cut off.
use mathlib.Core.List.{append_assoc, append-nil}
use puppet_master.Base.{
  ℕ, zero, suc, ◌+◌, ◌≤◌, ◌<◌, String, List, [], ◌∷◌, ◌++◌, length, length-append, length-snoc,
  Option, none, some, not, Bool-cases, inl, inr, ◌==◌, arith, ◌≡◌, refl, ◌∙◌,
}
use puppet_master.Base.Int.{pos}
use puppet_master.Core.Status.{ok_status}
use puppet_master.Core.Result.{value}
use puppet_master.Transport.Recording.Types.{RecordedTopic}
use puppet_master.Transport.Recording.Reader.{Reader, find_topic, decode_topic, next_loop, next}
use puppet_master.Transport.Recording.ReadAll.{Readout, collect, read_all}
use puppet_master.Transport.Recording.Entries.{
  Entry, topic_entry, message_entry, kind_of, body_bytes, record_bytes, entry_bytes, bytes_of,
  messages_of, topics_of, Fits, AllFit, Torn,
}
use puppet_master.Transport.Recording.Framing.{
  reader_at, length-record_bytes, read_record-record_bytes, read_record-Torn,
}
use puppet_master.Transport.Recording.Decoding.{read_topic-body_bytes, decode_message-body_bytes}

-- Topics numbered from `i` on.
abbrev pub Numbered : ℕ → List RecordedTopic → Type 0
Numbered i [] = Unit
Numbered i (t ∷ ts) = (t.id ≡ i) × Numbered (suc i) ts

find_topic-Numbered :
    (k i : ℕ) (ts : List RecordedTopic)
    → Numbered i ts
    → i ≤ k
    → k < i + length ts
    → (t : RecordedTopic) × (find_topic k ts ≡ some t)
unfolding find_topic
find_topic-Numbered k i [] h lo hi = absurd (omega arith)
find_topic-Numbered k i (t ∷ ts) (h, hs) lo hi = elim (Bool-cases (t.id == k)) [
  | inl here ↦ (t, rw here refl)
  | inr other ↦ rw other (find_topic-Numbered k (suc i) ts hs (ground arith) (omega arith))
]

find_topic-fresh :
    (k i : ℕ) (ts : List RecordedTopic) → Numbered i ts → i + length ts ≤ k → find_topic k ts ≡ none
unfolding find_topic
find_topic-fresh k i [] h hi = refl
find_topic-fresh k i (t ∷ ts) (h, hs) hi =
    ground (arith, find_topic-fresh k (suc i) ts hs (omega arith))

Numbered-snoc :
    (i : ℕ) (ts : List RecordedTopic) (t : RecordedTopic)
    → Numbered i ts
    → t.id ≡ i + length ts
    → Numbered i (ts ++ t ∷ [])
Numbered-snoc i [] t h e = (omega (arith, e), tt)
Numbered-snoc i (u ∷ ts) t (h, hs) e = (h, Numbered-snoc (suc i) ts t hs (omega (arith, e)))

decode_topic_lem :
    (t : RecordedTopic) (r : Reader)
    → Fits (length r.topics) (topic_entry t)
    → Numbered 1 r.topics
    → decode_topic (body_bytes (topic_entry t)) r
      ≡ (record r { topics = r.topics ++ t ∷ [] }, ok_status)
unfolding decode_topic
decode_topic_lem t r (id, id_fits, v, small) numbered =
    rw
      (
        read_topic-body_bytes t (omega (arith, id, id_fits)) v small,
        decode_topic,
        find_topic-fresh t.id 1 r.topics numbered (omega (arith, id)),
      )
      (ground (arith, id))

-- A record takes eight bytes at least.
pub length-bytes_of : (es : List Entry) → length es ≤ length (bytes_of es)
unfolding bytes_of
length-bytes_of [] = omega arith
length-bytes_of (e ∷ es) = omega (
  arith,
  length-append (entry_bytes e) (bytes_of es),
  length-record_bytes (kind_of e) (body_bytes e),
  length-bytes_of es,
)

module _ (path : String) (size : ℕ) where
  abbrev pub at : List RecordedTopic → ℕ → List ℕ → Reader
  at = reader_at path size

  next_loop-topic :
      (topics : List RecordedTopic) (position : ℕ) (t : RecordedTopic) (rest : List ℕ) (f : ℕ)
      → Fits (length topics) (topic_entry t)
      → Numbered 1 topics
      → position + length (entry_bytes (topic_entry t) ++ rest) ≡ size
      → next_loop (suc f) (at topics position (entry_bytes (topic_entry t) ++ rest))
        ≡ next_loop f
            (at (topics ++ t ∷ []) (position + 8 + length (body_bytes (topic_entry t))) rest)
  unfolding next_loop
  next_loop-topic topics position t rest f (id, id_fits, v, small) numbered hs =
      let decoded =
        decode_topic_lem t (at topics (position + 8 + length (body_bytes (topic_entry t))) rest)
          (id, id_fits, v, small) numbered in
      rw
        (
          read_record-record_bytes path size topics position 1 (body_bytes (topic_entry t)) rest
              (omega arith) small hs,
          next_loop,
          decoded,
          decoded,
        )
        refl

  next_loop-message :
      (topics : List RecordedTopic) (position topic time sequence : ℕ) (payload rest : List ℕ)
      (f : ℕ)
      → let e = message_entry topic time sequence payload in
        Fits (length topics) e
        → Numbered 1 topics
        → position + length (entry_bytes e ++ rest) ≡ size
        → next_loop (suc f) (at topics position (entry_bytes e ++ rest))
          ≡ some (
            at topics (position + 8 + length (body_bytes e)) rest,
            value (
                some (record {
                  topic = topic;
                  time = pos time;
                  sequence = sequence;
                  payload = payload;
                })),
          )
  unfolding next_loop
  next_loop-message topics position topic time sequence payload rest f (lo, hi, fits, ht, hq, small)
        numbered hs =
      let body = body_bytes (message_entry topic time sequence payload) in
      let (t, found) = find_topic-Numbered topic 1 topics numbered (omega arith) (omega arith) in
      rw
        (
          read_record-record_bytes path size topics position 2 body rest (omega arith) small hs,
          next_loop,
          decode_message-body_bytes topic time sequence payload
              (reader_at path size topics (position + 8 + length body) rest) (omega arith) ht hq
              found,
        )
        refl

  next_loop-Torn :
      (topics : List RecordedTopic) (position : ℕ) (junk : List ℕ) (f : ℕ)
      → Torn junk
      → position + length junk ≡ size
      → (r : Reader) × (next_loop (suc f) (at topics position junk) ≡ some (r, value none))
        × (r.topics ≡ topics)
        × (r.truncated ≡ not (length junk == 0))
  unfolding next_loop
  next_loop-Torn topics position junk f torn hs =
      let (r, e, et, ec) = read_record-Torn path size topics position junk torn hs in
      (r, rw (e, next_loop) refl, et, ec)

  advance :
      (topics : List RecordedTopic) (position kind : ℕ) (body rest : List ℕ)
      → position + length (record_bytes kind body ++ rest) ≡ size
      → position + 8 + length body + length rest ≡ size
  advance topics position kind body rest h =
      omega (arith, h, length-append (record_bytes kind body) rest, length-record_bytes kind body)

  pub read_all-suc :
      (g : ℕ) (topics : List RecordedTopic) (position : ℕ) (input : List ℕ)
      → let r = at topics position input in
        read_all (suc g) r ≡ collect (read_all g) (next_loop (suc (length input)) r)
  unfolding read_all next
  read_all-suc g topics position input = refl

  abbrev pub Reads : List Entry → List RecordedTopic → List ℕ → Option Readout → Type 0
  Reads es topics junk outcome =
      (r : Reader) × (outcome ≡ some (messages_of es, r, ok_status))
      × (r.topics ≡ topics ++ topics_of es)
      × (r.truncated ≡ not (length junk == 0))

  pub collect-entries :
      (es : List Entry) (topics : List RecordedTopic) (position : ℕ) (junk : List ℕ) (f g : ℕ)
      → AllFit (length topics) es
      → Numbered 1 topics
      → Torn junk
      → position + length (bytes_of es ++ junk) ≡ size
      → length es < f
      → length es ≤ g
      → Reads es topics junk
          (collect (read_all g) (next_loop f (at topics position (bytes_of es ++ junk))))
  unfolding bytes_of messages_of topics_of collect
  collect-entries es topics position junk zero g fit numbered torn hs hf hg = absurd (omega arith)
  collect-entries [] topics position junk (suc f) g fit numbered torn hs hf hg =
      let (r, e, et, ec) = next_loop-Torn topics position junk f torn hs in
      (r, rw (e, collect) refl, rw append-nil et, ec)
  collect-entries (topic_entry t ∷ es) topics position junk (suc f) g (fit, fits) numbered torn hs
        hf hg =
      let rest = bytes_of es ++ junk in
      let body = body_bytes (topic_entry t) in
      let hs' : position + length (entry_bytes (topic_entry t) ++ rest) ≡ size =
        rw (append_assoc (entry_bytes (topic_entry t)) (bytes_of es) junk) at hs in
      let ih =
        collect-entries es (topics ++ t ∷ []) (position + 8 + length body) junk f g
          (rw (length-snoc topics t) fits)
          (Numbered-snoc 1 topics t numbered (omega (arith, fit.0))) torn
          (advance topics position 1 body rest hs') (omega arith) (omega arith) in
      rw
        (
          append_assoc (entry_bytes (topic_entry t)) (bytes_of es) junk,
          next_loop-topic topics position t rest f fit numbered hs',
        )
        (let (r, e, et, ec) = ih in (r, e, et ∙ append_assoc topics (t ∷ []) (topics_of es), ec))
  collect-entries (message_entry topic time sequence payload ∷ es) topics position junk (suc f) zero
        fit numbered torn hs hf hg =
      absurd (omega arith)
  collect-entries (message_entry topic time sequence payload ∷ es) topics position junk (suc f)
        (suc g) (fit, fits) numbered torn hs hf hg =
      let rest = bytes_of es ++ junk in
      let entry = message_entry topic time sequence payload in
      let hs' : position + length (entry_bytes entry ++ rest) ≡ size =
        rw (append_assoc (entry_bytes entry) (bytes_of es) junk) at hs in
      let ih =
        collect-entries es topics (position + 8 + length (body_bytes entry)) junk
          (suc (length rest)) g fits numbered torn
          (advance topics position 2 (body_bytes entry) rest hs')
          (omega (arith, length-bytes_of es, length-append (bytes_of es) junk)) (omega arith) in
      rw
        (
          append_assoc (entry_bytes entry) (bytes_of es) junk,
          next_loop-message topics position topic time sequence payload rest f fit numbered hs',
        )
        (let (r, e, et, ec) = ih in
          (
            r,
            rw (read_all-suc g topics (position + 8 + length (body_bytes entry)) rest, e) refl,
            et,
            ec,
          ))
