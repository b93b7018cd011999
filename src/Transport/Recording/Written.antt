-- ===== src/Transport/Recording/Written.antt =====
-- src/transport/recording.cpp: what each call adds to the file of a writer.
use mathlib.Core.List.{append-nil}
use puppet_master.Base.{
  ℕ, suc, ◌+◌, ◌%◌, ◌^◌, ◌≤◌, ◌<◌, List, [], ◌∷◌, ◌++◌, length, length-snoc, Bool, true, false, not,
  leb, ltb, ◌==◌, ◌||◌, if◌then◌else◌, arith, ◌≡◌, refl, subst, ◌∙◌, ap,
}
use puppet_master.Base.Int.{ℤ, pos, negsuc}
use puppet_master.Core.Status.{Status, is_ok}
use puppet_master.Core.Result.{Result}
use puppet_master.Transport.Recording.Types.{RecordedTopic}
use puppet_master.Transport.Recording.Writer.{
  OutStream, Writer, emit, put_parameters, topic_head, message_head, put_topic, put_message,
  add_topic, write, close, flush, push_out,
}
use puppet_master.Transport.Recording.Entries.{Entry, topic_entry, message_entry, body_bytes}
use puppet_master.Transport.Recording.Streams.{Emitted, emit-Emitted}
use puppet_master.Transport.Recording.Session.{
  Call, call_add_topic, call_write, call_flush, call_close, perform, numbered_topic, timed_message,
  IsCall,
}
use puppet_master.Base.{if_both, if_cases}
use puppet_master.Core.Result.{result_cases}
use puppet_master.Transport.Recording.Entries.{IsTopic}
use puppet_master.Transport.Recording.Recorded.{
  Held, Recorded, Adds, Emitted-Adds, AllFit-snoc, length-topics_of_topic, length-topics_of_message,
}
use puppet_master.Transport.Recording.Parameters.{put_parameters_value, topic_head_id}

push_out-Held : (es : List Entry) (o : OutStream) → Held es o → Held es (push_out o)
unfolding push_out
push_out-Held es o h = if_both (Held es) (not o.good) _ _ h (
    if_both (Held es) (leb (length o.contents) o.room) _ _
      (record { junk = h.junk; holds = h.holds; torn = h.torn; clean = h.clean })
      (record { junk = h.junk; holds = h.holds; torn = h.torn; clean = λ g. cc }))

-- What is recorded after a call, which adds one topic at most.
abbrev pub After : List Entry → Writer → Writer → Type 0
After es w w' = Recorded es w' × (length w'.topics ≤ suc (length w.topics))

pub same_After : (es : List Entry) (w : Writer) → Recorded es w → After (es ++ []) w w
same_After es w h = rw append-nil (h, omega arith)

module _ (es : List Entry) (w : Writer) (h : Recorded es w)
    (room : suc (length w.topics) < 2 ^ 32) where
  pub put_topic-After :
      (t : RecordedTopic) (body : List ℕ)
      → t.id ≡ suc (length w.topics)
      → body ≡ body_bytes (topic_entry t)
      → IsTopic t
      → let (w', id) = put_topic t.id body w in After (es ++ numbered_topic t id) w w'
  unfolding put_topic
  put_topic-After t body id eq v =
      let e = topic_entry t in
      let sent : Emitted 1 body w (emit 1 body [] w) =
        rw append-nil at (emit-Emitted 1 body [] w) in
      let adds : Adds es e w (emit 1 body [] w) =
        Emitted-Adds es e w (subst (λ b. Emitted 1 b w (emit 1 body [] w)) eq sent) h.held in
      if_cases (λ (p : Writer × Result ℕ). After (es ++ numbered_topic t p.1) w p.0)
        (is_ok (emit 1 body [] w).1) _ _
        (λ good. (
          record {
            held = rw good at adds.0;
            fit =
                AllFit-snoc 0 (length w.topics) es e h.fit (omega (arith, h.counted))
                  (id, room, v, adds.2 good);
            counted = omega (
              arith,
              h.counted,
              length-snoc (emit 1 body [] w).0.topics t.id,
              ap length adds.1,
              length-topics_of_topic es t,
            );
          },
          omega (arith, length-snoc (emit 1 body [] w).0.topics t.id, ap length adds.1),
        ))
        (λ bad. (
          record {
            held = rw append-nil (rw bad at adds.0);
            fit = rw append-nil h.fit;
            counted = rw (append-nil es, adds.1) h.counted;
          },
          rw adds.1 (omega arith),
        ))

  pub sent_message-After :
      (topic time sequence : ℕ) (payload : List ℕ) (ok_ : Bool) (sent : Writer)
      → let e = message_entry topic time sequence payload in
        (0 < topic) × (topic ≤ length w.topics) × (time < 2 ^ 63) × (sequence < 2 ^ 64)
        → Held (if ok_ then es ++ e ∷ [] else es) sent.out
        → sent.topics ≡ w.topics
        → (ok_ ≡ true → length (body_bytes e) < 2 ^ 32)
        → After
            (es
              ++ (elim ok_ [ true ↦ timed_message topic (pos time) sequence payload | false ↦ [] ]))
            w
            (if ok_ then record sent { messages = sent.messages + 1 } else sent)
  sent_message-After topic time sequence payload true sent (lo, hi, ht, hq) held same small =
      let e = message_entry topic time sequence payload in
      (
        record {
          held = held;
          fit =
              AllFit-snoc 0 (length w.topics) es e h.fit (omega (arith, h.counted))
                (lo, hi, omega arith, ht, hq, small refl);
          counted = omega (
            arith,
            h.counted,
            ap length same,
            length-topics_of_message es topic time sequence payload,
          );
        },
        omega (arith, ap length same),
      )
  sent_message-After topic time sequence payload false sent lims held same small = (
    record {
      held = rw append-nil held;
      fit = rw append-nil h.fit;
      counted = rw (append-nil es, same) h.counted;
    },
    omega (arith, ap length same),
  )

  pub put_message-After :
      (topic time sequence : ℕ) (payload : List ℕ)
      → (0 < topic) × (topic ≤ length w.topics) × (time < 2 ^ 63) × (sequence < 2 ^ 64)
      → let (w', status) = put_message topic time sequence payload w in
        After
          (es ++ (elim (is_ok status) [
            | true ↦ timed_message topic (pos time) sequence payload
            | false ↦ []
          ]))
          w
          w'
  unfolding put_message
  put_message-After topic time sequence payload lims =
      let e = message_entry topic time sequence payload in
      let head = message_head topic time sequence in
      let (held, same, small) : Adds es e w (emit 2 head payload w) =
        Emitted-Adds es e w (emit-Emitted 2 head payload w) h.held in
      sent_message-After topic time sequence payload (is_ok (emit 2 head payload w).1)
        (emit 2 head payload w).0 lims held same small

  pub add_topic-After :
      (t : RecordedTopic)
      → IsTopic t
      → let (w', id) = add_topic t w in After (es ++ numbered_topic t id) w w'
  unfolding add_topic
  add_topic-After t v =
      let id = (length w.topics + 1) % 2 ^ 32 in
      let P = λ (p : Writer × Result ℕ). After (es ++ numbered_topic t p.1) w p.0 in
      let id_lem : id ≡ suc (length w.topics) = omega (arith, room) in
      if_both P _ _ _ (same_After es w h) (
        result_cases P (put_parameters (topic_head id t) t.parameters) _ _
          (λ e _. same_After es w h)
          (λ body eq.
            put_topic-After (record t { id = id }) body id_lem
              (put_parameters_value (topic_head id t) t.parameters eq ∙ topic_head_id id t)
              (record {
                name = v.name;
                type_name = v.type_name;
                encoding = v.encoding;
                version = v.version;
                texts = v.texts;
                sorted = v.sorted;
              })))

  pub write-After :
      (topic : ℕ) (time : ℤ) (sequence : ℕ) (payload : List ℕ)
      → IsCall (call_write topic time sequence payload)
      → let (w', status) = write topic time sequence payload w in
        After
          (es ++ (elim (is_ok status) [
            | true ↦ timed_message topic time sequence payload
            | false ↦ []
          ]))
          w
          w'
  unfolding write
  write-After topic (pos time) sequence payload v =
      if_cases
        (λ (p : Writer × Status).
          After
            (es ++ (elim (is_ok p.1) [
              | true ↦ timed_message topic (pos time) sequence payload
              | false ↦ []
            ]))
            w p.0)
        (topic == 0 || ltb (length w.topics) topic) _ _ (λ _. same_After es w h)
        (λ known. put_message-After topic time sequence payload (ground arith))
  write-After topic (negsuc n) sequence payload v =
      if_both
        (λ (p : Writer × Status).
          After
            (es ++ (elim (is_ok p.1) [
              | true ↦ timed_message topic (negsuc n) sequence payload
              | false ↦ []
            ]))
            w p.0)
        (topic == 0 || ltb (length w.topics) topic) _ _ (same_After es w h) (same_After es w h)

  push_out-After :
      (closed : Bool) → After (es ++ []) w (record w { out = push_out w.out; closed = closed })
  push_out-After closed = rw append-nil (
    record { held = push_out-Held es w.out h.held; fit = h.fit; counted = h.counted },
    omega arith,
  )

  pub flush-After : After (es ++ []) w (flush w).0
  unfolding flush
  flush-After =
      if_both (λ (p : Writer × Status). After (es ++ []) w p.0) w.closed _ _ (same_After es w h)
        (push_out-After w.closed)

  pub close-After : After (es ++ []) w (close w).0
  unfolding close
  close-After =
      if_both (λ (p : Writer × Status). After (es ++ []) w p.0) w.closed _ _ (same_After es w h)
        (push_out-After true)

  -- Any call keeps the file as it should be, and records what it reports.
  pub perform-After : (c : Call) → IsCall c → let (w', new) = perform c w in After (es ++ new) w w'
  unfolding perform
  perform-After (call_add_topic t) v = add_topic-After t v
  perform-After (call_write topic time sequence payload) v =
      write-After topic time sequence payload v
  perform-After call_flush v = flush-After
  perform-After call_close v = close-After
