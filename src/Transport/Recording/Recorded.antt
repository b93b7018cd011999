-- ===== src/Transport/Recording/Recorded.antt =====
-- src/transport/recording.cpp: what the file of a RecordingWriter holds after any calls.
use mathlib.Core.List.{append_assoc, append-nil}
use puppet_master.Base.{
  ℕ, suc, ◌+◌, ◌^◌, ◌<◌, List, [], ◌∷◌, ◌++◌, length, length-snoc, true, if◌then◌else◌, arith, ◌≡◌,
  refl, subst, sym, ◌∙◌, ap,
}
use puppet_master.Core.Status.{Status, is_ok}
use puppet_master.Transport.Recording.Types.{RecordedTopic, file_header}
use puppet_master.Transport.Recording.Writer.{OutStream, Writer}
use puppet_master.Transport.Recording.Entries.{
  Entry, topic_entry, message_entry, kind_of, body_bytes, record_bytes, entry_bytes, bytes_of,
  topics_of, Fits, AllFit, Torn,
}
use puppet_master.Transport.Recording.Streams.{whole, cut, Emitted, refused, done}
use puppet_master.Transport.Recording.Framing.{length-record_bytes}

-- A stream that holds the header, `entries`, and perhaps the beginning of a record that failed.
pub record Held (entries : List Entry) (o : OutStream) : Type 0 where
  pub junk : List ℕ
  pub holds : o.contents ≡ file_header ++ (bytes_of entries ++ junk)
  pub torn : Torn junk
  pub clean : o.good ≡ true → junk ≡ []

pub record Recorded (entries : List Entry) (w : Writer) : Type 0 where
  pub held : Held entries w.out
  pub fit : AllFit 0 entries
  pub counted : length w.topics ≡ length (topics_of entries)

pub Torn-nil : Torn []
Torn-nil = record {
  kind = 1;
  body = [];
  missing = record_bytes 1 [];
  parts = refl;
  some_missing = omega (arith, length-record_bytes 1 []);
  kind_fits = omega arith;
  size_fits = omega arith;
}

bytes_of-snoc :
    (es : List Entry) (e : Entry) → bytes_of (es ++ e ∷ []) ≡ bytes_of es ++ entry_bytes e
unfolding bytes_of
bytes_of-snoc [] e = append-nil (entry_bytes e)
bytes_of-snoc (d ∷ es) e =
    rw (bytes_of-snoc es e) (sym (append_assoc (entry_bytes d) (bytes_of es) (entry_bytes e)))

pub topics_of-append : (es fs : List Entry) → topics_of (es ++ fs) ≡ topics_of es ++ topics_of fs
unfolding topics_of
topics_of-append [] fs = refl
topics_of-append (topic_entry t ∷ es) fs = ap (λ l. t ∷ l) (topics_of-append es fs)
topics_of-append (message_entry topic time sequence payload ∷ es) fs = topics_of-append es fs

pub length-topics_of_topic :
    (es : List Entry) (t : RecordedTopic)
    → length (topics_of (es ++ topic_entry t ∷ [])) ≡ suc (length (topics_of es))
unfolding topics_of
length-topics_of_topic es t =
    rw (topics_of-append es (topic_entry t ∷ [])) (length-snoc (topics_of es) t)

pub length-topics_of_message :
    (es : List Entry) (topic time sequence : ℕ) (payload : List ℕ)
    → length (topics_of (es ++ message_entry topic time sequence payload ∷ []))
      ≡ length (topics_of es)
unfolding topics_of
length-topics_of_message es topic time sequence payload =
    rw (topics_of-append es (message_entry topic time sequence payload ∷ []), append-nil) refl

pub AllFit-snoc :
    (n m : ℕ) (es : List Entry) (e : Entry)
    → AllFit n es
    → m ≡ n + length (topics_of es)
    → Fits m e
    → AllFit n (es ++ e ∷ [])
unfolding topics_of
AllFit-snoc n m [] e h hm he = (subst (λ k. Fits k e) (omega (arith, hm)) he, tt)
AllFit-snoc n m (topic_entry t ∷ es) e (h, hs) hm he =
    (h, AllFit-snoc (suc n) m es e hs (omega (arith, hm)) he)
AllFit-snoc n m (message_entry topic time sequence payload ∷ es) e (h, hs) hm he =
    (h, AllFit-snoc n m es e hs hm he)

pub kind_of-fits : (e : Entry) → kind_of e < 2 ^ 32
kind_of-fits (topic_entry t) = omega arith
kind_of-fits (message_entry topic time sequence payload) = omega arith

-- A call of `Emit` adds the entry if it reports success, and else no entry.
abbrev pub Adds : List Entry → Entry → Writer → Writer × Status → Type 0
Adds es e w p =
    Held (if is_ok p.1 then es ++ e ∷ [] else es) p.0.out
    × (p.0.topics ≡ w.topics)
    × (is_ok p.1 ≡ true → length (body_bytes e) < 2 ^ 32)

pub Emitted-Adds :
    (es : List Entry) (e : Entry) (w : Writer) {p : Writer × Status}
    → Emitted (kind_of e) (body_bytes e) w p
    → Held es w.out
    → Adds es e w p
Emitted-Adds es e w (refused s bad) h = (rw bad h, refl, λ ok_. cc)
Emitted-Adds es e w (done o s good small put ok_) h = elim put [
  | whole g eq ↦ (
    rw (ok_, g)
        (record {
          junk = [];
          holds =
              eq ∙ rw (h.holds, h.clean good, bytes_of-snoc es e) (simp (append_assoc, append-nil));
          torn = Torn-nil;
          clean = λ _. refl;
        }),
    refl,
    λ _. small,
  )
  | cut front missing g eq parts some_ ↦ (
    rw (ok_, g)
        (record {
          junk = front;
          holds = eq ∙ rw (h.holds, h.clean good) (simp (append_assoc, append-nil));
          torn = record {
            kind = kind_of e;
            body = body_bytes e;
            missing = missing;
            parts = parts;
            some_missing = some_;
            kind_fits = kind_of-fits e;
            size_fits = small;
          };
          clean = λ g'. cc;
        }),
    refl,
    λ _. small,
  )
]
