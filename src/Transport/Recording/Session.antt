-- ===== src/Transport/Recording/Session.antt =====
-- The calls of a RecordingWriter (src/transport/recording.cpp) one after the other, with the entries
-- that they reported as recorded.
use puppet_master.Base.{ℕ, ◌^◌, ◌<◌, List, [], ◌∷◌, ◌++◌, true, false}
use puppet_master.Base.Int.{ℤ, pos, negsuc}
use puppet_master.Core.Status.{Status, is_ok}
use puppet_master.Core.Result.{Result, value, failure}
use puppet_master.Transport.Recording.Types.{RecordedTopic}
use puppet_master.Transport.Recording.Writer.{Writer, add_topic, write, flush, close}
use puppet_master.Transport.Recording.Entries.{Entry, topic_entry, message_entry, IsTopic}

pub data Call : Type 0 where
  call_add_topic : RecordedTopic → Call
  call_write : ℕ → ℤ → ℕ → List ℕ → Call
  call_flush : Call
  call_close : Call

abbrev pub numbered_topic : RecordedTopic → Result ℕ → List Entry
numbered_topic t (value id) = topic_entry (record t { id = id }) ∷ []
numbered_topic t (failure e) = []

abbrev pub timed_message : ℕ → ℤ → ℕ → List ℕ → List Entry
timed_message topic (pos time) sequence payload = message_entry topic time sequence payload ∷ []
timed_message topic (negsuc n) sequence payload = []

unfoldable pub perform : Call → Writer → Writer × List Entry
perform (call_add_topic t) w = let (w, id) = add_topic t w in (w, numbered_topic t id)
perform (call_write topic time sequence payload) w =
    let (w, status) = write topic time sequence payload w in
    (w, elim (is_ok status) [ true ↦ timed_message topic time sequence payload | false ↦ [] ])
perform call_flush w = ((flush w).0, [])
perform call_close w = ((close w).0, [])

unfoldable pub perform_all : List Call → Writer → Writer × List Entry
unfolding perform
perform_all [] w = (w, [])
perform_all (c ∷ cs) w =
    let (w, es) = perform c w in let (last, rest) = perform_all cs w in (last, es ++ rest)

-- The arguments are values of their types.
abbrev pub IsCall : Call → Type 0
IsCall (call_add_topic t) = IsTopic t
IsCall (call_write topic (pos time) sequence payload) = (time < 2 ^ 63) × (sequence < 2 ^ 64)
IsCall (call_write topic (negsuc n) sequence payload) = sequence < 2 ^ 64
IsCall call_flush = Unit
IsCall call_close = Unit

-- The ways to have everything pushed to the file.
pub data Ending : Type 0 where
  flushing closing : Ending

abbrev pub end_with : Ending → Writer → Writer × Status
end_with flushing w = flush w
end_with closing w = close w
