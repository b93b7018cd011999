-- ===== src/Transport/Recording/Parameters.antt =====
-- src/transport/recording.cpp, AddTopic: the body of a topic's record.
use mathlib.Core.List.{append_assoc, append-nil}
use puppet_master.Base.{
  ℕ, String, List, [], ◌∷◌, ◌++◌, ◌||◌, Bool-cases, inl, inr, ◌⊎◌, ◌≡◌, refl, ◌∙◌, ap,
}
use puppet_master.Core.Status.{Status, error, invalid_argument}
use puppet_master.Core.Result.{value, failure}
use puppet_master.Transport.Recording.Bytes.{put_string}
use puppet_master.Transport.Recording.Types.{RecordedTopic}
use puppet_master.Transport.Recording.Writer.{too_long, put_parameters, topic_head}
use puppet_master.Transport.Recording.Entries.{topic_entry, parameter_bytes, body_bytes}

pub put_parameters_cases :
    (body : List ℕ) (ps : List (String × String))
    → (put_parameters body ps ≡ value (body ++ parameter_bytes ps))
      ⊎ ((e : Status) × (put_parameters body ps ≡ failure e))
unfolding put_parameters parameter_bytes
put_parameters_cases body [] = inl (rw append-nil refl)
put_parameters_cases body ((key, text) ∷ ps) = elim (Bool-cases (too_long key || too_long text)) [
  | inl long ↦
      inr (error invalid_argument "topic parameter is too long", rw (long, put_parameters) refl)
  | inr short ↦ elim (put_parameters_cases (body ++ put_string key ++ put_string text) ps) [
    | inl e ↦ inl (rw (short, put_parameters) (e ∙ ap value (simp append_assoc)))
    | inr (s, e) ↦ inr (s, rw (short, put_parameters) e)
  ]
]

pub put_parameters_value :
    (body : List ℕ) (ps : List (String × String)) {out : List ℕ}
    → put_parameters body ps ≡ value out
    → out ≡ body ++ parameter_bytes ps
put_parameters_value body ps e = elim (put_parameters_cases body ps) [
  | inl f ↦ cc
  | inr (s, f) ↦ cc
]

pub topic_head_id :
    (id : ℕ) (t : RecordedTopic)
    → topic_head id t ++ parameter_bytes t.parameters
      ≡ body_bytes (topic_entry (record t { id = id }))
unfolding topic_head
topic_head_id id t = refl
