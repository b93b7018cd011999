-- ===== src/Transport/Recording/Cutting.antt =====
-- Where a recording is cut off, it holds the entries in front of the cut, and the beginning of one.
use mathlib.Core.List.{append_assoc}
use puppet_master.Base.{
  ℕ, zero, suc, ◌-◌, ◌^◌, ◌≤◌, ◌<◌, List, [], ◌∷◌, ◌++◌, length, length-append, take, drop,
  Bool-cases, inl, inr, leb, arith, ◌≡◌, refl, sym, ◌∙◌, ap,
}
use puppet_master.Transport.Recording.Entries.{
  Entry, kind_of, body_bytes, entry_bytes, bytes_of, Fits, AllFit, topics_behind, topic_entry,
  message_entry, Torn,
}
use puppet_master.Transport.Recording.Framing.{take-append_left, length-take}
use puppet_master.Transport.Recording.Streams.{take-drop, length-drop}
use puppet_master.Transport.Recording.Recorded.{kind_of-fits}

pub take-append_right {ℓ} :
    {A : Type ℓ} (m : ℕ) (xs ys : List A)
    → length xs ≤ m
    → take m (xs ++ ys) ≡ xs ++ take (m - length xs) ys
take-append_right m [] ys h = ap (λ k. take k ys) (omega arith)
take-append_right zero (x ∷ xs) ys h = absurd (omega arith)
take-append_right (suc m) (x ∷ xs) ys h =
    ap (λ l. x ∷ l)
      (take-append_right m xs ys (omega arith) ∙ ap (λ k. xs ++ take k ys) (omega arith))

-- The entries whose records end in the first `m` bytes, and what follows them there.
pub record CutAt (m : ℕ) (es : List Entry) (junk : List ℕ) : Type 0 where
  pub front : List Entry
  pub back : List Entry
  pub left : List ℕ
  pub parts : es ≡ front ++ back
  pub bytes : take m (bytes_of es ++ junk) ≡ bytes_of front ++ left
  pub torn : Torn left
  pub maximal :
      (e : Entry) (rest : List Entry) → back ≡ e ∷ rest → length left < length (entry_bytes e)

Torn-take : (m : ℕ) (bytes : List ℕ) → Torn bytes → Torn (take m bytes)
Torn-take m bytes t = record {
  kind = t.kind;
  body = t.body;
  missing = drop m bytes ++ t.missing;
  parts =
      sym (append_assoc (take m bytes) (drop m bytes) t.missing)
      ∙ ap (λ l. l ++ t.missing) (take-drop m bytes)
      ∙ t.parts;
  some_missing = omega (arith, t.some_missing, length-append (drop m bytes) t.missing);
  kind_fits = t.kind_fits;
  size_fits = t.size_fits;
}

Torn-entry :
    (m n : ℕ) (e : Entry) → Fits n e → m < length (entry_bytes e) → Torn (take m (entry_bytes e))
Torn-entry m n e fit h = record {
  kind = kind_of e;
  body = body_bytes e;
  missing = drop m (entry_bytes e);
  parts = take-drop m (entry_bytes e);
  some_missing = omega (arith, h, length-drop m (entry_bytes e));
  kind_fits = kind_of-fits e;
  size_fits = size_fits n e fit;
}
  where
    size_fits : (n : ℕ) (e : Entry) → Fits n e → length (body_bytes e) < 2 ^ 32
    size_fits n (topic_entry t) (_, _, _, small) = small
    size_fits n (message_entry topic time sequence payload) (_, _, _, _, _, small) = small

nil_not_cons : {e : Entry} {rest : List Entry} → [] ≡ e ∷ rest → ⊥
nil_not_cons h = cc

pub cut_at : (m n : ℕ) (es : List Entry) (junk : List ℕ) → AllFit n es → Torn junk → CutAt m es junk
unfolding bytes_of
cut_at m n [] junk fit torn = record {
  front = [];
  back = [];
  left = take m junk;
  parts = refl;
  bytes = refl;
  torn = Torn-take m junk torn;
  maximal = λ e rest h. absurd (nil_not_cons h);
}
cut_at m n (e ∷ es) junk (fit, fits) torn = elim (Bool-cases (leb (length (entry_bytes e)) m)) [
  | inl whole ↦
      let c = cut_at (m - length (entry_bytes e)) (topics_behind n e) es junk fits torn in
      record {
        front = e ∷ c.front;
        back = c.back;
        left = c.left;
        parts = ap (λ l. e ∷ l) c.parts;
        bytes =
            rw
              (
                append_assoc (entry_bytes e) (bytes_of es) junk,
                append_assoc (entry_bytes e) (bytes_of c.front) c.left,
              )
              (take-append_right m (entry_bytes e) (bytes_of es ++ junk) (ground arith)
                ∙ ap (λ l. entry_bytes e ++ l) c.bytes);
        torn = c.torn;
        maximal = c.maximal;
      }
  | inr short ↦
      let few : m < length (entry_bytes e) = ground arith in
      record {
        front = [];
        back = e ∷ es;
        left = take m (entry_bytes e);
        parts = refl;
        bytes =
            rw (append_assoc (entry_bytes e) (bytes_of es) junk)
              (take-append_left m (entry_bytes e) (bytes_of es ++ junk) (omega (arith, few)));
        torn = Torn-entry m n e fit few;
        maximal = λ d rest h.
            (let same : e ≡ d = cc in
              rw (← same) (ground (arith, few, length-take m (entry_bytes e))));
      }
]

pub AllFit-front : (n : ℕ) (es fs : List Entry) → AllFit n (es ++ fs) → AllFit n es
AllFit-front n [] fs h = tt
AllFit-front n (e ∷ es) fs (h, hs) = (h, AllFit-front (topics_behind n e) es fs hs)
