-- ===== src/Transport/Recording/Calls.antt =====
-- src/transport/recording.cpp: what the file of a RecordingWriter holds after any calls.
use mathlib.Core.List.{append_assoc, append-nil}
use puppet_master.Base.{
  ℕ, ◌+◌, ◌^◌, ◌<◌, String, List, [], ◌∷◌, ◌++◌, length, All, Bool, not, arith, ◌≡◌, refl, subst,
  sym, ◌∙◌, ap,
}
use puppet_master.Core.Result.{Result, value}
use puppet_master.Transport.Recording.Types.{file_header}
use puppet_master.Transport.Recording.Writer.{empty_stream, stream_write, Writer, create}
use puppet_master.Transport.Recording.Entries.{Entry, bytes_of, topics_of}
use puppet_master.Transport.Recording.Streams.{stream_write-Put, whole, cut}
use puppet_master.Transport.Recording.Session.{Call, perform, perform_all, IsCall}
use puppet_master.Base.{if_cases}
use puppet_master.Transport.Recording.Recorded.{Torn-nil, Recorded}
use puppet_master.Transport.Recording.Written.{perform-After}

pub perform_all-Recorded :
    (cs : List Call) (es : List Entry) (w : Writer)
    → Recorded es w
    → All IsCall cs
    → length w.topics + length cs < 2 ^ 32
    → let (w', new) = perform_all cs w in Recorded (es ++ new) w'
unfolding perform_all
perform_all-Recorded [] es w h v small = rw append-nil h
perform_all-Recorded (c ∷ cs) es w h (v, vs) small =
    let (h', n) = perform-After es w h (omega (arith, small)) c v in
    let (w', new) = perform c w in
    rw (← append_assoc es new (perform_all cs w').1)
      (perform_all-Recorded cs (es ++ new) w' h' vs (omega (arith, small, n)))

value-injective : {w v : Writer} → value w ≡ value v → w ≡ v
value-injective e = cc

fresh_Recorded : (w : Writer) → w.out.contents ≡ file_header → w.topics ≡ [] → Recorded [] w
unfolding bytes_of topics_of
fresh_Recorded w e et = record {
  held = record {
    junk = [];
    holds = e ∙ sym (append-nil file_header);
    torn = Torn-nil;
    clean = λ _. refl;
  };
  fit = tt;
  counted = ap length et;
}

-- A writer that could be created has written the header.
pub create-Recorded :
    (opens : Bool) (room : ℕ) (buffering : ℕ → ℕ → ℕ) (path : String) (w : Writer)
    → create opens room buffering path ≡ value w
    → Recorded [] w
unfolding create
create-Recorded opens room buffering path =
    let P = λ (r : Result Writer). (w : Writer) → r ≡ value w → Recorded [] w in
    let o = empty_stream room buffering in
    if_cases P (not opens) _ _ (λ _ w e. cc)
      (λ _.
        if_cases P (stream_write file_header o).good _ _
          (λ good w e. elim (stream_write-Put file_header o refl) [
            | whole g eq ↦ subst (Recorded []) (value-injective e) (fresh_Recorded _ eq refl)
            | cut front missing g eq parts some_ ↦ cc
          ])
          (λ _ w e. cc))
