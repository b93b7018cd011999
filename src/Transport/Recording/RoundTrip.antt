-- ===== src/Transport/Recording/RoundTrip.antt =====
-- src/transport/recording.cpp: what a RecordingReader gets of what a RecordingWriter recorded.
use puppet_master.Base.{
  ℕ, ◌+◌, ◌-◌, ◌^◌, ◌≤◌, ◌<◌, String, List, [], ◌∷◌, ◌++◌, length, length-append, take, All, Bool,
  true, false, not, ◌==◌, ltb, some, arith, ◌≡◌, refl, ◌∙◌, ap, subst,
}
use puppet_master.Core.Status.{ok_status, is_ok}
use puppet_master.Core.Result.{value}
use puppet_master.Transport.Recording.Types.{file_header}
use puppet_master.Transport.Recording.Writer.{
  OutStream, push_out, file_of, Writer, create, flush, close,
}
use puppet_master.Transport.Recording.Reader.{Reader, open_recording}
use puppet_master.Transport.Recording.ReadAll.{read_all}
use puppet_master.Transport.Recording.Entries.{
  Entry, entry_bytes, bytes_of, messages_of, topics_of, AllFit, Torn,
}
use puppet_master.Transport.Recording.Framing.{length-take}
use puppet_master.Transport.Recording.Opening.{
  open_recording-file_header, read_all-entries, length-file_header,
}
use puppet_master.Transport.Recording.Session.{
  Call, IsCall, perform_all, Ending, flushing, closing, end_with,
}
use puppet_master.Transport.Recording.Recorded.{Recorded}
use puppet_master.Transport.Recording.Calls.{create-Recorded, perform_all-Recorded}
use puppet_master.Transport.Recording.Cutting.{cut_at, AllFit-front, take-append_right}

take_all {ℓ} : {A : Type ℓ} (xs : List A) → take (length xs) xs ≡ xs
take_all [] = refl
take_all (x ∷ xs) = ap (λ l. x ∷ l) (take_all xs)

-- A recording with these bytes opens, and is read to its end as `entries`, torn off or not.
abbrev pub ReadsAs : String → ℕ → List ℕ → List Entry → Bool → Type 0
ReadsAs path fuel bytes entries cut_off =
    (first : Reader) × (last : Reader) × (open_recording path (some bytes) ≡ value first)
    × (read_all fuel first ≡ some (messages_of entries, last, ok_status))
    × (last.topics ≡ topics_of entries)
    × (last.truncated ≡ cut_off)

ReadsAs-bytes_of :
    (path : String) (fuel : ℕ) (entries : List Entry) (junk bytes : List ℕ)
    → AllFit 0 entries
    → Torn junk
    → length entries < fuel
    → bytes ≡ file_header ++ (bytes_of entries ++ junk)
    → ReadsAs path fuel bytes entries (not (length junk == 0))
ReadsAs-bytes_of path fuel entries junk bytes fit torn enough e =
    let (last, all_, topics, truncated) = read_all-entries path entries junk fuel fit torn enough in
    (
      _,
      last,
      ap (λ l. open_recording path (some l)) e
          ∙ open_recording-file_header path (bytes_of entries ++ junk),
      all_,
      topics,
      truncated,
    )

push_out-stored :
    (o : OutStream)
    → (push_out o).good ≡ true
    → (file_of (push_out o) ≡ o.contents) × (o.good ≡ true)
unfolding push_out
push_out-stored o = ground (arith, take_all o.contents)

-- An ending that reports success has left everything on the device.
end_with-stored :
    (ending : Ending) (w : Writer)
    → w.closed ≡ false
    → is_ok (end_with ending w).1 ≡ true
    → (file_of (end_with ending w).0.out ≡ w.out.contents) × (w.out.good ≡ true)
unfolding flush close
end_with-stored flushing w open_ = ground (arith, push_out-stored w.out)
end_with-stored closing w open_ = ground (arith, push_out-stored w.out)

module _ (opens : Bool) (room : ℕ) (buffering : ℕ → ℕ → ℕ) (path : String) (w : Writer)
    (calls : List Call) (created : create opens room buffering path ≡ value w)
    (typed : All IsCall calls) (few : length calls < 2 ^ 32) where
  recorded : Recorded (perform_all calls w).1 (perform_all calls w).0
  unfolding topics_of
  recorded =
      let fresh = create-Recorded opens room buffering path w created in
      perform_all-Recorded calls [] w fresh typed (omega (arith, few, fresh.counted))

  -- If a recording was created and any typed calls followed, fewer than 2 ^ 32, with no `Close` among
  -- them, and then a `Flush` or a `Close` reports success, then the file on the device is read to its
  -- end without an error, is not cut off, and gives exactly the messages whose calls reported success, in
  -- their order, and the topics, whatever the stream buffered in between.
  pub read_all-perform_all :
      (ending : Ending) (reader_path : String) (fuel : ℕ)
      → (perform_all calls w).0.closed ≡ false
      → is_ok (end_with ending (perform_all calls w).0).1 ≡ true
      → length (perform_all calls w).1 < fuel
      → ReadsAs reader_path fuel
          (file_of (end_with ending (perform_all calls w).0).0.out)
          (perform_all calls w).1
          false
  read_all-perform_all ending reader_path fuel opened ok_ enough =
      let r = recorded in
      let (all_, good) = end_with-stored ending (perform_all calls w).0 opened ok_ in
      subst (ReadsAs reader_path fuel _ (perform_all calls w).1) (rw (r.held.clean good) refl) (
        ReadsAs-bytes_of reader_path fuel (perform_all calls w).1 r.held.junk _ r.fit r.held.torn
          enough (all_ ∙ r.held.holds))

  -- If a recording was created and any typed calls followed, fewer than 2 ^ 32, then all that its stream
  -- took, cut off anywhere behind the header, is still read to its end without an error: it gives the
  -- messages and the topics of every entry whose record lies wholly in front of the cut, and is
  -- reported as cut off unless the cut falls between two records.
  pub read_all-take :
      (reader_path : String) (fuel n : ℕ)
      → length (perform_all calls w).1 < fuel
      → 16 ≤ n
      → n ≤ length (perform_all calls w).0.out.contents
      → (front : List Entry) × (back : List Entry) × ((perform_all calls w).1 ≡ front ++ back)
        × ReadsAs reader_path fuel
            (take n (perform_all calls w).0.out.contents)
            front
            (ltb (16 + length (bytes_of front)) n)
        × ((e : Entry) (rest : List Entry)
            → back ≡ e ∷ rest
            → n < 16 + length (bytes_of front) + length (entry_bytes e))
  read_all-take reader_path fuel n enough lo hi =
      let r = recorded in
      let es = (perform_all calls w).1 in
      let rest = bytes_of es ++ r.held.junk in
      let c = cut_at (n - 16) 0 es r.held.junk r.fit r.held.torn in
      let bytes : take n (perform_all calls w).0.out.contents
          ≡ file_header ++ (bytes_of c.front ++ c.left) =
        rw
          (
            r.held.holds,
            take-append_right n file_header rest (omega (arith, lo, length-file_header)),
            length-file_header,
          )
          (ap (λ l. file_header ++ l) c.bytes) in
      let total : length (perform_all calls w).0.out.contents ≡ 16 + length rest =
        ap length r.held.holds
        ∙ omega (arith, length-append file_header rest, length-file_header) in
      let sizes : n ≡ 16 + length (bytes_of c.front) + length c.left = ground (
        arith,
        hi,
        lo,
        total,
        ap length c.bytes,
        length-take (n - 16) rest,
        length-append (bytes_of c.front) c.left,
      ) in
      let fits = AllFit-front 0 c.front c.back (subst (AllFit 0) c.parts r.fit) in
      let reads =
        ReadsAs-bytes_of reader_path fuel c.front c.left _ fits c.torn
          (omega (arith, enough, ap length c.parts, length-append c.front c.back)) bytes in
      let same : not (length c.left == 0) ≡ ltb (16 + length (bytes_of c.front)) n =
        ground (arith, sizes) in
      (
        c.front,
        c.back,
        c.parts,
        subst (ReadsAs reader_path fuel (take n (perform_all calls w).0.out.contents) c.front) same
            reads,
        λ e rest h. omega (arith, sizes, c.maximal e rest h),
      )
