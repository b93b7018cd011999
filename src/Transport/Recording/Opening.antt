-- ===== src/Transport/Recording/Opening.antt =====
-- src/transport/recording.cpp, Open: the file that a writer made, whole or cut off behind its header, is
-- read from its first record on.
use puppet_master.Base.{
  ℕ, zero, suc, ◌<◌, String, List, [], ◌++◌, length, length-append, some, arith, ◌≡◌, refl,
}
use puppet_master.Core.Result.{value}
use puppet_master.Transport.Recording.Bytes.{put_u32, put_le, get_u32, get_le}
use puppet_master.Transport.Recording.Laws.{take-append_eq, drop-append_eq}
use puppet_master.Transport.Recording.Types.{file_header}
use puppet_master.Transport.Recording.Reader.{open_recording, same_bytes}
use puppet_master.Transport.Recording.Entries.{Entry, AllFit, Torn, bytes_of}
use puppet_master.Transport.Recording.Framing.{reader_at}
use puppet_master.Transport.Recording.ReadAll.{read_all}
use puppet_master.Transport.Recording.Reading.{
  Reads, length-bytes_of, collect-entries, read_all-suc,
}

pub length-file_header : length file_header ≡ 16
unfolding file_header put_u32 put_le
length-file_header = refl

pub open_recording-file_header :
    (path : String) (rest : List ℕ)
    → open_recording path (some (file_header ++ rest))
      ≡ value (reader_at path (length (file_header ++ rest)) [] 16 rest)
unfolding open_recording
open_recording-file_header path rest =
    rw
      (
        take-append_eq 16 file_header rest length-file_header,
        drop-append_eq 16 file_header rest length-file_header,
      )
      (unfold file_header put_u32 put_le get_u32 get_le same_bytes in refl)

-- What reading the file from its beginning gives.
pub read_all-entries :
    (path : String) (es : List Entry) (junk : List ℕ) (fuel : ℕ)
    → AllFit 0 es
    → Torn junk
    → length es < fuel
    → let size = length (file_header ++ (bytes_of es ++ junk)) in
      Reads path size es [] junk (read_all fuel (reader_at path size [] 16 (bytes_of es ++ junk)))
read_all-entries path es junk zero fit torn h = absurd (omega arith)
read_all-entries path es junk (suc fuel) fit torn h =
    let size = length (file_header ++ (bytes_of es ++ junk)) in
    rw (read_all-suc path size fuel [] 16 (bytes_of es ++ junk)) (
      collect-entries path size es [] 16 junk (suc (length (bytes_of es ++ junk))) fuel fit tt torn
        (omega (arith, length-append file_header (bytes_of es ++ junk), length-file_header))
        (omega (arith, length-bytes_of es, length-append (bytes_of es) junk)) (omega arith))
