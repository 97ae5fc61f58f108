-- ===== src/Smf/RoundTrip/Limits.antt =====
-- Every accepted file is written, and a variable-length quantity is read back in place.
use oxisound.Common.{
  ℕ, ◌^◌, ◌<◌, ◌≡◌, refl, ◌∙◌, ap, List, ◌++◌, append_assoc, arith, length, length-append, All,
  drop, drop-append_length, ok, and_then, Ensures-ok,
}
use oxisound.Common.Reading.{ok_path}
use oxisound.Smf.{SmfFile}
use oxisound.Smf.Valid.{IsByte, IsFile}
use oxisound.Smf.Vlq.{read_vlq, write_vlq, vlq}
use oxisound.Smf.Vlq.Reading.{read_vlq-Reads}
use oxisound.Smf.Vlq.Writing.{write_vlq_lem}
use oxisound.Smf.Parser.{parse}
use oxisound.Smf.Parser.Total.{parse-Ensures}
use oxisound.Smf.Writer.{header_bytes, write}
use oxisound.Smf.Writer.Encoding.{chunks_bytes, write_lem}

-- A file that `parse` accepts from a byte slice is written by `write` without error or panic, as
-- its header followed by its chunks.
pub write-parse :
    (input : List ℕ) (file : SmfFile)
    → All IsByte input
    → parse input ≡ ok file
    → write file ≡ ok (header_bytes file ++ chunks_bytes file.tracks)
write-parse input file all e =
    write_lem file (Ensures-ok IsFile (parse input) (parse-Ensures input all) e)

-- Below 2 ^ 28, `read_vlq` at the end of `buf` reads back what `write_vlq` appended to it, takes just
-- those bytes, and leaves what follows.
pub read_vlq-write_vlq :
    (v : ℕ) (buf rest : List ℕ)
    → v < 2 ^ 28
    → and_then (write_vlq v buf) (λ out. read_vlq (out ++ rest) (length buf))
      ≡ and_then (write_vlq v buf) (λ out. ok (v, length out))
read_vlq-write_vlq v buf rest h =
    let input = buf ++ vlq v ++ rest in
    let e : drop (length buf) input ≡ vlq v ++ rest =
      ap (drop (length buf)) (append_assoc buf (vlq v) rest)
      ∙ drop-append_length buf (vlq v ++ rest) in
    rw (write_vlq_lem v buf h) (
      read_vlq-Reads input (length input) v h (length buf) rest e
        (omega (arith, length-append buf (vlq v), length-append (buf ++ vlq v) rest))
      ∙ ok_path refl (omega (arith, length-append buf (vlq v))))
