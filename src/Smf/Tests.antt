-- ===== src/Smf/Tests.antt =====
-- Runs of the parser and the writer on concrete files.
use oxisound.Common.{
  ap, ℕ, ◌≡◌, refl, arith, List, [], ◌∷◌, ◌++◌, none, length, All, ok, panic, and_then, Ensures,
}
use oxisound.Common.Slices.{index, slice}
use oxisound.Smf.{SmfFile, single_track, ticks_per_beat, smpte, midi, end_of_track}
use oxisound.Smf.Valid.{IsByte, IsFile}
use oxisound.Smf.Bytes.{require_bytes, read_byte, byte_at, advance, read_u16_be, read_u32_be}
use oxisound.Smf.Vlq.{read_vlq, write_vlq}
use oxisound.Smf.Parser.{parse, same_bytes, decode_meta, smf_format, division_of}
use oxisound.Smf.Parser.Total.{parse-Ensures}
use oxisound.Smf.Writer.{header_bytes, write}
use oxisound.Smf.Writer.Encoding.{chunks_bytes, write_lem}
use oxisound.Smf.RoundTrip.Files.{parse-write}
use oxisound.Smf.RoundTrip.Limits.{write-parse, read_vlq-write_vlq}

-- The minimal file of the source's tests: NoteOn, NoteOff 480 ticks later, EndOfTrack.
abbrev minimal_bytes : List ℕ
minimal_bytes =
    0x4d ∷ 0x54 ∷ 0x68 ∷ 0x64 ∷ 0 ∷ 0 ∷ 0 ∷ 6 ∷ 0 ∷ 0 ∷ 0 ∷ 1 ∷ 0x01 ∷ 0xe0 ∷ 0x4d ∷ 0x54 ∷ 0x72
    ∷ 0x6b ∷ 0 ∷ 0 ∷ 0 ∷ 13 ∷ 0 ∷ 0x90 ∷ 0x3c ∷ 0x40 ∷ 0x83 ∷ 0x60 ∷ 0x80 ∷ 0x3c ∷ 0x00 ∷ 0 ∷ 0xff
    ∷ 0x2f ∷ 0 ∷ []

abbrev minimal_file : SmfFile
minimal_file = record {
  format = single_track;
  division = ticks_per_beat 480;
  tracks =
      record {
        name = none;
        events =
            record {
              delta_ticks = 0;
              event =
                  midi (record { status = 0x90; bytes = 0x3c ∷ 0x40 ∷ []; timestamp_micros = 0 });
            }
            ∷ record {
              delta_ticks = 480;
              event =
                  midi (record { status = 0x80; bytes = 0x3c ∷ 0x00 ∷ []; timestamp_micros = 0 });
            }
            ∷ record { delta_ticks = 0; event = end_of_track }
            ∷ [];
      }
      ∷ [];
}

parse_minimal : parse minimal_bytes ≡ ok minimal_file
unfolding parse require_bytes read_byte byte_at advance read_u16_be read_u32_be read_vlq same_bytes
    decode_meta smf_format division_of index slice
parse_minimal = refl

write_too_long : write_vlq 0x1000_0000 [] ≡ panic
unfolding write_vlq
write_too_long = refl

minimal_IsFile : IsFile minimal_file
minimal_IsFile = omega arith

minimal_IsByte : All IsByte minimal_bytes
minimal_IsByte = omega arith

parse-Ensures_example : Ensures IsFile (parse minimal_bytes)
parse-Ensures_example = parse-Ensures minimal_bytes minimal_IsByte

write-parse_example :
    write minimal_file ≡ ok (header_bytes minimal_file ++ chunks_bytes minimal_file.tracks)
write-parse_example = write-parse minimal_bytes minimal_file minimal_IsByte parse_minimal

read_vlq-write_vlq_example :
    and_then (write_vlq 480 (7 ∷ [])) (λ out. read_vlq (out ++ (9 ∷ [])) 1)
    ≡ and_then (write_vlq 480 (7 ∷ [])) (λ out. ok (480, length out))
read_vlq-write_vlq_example = read_vlq-write_vlq 480 (7 ∷ []) (9 ∷ []) (omega arith)

abbrev smpte_file : SmfFile
smpte_file = record { format = single_track; division = smpte 25 40; tracks = [] }

-- The rate comes back as 103.
smpte_read_back :
    and_then (and_then (write smpte_file) parse) (λ f. ok f.division) ≡ ok (smpte 103 40)
smpte_read_back =
    ap (λ r. and_then r (λ f. ok f.division)) (parse-write smpte_file (omega arith) tt)

write_lem_example :
    write minimal_file ≡ ok (header_bytes minimal_file ++ chunks_bytes minimal_file.tracks)
write_lem_example = write_lem minimal_file minimal_IsFile
