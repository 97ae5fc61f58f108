-- ===== src/Smf/RoundTrip/Files.antt =====
-- `parse` on what `write` makes of a file.
use oxisound.Common.{
  ℕ, ◌+◌, ◌-◌, ◌*◌, ◌/◌, ◌%◌, ◌^◌, ◌≤◌, ◌<◌, ◌≡◌, refl, sym, ◌∙◌, ap, List, [], ◌∷◌, ◌++◌, map,
  append_assoc, append-nil, arith, length, length-append, All, ok, and_then, drop, eq→==,
  ne→==_false,
}
use oxisound.Common.Bits.{
  bit_and-bit_fifteen, bit_and-seven_bits, bit_and-eight_bits, bit_or-with_high_bit,
}
use oxisound.Common.Reading.{Reads, ok_path, >>=-Reads}
use oxisound.Smf.{
  mthd_chunk, missing_mthd, SmfFormat, single_track, multi_track, multi_song, Division,
  ticks_per_beat, smpte, SmfTrack, SmfFile,
}
use oxisound.Smf.Valid.{IsDivision, IsFile}
use oxisound.Smf.Bytes.{u16_be, u32_be}
use oxisound.Smf.Bytes.Encoding.{require_bytes-ok, read_u16_be-Reads, read_u32_be-Reads}
use oxisound.Smf.Parser.{
  fail_if, lift, smf_format, division_of, parse_mtrk, parse_mthd, parse_tracks, parse_file, parse,
}
use oxisound.Smf.Writer.{format_word, division_bytes, header_bytes, write}
use oxisound.Smf.Writer.Encoding.{chunk_bytes, chunks_bytes, write_lem}
use oxisound.Smf.RoundTrip.Chunks.{
  canonical_track, IsWritable, expect_magic-Reads, parse_mtrk-Reads,
}

-- The division as it is read back. The writer negates the frame rate, and the parser does not.
abbrev pub canonical_division : Division → Division
canonical_division (ticks_per_beat tpb) = ticks_per_beat tpb
canonical_division (smpte fps subframes) = smpte ((256 - fps) % 128) subframes

abbrev pub canonical : SmfFile → SmfFile
canonical file = record {
  format = file.format;
  division = canonical_division file.division;
  tracks = map canonical_track file.tracks;
}

-- The division's word in the header.
division_word : Division → ℕ
division_word (ticks_per_beat tpb) = tpb
division_word (smpte fps subframes) = ((256 - fps) % 128 + 128) * 0x100 + subframes

division_word-lt : (d : Division) → IsDivision d → division_word d < 2 ^ 16
unfolding division_word
division_word-lt (ticks_per_beat tpb) h = omega arith
division_word-lt (smpte fps subframes) h = omega arith

cons_path : {a b c d : ℕ} → a ≡ c → b ≡ d → a ∷ b ∷ [] ≡ c ∷ d ∷ []
cons_path p q = λ i. p i ∷ q i ∷ []

division_bytes-eq : (d : Division) → IsDivision d → division_bytes d ≡ u16_be (division_word d)
unfolding division_bytes division_word
division_bytes-eq (ticks_per_beat tpb) h = refl
division_bytes-eq (smpte fps subframes) h =
    cons_path (bit_or-with_high_bit ((256 - fps) % 256) (omega arith) ∙ omega arith) (omega arith)

smpte_path : {a b c d : ℕ} → a ≡ c → b ≡ d → smpte a b ≡ smpte c d
smpte_path p q = λ i. smpte (p i) (q i)

division_of-word :
    (d : Division) → IsDivision d → division_of (division_word d) ≡ canonical_division d
unfolding division_of division_word
division_of-word (ticks_per_beat tpb) h =
    rw (bit_and-bit_fifteen tpb (omega arith), eq→== (tpb / 2 ^ 15 * 2 ^ 15) 0 (omega arith))
division_of-word (smpte fps subframes) h =
    let word = ((256 - fps) % 128 + 128) * 0x100 + subframes in
    rw
      (
        bit_and-bit_fifteen word (omega arith),
        ne→==_false (word / 2 ^ 15 * 2 ^ 15) 0 (omega arith),
        bit_and-seven_bits (word / 2 ^ 8),
        bit_and-eight_bits word,
      )
      (smpte_path (omega arith) (omega arith))

smf_format-word : (f : SmfFormat) → (smf_format (format_word f) ≡ ok f) × (format_word f < 3)
unfolding smf_format format_word
smf_format-word single_track = (refl, omega arith)
smf_format-word multi_track = (refl, omega arith)
smf_format-word multi_song = (refl, omega arith)

module _ (input : List ℕ) where
  parse_tracks-Reads :
      (tracks done : List SmfTrack)
      → All IsWritable tracks
      → Reads input
          (length input)
          (parse_tracks (length tracks) input done)
          (chunks_bytes tracks)
          (done ++ map canonical_track tracks)
  unfolding parse_tracks
  parse_tracks-Reads [] done h pos rest e k = ok_path (sym (append-nil done)) (omega arith)
  parse_tracks-Reads (track ∷ tracks) done (h, hs) pos rest e k =
      >>=-Reads input (length input) (parse_mtrk input)
        (λ t. parse_tracks (length tracks) input (done ++ (t ∷ []))) (chunk_bytes track)
        (chunks_bytes tracks) (canonical_track track) _ (parse_mtrk-Reads input track h)
        (parse_tracks-Reads tracks (done ++ (canonical_track track ∷ [])) hs) pos rest e k
      ∙ ok_path (append_assoc done (canonical_track track ∷ []) (map canonical_track tracks)) refl

  parse_mthd-ok :
      (file : SmfFile) (rest : List ℕ)
      → IsFile file
      → input ≡ header_bytes file ++ rest
      → parse_mthd input 0
        ≡ ok ((file.format, length file.tracks, canonical_division file.division), 14)
  unfolding parse_mthd fail_if lift header_bytes u16_be u32_be
  parse_mthd-ok file rest h e =
      let count = length file.tracks in
      let word = division_word file.division in
      let magic : List ℕ = b'M' ∷ b'T' ∷ b'h' ∷ b'd' ∷ [] in
      let last = division_bytes file.division ++ rest in
      let counts = u16_be (count % 2 ^ 16) ++ last in
      let formats = u16_be (format_word file.format) ++ counts in
      let e0 : drop 0 input ≡ magic ++ (u32_be 6 ++ formats) = e in
      let e4 : drop 4 input ≡ u32_be 6 ++ formats = ap (drop 4) e0 in
      let e8 : drop 8 input ≡ formats = ap (drop 8) e0 in
      let exact : count % 2 ^ 16 ≡ count = omega (arith, h.count) in
      let e10 : drop 10 input ≡ u16_be count ++ last = rw exact at (ap (drop 10) e0) in
      let field = division_bytes-eq file.division h.division in
      let e12 : drop 12 input ≡ u16_be word ++ rest = rw field at (ap (drop 12) e0) in
      let size : 14 ≤ length input =
        omega (
          arith,
          ap length e0,
          length-append (division_bytes file.division) rest,
          ap length field,
        ) in
      let (known, small) = smf_format-word file.format in
      rw (
        require_bytes-ok input 14 mthd_chunk 0 size,
        expect_magic-Reads input b'M' b'T' b'h' b'd' missing_mthd 0 _ e0 (omega arith),
        read_u32_be-Reads input (length input) 6 (omega arith) 4 formats e4 (omega arith),
        read_u16_be-Reads input (length input) (format_word file.format) (omega arith) 8 counts e8
            (omega arith),
        known,
        read_u16_be-Reads input (length input) count h.count 10 last e10 (omega arith),
        read_u16_be-Reads input (length input) word (division_word-lt file.division h.division) 12
            rest e12 (omega arith),
        division_of-word file.division h.division,
      )

pub parse-write :
    (file : SmfFile)
    → IsFile file
    → All IsWritable file.tracks
    → and_then (write file) parse ≡ ok (canonical file)
unfolding parse parse_file header_bytes u16_be u32_be
parse-write file h w =
    let bytes = header_bytes file ++ chunks_bytes file.tracks in
    let field = division_bytes-eq file.division h.division in
    let rest : drop 14 bytes ≡ chunks_bytes file.tracks ++ [] = rw field (sym (append-nil _)) in
    let size = length-append (division_bytes file.division) (chunks_bytes file.tracks) in
    rw (
      write_lem file h,
      parse_mthd-ok bytes file (chunks_bytes file.tracks) h refl,
      parse_tracks-Reads bytes file.tracks [] w 14 [] rest (omega (arith, size, ap length field)),
    )
