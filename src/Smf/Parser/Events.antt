-- ===== src/Smf/Parser/Events.antt =====
-- `parse_event` on any input: no panic, an event in range, and a cursor within the input.
use oxisound.Common.{
  ℕ, ◌+◌, ◌≤◌, ◌<◌, ◌≡◌, refl, List, arith, length, All, true, false, ltb, leb, ◌==◌, Bool,
  Bool-cases, inl, inr, none, some, Option, Ensures, returned, failed, bit_and, ltb_false→le,
  if◌then◌else◌, and_then-Ensures, Ensures-weaken, ◌||◌, Outcome, ok, err,
}
use oxisound.Common.Bits.{bit_and-high_bit}
use oxisound.Common.Reading.{if-Reader}
use oxisound.Common.Slices.{slice-Ensures}
use oxisound.Midi.{new_sysex}
use oxisound.Smf.{SmfError, SmfEvent, midi, no_running_status}
use oxisound.Smf.Valid.{IsByte, IsStatus, IsEvent}
use oxisound.Smf.Bytes.Bounds.{NumberRead, read_byte-Ensures}
use oxisound.Smf.Vlq.Reading.{read_vlq-Ensures}
use oxisound.Smf.Parser.{
  fail_if, lift, slice_at, read_data_byte, channel_data, build_channel_message, takes_one,
  takes_two, parse_meta_event, sysex_message, parse_sysex_event, event_status, parse_channel_event,
  parse_event,
}
use oxisound.Smf.Parser.Meta.{decode_meta-Ensures}

abbrev pub IsRunning : Option ℕ → Type 0
IsRunning none = Unit {0}
IsRunning (some s) = IsStatus s

-- What reading an event gives.
abbrev pub EventRead : List ℕ → ℕ → (SmfEvent × Option ℕ) × ℕ → Type 0
EventRead input pos r = IsEvent r.0.0 × IsRunning r.0.1 × (pos ≤ r.1) × (r.1 ≤ length input)

pub fail_if-Ensures :
    (test : ℕ → Bool) (e : SmfError) (pos : ℕ)
    → Ensures (λ r. (r.1 ≡ pos) × (test pos ≡ false)) (fail_if test e pos)
unfolding fail_if
fail_if-Ensures test e pos = by_test (test pos) refl
  where
    by_test :
        (b : Bool)
        → test pos ≡ b
        → Ensures {A = Unit {0} × ℕ}
            (λ r. (r.1 ≡ pos) × (test pos ≡ false))
            (if b then err e else ok (tt, pos))
    by_test true h = failed
    by_test false h = returned (refl, h)

pub lift-Ensures {ℓ κ} :
    {A : Type ℓ} (P : A → Type κ) (o : Outcome SmfError A) (pos : ℕ)
    → Ensures P o
    → Ensures (λ r. P r.0 × (r.1 ≡ pos)) (lift o pos)
unfolding lift
lift-Ensures P o pos h = and_then-Ensures _ _ _ _ h λ a p. returned (p, refl)

-- A status, and the first data byte where the status is a running one.
abbrev StatusRead : ℕ × Option ℕ → Type 0
StatusRead (s, none) = IsStatus s × Unit {0}
StatusRead (s, some b) = IsStatus s × (b < 256)

event_status-Ensures :
    (first_byte : ℕ) (running : Option ℕ)
    → first_byte < 256
    → IsRunning running
    → Ensures StatusRead (event_status first_byte running)
unfolding event_status
event_status-Ensures first_byte running h hr = elim (Bool-cases (bit_and first_byte 0x80 == 0)) [
  | inl low ↦ rw low (from_running running hr)
  | inr high ↦ rw high (returned ((ground (arith, bit_and-high_bit first_byte), h), tt))
]
  where
    from_running :
        (r : Option ℕ)
        → IsRunning r
        → Ensures {E = SmfError} StatusRead
            (elim r [ none ↦ err no_running_status | some s ↦ ok (s, some first_byte) ])
    from_running none q = failed
    from_running (some s) q = returned (q, h)

sysex_IsEvent :
    (first_byte : ℕ) (bytes : List ℕ)
    → All IsByte bytes
    → IsEvent (midi (sysex_message first_byte bytes))
unfolding sysex_message new_sysex
sysex_IsEvent first_byte bytes h = elim (Bool-cases (first_byte == 0xf0)) [
  | inl e ↦ rw e (omega arith, h)
  | inr e ↦ rw e (omega arith, h)
]

module _ (input : List ℕ) (all : All IsByte input) where
  pub slice_at-Ensures :
      (n pos : ℕ)
      → pos + n ≤ length input
      → Ensures (λ r. All IsByte r.0 × (length r.0 ≡ n) × (r.1 ≡ pos)) (slice_at input n pos)
  unfolding slice_at
  slice_at-Ensures n pos h =
      and_then-Ensures _ _ _ _ (slice-Ensures IsByte input pos (pos + n) all (omega arith) h)
        λ part (bytes, len). returned (bytes, omega arith, refl)

  read_data_byte-Ensures :
      (track_end pos : ℕ) → Ensures (NumberRead input 256 pos) (read_data_byte input track_end pos)
  unfolding read_data_byte
  read_data_byte-Ensures track_end pos =
      and_then-Ensures _ _ _ _ (fail_if-Ensures (λ p. leb track_end p) _ pos)
        λ (u, p0) h0. Ensures-weaken _ _ _ (read_byte-Ensures input p0 all) λ r h. omega arith

  channel_data-Ensures :
      (track_end msg_type b1 pos : ℕ)
      → b1 < 256
      → pos ≤ length input
      → Ensures
          (λ r. All IsByte r.0 × (pos ≤ r.1) × (r.1 ≤ length input))
          (channel_data input track_end msg_type b1 pos)
  unfolding channel_data
  channel_data-Ensures track_end msg_type b1 pos hb h =
      if-Reader _ (takes_two msg_type) _ _ pos
        (and_then-Ensures _ _ _ _ (read_data_byte-Ensures track_end pos)
          λ (b2, p) h2. returned (omega arith))
        (if-Reader _ (takes_one msg_type) _ _ pos (returned (omega arith)) failed)

  build_channel_message-Ensures :
      (track_end msg_type pos : ℕ) (s : ℕ × Option ℕ)
      → StatusRead s
      → pos ≤ length input
      → Ensures
          (λ r. IsEvent (midi r.0) × (r.0.status ≡ s.0) × (pos ≤ r.1) × (r.1 ≤ length input))
          (build_channel_message input track_end s.0 msg_type s.1 pos)
  unfolding build_channel_message
  build_channel_message-Ensures track_end msg_type pos (s, none) q h =
      and_then-Ensures _ _ _ _ (read_data_byte-Ensures track_end pos) λ (b1, p1) h1.
        and_then-Ensures _ _ _ _
          (channel_data-Ensures track_end msg_type b1 p1 (omega arith) (omega arith))
          λ (bytes, p2) h2. returned ((q.0, h2.0), refl, omega arith, omega arith)
  build_channel_message-Ensures track_end msg_type pos (s, some b) q h =
      and_then-Ensures _ _ _ _ (channel_data-Ensures track_end msg_type b pos (omega arith) h)
        λ (bytes, p2) h2. returned ((q.0, h2.0), refl, omega arith, omega arith)

  module _ (track_end : ℕ) (fits : track_end ≤ length input) where
    parse_meta_event-Ensures :
        (pos : ℕ) → Ensures (EventRead input pos) (parse_meta_event input track_end pos)
    unfolding parse_meta_event
    parse_meta_event-Ensures pos =
        and_then-Ensures _ _ _ _ (read_byte-Ensures input pos all) λ (t, p0) h0.
          and_then-Ensures _ _ _ _ (read_vlq-Ensures input p0) λ (len, p1) h1.
            and_then-Ensures _ _ _ _ (fail_if-Ensures (λ p. ltb track_end (p + len)) _ p1)
              λ (u, p2) h2.
                let inside : p2 + len ≤ track_end =
                  omega (arith, ltb_false→le track_end (p1 + len) h2.1) in
                and_then-Ensures _ _ _ _ (slice_at-Ensures len p2 (omega arith)) λ (bytes, p3) h3.
                  and_then-Ensures _ _ _ _
                    (lift-Ensures _ _ (p3 + len)
                      (decode_meta-Ensures t bytes h0.0 (h3.0, omega arith)))
                    λ (event, p4) h4. returned (h4.0, tt, omega arith, omega arith)

    parse_sysex_event-Ensures :
        (first_byte pos : ℕ)
        → Ensures (EventRead input pos) (parse_sysex_event input track_end first_byte pos)
    unfolding parse_sysex_event
    parse_sysex_event-Ensures first_byte pos =
        and_then-Ensures _ _ _ _ (read_vlq-Ensures input pos) λ (len, p1) h1.
          and_then-Ensures _ _ _ _ (fail_if-Ensures (λ p. ltb track_end (p + len)) _ p1)
            λ (u, p2) h2.
              let inside : p2 + len ≤ track_end =
                omega (arith, ltb_false→le track_end (p1 + len) h2.1) in
              and_then-Ensures _ _ _ _ (slice_at-Ensures len p2 (omega arith)) λ (bytes, p3) h3.
                returned (sysex_IsEvent first_byte bytes h3.0, tt, omega arith, omega arith)

    parse_channel_event-Ensures :
        (first_byte pos : ℕ) (running : Option ℕ)
        → first_byte < 256
        → IsRunning running
        → pos ≤ length input
        → Ensures (EventRead input pos) (parse_channel_event input track_end first_byte running pos)
    unfolding parse_channel_event
    parse_channel_event-Ensures first_byte pos running hb hr h =
        and_then-Ensures _ _ _ _
          (lift-Ensures _ _ pos (event_status-Ensures first_byte running hb hr))
          λ (s, p1) h1.
            and_then-Ensures _ _ _ _
              (build_channel_message-Ensures track_end (bit_and s.0 0xf0) p1 s h1.0 (omega arith))
              λ (msg, p2) h2.
                returned {a = ((midi msg, some s.0), p2)}
                  (h2.0, omega arith, omega arith, omega arith)

    -- `parse_event` returns on any input.
    pub parse_event-Ensures :
        (pos : ℕ) (running : Option ℕ)
        → IsRunning running
        → Ensures (EventRead input pos) (parse_event input track_end running pos)
    unfolding parse_event
    parse_event-Ensures pos running hr =
        and_then-Ensures _ _ _ _ (read_byte-Ensures input pos all) λ (b, p0) h0.
          Ensures-weaken (EventRead input p0) _ _
            (if-Reader _ (b == 0xff) _ _ p0 (parse_meta_event-Ensures p0) (
              if-Reader _ (b == 0xf0 || b == 0xf7) _ _ p0 (parse_sysex_event-Ensures b p0)
                (parse_channel_event-Ensures b p0 running h0.0 hr (omega arith))))
            λ r q. (q.0, q.1, omega arith, omega arith)
