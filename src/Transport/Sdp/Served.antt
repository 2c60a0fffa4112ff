-- ===== src/Transport/Sdp/Served.antt =====
-- transport/sdp.ts: what `videoSlot` finds in a section whose slot it gives.
use mathlib.Core.List.{Memᴰ}
use package.ros_webrtc_bridge.Prelude.{
  ℕ, ◌≤◌, ◌≡◌, refl, sym, ap, ◌∙◌, Bool, true, false, not, Option, none, some, List, [], ◌∷◌, ◌++◌,
  ltb, length, all, any, find, All, Text, codes, same_text_lem, Option-cases, Bool-cases, inl, inr,
  arith,
}
use package.ros_webrtc_bridge.Runtime.Outcome.{
  ok, bind_ok, require, invalid_video_section, unsupported_video_codec, or_throw-some,
}
use package.ros_webrtc_bridge.Runtime.Decimal.{parse}
use package.ros_webrtc_bridge.Runtime.Scan.{after, starts_with, to_lower}
use package.ros_webrtc_bridge.Runtime.Scan.Pieces.{after-eq-some}
use package.ros_webrtc_bridge.Router.Protocol.{includes}
use package.ros_webrtc_bridge.Transport.Sdp.{
  OfferedVideo, is_simulcast, is_empty_mid, take_digits, h264_payload, fmtp_prefix, is_hex,
  profile_of, is_profile, six_hex, slot_in, slot_of, slot_with, slot_at, parameters_in,
  offered_slot, first_h264, video_slot, or_none,
}

-- A line that names a payload type of H.264, whose digits are `digits`.
abbrev pub rtpmap : Text → Text
rtpmap digits = codes "a=rtpmap:" ++ digits ++ codes " H264/90000"

-- The format line of a payload type asks for mode 1, and for the profile that the slot has.
pub record Formats (lines : List Text) (slot : OfferedVideo) : Type 0 where
  pub text : Text
  pub profile : Text
  pub present : Memᴰ (fmtp_prefix slot.payload_type ++ text) lines
  pub fragmented : includes (parameters_in text) (codes "packetization-mode=1") ≡ true
  pub announced : Memᴰ (codes "profile-level-id=" ++ profile) (parameters_in text)
  pub lowered : slot.profile_level_id ≡ to_lower profile
  pub six : length profile ≡ 6
  pub hexadecimal : all is_hex profile ≡ true

-- The first line that names an H.264 payload type decides.
pub record Serves (lines : List Text) (slot : OfferedVideo) : Type 0 where
  pub receives : includes lines (codes "a=recvonly") ≡ true
  pub single : any is_simulcast lines ≡ false
  pub named : any is_empty_mid lines ≡ false
  pub before : List Text
  pub digits : Text
  pub later : List Text
  pub parts : lines ≡ before ++ rtpmap digits ∷ later
  pub first : All (λ line. h264_payload line ≡ none) before
  pub payload : parse digits ≡ slot.payload_type
  pub short : slot.payload_type ≤ 127
  pub formats : Formats lines slot

find-eq-some :
    (p : Text → Bool) (lines : List Text) (line : Text)
    → find p lines ≡ some line
    → Memᴰ line lines × (p line ≡ true)
unfolding find
find-eq-some p [] line h = absurd (cc (h))
find-eq-some p (x ∷ xs) line h = elim (Bool-cases (p x)) [
  | inl found ↦ let same : x ≡ line = grind (arith) in (rw same (Memᴰ.head refl), rw (← same) found)
  | inr other ↦
      let (there, passes) = find-eq-some p xs line (grind arith) in (Memᴰ.tail there, passes)
]

take_digits-parts : (s : Text) → s ≡ (take_digits s).0 ++ (take_digits s).1
unfolding take_digits
take_digits-parts [] = refl
take_digits-parts (c ∷ s) = ground (arith, take_digits-parts s)

-- What the parts of a chain that gives a value give.
or_none-eq-some :
    {A B : Type 0} (o : Option A) (f : A → Option B) (b : B)
    → or_none o f ≡ some b
    → (a : A) × (o ≡ some a) × (f a ≡ some b)
or_none-eq-some none f b h = absurd (cc (h))
or_none-eq-some (some a) f b h = (a, refl, h)

h264_payload-eq-some : (line digits : Text) → h264_payload line ≡ some digits → line ≡ rtpmap digits
unfolding h264_payload
h264_payload-eq-some line digits h =
    let (rest, found, h1) = or_none-eq-some (after (codes "a=rtpmap:") line) _ digits h in
    let taken : (take_digits rest).0 ≡ digits = ground arith in
    let ended : (take_digits rest).1 ≡ codes " H264/90000" =
      same_text_lem (take_digits rest).1 (codes " H264/90000") (ground arith) in
    after-eq-some (codes "a=rtpmap:") line rest found
    ∙ ap (λ s. codes "a=rtpmap:" ++ s) (take_digits-parts rest)
    ∙ rw (taken, ended) refl

profile_of-eq-some :
    (parameter profile : Text)
    → profile_of parameter ≡ some profile
    → (parameter ≡ codes "profile-level-id=" ++ profile)
      × (length profile ≡ 6)
      × (all is_hex profile ≡ true)
unfolding profile_of
profile_of-eq-some parameter profile h =
    let (rest, found, h1) =
      or_none-eq-some (after (codes "profile-level-id=") parameter) six_hex profile h in
    let same : rest ≡ profile = ground arith in
    (
      rw (← same) (after-eq-some (codes "profile-level-id=") parameter rest found),
      ground arith,
      ground arith,
    )

slot_in-Formats :
    (payload : ℕ) (text : Text) (lines : List Text) (slot : OfferedVideo)
    → Memᴰ (fmtp_prefix payload ++ text) lines
    → slot_in payload (parameters_in text) ≡ some slot
    → (slot.payload_type ≡ payload) × Formats lines slot
unfolding slot_in
slot_in-Formats payload text lines slot present h =
    elim (Bool-cases (includes (parameters_in text) (codes "packetization-mode=1"))) [
      | inr absent ↦ absurd (ground arith)
      | inl mode ↦
          let (parameter, listed, h1) =
            or_none-eq-some (find is_profile (parameters_in text)) (slot_with payload) slot
              (ground arith) in
          let (profile, read, h2) =
            or_none-eq-some (profile_of parameter) (slot_of payload) slot h1 in
          let (shape, six, hexadecimal) = profile_of-eq-some parameter profile read in
          let same : slot.payload_type ≡ payload = ground arith in
          (
            same,
            record {
              text = text;
              profile = profile;
              present = rw same present;
              fragmented = mode;
              announced =
                  rw (← shape) (find-eq-some is_profile (parameters_in text) parameter listed).0;
              lowered = ground arith;
              six = six;
              hexadecimal = hexadecimal;
            },
          )
    ]

offered_slot-Formats :
    (lines : List Text) (payload : ℕ) (slot : OfferedVideo)
    → offered_slot lines payload ≡ some slot
    → (payload ≤ 127) × (slot.payload_type ≡ payload) × Formats lines slot
unfolding offered_slot
offered_slot-Formats lines payload slot h = elim (Bool-cases (ltb 127 payload)) [
  | inl large ↦ absurd (ground arith)
  | inr small ↦
      let (fmtp, listed, h1) =
        or_none-eq-some (find (starts_with (fmtp_prefix payload)) lines) (slot_at payload) slot
          (ground arith) in
      let (text, found, h2) = or_none-eq-some (after (fmtp_prefix payload) fmtp) _ slot h1 in
      let (same, formats) =
        slot_in-Formats payload text lines slot
          (rw (← after-eq-some (fmtp_prefix payload) fmtp text found)
            (find-eq-some (starts_with (fmtp_prefix payload)) lines fmtp listed).0)
          h2 in
      (ground arith, same, formats)
]

-- Where the loop stops.
record Stops (lines more : List Text) (slot : OfferedVideo) : Type 0 where
  before : List Text
  digits : Text
  later : List Text
  parts : more ≡ before ++ rtpmap digits ∷ later
  first : All (λ line. h264_payload line ≡ none) before
  gives : offered_slot lines (parse digits) ≡ some slot

first_h264-Stops :
    (lines more : List Text) (slot : OfferedVideo)
    → first_h264 lines more ≡ some slot
    → Stops lines more slot
unfolding first_h264
first_h264-Stops lines [] slot h = absurd (cc (h))
first_h264-Stops lines (line ∷ more) slot h = elim (Option-cases (h264_payload line)) [
  | inl other ↦
      let s = first_h264-Stops lines more slot (grind arith) in
      record {
        before = line ∷ s.before;
        digits = s.digits;
        later = s.later;
        parts = ap (λ (xs : List Text). line ∷ xs) s.parts;
        first = (other, s.first);
        gives = s.gives;
      }
  | inr (digits, found) ↦ record {
    before = [];
    digits = digits;
    later = more;
    parts = rw (h264_payload-eq-some line digits found) refl;
    first = tt;
    gives = grind arith;
  }
]

pub video_slot-Serves :
    (lines : List Text) (slot : OfferedVideo) → video_slot lines ≡ ok slot → Serves lines slot
unfolding video_slot
video_slot-Serves lines slot h =
    let (_, h1, g1) =
      bind_ok (require (includes lines (codes "a=recvonly")) invalid_video_section) _ slot h in
    let (_, h2, g2) =
      bind_ok (require (not (any is_simulcast lines)) invalid_video_section) _ slot g1 in
    let (_, h3, g3) =
      bind_ok (require (not (any is_empty_mid lines)) invalid_video_section) _ slot g2 in
    let s =
      first_h264-Stops lines lines slot
        (or_throw-some (first_h264 lines lines) unsupported_video_codec slot g3) in
    let (short, same, formats) = offered_slot-Formats lines (parse s.digits) slot s.gives in
    record {
      receives = ground arith;
      single = ground arith;
      named = ground arith;
      before = s.before;
      digits = s.digits;
      later = s.later;
      parts = s.parts;
      first = s.first;
      payload = sym same;
      short = omega (arith, same, short);
      formats = formats;
    }
