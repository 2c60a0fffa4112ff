-- ===== src/Transport/Sdp.antt =====
-- packages/bridge/src/transport/sdp.ts: `parseOffer`, which reads an offer's text before any state is
-- made for its peer.
--
-- `Number` of a text of digits is its decimal value: from 2^53 on the code's number is rounded, and is
-- no safe integer and above every bound that the code tests, as is the exact one.
pub mod Sections
pub mod Accepted
pub mod Served
mod Tests
use package.ros_webrtc_bridge.Prelude.{
  ℕ, ◌+◌, Bool, true, false, not, ◌&&◌, ◌||◌, Option, none, some, List, [], ◌∷◌, ◌++◌, ltb, leb,
  ◌==◌, if◌then◌else◌, length, all, any, filter, find, is_some, Text, codes, same_text, map,
}
use package.ros_webrtc_bridge.Runtime.Outcome.{
  Outcome, ok, throw, require, or_throw, ◌>>=◌, ◌>>◌, max_safe_integer, invalid_offer,
  datachannel_only, invalid_video_section, unsupported_video_codec, video_slot_limit,
  invalid_message_limit,
}
use package.ros_webrtc_bridge.Runtime.Decimal.{is_digit, parse, print}
use package.ros_webrtc_bridge.Runtime.Scan.{
  after, starts_with, contains, pieces, is_space, trim, to_lower,
}
use package.ros_webrtc_bridge.Router.Protocol.{includes}

pub record OfferedVideo : Type 0 where
  pub payload_type : ℕ
  pub profile_level_id : Text

pub record OfferShape : Type 0 where
  pub max_message_bytes : Option ℕ
  pub video : List OfferedVideo

abbrev pub max_lines : ℕ
max_lines = 2048

-- A section is never empty: the `m=` line that opens it, and the others.
pub record Section : Type 0 where
  pub media : Text
  pub others : List Text

abbrev pub lines_of : Section → List Text
lines_of s = s.media ∷ s.others

pub record Document : Type 0 where
  pub session : List Text
  pub sections : List Section

-- `sections[sections.length - 1].push(line)`
unfoldable pub push_last : Text → Section → List Section → List Section
push_last line s [] = record s { others = s.others ++ line ∷ [] } ∷ []
push_last line s (t ∷ ts) = s ∷ push_last line t ts

abbrev pub opens_section : Text → Bool
opens_section = starts_with (codes "m=")

-- `(sections[sections.length - 1] ?? session).push(line)`, or a new section.
unfoldable pub place : Bool → Text → List Text → List Section → Document
unfolding push_last
place true line session sections = record {
  session = session;
  sections = sections ++ record { media = line; others = [] } ∷ [];
}
place false line session [] = record { session = session ++ line ∷ []; sections = [] }
place false line session (s ∷ ss) = record { session = session; sections = push_last line s ss }

-- The body of the loop over the lines.
abbrev pub add_line : Document → Text → Document
add_line d line = place (opens_section line) line d.session d.sections

unfoldable pub add_lines : Document → List Text → Document
unfolding place
add_lines d [] = d
add_lines d (line ∷ more) = add_lines (add_line d line) more

unfoldable pub lines_in : Text → List Text
unfolding pieces
lines_in = pieces b'\r' (b'\n' ∷ []) 0

unfoldable pub split : Text → Outcome Document
unfolding lines_in add_lines
split sdp = do
  require (leb (length (lines_in sdp)) max_lines) invalid_offer
  ok (add_lines (record { session = []; sections = [] }) (lines_in sdp))

abbrev pub or_none {ℓ κ} : {A : Type ℓ} {B : Type κ} → Option A → (A → Option B) → Option B
or_none none f = none
or_none (some a) f = f a

-- `/^a=mid:\s*$/`
abbrev pub is_empty_mid : Text → Bool
is_empty_mid line = elim (after (codes "a=mid:") line) [
  | none ↦ false
  | some rest ↦ all is_space rest
]

-- The digits at the start of a text, and the rest.
unfoldable pub take_digits : Text → Text × Text
take_digits [] = ([], [])
take_digits (c ∷ s) =
    let (digits, rest) = take_digits s in if is_digit c then (c ∷ digits, rest) else ([], c ∷ s)

abbrev pub digits_before : Text → Text × Text → Option Text
digits_before end (digits, rest) =
    if ltb 0 (length digits) && same_text rest end then some digits else none

-- `/^a=rtpmap:(\d+) H264\/90000$/`
unfoldable pub h264_payload : Text → Option Text
unfolding after take_digits
h264_payload line =
    or_none (after (codes "a=rtpmap:") line)
      λ rest. digits_before (codes " H264/90000") (take_digits rest)

abbrev pub fmtp_prefix : ℕ → Text
fmtp_prefix payload = codes "a=fmtp:" ++ print payload ++ codes " "

abbrev pub is_hex : ℕ → Bool
is_hex c = is_digit c || leb b'A' c && leb c b'F' || leb b'a' c && leb c b'f'

abbrev pub six_hex : Text → Option Text
six_hex profile = if length profile == 6 && all is_hex profile then some profile else none

-- `/^profile-level-id=[0-9A-Fa-f]{6}$/`, and the digits it finds.
unfoldable pub profile_of : Text → Option Text
unfolding after
profile_of parameter = or_none (after (codes "profile-level-id=") parameter) six_hex

abbrev pub is_profile : Text → Bool
is_profile parameter = is_some (profile_of parameter)

-- `text.split(';').map(parameter => parameter.trim())`
unfoldable pub parameters_in : Text → List Text
unfolding pieces trim
parameters_in text = map trim (pieces b';' [] 0 text)

abbrev pub slot_of : ℕ → Text → Option OfferedVideo
slot_of payload profile =
    some (record { payload_type = payload; profile_level_id = to_lower profile })

abbrev pub slot_with : ℕ → Text → Option OfferedVideo
slot_with payload parameter = or_none (profile_of parameter) (slot_of payload)

-- The slot that a format line's parameters give.
unfoldable pub slot_in : ℕ → List Text → Option OfferedVideo
unfolding profile_of to_lower find
slot_in payload parameters =
    if not (includes parameters (codes "packetization-mode=1"))
    then none
    else or_none (find is_profile parameters) (slot_with payload)

abbrev pub slot_at : ℕ → Text → Option OfferedVideo
slot_at payload fmtp =
    or_none (after (fmtp_prefix payload) fmtp) λ text. slot_in payload (parameters_in text)

-- The body of the loop behind the pattern, for one payload type.
unfoldable pub offered_slot : List Text → ℕ → Option OfferedVideo
unfolding after parameters_in slot_in find
offered_slot lines payload =
    if ltb 127 payload
    then none
    else or_none (find (starts_with (fmtp_prefix payload)) lines) (slot_at payload)

-- The loop: the first line that matches decides.
unfoldable pub first_h264 : List Text → List Text → Option OfferedVideo
unfolding h264_payload offered_slot
first_h264 lines [] = none
first_h264 lines (line ∷ more) = elim (h264_payload line) [
  | none ↦ first_h264 lines more
  | some digits ↦ offered_slot lines (parse digits)
]

abbrev pub is_simulcast : Text → Bool
is_simulcast line = starts_with (codes "a=simulcast:") line || starts_with (codes "a=rid:") line

unfoldable pub video_slot : List Text → Outcome OfferedVideo
unfolding first_h264
video_slot lines = do
  require (includes lines (codes "a=recvonly")) invalid_video_section
  require (not (any is_simulcast lines)) invalid_video_section
  require (not (any is_empty_mid lines)) invalid_video_section
  or_throw (first_h264 lines lines) unsupported_video_codec

-- Exactly four fields.
abbrev pub names_datachannel : List Text → Bool
names_datachannel (media ∷ port ∷ protocol ∷ format ∷ []) =
    same_text media (codes "m=application")
    && contains (codes "DTLS/SCTP") protocol
    && same_text format (codes "webrtc-datachannel")
names_datachannel _ = false

unfoldable pub datachannel_section : Text → Bool
unfolding pieces contains
datachannel_section line = names_datachannel (pieces b' ' [] 0 line)

abbrev pub is_application : Section → Bool
is_application s = datachannel_section s.media

abbrev pub is_video : Section → Bool
is_video s = starts_with (codes "m=video ") s.media

abbrev pub digits_only : Text → Option Text
digits_only digits = if ltb 0 (length digits) && all is_digit digits then some digits else none

-- `/^a=max-message-size:\d+$/`, and its digits.
unfoldable pub message_limit : Text → Option Text
unfolding after
message_limit line = or_none (after (codes "a=max-message-size:") line) digits_only

-- The digits of every line that matches.
unfoldable pub limits_in : List Text → List Text
unfolding message_limit
limits_in [] = []
limits_in (line ∷ more) = elim (message_limit line) [
  | none ↦ limits_in more
  | some digits ↦ digits ∷ limits_in more
]

abbrev pub advertised : List Text → Outcome (Option ℕ)
advertised [] = ok none
advertised (digits ∷ []) =
    require (leb (parse digits) max_safe_integer) invalid_message_limit >> ok (some (parse digits))
advertised (digits ∷ _ ∷ _) = throw invalid_message_limit

-- `video.map(videoSlot)`: the first throw ends it.
unfoldable pub video_slots : List Section → Outcome (List OfferedVideo)
unfolding video_slot
video_slots [] = ok []
video_slots (s ∷ ss) = do slot ← video_slot (lines_of s); slots ← video_slots ss; ok (slot ∷ slots)

-- `application[0]`, where there is exactly one.
abbrev pub only : List Section → Outcome Section
only (s ∷ []) = ok s
only _ = throw datachannel_only

abbrev pub parse_document : Document → ℕ → Outcome OfferShape
unfolding filter datachannel_section limits_in video_slots
parse_document d max_video =
    let video : List Section = filter is_video d.sections in
    do
      application ← only (filter is_application d.sections)
      require (1 + length video == length d.sections) datachannel_only
      require (leb (length video) max_video)
          (if max_video == 0 then datachannel_only else video_slot_limit)
      limit ← advertised (limits_in (d.session ++ lines_of application))
      slots ← video_slots video
      ok (record { max_message_bytes = limit; video = slots })

unfoldable pub parse_offer : Text → ℕ → Outcome OfferShape
unfolding split parse_document
parse_offer sdp max_video = do d ← split sdp; parse_document d max_video
