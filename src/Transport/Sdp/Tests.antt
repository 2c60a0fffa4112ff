-- ===== src/Transport/Sdp/Tests.antt =====
-- sdp.ts at concrete offers, and the theorem applied.
use package.ros_webrtc_bridge.Prelude.{
  ◌≡◌, refl, some, List, [], ◌∷◌, ◌++◌, Text, codes, text_discrete, filter, find,
}
use package.ros_webrtc_bridge.Runtime.Outcome.{
  ok, throw, datachannel_only, invalid_video_section, unsupported_video_codec, video_slot_limit,
  invalid_message_limit,
}
use package.ros_webrtc_bridge.Runtime.Decimal.{print, parse_from}
use package.ros_webrtc_bridge.Runtime.Scan.{
  after, contains, pieces, trim_start, trim_end, trim, to_lower,
}
use package.ros_webrtc_bridge.Runtime.Scan.Pieces.{join}
use package.ros_webrtc_bridge.Transport.Sdp.{
  OfferShape, push_last, place, add_lines, lines_in, split, take_digits, h264_payload, profile_of,
  parameters_in, slot_in, offered_slot, first_h264, video_slot, datachannel_section, message_limit,
  limits_in, video_slots, parse_offer,
}
use package.ros_webrtc_bridge.Transport.Sdp.Accepted.{Accepted, parse_offer-Accepted}

program : Unit {0}
unfolding after contains pieces trim_start trim_end trim to_lower join push_last place add_lines
    lines_in split take_digits h264_payload profile_of parameters_in slot_in offered_slot first_h264
    video_slot datachannel_section message_limit limits_in video_slots parse_offer text_discrete
    filter find parse_from print
program = tt

abbrev text : List Text → Text
text = join (codes "\r\n")

abbrev channel : List Text
channel =
    codes "v=0"
    ∷ codes "m=application 9 UDP/DTLS/SCTP webrtc-datachannel"
    ∷ codes "a=max-message-size:262144"
    ∷ []

-- A video section with a payload type, and the parameters of its format.
abbrev video : Text → Text → List Text
video payload parameters =
    codes "m=video 9 UDP/TLS/RTP/SAVPF 96"
    ∷ codes "a=mid:1"
    ∷ codes "a=recvonly"
    ∷ (codes "a=rtpmap:" ++ payload ++ codes " H264/90000")
    ∷ (codes "a=fmtp:" ++ payload ++ codes " " ++ parameters)
    ∷ []

abbrev parameters : Text
parameters = codes "level-asymmetry-allowed=1; packetization-mode=1;profile-level-id=42E01F"

abbrev offer : Text
offer = text (channel ++ video (codes "96") parameters)

abbrev shape : OfferShape
shape = record {
  max_message_bytes = some 262144;
  video = record { payload_type = 96; profile_level_id = codes "42e01f" } ∷ [];
}

accepted : parse_offer offer 4 ≡ ok shape
unfolding program
accepted = refl

-- No room for video, and too little.
refused :
    (parse_offer offer 0 ≡ throw datachannel_only)
    × (parse_offer
          (text (channel ++ video (codes "96") parameters ++ video (codes "97") parameters))
          1
        ≡ throw video_slot_limit)
unfolding program
refused = (refl, refl)

-- A payload type of eight bits, and a mode that only begins like the one that is required.
unusable :
    (parse_offer (text (channel ++ video (codes "128") parameters)) 4
      ≡ throw unsupported_video_codec)
    × (parse_offer
          (text
            (channel ++ video (codes "96") (codes "packetization-mode=10;profile-level-id=42e01f")))
          4
        ≡ throw unsupported_video_codec)
unfolding program
unusable = (refl, refl)

-- Audio, an empty mid, and two limits.
malformed :
    (parse_offer (text (channel ++ codes "m=audio 9 RTP/AVP 0" ∷ [])) 4 ≡ throw datachannel_only)
    × (parse_offer (text (channel ++ video (codes "96") parameters ++ codes "a=mid: " ∷ [])) 4
        ≡ throw invalid_video_section)
    × (parse_offer (text (codes "a=max-message-size:1" ∷ channel)) 4 ≡ throw invalid_message_limit)
unfolding program
malformed = (refl, refl, refl)

-- A limit in a video section is not read.
smuggled :
    parse_offer
      (text (channel ++ video (codes "96") parameters ++ codes "a=max-message-size:1" ∷ []))
      4
    ≡ ok shape
unfolding program
smuggled = refl

parse_offer-Accepted_example : Accepted offer 4 shape
parse_offer-Accepted_example = parse_offer-Accepted offer 4 shape accepted
