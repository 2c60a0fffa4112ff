-- ===== src/Transport/Sdp/Accepted.antt =====
-- transport/sdp.ts: what an accepted offer's text holds, counted over its lines.
use mathlib.Core.Path.{subst}
use package.ros_webrtc_bridge.Prelude.{
  ℕ, ◌+◌, ◌≤◌, ◌≡◌, refl, sym, ap, ◌∙◌, Bool, true, false, Option, none, some, List, [], ◌∷◌, ◌++◌,
  leb, ◌==◌, if◌then◌else◌, length, filter, All, Text, codes, same_text_lem, arith,
}
use package.ros_webrtc_bridge.Runtime.Outcome.{
  ok, bind_ok, require, max_safe_integer, datachannel_only, video_slot_limit, invalid_message_limit,
}
use package.ros_webrtc_bridge.Runtime.Decimal.{parse}
use package.ros_webrtc_bridge.Runtime.Scan.{after, starts_with, pieces}
use package.ros_webrtc_bridge.Runtime.Scan.Pieces.{join, join-pieces}
use package.ros_webrtc_bridge.Transport.Sdp.{
  OfferedVideo, OfferShape, Section, Document, lines_of, opens_section, lines_in, split,
  names_datachannel, datachannel_section, is_application, is_video, limits_in, advertised,
  video_slots, video_slot, only, parse_offer,
}
use package.ros_webrtc_bridge.Transport.Sdp.Served.{Serves, video_slot-Serves}
use package.ros_webrtc_bridge.Transport.Sdp.Sections.{
  lines_of_all, text_lines, IsSection, IsDocument, Splits, split-Splits,
}

-- How many lines pass a test.
abbrev pub count : (Text → Bool) → List Text → ℕ
count p lines = length (filter p lines)

names_datachannel-opens :
    (fields : List Text)
    → names_datachannel fields ≡ true
    → opens_section (join (b' ' ∷ []) fields) ≡ true
unfolding join after
names_datachannel-opens (a ∷ b ∷ c ∷ d ∷ []) h =
    let media = same_text_lem a (codes "m=application") (ground arith) in rw media refl
names_datachannel-opens _ h = ground arith

datachannel_section-opens :
    (line : Text) → datachannel_section line ≡ true → opens_section line ≡ true
unfolding datachannel_section
datachannel_section-opens line h =
    rw (join-pieces b' ' [] 0 line) at (names_datachannel-opens (pieces b' ' [] 0 line) h)

video-opens : (line : Text) → starts_with (codes "m=video ") line ≡ true → opens_section line ≡ true
unfolding after
video-opens (a ∷ b ∷ rest) h = ground arith
video-opens _ h = ground arith

module _ (p : Text → Bool)
    (opening : (line : Text) → p line ≡ true → opens_section line ≡ true) where
  count-append : (xs ys : List Text) → count p (xs ++ ys) ≡ count p xs + count p ys
  unfolding filter
  count-append [] ys = omega arith
  count-append (x ∷ xs) ys = ground (arith, count-append xs ys)

  count_plain : (xs : List Text) → All (λ line. opens_section line ≡ false) xs → count p xs ≡ 0
  unfolding filter
  count_plain [] h = refl
  count_plain (x ∷ xs) (h, hs) = ground (arith, count_plain xs hs, opening x)

  count_sections :
      (ss : List Section)
      → All IsSection ss
      → count p (lines_of_all ss) ≡ length (filter (λ (s : Section). p s.media) ss)
  unfolding filter
  count_sections [] h = refl
  count_sections (s ∷ ss) ((h, plain), hs) = ground (
    arith,
    count-append s.others (lines_of_all ss),
    count_plain s.others plain,
    count_sections ss hs,
  )

  count_document :
      (d : Document)
      → IsDocument d
      → count p (text_lines d) ≡ length (filter (λ (s : Section). p s.media) d.sections)
  count_document d h = omega (
    arith,
    count-append d.session (lines_of_all d.sections),
    count_plain d.session h.session_plain,
    count_sections d.sections h.sections_open,
  )

  -- The lines of the text that pass, by the sections.
  count_text :
      (sdp : Text) (d : Document)
      → Splits sdp d
      → count p (lines_in sdp) ≡ length (filter (λ (s : Section). p s.media) d.sections)
  count_text sdp d h = ap (count p) (sym h.lines_kept) ∙ count_document d h.document

filter-opens :
    (ss : List Section)
    → All IsSection ss
    → length (filter (λ (s : Section). opens_section s.media) ss) ≡ length ss
unfolding filter
filter-opens [] h = refl
filter-opens (s ∷ ss) ((h, plain), hs) = ground (arith, filter-opens ss hs)

-- The limit that the one line with a limit announces, or none.
abbrev pub Announced : List Text → Option ℕ → Type 0
Announced lines none = limits_in lines ≡ []
Announced lines (some n) =
    (digits : Text) × (limits_in lines ≡ digits ∷ []) × (parse digits ≡ n) × (n ≤ max_safe_integer)

-- One slot for each section, in the order of the sections.
abbrev pub EachServed : List Section → List OfferedVideo → Type 0
EachServed [] slots = slots ≡ []
EachServed (s ∷ ss) [] = ⊥
EachServed (s ∷ ss) (slot ∷ slots) = Serves (lines_of s) slot × EachServed ss slots

pub record Accepted (sdp : Text) (max_video : ℕ) (shape : OfferShape) : Type 0 where
  pub document : Document
  pub application : Section
  pub splits : Splits sdp document
  pub one_channel : count datachannel_section (lines_in sdp) ≡ 1
  pub one_slot_each : count (starts_with (codes "m=video ")) (lines_in sdp) ≡ length shape.video
  pub nothing_else : count opens_section (lines_in sdp) ≡ 1 + length shape.video
  pub bounded : length shape.video ≤ max_video
  pub alone : filter is_application document.sections ≡ application ∷ []
  pub limit : Announced (document.session ++ lines_of application) shape.max_message_bytes
  pub served : EachServed (filter is_video document.sections) shape.video

advertised-Announced :
    (lines : List Text) (limit : Option ℕ)
    → advertised (limits_in lines) ≡ ok limit
    → Announced lines limit
advertised-Announced lines limit h = announced (limits_in lines) refl h
  where
    announced :
        (found : List Text)
        → limits_in lines ≡ found
        → advertised found ≡ ok limit
        → Announced lines limit
    announced [] e h = ground arith
    announced (digits ∷ []) e h =
        let (_, small, h1) =
          bind_ok (require (leb (parse digits) max_safe_integer) invalid_message_limit) _ limit h in
        let same : some (parse digits) ≡ limit = ground arith in
        subst (Announced lines) same (digits, e, refl, ground arith)
    announced (_ ∷ _ ∷ _) e h = absurd (cc (h))

video_slots-Served :
    (ss : List Section) (slots : List OfferedVideo)
    → video_slots ss ≡ ok slots
    → EachServed ss slots
unfolding video_slots
video_slots-Served [] slots h = ground arith
video_slots-Served (s ∷ ss) slots h =
    let (slot, first, h1) = bind_ok (video_slot (lines_of s)) _ slots h in
    let (more, rest, h2) = bind_ok (video_slots ss) _ slots h1 in
    let same : slots ≡ slot ∷ more = ground arith in
    rw same (video_slot-Serves (lines_of s) slot first, video_slots-Served ss more rest)

EachServed-length :
    (ss : List Section) (slots : List OfferedVideo) → EachServed ss slots → length slots ≡ length ss
EachServed-length [] slots h = rw h refl
EachServed-length (s ∷ ss) [] h = absurd h
EachServed-length (s ∷ ss) (slot ∷ slots) (h, hs) = omega (arith, EachServed-length ss slots hs)

only-eq-ok : (ss : List Section) (s : Section) → only ss ≡ ok s → ss ≡ s ∷ []
only-eq-ok (t ∷ []) s h = ground arith
only-eq-ok _ s h = ground arith

-- Where an offer is accepted: its lines, those of the text cut at CRLF, are at most 2048, and joined
-- they are the text; exactly one of them names the DataChannel, and the others that begin with `m=` are
-- as many as the slots of the answer, as are those that begin with `m=video `, and at most `max_video`.
-- The message limit is a safe integer that stands on the only limit line of the session and of the
-- DataChannel's section, or there is no such line. Each slot, in order, is what a video section serves:
-- it has `a=recvonly`, no simulcast and no empty mid; its payload type, at most 127, is that of the first
-- line that names H.264; and a format line of that type asks for packetization mode 1 and for the six
-- hexadecimal digits of the slot's profile, in lower case.
pub parse_offer-Accepted :
    (sdp : Text) (max_video : ℕ) (shape : OfferShape)
    → parse_offer sdp max_video ≡ ok shape
    → Accepted sdp max_video shape
unfolding parse_offer
parse_offer-Accepted sdp max_video shape h =
    let (d, divided, h1) = bind_ok (split sdp) _ shape h in
    let video : List Section = filter is_video d.sections in
    let (application, one, h2) = bind_ok (only (filter is_application d.sections)) _ shape h1 in
    let (_, whole, h3) =
      bind_ok (require (1 + length video == length d.sections) datachannel_only) _ shape h2 in
    let (_, fits, h4) =
      bind_ok
        (require (leb (length video) max_video)
          (if max_video == 0 then datachannel_only else video_slot_limit))
        _ shape h3 in
    let (limit, announced, h5) =
      bind_ok (advertised (limits_in (d.session ++ lines_of application))) _ shape h4 in
    let (slots, given, h6) = bind_ok (video_slots video) _ shape h5 in
    let same : record { max_message_bytes = limit; video = slots } ≡ shape = ground arith in
    let parts = split-Splits sdp d divided in
    let served = video_slots-Served video slots given in
    let media = EachServed-length video slots served in
    let alone = only-eq-ok (filter is_application d.sections) application one in
    subst (Accepted sdp max_video) same (record {
      document = d;
      application = application;
      splits = parts;
      one_channel =
          count_text datachannel_section datachannel_section-opens sdp d parts ∙ ap length alone;
      one_slot_each =
          count_text (starts_with (codes "m=video ")) video-opens sdp d parts ∙ sym media;
      nothing_else =
          count_text opens_section (λ line h. h) sdp d parts
          ∙ filter-opens d.sections parts.document.sections_open
          ∙ ground (arith, media);
      bounded = ground (arith, media);
      alone = alone;
      limit = advertised-Announced (d.session ++ lines_of application) limit announced;
      served = served;
    })
