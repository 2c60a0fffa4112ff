-- ===== src/Transport/Sdp/Sections.antt =====
-- transport/sdp.ts: `split` loses nothing, and what a line opens is a section.
use mathlib.Core.List.{append_assoc, append-nil}
use package.ros_webrtc_bridge.Prelude.{
  ◌≤◌, ◌≡◌, refl, sym, ap, ◌∙◌, Bool, true, false, List, [], ◌∷◌, ◌++◌, leb, length, All,
  All-append, Text, codes, arith,
}
use package.ros_webrtc_bridge.Runtime.Outcome.{ok, bind_ok, require, invalid_offer}
use package.ros_webrtc_bridge.Runtime.Scan.Pieces.{join, join-pieces}
use package.ros_webrtc_bridge.Transport.Sdp.{
  Section, Document, lines_of, push_last, place, opens_section, add_line, add_lines, lines_in,
  split, max_lines,
}

abbrev pub lines_of_all : List Section → List Text
lines_of_all [] = []
lines_of_all (s ∷ ss) = lines_of s ++ lines_of_all ss

-- The lines of a document, in the order of the text.
abbrev pub text_lines : Document → List Text
text_lines d = d.session ++ lines_of_all d.sections

-- A section starts at its first line and nowhere else.
abbrev pub IsSection : Section → Type 0
IsSection s = (opens_section s.media ≡ true) × All (λ line. opens_section line ≡ false) s.others

pub record IsDocument (d : Document) : Type 0 where
  pub session_plain : All (λ line. opens_section line ≡ false) d.session
  pub sections_open : All IsSection d.sections

push_last-lines :
    (line : Text) (s : Section) (ss : List Section)
    → lines_of_all (push_last line s ss) ≡ lines_of_all (s ∷ ss) ++ line ∷ []
unfolding push_last
push_last-lines line s [] = simp (append_assoc, append-nil)
push_last-lines line s (t ∷ ts) = simp (append_assoc, push_last-lines line t ts)

lines_of_all-append :
    (ss : List Section) (s : Section) → lines_of_all (ss ++ s ∷ []) ≡ lines_of_all ss ++ lines_of s
lines_of_all-append [] s = simp (append-nil)
lines_of_all-append (t ∷ ts) s = simp (append_assoc, lines_of_all-append ts s)

place-lines :
    (b : Bool) (line : Text) (session : List Text) (ss : List Section)
    → text_lines (place b line session ss) ≡ (session ++ lines_of_all ss) ++ line ∷ []
unfolding place
place-lines true line session ss = simp (append_assoc, lines_of_all-append)
place-lines false line session [] = simp (append_assoc, append-nil)
place-lines false line session (s ∷ ss) = simp (append_assoc, push_last-lines line s ss)

push_last-IsSection :
    (line : Text) (s : Section) (ss : List Section)
    → opens_section line ≡ false
    → All IsSection (s ∷ ss)
    → All IsSection (push_last line s ss)
unfolding push_last
push_last-IsSection line s [] plain ((opens, others), h) =
    ((opens, All-append _ s.others (line ∷ []) others (plain, tt)), tt)
push_last-IsSection line s (t ∷ ts) plain (h, hs) = (h, push_last-IsSection line t ts plain hs)

place-IsDocument :
    (b : Bool) (line : Text) (session : List Text) (ss : List Section)
    → opens_section line ≡ b
    → All (λ line. opens_section line ≡ false) session
    → All IsSection ss
    → IsDocument (place b line session ss)
unfolding place
place-IsDocument true line session ss opens h hs = record {
  session_plain = h;
  sections_open = All-append IsSection ss _ hs ((opens, tt), tt);
}
place-IsDocument false line session [] plain h hs = record {
  session_plain = All-append _ session _ h (plain, tt);
  sections_open = tt;
}
place-IsDocument false line session (s ∷ ss) plain h hs = record {
  session_plain = h;
  sections_open = push_last-IsSection line s ss plain hs;
}

pub add_lines-lines :
    (d : Document) (lines : List Text) → text_lines (add_lines d lines) ≡ text_lines d ++ lines
unfolding add_lines
add_lines-lines d [] = sym (append-nil _)
add_lines-lines d (line ∷ more) =
    add_lines-lines (add_line d line) more
    ∙ ap (λ xs. xs ++ more) (place-lines (opens_section line) line d.session d.sections)
    ∙ append_assoc (text_lines d) (line ∷ []) more

pub add_lines-IsDocument :
    (d : Document) (lines : List Text) → IsDocument d → IsDocument (add_lines d lines)
unfolding add_lines
add_lines-IsDocument d [] h = h
add_lines-IsDocument d (line ∷ more) h = add_lines-IsDocument (add_line d line) more (
    place-IsDocument (opens_section line) line d.session d.sections refl h.session_plain
      h.sections_open)

abbrev empty : Document
empty = record { session = []; sections = [] }

pub record Splits (sdp : Text) (d : Document) : Type 0 where
  pub lines_kept : text_lines d ≡ lines_in sdp
  pub text_kept : join (codes "\r\n") (text_lines d) ≡ sdp
  pub bounded : length (text_lines d) ≤ max_lines
  pub document : IsDocument d

-- The lines of a document that `split` gives are those of the text, in its order and at most 2048, and
-- joined by CRLF they are the text again; a section starts at each line that begins with `m=`, and at no
-- other.
pub split-Splits : (sdp : Text) (d : Document) → split sdp ≡ ok d → Splits sdp d
unfolding split lines_in
split-Splits sdp d h =
    let (_, short, h1) =
      bind_ok (require (leb (length (lines_in sdp)) max_lines) invalid_offer) _ d h in
    let same : d ≡ add_lines empty (lines_in sdp) = ground (arith) in
    let kept : text_lines d ≡ lines_in sdp = rw same (add_lines-lines empty (lines_in sdp)) in
    record {
      lines_kept = kept;
      text_kept = rw kept (join-pieces b'\r' (b'\n' ∷ []) 0 sdp);
      bounded = rw kept (ground arith);
      document = rw same (
          add_lines-IsDocument empty (lines_in sdp)
            (record { session_plain = tt; sections_open = tt }));
    }
