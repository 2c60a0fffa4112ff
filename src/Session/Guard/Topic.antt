-- ===== src/Session/Guard/Topic.antt =====
-- The topic names that command-guard.ts accepts.
use package.ros_webrtc_bridge.Prelude.{ℕ, Bool, true, false, ◌&&◌, ◌||◌, [], ◌∷◌, leb, ◌==◌, Text}

abbrev pub is_alpha : ℕ → Bool
is_alpha c = leb b'A' c && leb c b'Z' || c == b'_' || leb b'a' c && leb c b'z'

abbrev pub is_alnum : ℕ → Bool
is_alnum c = is_alpha c || leb b'0' c && leb c b'9'

-- The names behind a slash; the flag says whether a name starts here.
unfoldable pub is_names : Bool → Text → Bool
is_names start [] = elim start [ true ↦ false | false ↦ true ]
is_names true (c ∷ cs) = is_alpha c && is_names false cs
is_names false (c ∷ cs) = (c == b'/' || is_alnum c) && is_names (c == b'/') cs

-- `/^\/(?:[A-Za-z_][A-Za-z0-9_]*\/)*[A-Za-z_][A-Za-z0-9_]*$/`
unfoldable pub is_topic : Text → Bool
unfolding is_names
is_topic [] = false
is_topic (c ∷ cs) = c == b'/' && is_names true cs
