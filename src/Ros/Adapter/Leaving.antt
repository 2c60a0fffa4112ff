-- ===== src/Ros/Adapter/Leaving.antt =====
-- ros/adapter.ts: what is left of the listeners of a name after some have unsubscribed.
use mathlib.Core.Path.{ap}
use package.ros_webrtc_bridge.Prelude.{
  ◌≡◌, refl, ◌∙◌, not, ◌&&◌, Option, none, some, List, [], ◌∷◌, ◌++◌, ◌==◌, any, Text, arith,
}
use package.ros_webrtc_bridge.Prelude.Dict.{lookup, lookup-put_self}
use package.ros_webrtc_bridge.Ros.Adapter.{Callback, Adapter, remove, drop_listener, unsubscribe}
use package.ros_webrtc_bridge.Ros.Adapter.Receiving.{has}

any-remove :
    (c d : Callback) (ls : List Callback)
    → any (◌==◌ c) (remove d ls) ≡ any (◌==◌ c) ls && not (c == d)
unfolding remove
any-remove c d [] = ground arith
any-remove c d (l ∷ ls) = ground (arith, any-remove c d ls)

module _ {W N P : Type 0} (name : Text) where
  -- The listeners unsubscribe, one after the other.
  unfoldable pub drop_all : List Callback → Adapter W N P → Adapter W N P
  drop_all [] a = a
  drop_all (d ∷ ds) a = drop_all ds (unsubscribe name d a)

  dropped_world :
      (d : Callback) (o : Option (List Callback)) (a : Adapter W N P) (w : W)
      → drop_listener name d o (record a { world = w })
        ≡ record (drop_listener name d o a) { world = w }
  unfolding drop_listener
  dropped_world d none a w = refl
  dropped_world d (some ls) a w = refl

  unsubscribe-world :
      (d : Callback) (a : Adapter W N P) (w : W)
      → unsubscribe name d (record a { world = w }) ≡ record (unsubscribe name d a) { world = w }
  unfolding unsubscribe
  unsubscribe-world d a w = dropped_world d (lookup name a.listeners) a w

  has_dropped :
      (c d : Callback) (o : Option (List Callback)) (a : Adapter W N P)
      → lookup name a.listeners ≡ o
      → has name c (drop_listener name d o a) ≡ has name c a && not (c == d)
  unfolding drop_listener
  has_dropped c d none a h = rw (h, has) refl
  has_dropped c d (some ls) a h =
      rw (h, lookup-put_self name (remove d ls) a.listeners, has) (any-remove c d ls)

  has-unsubscribe :
      (c d : Callback) (a : Adapter W N P)
      → has name c (unsubscribe name d a) ≡ has name c a && not (c == d)
  unfolding unsubscribe
  has-unsubscribe c d a = has_dropped c d (lookup name a.listeners) a refl

  -- Who unsubscribes leaves the outside alone.
  pub world-drop_all :
      (ds : List Callback) (a : Adapter W N P) (w : W)
      → (drop_all ds (record a { world = w })) ≡ record (drop_all ds a) { world = w }
  unfolding drop_all
  world-drop_all [] a w = refl
  world-drop_all (d ∷ ds) a w =
      ap (drop_all ds) (unsubscribe-world d a w) ∙ world-drop_all ds (unsubscribe name d a) w

  pub drop_all-append :
      (ds es : List Callback) (a : Adapter W N P)
      → drop_all (ds ++ es) a ≡ drop_all es (drop_all ds a)
  unfolding drop_all
  drop_all-append [] es a = refl
  drop_all-append (d ∷ ds) es a = drop_all-append ds es (unsubscribe name d a)

  -- A listener is in the set if it was and is not among those that have left.
  pub has-drop_all :
      (c : Callback) (ds : List Callback) (a : Adapter W N P)
      → has name c (drop_all ds a) ≡ has name c a && not (any (◌==◌ c) ds)
  unfolding drop_all
  has-drop_all c [] a = ground arith
  has-drop_all c (d ∷ ds) a =
      ground (arith, has-drop_all c ds (unsubscribe name d a), has-unsubscribe c d a)
