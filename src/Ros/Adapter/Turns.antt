-- ===== src/Ros/Adapter/Turns.antt =====
-- ros/adapter.ts: the turns of the listeners of one sample, some of which leave meanwhile.
use mathlib.Core.Path.{ap}
use package.ros_webrtc_bridge.Prelude.{
  ◌≡◌, refl, sym, ◌∙◌, Bool, true, false, not, ◌&&◌, some, List, [], ◌∷◌, ◌++◌, ◌==◌, any, All,
  Text, if◌then◌else◌, arith,
}
use mathlib.Core.List.{append_assoc, append-nil}
use package.ros_webrtc_bridge.Prelude.Dict.{lookup}
use package.ros_webrtc_bridge.Runtime.Outcome.{Error, Outcome, ok, throw}
use package.ros_webrtc_bridge.Runtime.Exec.{Exec, continue, recover}
use package.ros_webrtc_bridge.Router.Protocol.{Value}
use package.ros_webrtc_bridge.Ros.Adapter.{Callback, Registration, Adapter, Outside}
use package.ros_webrtc_bridge.Ros.Adapter.Receiving.{report, has, notify_one, notify}
use package.ros_webrtc_bridge.Ros.Adapter.Leaving.{
  drop_all, world-drop_all, drop_all-append, has-drop_all,
}

any-append : (c : Callback) (done more : List Callback) → any (◌==◌ c) (done ++ c ∷ more) ≡ true
any-append c [] more = ground arith
any-append c (d ∷ done) more = ground (arith, any-append c done more)

module _ {W N P : Type 0} (name : Text) (a : Adapter W N P) where
  all_after :
      (done cs : List Callback)
      → lookup name a.listeners ≡ some (done ++ cs)
      → All (λ c. has name c a ≡ true) cs
  all_after done [] h = tt
  all_after done (c ∷ cs) h = (
    rw (h, has) (any-append c done cs),
    all_after (done ++ c ∷ []) cs (h ∙ ap some (sym (append_assoc done (c ∷ []) cs))),
  )

  -- Every listener of the copy is in the set.
  pub all-has :
      (cs : List Callback) → lookup name a.listeners ≡ some cs → All (λ c. has name c a ≡ true) cs
  all-has cs h = all_after [] cs h

module _ {W N P : Type 0} (out : Outside W N P) (name : Text) where
  -- Callbacks that do to the adapter at most this: each may have listeners of the name unsubscribe, itself
  -- or others. And an `onError` that returns.
  pub record Modest (act : Callback → N → Exec W (Unit {0})) (drops : Callback → List Callback)
      : Type 0 where
    pub calls :
        (c : Callback) (native : N) (a : Adapter W N P)
        → out.call c native a ≡ (
          (act c native a.world).0,
          drop_all name (drops c) (record a { world = (act c native a.world).1 }),
        )
    pub reports : (e : Error) (w : W) → (out.on_error e w).0 ≡ ok tt

  module _ (act : Callback → N → Exec W (Unit {0})) (drops : Callback → List Callback) where
    -- What a listener throws is reported.
    abbrev pub after_call : Outcome (Unit {0}) × W → W
    after_call (ok _, w) = w
    after_call (throw e, w) = (out.on_error e w).1

    -- What a listener's turn does to the outside, with what decoding gives: a copy that cannot be decoded
    -- is reported, and the listener is not called.
    abbrev pub told : Outcome N → Callback → W → W
    told (throw e) c w = (out.on_error e w).1
    told (ok native) c w = after_call (act c native w)

    abbrev pub all_told : Outcome N → List Callback → W → W
    all_told decoded [] w = w
    all_told decoded (c ∷ cs) w = all_told decoded cs (told decoded c w)

    -- Who leaves by a listener's turn.
    abbrev pub leaving : Outcome N → Callback → List Callback
    leaving (throw e) c = []
    leaving (ok _) c = drops c

    -- The listeners that have a turn, when those of `gone` have left, and all that have left in the end.
    unfoldable pub heard : Outcome N → List Callback → List Callback → List Callback
    heard decoded gone [] = []
    heard decoded gone (c ∷ cs) =
        let rest = heard decoded gone cs in
        let more = heard decoded (gone ++ leaving decoded c) cs in
        if any (◌==◌ c) gone then rest else c ∷ more

    unfoldable pub departed : Outcome N → List Callback → List Callback → List Callback
    departed decoded gone [] = gone
    departed decoded gone (c ∷ cs) =
        let rest = departed decoded gone cs in
        let more = departed decoded (gone ++ leaving decoded c) cs in
        if any (◌==◌ c) gone then rest else more

    -- What a sample does to the adapter.
    abbrev pub after_sample :
        Registration N → List Callback → Outcome Value → Adapter W N P → Adapter W N P
    after_sample entry cs (throw e) a = record a { world = (out.on_error e a.world).1 }
    after_sample entry cs (ok wire) a =
        let decoded = entry.codec.decode (some wire) in
        drop_all name (departed decoded [] cs)
          (record a { world = all_told decoded (heard decoded [] cs) a.world })

    -- The adapter when those of `gone` have left and the outside is `w`.
    abbrev pub without : List Callback → W → Adapter W N P → Adapter W N P
    without gone w a = drop_all name gone (record a { world = w })

    without-world :
        (gone : List Callback) (w w' : W) (a : Adapter W N P)
        → record (without gone w a) { world = w' } ≡ without gone w' a
    without-world gone w w' a = sym (world-drop_all name gone (record a { world = w }) w')

    world-without :
        (gone : List Callback) (w : W) (a : Adapter W N P) → (without gone w a).world ≡ w
    world-without gone w a = ap (λ b. b.world) (world-drop_all name gone a w)

    module _ (modest : Modest act drops) where
      pub report-without :
          (e : Error) (gone : List Callback) (w : W) (a : Adapter W N P)
          → report out e (without gone w a) ≡ (ok tt, without gone (out.on_error e w).1 a)
      report-without e gone w a =
          rw (world-without gone w a, modest.reports e w)
            (ap (λ b. (ok tt, b)) (without-world gone w (out.on_error e w).1 a))

      after_call-returns :
          (r : Outcome (Unit {0}) × W) (gone : List Callback) (a : Adapter W N P)
          → recover (r.0, without gone r.1 a) (report out) ≡ (ok tt, without gone (after_call r) a)
      unfolding recover
      after_call-returns (ok _, w) gone a = refl
      after_call-returns (throw e, w) gone a = report-without e gone w a

      call-without :
          (c : Callback) (native : N) (gone : List Callback) (w : W) (a : Adapter W N P)
          → out.call c native (without gone w a)
            ≡ ((act c native w).0, without (gone ++ drops c) (act c native w).1 a)
      call-without c native gone w a =
          let w' = (act c native w).1 in
          modest.calls c native (without gone w a)
          ∙ rw (world-without gone w a) (
              ap (λ b. ((act c native w).0, b))
                (ap (drop_all name (drops c)) (without-world gone w w' a)
                  ∙ sym (drop_all-append name gone (drops c) (record a { world = w' }))))

      told-returns :
          (decoded : Outcome N) (c : Callback) (gone : List Callback) (w : W) (a : Adapter W N P)
          → recover (continue (decoded, without gone w a) (out.call c)) (report out)
            ≡ (ok tt, without (gone ++ leaving decoded c) (told decoded c w) a)
      unfolding recover continue
      told-returns (throw e) c gone w a =
          report-without e gone w a
          ∙ ap (λ g. (ok tt, without g (out.on_error e w).1 a)) (sym (append-nil gone))
      told-returns (ok native) c gone w a =
          ap (λ r. recover r (report out)) (call-without c native gone w a)
          ∙ after_call-returns (act c native w) (gone ++ drops c) a

      has-without :
          (c : Callback) (gone : List Callback) (w : W) (a : Adapter W N P)
          → has name c a ≡ true
          → has name c (without gone w a) ≡ not (any (◌==◌ c) gone)
      has-without c gone w a there =
          has-drop_all name c gone (record a { world = w })
          ∙ ap (λ b. b && not (any (◌==◌ c) gone)) there

      module _ (entry : Registration N) (wire : Value) (a : Adapter W N P) where
        abbrev pub wired : Outcome N
        wired = entry.codec.decode (some wire)

        -- What the loop makes of the listeners that it has yet to reach.
        abbrev pub Told : List Callback → List Callback → W → Type 0
        Told cs gone w =
            notify out name entry.codec wire cs (without gone w a)
            ≡ (ok tt, without (departed wired gone cs) (all_told wired (heard wired gone cs) w) a)

        turn-Told :
            (c : Callback) (cs gone : List Callback) (w : W) (b : Bool)
            → any (◌==◌ c) gone ≡ b
            → has name c a ≡ true
            → ((gone' : List Callback) (w' : W) → Told cs gone' w')
            → Told (c ∷ cs) gone w
        unfolding notify notify_one continue heard departed
        turn-Told c cs gone w true left here more =
            rw (has-without c gone w a here, left) (more gone w)
        turn-Told c cs gone w false stays here more =
            rw (has-without c gone w a here, stays, told-returns wired c gone w a)
              (more (gone ++ leaving wired c) (told wired c w))

        pub notify-Told :
            (cs gone : List Callback) (w : W) → All (λ c. has name c a ≡ true) cs → Told cs gone w
        unfolding notify heard departed
        notify-Told [] gone w there = refl
        notify-Told (c ∷ cs) gone w (here, there) =
            turn-Told c cs gone w _ refl here λ gone' w'. notify-Told cs gone' w' there
