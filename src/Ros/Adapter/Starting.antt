-- ===== src/Ros/Adapter/Starting.antt =====
-- ros/adapter.ts: `start` gives every registration its entity, or closes the adapter.
use mathlib.Core.Path.{subst}
use mathlib.Core.List.{Memᴰ, append_assoc, append-nil}
use mathlib.Core.List.Memᴰ
use package.ros_webrtc_bridge.Prelude.{
  ◌≡◌, refl, sym, ◌∙◌, Bool, true, false, Option, none, some, List, [], ◌∷◌, ◌++◌, All, All-append,
  Text, if_cases, arith,
}
use package.ros_webrtc_bridge.Prelude.Dict.{lookup, put, lookup-put_self}
use package.ros_webrtc_bridge.Runtime.Exec.{
  continue, Ensures, returned, Ensures-any, Ensures-continue,
}
use package.ros_webrtc_bridge.Config.{RosQos}
use package.ros_webrtc_bridge.Ros.Adapter.{
  running, Registration, Adapter, Outside, is_web_to_ros, is_closed, entity_key, open_publisher,
  open_subscription, open_entity, open_all, open_and_spin, on_world,
}
use package.ros_webrtc_bridge.Ros.Adapter.Invariant.{
  IsFor, HasEntity, Opened, Listed, IsStarted, Documented, Made, put-publisher, put-Made,
  put-aliases,
}

some_injective : {A : Type 0} {a b : A} → some a ≡ some b → a ≡ b
some_injective h = ground arith

module _ {W N P : Type 0} (out : Outside W N P) (For : P → Text → Text → RosQos → Type 0)
    (laws : Documented out For) (entries : List (Text × Registration N)) where
  abbrev pub Unclosed : Adapter W N P → Type 0
  Unclosed a = is_closed a.state ≡ false

  -- In the loop, with the entries that are done.
  pub record Opening (done : List (Text × Registration N)) (a : Adapter W N P) : Type 0 where
    pub unclosed : Unclosed a
    pub same : a.registrations ≡ entries
    pub listed : Listed out For a
    pub opened : All (Opened out For a.publishers a.aliases) done
    pub made : Made out For a.publishers

  opened_more :
      (publishers publishers' : List (Text × P)) (aliases aliases' : List (Text × List Text))
      (done : List (Text × Registration N))
      → ((b : Bool) (name : Text) (e : Registration N)
          → HasEntity out For b publishers aliases name e
          → HasEntity out For b publishers' aliases' name e)
      → All (Opened out For publishers aliases) done
      → All (Opened out For publishers' aliases') done
  opened_more p p' m m' [] f h = tt
  opened_more p p' m m' ((name, e) ∷ done) f (h, hs) =
      (f _ name e h, opened_more p p' m m' done f hs)

  IsFor-shared :
      (p : P) (e e' : Registration N)
      → entity_key out e' ≡ entity_key out e
      → IsFor out For p e'
      → IsFor out For p e
  unfolding entity_key
  IsFor-shared p e e' shared for =
      let (t, n, d, r, u) = laws.injective shared in
      let qos : e'.binding.ros_qos ≡ e.binding.ros_qos = ground arith in
      subst (λ x. For p x e.binding.ros_topic e.binding.ros_qos) n
        (subst (λ x. For p e'.binding.ros_type x e.binding.ros_qos) t
          (subst (λ x. For p e'.binding.ros_type e'.binding.ros_topic x) qos for))

  -- One entry more is done.
  Opening-more :
      (done : List (Text × Registration N)) (name : Text) (e : Registration N) (a : Adapter W N P)
      (publishers : List (Text × P)) (aliases : List (Text × List Text)) (world : W) (b : Bool)
      → is_web_to_ros e.binding.direction ≡ b
      → Opening done a
      → ((b : Bool) (name : Text) (e : Registration N)
          → HasEntity out For b a.publishers a.aliases name e
          → HasEntity out For b publishers aliases name e)
      → HasEntity out For b publishers aliases name e
      → Made out For publishers
      → Opening
          (done ++ (name, e) ∷ [])
          (record a { publishers = publishers; aliases = aliases; world = world })
  Opening-more done name e a publishers aliases world b way h keeps has made = record {
    unclosed = h.unclosed;
    same = h.same;
    listed = h.listed;
    opened =
        All-append (Opened out For publishers aliases) done ((name, e) ∷ [])
          (opened_more a.publishers publishers a.aliases aliases done keeps h.opened)
          (subst (λ x. HasEntity out For x publishers aliases name e) (sym way) has, tt);
    made = made;
  }

  open_publisher-Opening :
      (done : List (Text × Registration N)) (name : Text) (e : Registration N) (a : Adapter W N P)
      (o : Option P)
      → is_web_to_ros e.binding.direction ≡ true
      → lookup (entity_key out e) a.publishers ≡ o
      → Opening done a
      → Ensures Unclosed (λ _. Opening (done ++ (name, e) ∷ [])) (open_publisher out e o a)
  unfolding open_publisher continue
  open_publisher-Opening done name e a (some p) web found h =
      let (e', shared, for) = h.made (entity_key out e) p found in
      returned (
        Opening-more done name e a a.publishers a.aliases a.world true web h (λ _ _ _ has. has)
          (p, found, IsFor-shared p e e' shared for) h.made)
  open_publisher-Opening done name e a none web absent h =
      let b = e.binding in
      Ensures-continue
        (Ensures-any {Q = λ p c. (w : W) × (c ≡ record a { world = w }) × IsFor out For p e}
          (on_world (out.create_publisher b.ros_type b.ros_topic b.ros_qos) a) h.unclosed
          (λ p created. (
            _,
            refl,
            laws.creates b.ros_type b.ros_topic b.ros_qos p a.world
                (out.create_publisher b.ros_type b.ros_topic b.ros_qos a.world).1 (ground arith),
          )))
        λ p c (w, same, for).
          let key = entity_key out e in
          let after = put key p a.publishers in
          returned (
            subst
              (λ (x : Adapter W N P).
                Opening (done ++ (name, e) ∷ []) (record x { publishers = put key p x.publishers }))
              (sym same)
              (Opening-more done name e a after a.aliases w true web h
                (λ b n f. put-publisher out For key p a.publishers a.aliases b n f absent)
                (p, lookup-put_self key p a.publishers, for)
                (put-Made out For e p a.publishers for h.made)))

  open_subscription-Opening :
      (done : List (Text × Registration N)) (name : Text) (e : Registration N) (a : Adapter W N P)
      (o : Option (List Text))
      → is_web_to_ros e.binding.direction ≡ false
      → lookup (entity_key out e) a.aliases ≡ o
      → Opening done a
      → Ensures Unclosed (λ _. Opening (done ++ (name, e) ∷ [])) (open_subscription out name e o a)
  unfolding open_subscription continue
  open_subscription-Opening done name e a (some names) ros found h = returned (
      Opening-more done name e a a.publishers
        (put (entity_key out e) (names ++ name ∷ []) a.aliases) a.world false ros h
        (put-aliases out For (entity_key out e) (names ++ name ∷ []) a.publishers a.aliases
          λ found' there m listed.
            Memᴰ.append_left (name ∷ [])
              (subst (Memᴰ m) (some_injective (sym there ∙ found)) listed))
        (
          names ++ name ∷ [],
          lookup-put_self (entity_key out e) (names ++ name ∷ []) a.aliases,
          Memᴰ.append_right names (Memᴰ.head refl),
        )
        h.made)
  open_subscription-Opening done name e a none ros absent h =
      let b = e.binding in
      let key = entity_key out e in
      let c : Adapter W N P = record a { aliases = put key (name ∷ []) a.aliases } in
      Ensures-any (on_world (out.create_subscription b.ros_type b.ros_topic b.ros_qos key) c)
        h.unclosed
        λ _ _.
          Opening-more done name e a a.publishers (put key (name ∷ []) a.aliases) _ false ros h
            (put-aliases out For key (name ∷ []) a.publishers a.aliases
              (λ names there. absurd (cc (absent, there))))
            (name ∷ [], lookup-put_self key (name ∷ []) a.aliases, Memᴰ.head refl) h.made

  open_entity-Opening :
      (done : List (Text × Registration N)) (name : Text) (e : Registration N) (a : Adapter W N P)
      → Opening done a
      → Ensures Unclosed (λ _. Opening (done ++ (name, e) ∷ [])) (open_entity out name e a)
  unfolding open_entity
  open_entity-Opening done name e a h =
      if_cases (Ensures Unclosed (λ _. Opening (done ++ (name, e) ∷ [])))
        (is_web_to_ros e.binding.direction)
        (λ web. open_publisher-Opening done name e a _ web refl h)
        (λ ros. open_subscription-Opening done name e a _ ros refl h)

  open_all-Opening :
      (done more : List (Text × Registration N)) (a : Adapter W N P)
      → Opening done a
      → Ensures Unclosed (λ _. Opening (done ++ more)) (open_all out more a)
  unfolding open_all continue
  open_all-Opening done [] a h = returned (rw append-nil h)
  open_all-Opening done ((name, e) ∷ more) a h =
      subst (λ all. Ensures Unclosed (λ _. Opening all) (open_all out ((name, e) ∷ more) a))
        (append_assoc done ((name, e) ∷ []) more)
        (Ensures-continue (open_entity-Opening done name e a h)
          λ _ c h'. open_all-Opening (done ++ (name, e) ∷ []) more c h')

  pub open_and_spin-IsStarted :
      (a : Adapter W N P)
      → Opening [] a
      → Ensures Unclosed (λ _. IsStarted out For) (open_and_spin out a)
  unfolding open_and_spin continue
  open_and_spin-IsStarted a h =
      Ensures-continue (rw (← h.same) at (open_all-Opening [] entries a h)) λ _ c o.
        Ensures-any (on_world out.spin (record c { state = running })) refl λ _ _. (
          record {
            fresh = λ e. absurd (cc (e));
            ready = λ _. (rw (← o.same) at o.opened, o.listed);
            ended = λ e. absurd (cc (e));
          },
          refl,
        )
