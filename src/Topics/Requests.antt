-- ===== src/Topics/Requests.antt =====
-- tools/apply_topics.py: which requests are sent.
use tikblog_unsubscribe_plat.Base.{
  ℕ, String, ◌≡◌, refl, sym, subst, inl, inr, ◌<◌, none, some, List, [], ◌∷◌, arith,
}
use tikblog_unsubscribe_plat.Base.Tests.{ltb, ◌==◌, Option-cases, Bool-cases}
use tikblog_unsubscribe_plat.Base.Lists.{length, All, Any}
use tikblog_unsubscribe_plat.Base.Errors.{Result, ok, raised, Result-cases}
use tikblog_unsubscribe_plat.Topics.Model.{
  Dict, dict_get, TopicSpec, RawTopic, load_topic_specs, KafkaTopic, Metadata, Request,
  create_topics, create_partitions, incremental_alter_configs, AdminClient, Session,
}
use tikblog_unsubscribe_plat.Topics.Apply

-- The request `r` serves the topic `t` of the file: it creates the topic only when the metadata has
-- none of that name, raises the number of partitions only to one that is larger than the metadata's,
-- and changes configuration only for a topic in the metadata.
abbrev pub Serves : Metadata → Request → TopicSpec → Type 0
Serves m (create_topics t') t = (t' ≡ t) × (dict_get m t.name ≡ none)
Serves m (create_partitions n k) t =
    (n ≡ t.name)
    × (k ≡ t.partitions)
    × ((kt : KafkaTopic) × (dict_get m t.name ≡ some kt) × (length kt.partitions < k))
Serves m (incremental_alter_configs n d) t =
    (n ≡ t.name) × ((kt : KafkaTopic) × (dict_get m t.name ≡ some kt))

module _ {W : Type 0} (admin : AdminClient W) where
  changed_lem : (p : Result {0} Unit × Session W) → (Apply.changed admin p).1 ≡ p.1
  unfolding Apply.changed
  changed_lem (ok u, s) = refl
  changed_lem (raised e, s) = refl

  module _ (P : Request → Type 0) where
    -- A changing call keeps a property of the requests that the new one has.
    changed-perform :
        (r : Request) (s : Session W)
        → P r
        → All P s.requests
        → All P (Apply.changed admin (Apply.perform admin r s)).1.requests
    unfolding Apply.perform
    changed-perform r s hr hs =
        subst (λ s'. All P s'.requests) (sym (changed_lem (Apply.perform admin r s))) (hr, hs)

    send_changes-All :
        (t : TopicSpec) (d : Dict String) (s : Session W)
        → ((d' : Dict String) → P (incremental_alter_configs t.name d'))
        → All P s.requests
        → All P (Apply.send_changes admin t d s).1.requests
    unfolding Apply.send_changes
    send_changes-All t [] s hp hs = hs
    send_changes-All t (kv ∷ d) s hp hs =
        changed-perform (incremental_alter_configs t.name (kv ∷ d)) s (hp (kv ∷ d)) hs

    update_config-All :
        (t : TopicSpec) (s : Session W)
        → ((d' : Dict String) → P (incremental_alter_configs t.name d'))
        → All P s.requests
        → All P (Apply.update_config admin t s).1.requests
    unfolding Apply.update_config
    update_config-All t s hp hs = elim (Result-cases (admin.describe_configs t.name s.world)) [
      | inr (e, raises) ↦ rw (raises, Apply.update_config) hs
      | inl (current, described) ↦ elim (Result-cases (Apply.config_changes current t.config)) [
        | inr (e, raises) ↦ rw (described, raises, Apply.update_config) hs
        | inl (changes, found) ↦
            rw (described, found, Apply.update_config) (send_changes-All t changes s hp hs)
      ]
    ]

    update_partitions-All :
        (t : TopicSpec) (current : ℕ) (s : Session W)
        → (current < t.partitions → P (create_partitions t.name t.partitions))
        → All P s.requests
        → All P (Apply.update_partitions admin t current s).1.requests
    unfolding Apply.update_partitions
    update_partitions-All t current s hp hs = elim (Bool-cases (ltb t.partitions current)) [
      | inl more ↦ rw (more) hs
      | inr enough ↦ elim (Bool-cases (current == t.partitions)) [
        | inl same ↦ rw (enough, same) hs
        | inr fewer ↦
            rw (enough, fewer)
              (changed-perform (create_partitions t.name t.partitions) s (hp (ground arith)) hs)
      ]
    ]

    -- An existing topic gets new partitions and configuration only.
    apply_existing-All :
        (t : TopicSpec) (kt : KafkaTopic) (s : Session W)
        → (length kt.partitions < t.partitions → P (create_partitions t.name t.partitions))
        → ((d' : Dict String) → P (incremental_alter_configs t.name d'))
        → All P s.requests
        → All P (Apply.apply_existing admin t kt s).1.requests
    unfolding Apply.apply_existing Apply.update_topic
    apply_existing-All t kt s hp hc hs =
        let current = length kt.partitions in
        let mid : Session W = (Apply.update_partitions admin t current s).1 in
        let h1 : All P mid.requests = update_partitions-All t current s hp hs in
        elim (Option-cases kt.error) [
          | inr (e, fails) ↦ rw (fails, Apply.apply_existing) hs
          | inl fine ↦ elim (Result-cases (Apply.check_replication_factor t kt)) [
            | inr (e, raises) ↦ rw (fine, raises, Apply.apply_existing) hs
            | inl (u, checked) ↦ elim (Result-cases (Apply.update_partitions admin t current s).0) [
              | inr (e, raises) ↦
                  rw (fine, checked, raises, Apply.apply_existing, Apply.update_topic) h1
              | inl (b, updated) ↦ elim (Result-cases (Apply.update_config admin t mid).0) [
                | inr (e, raises) ↦
                    rw (fine, checked, updated, raises, Apply.apply_existing, Apply.update_topic)
                      (update_config-All t mid hc h1)
                | inl (c, set) ↦
                    rw (fine, checked, updated, set, Apply.apply_existing, Apply.update_topic)
                      (update_config-All t mid hc h1)
              ]
            ]
          ]
        ]

  -- The loop's body, for a topic of the file.
  apply_topic-All :
      (m : Metadata) (t : TopicSpec) (P : Request → Type 0) (s : Session W)
      → ((r : Request) → Serves m r t → P r)
      → All P s.requests
      → All P (Apply.apply_topic admin m t s).1.requests
  unfolding Apply.apply_topic Apply.create_topic Apply.perform
  apply_topic-All m t P s serves hs = elim (Option-cases (dict_get m t.name)) [
    | inl absent ↦ rw (absent, Apply.apply_topic) (serves (create_topics t) (refl, absent), hs)
    | inr (kt, present) ↦
        rw (present, Apply.apply_topic)
          (apply_existing-All P t kt s
            (λ more.
              serves (create_partitions t.name t.partitions) (refl, refl, (kt, present, more)))
            (λ d'. serves (incremental_alter_configs t.name d') (refl, (kt, present))) hs)
  ]

  apply_each-All :
      (m : Metadata) (ts : List TopicSpec) (P : Request → Type 0) (s : Session W)
      → ((r : Request) → Any (Serves m r) ts → P r)
      → All P s.requests
      → All P (Apply.apply_each admin m ts s).1.requests
  unfolding Apply.apply_each
  apply_each-All m [] P s serves hs = hs
  apply_each-All m (t ∷ ts) P s serves hs =
      let h1 = apply_topic-All m t P s (λ r h. serves r (inl h)) hs in
      elim (Result-cases (Apply.apply_topic admin m t s).0) [
        | inr (e, raises) ↦ rw (raises, Apply.apply_each) h1
        | inl (u, done) ↦
            rw (done, Apply.apply_each) (apply_each-All m ts P _ (λ r h. serves r (inr h)) h1)
      ]

  -- Every request that `apply_topics` sends, also when it fails half-way, serves a topic of the file
  -- as `Serves` says: with the file's topics `ts` and the metadata `m`, it creates a topic of the
  -- file that is not in the metadata, raises a number of partitions to the file's, never to a
  -- smaller one, or changes the configuration of a topic that is in both.
  pub apply_topics-Serves :
      (raw : List RawTopic) (w : W) (ts : List TopicSpec) (m : Metadata)
      → load_topic_specs raw ≡ ok ts
      → admin.list_topics w ≡ ok m
      → All (λ r. Any (Serves m r) ts) (Apply.apply_topics admin raw w).1.requests
  unfolding Apply.apply_topics
  apply_topics-Serves raw w ts m loaded listed =
      rw (loaded, listed, Apply.apply_topics)
        (apply_each-All m ts (λ r. Any (Serves m r) ts) (record { requests = []; world = w })
          (λ r h. h) tt)
