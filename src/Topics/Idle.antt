-- ===== src/Topics/Idle.antt =====
-- tools/apply_topics.py: a cluster that already agrees with infra/topics.yaml is left alone.
use tikblog_unsubscribe_plat.Base.{
  ℕ, String, true, false, ◌≡◌, refl, Option, none, some, List, [], ◌∷◌, arith,
}
use tikblog_unsubscribe_plat.Base.Tests.{str_eq_refl}
use tikblog_unsubscribe_plat.Base.Lists.{length, All}
use tikblog_unsubscribe_plat.Base.Errors.{ok}
use tikblog_unsubscribe_plat.Topics.Model.{
  Dict, dict_get, TopicSpec, RawTopic, load_topic_specs, KafkaTopic, Metadata, AdminClient, Session,
}
use tikblog_unsubscribe_plat.Topics.Apply

-- The topic is as the file says: its replicas, its number of partitions, and the configuration
-- values that the file gives.
abbrev pub UpToDate : {W : Type 0} → AdminClient W → W → Metadata → TopicSpec → Type 0
UpToDate admin w m t =
    ((kt : KafkaTopic) × (dict_get m t.name ≡ some kt)
      × (kt.error ≡ none)
      × (Apply.only t.replication_factor kt.partitions ≡ true)
      × (length kt.partitions ≡ t.partitions))
    × ((current : Dict (Option String)) × (admin.describe_configs t.name w ≡ ok current)
        × All (λ kv. dict_get current kv.0 ≡ some (some kv.1)) t.config)

config_changes-none :
    (current : Dict (Option String)) (config : Dict String)
    → All (λ kv. dict_get current kv.0 ≡ some (some kv.1)) config
    → Apply.config_changes current config ≡ ok []
unfolding Apply.config_changes
config_changes-none current [] h = refl
config_changes-none current (kv ∷ kvs) h =
    rw (h.0, config_changes-none current kvs h.1, str_eq_refl kv.1, Apply.config_changes) refl

module _ {W : Type 0} (admin : AdminClient W) where
  update_partitions-same :
      (t : TopicSpec) (n : ℕ) (s : Session W)
      → n ≡ t.partitions
      → Apply.update_partitions admin t n s ≡ (ok false, s)
  unfolding Apply.update_partitions
  update_partitions-same t n s h = ground arith

  update_config-same :
      (t : TopicSpec) (current : Dict (Option String)) (s : Session W)
      → admin.describe_configs t.name s.world ≡ ok current
      → All (λ kv. dict_get current kv.0 ≡ some (some kv.1)) t.config
      → Apply.update_config admin t s ≡ (ok false, s)
  unfolding Apply.update_config Apply.send_changes
  update_config-same t current s described same =
      rw (described, config_changes-none current t.config same, Apply.update_config) refl

  update_topic-same :
      (t : TopicSpec) (n : ℕ) (current : Dict (Option String)) (s : Session W)
      → n ≡ t.partitions
      → admin.describe_configs t.name s.world ≡ ok current
      → All (λ kv. dict_get current kv.0 ≡ some (some kv.1)) t.config
      → Apply.update_topic admin t n s ≡ (ok tt, s)
  unfolding Apply.update_topic
  update_topic-same t n current s size described same = simp (
    update_partitions-same t n s size,
    update_config-same t current s described same,
    Apply.update_topic,
  )

  apply_topic-same :
      (m : Metadata) (t : TopicSpec) (s : Session W)
      → UpToDate admin s.world m t
      → Apply.apply_topic admin m t s ≡ (ok tt, s)
  unfolding Apply.apply_topic Apply.apply_existing Apply.check_replication_factor
  apply_topic-same m t s ((kt, present, fine, replicas, size), (current, described, same)) =
      rw
        (
          present,
          fine,
          replicas,
          update_topic-same t (length kt.partitions) current s size described same,
          Apply.apply_topic,
          Apply.apply_existing,
          Apply.check_replication_factor,
        )
        refl

  apply_each-same :
      (m : Metadata) (ts : List TopicSpec) (s : Session W)
      → All (UpToDate admin s.world m) ts
      → Apply.apply_each admin m ts s ≡ (ok tt, s)
  unfolding Apply.apply_each
  apply_each-same m [] s h = refl
  apply_each-same m (t ∷ ts) s h =
      simp (apply_topic-same m t s h.0, apply_each-same m ts s h.1, Apply.apply_each)

  -- If every topic of the file is up to date, `apply_topics` succeeds without sending a request, so
  -- the world is as it was.
  pub apply_topics-UpToDate :
      (raw : List RawTopic) (w : W) (ts : List TopicSpec) (m : Metadata)
      → load_topic_specs raw ≡ ok ts
      → admin.list_topics w ≡ ok m
      → All (UpToDate admin w m) ts
      → Apply.apply_topics admin raw w ≡ (ok tt, record { requests = []; world = w })
  unfolding Apply.apply_topics
  apply_topics-UpToDate raw w ts m loaded listed h =
      rw
        (
          loaded,
          listed,
          apply_each-same m ts (record { requests = []; world = w }) h,
          Apply.apply_topics,
        )
        refl
