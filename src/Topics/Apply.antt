-- ===== src/Topics/Apply.antt =====
-- tools/apply_topics.py: creating topics, adding partitions and changing configuration. Of the text
-- of an error only the last sentence is kept, and what is printed is left out.
use tikblog_unsubscribe_plat.Base.{
  ℕ, String, Bool, true, false, not, Option, none, some, List, [], ◌∷◌,
}
use tikblog_unsubscribe_plat.Base.Tests.{str_eq, ltb, ◌==◌, if◌then◌else◌}
use tikblog_unsubscribe_plat.Base.Lists.{length, all}
use tikblog_unsubscribe_plat.Base.Errors.{Result, ok, raised, exn, runtime_error, key_error}
use tikblog_unsubscribe_plat.Topics.Model.{
  Dict, dict_get, TopicSpec, RawTopic, load_topic_specs, KafkaTopic, Metadata, Request,
  create_topics, create_partitions, incremental_alter_configs, AdminClient, Session,
}

-- `xs != {n}` for the set of the elements of `xs`, negated.
unfoldable pub only : ℕ → List ℕ → Bool
only n [] = false
only n (x ∷ xs) = all (λ y. y == n) (x ∷ xs)

unfoldable pub check_replication_factor : TopicSpec → KafkaTopic → Result {0} Unit
unfolding only
check_replication_factor t kt =
    if only t.replication_factor kt.partitions
    then ok tt
    else raised (exn runtime_error "Changing RF requires partition reassignment.")

-- `current_config[key].value != value`
abbrev pub differs : Option String → String → Bool
differs none v = true
differs (some c) v = not (str_eq c v)

-- The `changes` of `update_config`; an unknown key is a KeyError.
unfoldable pub config_changes : Dict (Option String) → Dict String → Result (Dict String)
config_changes current [] = ok []
config_changes current (kv ∷ kvs) =
    let rest = config_changes current kvs in
    elim (dict_get current kv.0) [
      | none ↦ raised (exn key_error kv.0)
      | some c ↦ elim rest [
        | raised e ↦ raised e
        | ok changes ↦ ok (if differs c kv.1 then kv ∷ changes else changes)
      ]
    ]

module _ {W : Type 0} (admin : AdminClient W) where
  -- One changing call of the client, recorded.
  unfoldable pub perform : Request → Session W → Result {0} Unit × Session W
  perform r s =
      let (outcome, w) = admin.perform r s.world in
      (outcome, record { requests = r ∷ s.requests; world = w })

  unfoldable pub create_topic : TopicSpec → Session W → Result {0} Unit × Session W
  unfolding perform
  create_topic t s = perform (create_topics t) s

  -- The result tells whether the topic was changed.
  unfoldable pub changed : Result {0} Unit × Session W → Result Bool × Session W
  changed (ok u, s) = (ok true, s)
  changed (raised e, s) = (raised e, s)

  unfoldable pub update_partitions : TopicSpec → ℕ → Session W → Result Bool × Session W
  unfolding changed perform
  update_partitions t current s =
      if ltb t.partitions current
      then (raised (exn runtime_error "Kafka cannot decrease partition count."), s)
      else if current == t.partitions
      then (ok false, s)
      else changed (perform (create_partitions t.name t.partitions) s)

  -- `update_config` once the changes are known.
  unfoldable pub send_changes : TopicSpec → Dict String → Session W → Result Bool × Session W
  unfolding changed perform
  send_changes t [] s = (ok false, s)
  send_changes t (kv ∷ changes) s =
      changed (perform (incremental_alter_configs t.name (kv ∷ changes)) s)

  unfoldable pub update_config : TopicSpec → Session W → Result Bool × Session W
  unfolding send_changes config_changes
  update_config t s = elim (admin.describe_configs t.name s.world) [
    | raised e ↦ (raised e, s)
    | ok current ↦ elim (config_changes current t.config) [
      | raised e ↦ (raised e, s)
      | ok changes ↦ send_changes t changes s
    ]
  ]

  -- `update_partitions`, then `update_config`.
  unfoldable pub update_topic : TopicSpec → ℕ → Session W → Result {0} Unit × Session W
  unfolding update_partitions update_config
  update_topic t current s =
      let (partitions_changed, s1) = update_partitions t current s in
      elim partitions_changed [
        | raised e ↦ (raised e, s1)
        | ok b ↦
            let (config_changed, s2) = update_config t s1 in
            elim config_changed [ raised e ↦ (raised e, s2) | ok c ↦ (ok tt, s2) ]
      ]

  -- The loop's body for a topic that exists.
  unfoldable pub apply_existing : TopicSpec → KafkaTopic → Session W → Result {0} Unit × Session W
  unfolding check_replication_factor update_topic
  apply_existing t kt s = elim kt.error [
    | some e ↦ (raised (exn runtime_error e), s)
    | none ↦ elim (check_replication_factor t kt) [
      | raised e ↦ (raised e, s)
      | ok u ↦ update_topic t (length kt.partitions) s
    ]
  ]

  -- The loop's body.
  unfoldable pub apply_topic : Metadata → TopicSpec → Session W → Result {0} Unit × Session W
  unfolding dict_get create_topic apply_existing
  apply_topic metadata t s = elim (dict_get metadata t.name) [
    | none ↦ create_topic t s
    | some kt ↦ apply_existing t kt s
  ]

  unfoldable pub apply_each : Metadata → List TopicSpec → Session W → Result {0} Unit × Session W
  unfolding apply_topic
  apply_each metadata [] s = (ok tt, s)
  apply_each metadata (t ∷ ts) s =
      let (outcome, s') = apply_topic metadata t s in
      let rest = apply_each metadata ts s' in
      elim outcome [ raised e ↦ (raised e, s') | ok u ↦ rest ]

  -- `apply_topics`, from the topics of the YAML file.
  unfoldable pub apply_topics : List RawTopic → W → Result {0} Unit × Session W
  unfolding load_topic_specs apply_each
  apply_topics raw w =
      let s : Session W = record { requests = []; world = w } in
      elim (load_topic_specs raw) [
        | raised e ↦ (raised e, s)
        | ok ts ↦ elim (admin.list_topics w) [
          | raised e ↦ (raised e, s)
          | ok metadata ↦ apply_each metadata ts s
        ]
      ]
