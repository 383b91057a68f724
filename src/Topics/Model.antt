-- ===== src/Topics/Model.antt =====
-- tools/apply_topics.py: the topics wanted, the topics that Kafka reports, and the admin client,
-- which is not in the repository.
use tikblog_unsubscribe_plat.Base.{ℕ, String, Option, none, some, List, [], ◌∷◌}
use tikblog_unsubscribe_plat.Base.Tests.{str_eq, if◌then◌else◌}
use tikblog_unsubscribe_plat.Base.Errors.{Result, ok, raised, exn, key_error, other_error, ◌>>=◌}
use tikblog_unsubscribe_plat.Base.Texts.{decimal}

-- A dict from texts, as its items in insertion order.
abbrev pub Dict : Type 0 → Type 0
Dict A = List (String × A)

-- `d[k] = v`: a known key keeps its place.
unfoldable pub dict_set : {A : Type 0} → String → A → Dict A → Dict A
dict_set k v [] = (k, v) ∷ []
dict_set k v (kv ∷ d) = if str_eq k kv.0 then (k, v) ∷ d else kv ∷ dict_set k v d

unfoldable pub dict_get : {A : Type 0} → Dict A → String → Option A
dict_get [] k = none
dict_get (kv ∷ d) k = if str_eq k kv.0 then some kv.1 else dict_get d k

pub record TopicSpec : Type 0 where
  pub name : String
  pub partitions : ℕ
  pub replication_factor : ℕ
  pub config : Dict String

-- A YAML scalar and its `str`.
pub data Scalar : Type 0 where
  text : String → Scalar
  number : ℕ → Scalar

unfoldable pub to_str : Scalar → String
to_str (text s) = s
to_str (number n) = decimal n

-- An entry of `topics` as YAML gives it; a field may be missing, and `config` may be null.
pub record RawTopic : Type 0 where
  pub name : Option String
  pub partitions : Option ℕ
  pub replication_factor : Option ℕ
  pub config : Option (Option (List (Scalar × Scalar)))

-- `raw_topic[key]`
abbrev required : {A : Type 0} → String → Option A → Result A
required k none = raised (exn key_error k)
required k (some v) = ok v

-- `{str(key): str(value) for key, value in raw_config.items()}`
unfoldable pub str_items : List (Scalar × Scalar) → Dict String → Dict String
str_items [] d = d
str_items (kv ∷ kvs) d = str_items kvs (dict_set (to_str kv.0) (to_str kv.1) d)

-- `raw_topic.get("config", {}).items()`: a null has no items.
unfoldable pub config_items :
    Option (Option (List (Scalar × Scalar))) → Result (List (Scalar × Scalar))
config_items none = ok []
config_items (some none) = raised (exn other_error "'NoneType' object has no attribute 'items'")
config_items (some (some kvs)) = ok kvs

unfoldable pub topic_spec : RawTopic → Result TopicSpec
topic_spec r = do
  name ← required "name" r.name
  partitions ← required "partitions" r.partitions
  replication_factor ← required "replication_factor" r.replication_factor
  items ← config_items r.config
  ok (record {
    name = name;
    partitions = partitions;
    replication_factor = replication_factor;
    config = str_items items [];
  })

-- `load_topic_specs`, from the document's `topics`.
unfoldable pub load_topic_specs : List RawTopic → Result (List TopicSpec)
load_topic_specs [] = ok []
load_topic_specs (r ∷ rs) = do t ← topic_spec r; ts ← load_topic_specs rs; ok (t ∷ ts)

-- What the metadata says of a topic: an error, and the number of replicas of each partition.
pub record KafkaTopic : Type 0 where
  pub error : Option String
  pub partitions : List ℕ

abbrev pub Metadata : Type 0
Metadata = List (String × KafkaTopic)

-- The calls that change the cluster.
pub data Request : Type 0 where
  create_topics : TopicSpec → Request
  create_partitions : String → ℕ → Request
  incremental_alter_configs : String → Dict String → Request

-- The admin client over the state of the outside world. `perform` stands for a call together with
-- `future.result`, and a configuration value may be None.
pub record AdminClient (W : Type 0) : Type 0 where
  pub list_topics : W → Result Metadata
  pub describe_configs : String → W → Result (Dict (Option String))
  pub perform : Request → W → Result {0} Unit × W

-- The world and the requests sent to it, the newest first.
pub record Session (W : Type 0) : Type 0 where
  pub requests : List Request
  pub world : W
