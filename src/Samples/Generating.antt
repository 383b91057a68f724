-- ===== src/Samples/Generating.antt =====
-- A run of the event generator with every option disabled.
use tikblog_unsubscribe_plat.Base.{ℕ, ◌+◌, ◌≡◌, refl, [], ◌∷◌}
use tikblog_unsubscribe_plat.Base.Errors.{ok}
use tikblog_unsubscribe_plat.Contracts.Model.{customer_success}
use tikblog_unsubscribe_plat.Generator.{Sources, Settings, EventGenerator, next_batch}
use tikblog_unsubscribe_plat.Generator.Draws.{agent_draws, normal_event, next_batch-Disabled}
use tikblog_unsubscribe_plat.Samples.Db.{counting}

abbrev sources : Sources ℕ
sources = record {
  choice = λ xs n. "chosen";
  random = λ n. n;
  randrange = λ below n. 0;
  randbytes = λ size n. [];
  uuid = λ n. "id";
  now_instant = λ n. n;
}

abbrev settings : Settings ℕ
settings = record {
  source = customer_success;
  users = "user-0000" ∷ [];
  writers = "writer-000" ∷ [];
  cs_agents = "agent-00" ∷ [];
  technical_duplicate_probability = 0;
  meaningless_event_probability = 0;
  garbage_bytes_probability = 0;
}

abbrev generator : EventGenerator
generator = record { draws = 0; ids = 0; times = 0 }

next_batch-Disabled_example :
    ((next_batch sources settings generator).0
      ≡ ok (record { events = normal_event sources settings generator ∷ []; garbage = [] }))
    × ((next_batch sources settings generator).1.draws ≡ 0 + 2 + agent_draws customer_success)
next_batch-Disabled_example = next_batch-Disabled sources settings generator refl refl refl
