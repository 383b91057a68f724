-- ===== src/Analytics/Gold/Groups.antt =====
-- analytics/jobs/gold.py: groups of rows by date and source, the joins on them, and the self-checks.
use tikblog_unsubscribe_plat.Base.{
  ℕ, ◌≡◌, ap, ◌∙◌, String, Bool, true, false, not, ◌&&◌, ◌||◌, Option, none, some, List, [], ◌∷◌,
  ◌++◌, map,
}
use tikblog_unsubscribe_plat.Base.Tests.{ltb, leb, ◌==◌, if◌then◌else◌}
use tikblog_unsubscribe_plat.Base.Lists.{select, any, flat_map}
use tikblog_unsubscribe_plat.Analytics.Sql.{
  Truth, sql_and, sql_and-true, equals-same, equal_numbers-same, is_true, equals, equal_numbers,
  same_text, same_number,
}
use tikblog_unsubscribe_plat.Analytics.Lake.{SilverRow, GoldRow}

-- The key of a group: event_date and source.
abbrev pub Group : Type 0
Group = Option ℕ × Option String

abbrev pub group_of : SilverRow → Group
group_of r = (r.event.event_date, r.event.source)

abbrev pub gold_group : GoldRow → Group
gold_group g = (g.event_date, g.source)

-- Whether two keys are in one group, and whether a join on them matches.
abbrev pub same_group : Group → Group → Bool
same_group a b = same_number a.0 b.0 && same_text a.1 b.1

abbrev pub joins : Group → Group → Bool
joins a b = is_true (sql_and (equal_numbers a.0 b.0) (equals a.1 b.1))

pub joins-same : (a b : Group) → joins a b ≡ true → a ≡ b
joins-same a b h =
    let both = sql_and-true (equal_numbers a.0 b.0) (equals a.1 b.1) h in
    let dates = equal_numbers-same a.0 b.0 both.0 in
    let sources = equals-same a.1 b.1 both.1 in
    ap (λ d. (d, a.1)) dates ∙ ap (λ t. (b.0, t)) sources

-- `F.col("event_date").isin(dates)`, and the rows that `replaceWhere` replaces.
abbrev pub date_in : List ℕ → Option ℕ → Bool
date_in dates none = false
date_in dates (some d) = any (λ x. x == d) dates

abbrev pub later : ℕ → ℕ → ℕ
later a b = if ltb a b then b else a

-- `max(silver_processed_at)` of a group.
unfoldable pub silver_latest : Group → List SilverRow → ℕ
silver_latest k [] = 0
silver_latest k (r ∷ rs) =
    let rest = silver_latest k rs in
    if same_group k (group_of r) then later r.silver_processed_at rest else rest

-- The filter after the left join with Gold: no row matches, or one that matches is older.
unfoldable pub is_pending : List GoldRow → Group → ℕ → Bool
is_pending gold k time =
    not (any (λ g. joins k (gold_group g)) gold)
    || any (λ g. joins k (gold_group g) && ltb g.gold_updated_at time) gold

-- A row of the full join of Gold with the counts from Silver.
pub record Joined : Type 0 where
  pub group : Group
  pub gold : Option GoldRow
  pub counted : Option GoldRow

abbrev pub join_rows : GoldRow → List GoldRow → List Joined
join_rows g [] = record { group = gold_group g; gold = some g; counted = none } ∷ []
join_rows g (c ∷ cs) =
    map (λ c. record { group = gold_group g; gold = some g; counted = some c }) (c ∷ cs)

unfoldable pub full_join : List GoldRow → List GoldRow → List Joined
full_join actual counts =
    flat_map (λ g. join_rows g (select (λ c. joins (gold_group g) (gold_group c)) counts)) actual
    ++ map (λ c. record { group = gold_group c; gold = none; counted = some c })
        (select (λ c. not (any (λ g. joins (gold_group g) (gold_group c)) actual)) counts)

-- A comparison of columns that may be NULL.
abbrev pub compared : (GoldRow → GoldRow → Bool) → Option GoldRow → Option GoldRow → Truth
compared test none c = none
compared test (some g) none = none
compared test (some g) (some c) = some (test g c)

-- `checks`
unfoldable pub gold_checks : List (String × (Joined → Truth))
gold_checks =
    ("nonnegative_count", λ j. compared (λ g c. leb 0 g.unsubscribe_count) j.gold j.gold)
    ∷ (
      "reader_bound",
      λ j. compared (λ g c. leb g.unique_readers g.unsubscribe_count) j.gold j.gold,
    )
    ∷ (
      "writer_bound",
      λ j. compared (λ g c. leb g.unique_writers g.unsubscribe_count) j.gold j.gold,
    )
    ∷ (
      "silver_reconciliation",
      λ j. compared (λ g c. g.unsubscribe_count == c.unsubscribe_count) j.gold j.counted,
    )
    ∷ []
