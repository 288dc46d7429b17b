-- ===== src/Statistics/Tests.antt =====
-- The theorems on reading statistics at one activity.
use quire_server.Base.{
  ◌+◌, ◌≡◌, ◌≤◌, refl, false, true, Option, none, some, List, [], ◌∷◌, ◌++◌, Text, codes, pos, ℤ,
  is_neg, ok, All, take, drop, ◌==◌, text_eq, nat_eq, if◌then◌else◌, Bool-cases, inl, inr,
}
use quire_server.Sync.Validate.{book_pattern}
use quire_server.Statistics.{
  ReadingActivity, StatisticsSyncRequest, StatisticsSyncResponse, ActivityRow, ActivityCodec, nat,
  canonical_activity, canonical_activities, activity_id_pattern, times_invalid, volume_invalid,
  baseline_invalid, through_invalid, chapters_ok, chapters_after, hex_groups, store_activities,
  store_activity, insert_activity, find_activity, cursor_taken, last_cursor, read_activities,
  activities_page, sync_statistics,
}
use quire_server.Statistics.Canonical.{IsChapters, canonical_activity-IsChapters}
use quire_server.Statistics.History.{history, IsKept}
use quire_server.Statistics.Exchange.{sync_statistics_appends, sync_statistics_retry}

abbrev digits : Text
digits = codes "0123456789abcdef0123456789abcdef"

abbrev activity : ReadingActivity
activity = record {
  id = codes "01234567-89AB-cdef-0123-456789abcdef";
  book_id = digits ++ digits;
  started_at = pos 1000;
  ended_at = pos 61000;
  active_ms = pos 50000;
  words = pos 200;
  sampled_ms = pos 40000;
  chapters = some (pos 4 ∷ pos 3 ∷ []);
  volume = none;
  finished = false;
  baseline = false;
  chapter_through = none;
}

abbrev canonical : ReadingActivity
canonical = record activity { chapters = some (pos 3 ∷ pos 4 ∷ []) }

accepted : canonical_activity activity ≡ ok canonical
unfolding canonical_activity activity_id_pattern hex_groups book_pattern times_invalid
    volume_invalid baseline_invalid through_invalid chapters_ok chapters_after
accepted = refl

canonical_activity-IsChapters_example :
    (cs : List ℤ) × (canonical.chapters ≡ some cs)
    × IsChapters cs
    × (is_neg canonical.started_at ≡ false)
    × (is_neg canonical.ended_at ≡ false)
    × (is_neg canonical.active_ms ≡ false)
    × (is_neg canonical.sampled_ms ≡ false)
    × (is_neg canonical.words ≡ false)
    × (nat canonical.sampled_ms ≤ nat canonical.active_ms)
    × (nat canonical.started_at + nat canonical.active_ms ≤ nat canonical.ended_at)
    × (nat canonical.ended_at ≤ nat canonical.started_at + 300000)
canonical_activity-IsChapters_example = canonical_activity-IsChapters activity canonical accepted

-- An activity is written as its id, and reads back as the one activity of the tests.
abbrev codec : ActivityCodec
codec = record { encode = λ a. a.id; decode = λ text. some (record canonical { id = text }) }

abbrev request : StatisticsSyncRequest
request = record { cursor = pos 0; activities = activity ∷ [] }

abbrev row : ActivityRow
row = record { user = codes "u"; id = activity.id; cursor = 1; activity = activity.id }

abbrev response : StatisticsSyncResponse
response = record { cursor = 1; activities = canonical ∷ []; has_more = false }

exchange : sync_statistics codec (codes "u") request [] ≡ ok (row ∷ [], response)
unfolding sync_statistics canonical_activities canonical_activity activity_id_pattern hex_groups
    book_pattern times_invalid volume_invalid baseline_invalid through_invalid chapters_ok
    chapters_after store_activities store_activity insert_activity find_activity cursor_taken
    last_cursor read_activities activities_page quire_server.Base.text_beq
exchange = refl

empty-IsKept : IsKept []
unfolding history
empty-IsKept = record { numbered = λ user. tt }

row-IsKept : IsKept (row ∷ [])
unfolding history
row-IsKept = record {
  numbered = λ user. elim (Bool-cases (codes "u" == user)) [
    | inl e ↦ simp e (refl, tt)
    | inr e ↦ simp e tt
  ];
}

sync_statistics_appends_example :
    (added : List ActivityRow) × (row ∷ [] ≡ [] ++ added)
    × All (λ r. r.user ≡ codes "u") added
    × IsKept (row ∷ [])
sync_statistics_appends_example =
    sync_statistics_appends codec (codes "u") request [] (row ∷ []) response empty-IsKept exchange

sync_statistics_retry_example :
    sync_statistics codec (codes "u") request (row ∷ []) ≡ ok (row ∷ [], response)
sync_statistics_retry_example =
    sync_statistics_retry codec (codes "u") request [] (row ∷ []) response empty-IsKept exchange
