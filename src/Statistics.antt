-- ===== src/Statistics.antt =====
-- Reading statistics, internal/server/statistics.go: which activities are accepted, and the
-- append-only history of `SyncStatistics`.
pub mod Canonical
pub mod History
pub mod Storing
pub mod Exchange
mod Tests
use quire_server.Base.{
  ℕ, zero, suc, ◌+◌, ◌-◌, ◌≡◌, Bool, true, false, not, ◌&&◌, ◌||◌, Option, none, some, List, [],
  ◌∷◌, ◌++◌, Text, codes, length, take, all, keep, ltb, leb, ◌==◌, text_eq, nat_eq, if◌then◌else◌,
  is_hex, in_range, is_digit, ℤ, pos, negsuc, is_neg, pos_part, Result, ok, err, invalid, conflict,
  decoding, constraint, reject, demand, ◌>>=◌, ◌>>◌,
}
use quire_server.Base.Floats.{Float, below_zero, above, equals}
use quire_server.Sync.Validate.{book_pattern}

-- A nil pointer or slice is `none`. (`Volume` is finite: it comes from a JSON document.)
pub record ReadingActivity : Type 0 where
  pub id : Text
  pub book_id : Text
  pub started_at : ℤ
  pub ended_at : ℤ
  pub active_ms : ℤ
  pub words : ℤ
  pub sampled_ms : ℤ
  pub chapters : Option (List ℤ)
  pub volume : Option Float
  pub finished : Bool
  pub baseline : Bool
  pub chapter_through : Option ℤ

pub record StatisticsSyncRequest : Type 0 where
  pub cursor : ℤ
  pub activities : List ReadingActivity

pub record StatisticsSyncResponse : Type 0 where
  pub cursor : ℕ
  pub activities : List ReadingActivity
  pub has_more : Bool

-- The hexadecimal digits of either case.
abbrev any_hex : ℕ → Bool
any_hex c = is_hex c || in_range b'A' b'F' c

-- Groups of n hexadecimal digits, joined by dashes.
unfoldable pub hex_groups : ℕ → List ℕ → Text → Bool
hex_groups (suc n) more [] = false
hex_groups (suc n) more (c ∷ s) = any_hex c && hex_groups n more s
hex_groups zero [] [] = true
hex_groups zero [] (c ∷ s) = false
hex_groups zero (m ∷ more) [] = false
hex_groups zero (m ∷ more) (c ∷ s) = c == b'-' && hex_groups m more s

-- activityIDPattern
unfoldable pub activity_id_pattern : Text → Bool
unfolding hex_groups
activity_id_pattern = hex_groups 8 (4 ∷ 4 ∷ 4 ∷ 12 ∷ [])

-- The numbers of an activity that are not negative; the integers are read once that is known.
abbrev pub nat : ℤ → ℕ
nat = pos_part

unfoldable pub times_invalid : ReadingActivity → Bool
times_invalid a =
    is_neg a.started_at
    || is_neg a.ended_at
    || ltb (nat a.ended_at) (nat a.started_at)
    || ltb 8640000000000000 (nat a.ended_at)
    || ltb 300000 (nat a.ended_at - nat a.started_at)
    || is_neg a.active_ms
    || ltb (nat a.ended_at - nat a.started_at) (nat a.active_ms)
    || is_neg a.sampled_ms
    || ltb (nat a.active_ms) (nat a.sampled_ms)
    || is_neg a.words
    || ltb 100000 (nat a.words)

unfoldable pub volume_invalid : Option Float → Bool
volume_invalid none = false
volume_invalid (some v) = below_zero v || equals v 0 || above v 100000 1

unfoldable pub baseline_invalid : ReadingActivity → Bool
baseline_invalid a =
    a.baseline
    && (not (nat a.started_at == nat a.ended_at)
        || not (nat a.active_ms == 0)
        || not (nat a.words == 0)
        || not (nat a.sampled_ms == 0))

unfoldable pub through_invalid : ReadingActivity → Bool
through_invalid a = elim a.chapter_through [
  | none ↦ false
  | some n ↦ not a.baseline || is_neg n || ltb (nat n) 1 || ltb 100000 (nat n)
]

-- a <= b on integers
abbrev pub leb_ℤ : ℤ → ℤ → Bool
leb_ℤ (pos a) (pos b) = leb a b
leb_ℤ (pos a) (negsuc b) = false
leb_ℤ (negsuc a) (pos b) = true
leb_ℤ (negsuc a) (negsuc b) = leb b a

abbrev pub place_int : ℤ → List ℤ → List ℤ
place_int n [] = n ∷ []
place_int n (m ∷ ms) = if leb_ℤ n m then n ∷ m ∷ ms else m ∷ place_int n ms

-- sort.Ints
abbrev pub sort_ints : List ℤ → List ℤ
sort_ints [] = []
sort_ints (n ∷ ns) = place_int n (sort_ints ns)

abbrev chapter_bad : ℤ → Bool
chapter_bad n = is_neg n || ltb (nat n) 1 || ltb 100000 (nat n)

-- The loop over the sorted chapters behind the chapter `last`.
unfoldable pub chapters_after : ℤ → List ℤ → Bool
chapters_after last [] = true
chapters_after last (n ∷ ns) =
    if chapter_bad n || leb_ℤ n last && leb_ℤ last n then false else chapters_after n ns

unfoldable pub chapters_ok : List ℤ → Bool
unfolding chapters_after
chapters_ok [] = true
chapters_ok (n ∷ ns) = if chapter_bad n then false else chapters_after n ns

unfoldable pub canonical_activity : ReadingActivity → Result ReadingActivity
unfolding activity_id_pattern book_pattern times_invalid volume_invalid baseline_invalid
    through_invalid chapters_ok
canonical_activity a = do
  chapters ← demand invalid a.chapters
  reject
      (not (activity_id_pattern a.id)
        || not (book_pattern a.book_id)
        || times_invalid a
        || ltb 1000 (length chapters))
      invalid
  reject (volume_invalid a.volume) invalid
  reject (ltb 0 (nat a.words) && nat a.sampled_ms == 0) invalid
  reject (baseline_invalid a) invalid
  reject (through_invalid a) invalid
  reject (not (chapters_ok (sort_ints chapters))) invalid
  ok (record a { chapters = some (sort_ints chapters) })

unfoldable pub canonical_activities : List ReadingActivity → Result (List ReadingActivity)
unfolding canonical_activity
canonical_activities [] = ok []
canonical_activities (a ∷ as') = do
  b ← canonical_activity a
  bs ← canonical_activities as'
  ok (b ∷ bs)

-- A row of `reading_activities`.
pub record ActivityRow : Type 0 where
  pub user : Text
  pub id : Text
  pub cursor : ℕ
  pub activity : Text

pub record ActivityCodec : Type 0 where
  pub encode : ReadingActivity → Text
  pub decode : Text → Option ReadingActivity

-- SELECT activity … WHERE user_id=? AND id=?
unfoldable pub find_activity : Text → Text → List ActivityRow → Option Text
find_activity user id [] = none
find_activity user id (r ∷ rs) =
    if r.user == user && r.id == id then some r.activity else find_activity user id rs

-- SELECT COALESCE(MAX(cursor),0) … WHERE user_id=?
unfoldable pub last_cursor : Text → List ActivityRow → ℕ
last_cursor user [] = 0
last_cursor user (r ∷ rs) =
    let rest = last_cursor user rs in if r.user == user && ltb rest r.cursor then r.cursor else rest

-- Whether a row would break UNIQUE(user_id,cursor).
unfoldable pub cursor_taken : Text → ℕ → List ActivityRow → Bool
cursor_taken user n [] = false
cursor_taken user n (r ∷ rs) = r.user == user && r.cursor == n || cursor_taken user n rs

unfoldable pub insert_activity : ActivityRow → List ActivityRow → Result (List ActivityRow)
unfolding find_activity cursor_taken
insert_activity row rs = elim (find_activity row.user row.id rs) [
  | some text ↦ err constraint
  | none ↦ if cursor_taken row.user row.cursor rs then err constraint else ok (rs ++ row ∷ [])
]

abbrev pub place_activity : ActivityRow → List ActivityRow → List ActivityRow
place_activity r [] = r ∷ []
place_activity r (s ∷ rs) = if leb r.cursor s.cursor then r ∷ s ∷ rs else s ∷ place_activity r rs

-- ORDER BY cursor
abbrev pub order_activities : List ActivityRow → List ActivityRow
order_activities [] = []
order_activities (r ∷ rs) = place_activity r (order_activities rs)

-- SELECT … WHERE user_id=? AND cursor>? ORDER BY cursor LIMIT 100
unfoldable pub activities_page : Text → ℕ → List ActivityRow → List ActivityRow
activities_page user from rs =
    take 100 (order_activities (keep (λ r. r.user == user && ltb from r.cursor) rs))

module _ (c : ActivityCodec) (user : Text) where
  -- One round of the loop over the activities.
  unfoldable pub store_activity :
      ReadingActivity → List ActivityRow × ℕ → Result (List ActivityRow × ℕ)
  unfolding insert_activity
  store_activity a (rs, cursor) = elim (find_activity user a.id rs) [
    | some previous ↦ do reject (not (previous == c.encode a)) conflict; ok (rs, cursor)
    | none ↦ do
      let row : ActivityRow = record {
        user = user;
        id = a.id;
        cursor = cursor + 1;
        activity = c.encode a;
      }
      rs' ← insert_activity row rs
      ok (rs', cursor + 1)
  ]

  unfoldable pub store_activities :
      List ReadingActivity → List ActivityRow × ℕ → Result (List ActivityRow × ℕ)
  unfolding store_activity
  store_activities [] s = ok s
  store_activities (a ∷ as') s = do s' ← store_activity a s; store_activities as' s'

  unfoldable pub read_activities : List ActivityRow → ℕ → Result (List ReadingActivity × ℕ)
  read_activities [] last = ok ([], last)
  read_activities (r ∷ rs) last = do
    a ← demand decoding (c.decode r.activity)
    (as', last') ← read_activities rs r.cursor
    ok (a ∷ as', last')

  unfoldable pub sync_statistics :
      StatisticsSyncRequest → List ActivityRow → Result (List ActivityRow × StatisticsSyncResponse)
  unfolding canonical_activities store_activities read_activities activities_page last_cursor
  sync_statistics req rs = do
    reject (is_neg req.cursor || ltb 100 (length req.activities)) invalid
    canonical ← canonical_activities req.activities
    reject (ltb (last_cursor user rs) (nat req.cursor)) conflict
    (rs', cursor) ← store_activities canonical (rs, last_cursor user rs)
    (as', last) ← read_activities (activities_page user (nat req.cursor) rs') (nat req.cursor)
    ok (rs', record { cursor = last; activities = as'; has_more = ltb last cursor })
