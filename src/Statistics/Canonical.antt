-- ===== src/Statistics/Canonical.antt =====
-- The activities that `canonicalActivity` accepts.
use quire_server.Base.{
  suc, ◌+◌, ◌≤◌, ◌<◌, ◌≡◌, refl, sym, true, false, not, ◌||◌, ◌&&◌, some, List, [], ◌∷◌, length,
  ltb, ◌==◌, nat_eq, ℤ, pos, negsuc, is_neg, ok, invalid, reject, reject-eq-ok, reject-not-eq-ok,
  demand, demand-eq-ok, >>=-eq-ok, ok_unique, arith, Bool-cases, inl, inr,
}
use quire_server.Sync.Validate.{book_pattern}
use quire_server.Statistics.{
  ReadingActivity, activity_id_pattern, nat, times_invalid, volume_invalid, baseline_invalid,
  through_invalid, leb_ℤ, place_int, sort_ints, chapters_after, chapters_ok, canonical_activity,
}

abbrev Ascending : List ℤ → Type 0
Ascending [] = Unit
Ascending (n ∷ []) = Unit
Ascending (n ∷ m ∷ ms) = (leb_ℤ n m ≡ true) × Ascending (m ∷ ms)

leb_ℤ_total : (a b : ℤ) → leb_ℤ a b ≡ false → leb_ℤ b a ≡ true
leb_ℤ_total (pos a) (pos b) h = ground arith
leb_ℤ_total (pos a) (negsuc b) h = refl
leb_ℤ_total (negsuc a) (pos b) h = cc
leb_ℤ_total (negsuc a) (negsuc b) h = ground arith

place_int_behind :
    (m n : ℤ) (ms : List ℤ) → leb_ℤ m n ≡ true → Ascending (m ∷ ms) → Ascending (m ∷ place_int n ms)
place_int_behind m n [] le _ = (le, tt)
place_int_behind m n (k ∷ ks) le (h, hs) = elim (Bool-cases (leb_ℤ n k)) [
  | inl e ↦ simp e (le, (refl, hs))
  | inr e ↦ simp e (h, place_int_behind k n ks (leb_ℤ_total n k e) hs)
]

Ascending-place_int : (n : ℤ) (ms : List ℤ) → Ascending ms → Ascending (place_int n ms)
Ascending-place_int n [] _ = tt
Ascending-place_int n (m ∷ ms) h = elim (Bool-cases (leb_ℤ n m)) [
  | inl e ↦ simp e (refl, h)
  | inr e ↦ simp e (place_int_behind m n ms (leb_ℤ_total n m e) h)
]

Ascending-sort_ints : (ns : List ℤ) → Ascending (sort_ints ns)
Ascending-sort_ints [] = tt
Ascending-sort_ints (n ∷ ns) = Ascending-place_int n (sort_ints ns) (Ascending-sort_ints ns)

place_int_first : (n m : ℤ) (ms : List ℤ) → leb_ℤ n m ≡ true → place_int n (m ∷ ms) ≡ n ∷ m ∷ ms
place_int_first n m ms e = simp e

sort_ints_of_Ascending : (ns : List ℤ) → Ascending ns → sort_ints ns ≡ ns
sort_ints_of_Ascending [] _ = refl
sort_ints_of_Ascending (n ∷ []) _ = refl
sort_ints_of_Ascending (n ∷ m ∷ ms) (e, h) =
    rw (sort_ints_of_Ascending (m ∷ ms) h) (place_int_first n m ms e)

length-place_int : (n : ℤ) (ms : List ℤ) → length (place_int n ms) ≡ suc (length ms)
length-place_int n [] = refl
length-place_int n (m ∷ ms) = ground (arith, length-place_int n ms)

length-sort_ints : (ns : List ℤ) → length (sort_ints ns) ≡ length ns
length-sort_ints [] = refl
length-sort_ints (n ∷ ns) = omega (arith, length-place_int n (sort_ints ns), length-sort_ints ns)

-- The chapters are numbers from 1 to 100000, in strictly ascending order.
abbrev pub IsChapters : List ℤ → Type 0
IsChapters [] = Unit
IsChapters (n ∷ []) = (is_neg n ≡ false) × (1 ≤ nat n) × (nat n ≤ 100000)
IsChapters (n ∷ m ∷ ms) =
    ((is_neg n ≡ false) × (1 ≤ nat n) × (nat n ≤ 100000)) × (nat n < nat m) × IsChapters (m ∷ ms)

chapters_after-IsChapters :
    (n : ℤ) (ms : List ℤ)
    → (is_neg n ≡ false) × (1 ≤ nat n) × (nat n ≤ 100000)
    → Ascending (n ∷ ms)
    → chapters_after n ms ≡ true
    → IsChapters (n ∷ ms)
unfolding chapters_after
chapters_after-IsChapters n [] good _ _ = good
chapters_after-IsChapters (pos n) (pos m ∷ ms) good (le, h) e =
    (good, ground arith, chapters_after-IsChapters (pos m) ms (ground arith) h (ground arith))
chapters_after-IsChapters (pos n) (negsuc m ∷ ms) good (le, h) e = cc
chapters_after-IsChapters (negsuc n) (m ∷ ms) good (le, h) e = cc (good.0)

chapters_ok-IsChapters : (ns : List ℤ) → Ascending ns → chapters_ok ns ≡ true → IsChapters ns
unfolding chapters_ok
chapters_ok-IsChapters [] _ _ = tt
chapters_ok-IsChapters (n ∷ ns) h e = chapters_after-IsChapters n ns (ground arith) h (ground arith)

-- What `canonicalActivity` checked of an activity that it accepts.
record IsCanonical (a b : ReadingActivity) : Type 0 where
  chapters : List ℤ
  given : a.chapters ≡ some chapters
  header :
      (not (activity_id_pattern a.id)
        || not (book_pattern a.book_id)
        || times_invalid a
        || ltb 1000 (length chapters))
      ≡ false
  volume : volume_invalid a.volume ≡ false
  sampled : (ltb 0 (nat a.words) && nat a.sampled_ms == 0) ≡ false
  baseline : baseline_invalid a ≡ false
  through : through_invalid a ≡ false
  sorted : chapters_ok (sort_ints chapters) ≡ true
  made : b ≡ record a { chapters = some (sort_ints chapters) }

canonical_activity-IsCanonical :
    (a b : ReadingActivity) → canonical_activity a ≡ ok b → IsCanonical a b
unfolding canonical_activity
canonical_activity-IsCanonical a b e =
    let (cs, g, e₁) = >>=-eq-ok (demand invalid a.chapters) _ e in
    let head =
      not (activity_id_pattern a.id)
      || not (book_pattern a.book_id)
      || times_invalid a
      || ltb 1000 (length cs) in
    let (_, h, e₂) = >>=-eq-ok (reject head invalid) _ e₁ in
    let (_, v, e₃) = >>=-eq-ok (reject (volume_invalid a.volume) invalid) _ e₂ in
    let (_, w, e₄) =
      >>=-eq-ok (reject (ltb 0 (nat a.words) && nat a.sampled_ms == 0) invalid) _ e₃ in
    let (_, l, e₅) = >>=-eq-ok (reject (baseline_invalid a) invalid) _ e₄ in
    let (_, t, e₆) = >>=-eq-ok (reject (through_invalid a) invalid) _ e₅ in
    let (_, s, e₇) = >>=-eq-ok (reject (not (chapters_ok (sort_ints cs))) invalid) _ e₆ in
    record {
      chapters = cs;
      given = demand-eq-ok invalid a.chapters cs g;
      header = reject-eq-ok head invalid h;
      volume = reject-eq-ok (volume_invalid a.volume) invalid v;
      sampled = reject-eq-ok (ltb 0 (nat a.words) && nat a.sampled_ms == 0) invalid w;
      baseline = reject-eq-ok (baseline_invalid a) invalid l;
      through = reject-eq-ok (through_invalid a) invalid t;
      sorted = reject-not-eq-ok (chapters_ok (sort_ints cs)) invalid s;
      made = sym (ok_unique _ refl e₇);
    }

canonical_of :
    (a : ReadingActivity) (cs : List ℤ)
    → a.chapters ≡ some cs
    → (not (activity_id_pattern a.id)
        || not (book_pattern a.book_id)
        || times_invalid a
        || ltb 1000 (length cs))
      ≡ false
    → volume_invalid a.volume ≡ false
    → (ltb 0 (nat a.words) && nat a.sampled_ms == 0) ≡ false
    → baseline_invalid a ≡ false
    → through_invalid a ≡ false
    → chapters_ok (sort_ints cs) ≡ true
    → canonical_activity a ≡ ok (record a { chapters = some (sort_ints cs) })
unfolding canonical_activity
canonical_of a cs g h v w l t s =
    rw (g, canonical_activity) (rw h (rw v (rw w (rw l (rw t (rw s refl))))))

-- An accepted activity is in canonical form: accepting it again changes nothing.
pub canonical_activity_idempotent :
    (a b : ReadingActivity) → canonical_activity a ≡ ok b → canonical_activity b ≡ ok b
unfolding times_invalid baseline_invalid through_invalid
canonical_activity_idempotent a b e =
    let i = canonical_activity-IsCanonical a b e in
    let ns = sort_ints (i.chapters) in
    let fixed = sort_ints_of_Ascending ns (Ascending-sort_ints i.chapters) in
    let b' : ReadingActivity = record a { chapters = some ns } in
    let header = rw (← length-sort_ints (i.chapters)) at i.header in
    let again =
      canonical_of b' ns refl header i.volume i.sampled i.baseline i.through (rw fixed i.sorted) in
    rw (i.made) (rw fixed at again)

-- The chapters of an accepted activity are numbers from 1 to 100000 in strictly ascending order, so
-- that none stands twice; its times and its words are not negative; its active time lies within its
-- span of at most five minutes, and its sampled time within its active time.
pub canonical_activity-IsChapters :
    (a b : ReadingActivity)
    → canonical_activity a ≡ ok b
    → (cs : List ℤ) × (b.chapters ≡ some cs)
      × IsChapters cs
      × (is_neg b.started_at ≡ false)
      × (is_neg b.ended_at ≡ false)
      × (is_neg b.active_ms ≡ false)
      × (is_neg b.sampled_ms ≡ false)
      × (is_neg b.words ≡ false)
      × (nat b.sampled_ms ≤ nat b.active_ms)
      × (nat b.started_at + nat b.active_ms ≤ nat b.ended_at)
      × (nat b.ended_at ≤ nat b.started_at + 300000)
unfolding times_invalid
canonical_activity-IsChapters a b e =
    let i = canonical_activity-IsCanonical a b e in
    let ns = sort_ints (i.chapters) in
    let good = chapters_ok-IsChapters ns (Ascending-sort_ints i.chapters) i.sorted in
    rw (i.made) (
      ns,
      refl,
      good,
      ground (arith, i.header),
      ground (arith, i.header),
      ground (arith, i.header),
      ground (arith, i.header),
      ground (arith, i.header),
      ground (arith, i.header),
      ground (arith, i.header),
      ground (arith, i.header),
    )
