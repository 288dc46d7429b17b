-- ===== src/Statistics/Storing.antt =====
-- The loop of `SyncStatistics` that stores the activities of a request.
use quire_server.Base.{
  ℕ, suc, ◌+◌, ◌≤◌, ◌≡◌, ◌≢◌, refl, sym, subst, false, not, none, some, List, [], ◌∷◌, ◌++◌,
  append-nil, append_assoc, Text, length, length-append, All, All-append, ◌==◌, text_eq, nat_eq,
  eq_iff, eq_refl, ok, err, conflict, constraint, reject, reject-not-eq-ok, >>=-eq-ok, ok_unique,
  arith, Bool-cases, Option-cases, inl, inr,
}
use quire_server.Statistics.{
  ReadingActivity, ActivityRow, ActivityCodec, find_activity, cursor_taken, insert_activity,
  store_activity, store_activities,
}
use quire_server.Statistics.History.{
  history, history-append, Numbered-append, IsKept, cursor_taken_above,
}

find_activity-append :
    (user id text : Text) (rs more : List ActivityRow)
    → find_activity user id rs ≡ some text
    → find_activity user id (rs ++ more) ≡ some text
unfolding find_activity
find_activity-append user id text [] more h = cc
find_activity-append user id text (r ∷ rs) more h =
    ground (arith, find_activity-append user id text rs more)

find_activity-last :
    (user id text : Text) (n : ℕ) (rs : List ActivityRow)
    → find_activity user id rs ≡ none
    → find_activity user id
        (rs ++ record { user = user; id = id; cursor = n; activity = text } ∷ [])
      ≡ some text
unfolding find_activity
find_activity-last user id text n [] h = ground (arith, eq_refl user, eq_refl id)
find_activity-last user id text n (r ∷ rs) h = ground (arith, find_activity-last user id text n rs)

pub length-history-le :
    (user : Text) (rs more : List ActivityRow)
    → length (history user rs) ≤ length (history user (rs ++ more))
unfolding history
length-history-le user [] more = omega arith
length-history-le user (r ∷ rs) more = ground (arith, length-history-le user rs more)

module _ (c : ActivityCodec) (user : Text) where
  abbrev pub Knows : List ActivityRow → ReadingActivity → Type 0
  Knows rs a = find_activity user a.id rs ≡ some (c.encode a)

  Knows-append :
      (rs more : List ActivityRow) (xs : List ReadingActivity)
      → All (Knows rs) xs
      → All (Knows (rs ++ more)) xs
  Knows-append rs more [] _ = tt
  Knows-append rs more (a ∷ xs) (h, hs) =
      (find_activity-append user a.id (c.encode a) rs more h, Knows-append rs more xs hs)

  -- What storing activities guarantees.
  pub record IsStored (xs : List ReadingActivity) (s s' : List ActivityRow × ℕ) : Type 0 where
    pub kept : IsKept s'.0
    pub counted : length (history user s'.0) ≡ s'.1
    pub added : List ActivityRow
    pub appended : s'.0 ≡ s.0 ++ added
    pub mine : All (λ r. r.user ≡ user) added
    pub known : All (Knows s'.0) xs

  abbrev row_of : ReadingActivity → ℕ → ActivityRow
  row_of a n = record { user = user; id = a.id; cursor = n; activity = c.encode a }

  insert_activity_fresh :
      (a : ReadingActivity) (rs : List ActivityRow) (n : ℕ)
      → IsKept rs
      → length (history user rs) ≡ n
      → find_activity user a.id rs ≡ none
      → insert_activity (row_of a (n + 1)) rs ≡ ok (rs ++ row_of a (n + 1) ∷ [])
  unfolding insert_activity
  insert_activity_fresh a rs n k e new =
      let next : n + 1 ≡ suc n = omega arith in
      let free : cursor_taken user (n + 1) rs ≡ false =
        rw next (cursor_taken_above user 0 n rs (k.numbered user) (omega arith)) in
      rw (new, insert_activity) (simp free refl)

  IsKept-append :
      (a : ReadingActivity) (rs : List ActivityRow) (n : ℕ)
      → IsKept rs
      → length (history user rs) ≡ n
      → IsKept (rs ++ row_of a (n + 1) ∷ [])
  IsKept-append a rs n k e = record {
    numbered = λ v.
        let grown = history-append v (row_of a (n + 1)) rs in
        elim (Bool-cases (user == v)) [
          | inl same ↦
              let at : length (history v rs) ≡ n = rw (← (eq_iff user v).0 same) e in
              rw grown (
                simp same (
                  Numbered-append 0 (history v rs) (row_of a (n + 1)) (k.numbered v)
                    (omega (arith, at))))
          | inr other ↦ rw grown (simp other (k.numbered v))
        ];
  }

  -- Storing an activity never breaks a constraint of the table, where the histories are numbered.
  store_activity-ne-constraint :
      (a : ReadingActivity) (rs : List ActivityRow) (n : ℕ)
      → IsKept rs
      → length (history user rs) ≡ n
      → store_activity c user a (rs, n) ≢ err constraint
  unfolding store_activity
  store_activity-ne-constraint a rs n k e = elim (Option-cases (find_activity user a.id rs)) [
    | inl new ↦ rw (new, store_activity) (simp (insert_activity_fresh a rs n k e new) (λ h. cc))
    | inr (text, found) ↦ rw (found, store_activity) (ground arith)
  ]

  store_activity-IsStored :
      (a : ReadingActivity) (rs : List ActivityRow) (n : ℕ) (s' : List ActivityRow × ℕ)
      → IsKept rs
      → length (history user rs) ≡ n
      → store_activity c user a (rs, n) ≡ ok s'
      → IsStored (a ∷ []) (rs, n) s'
  unfolding store_activity
  store_activity-IsStored a rs n s' k e h = elim (Option-cases (find_activity user a.id rs)) [
    | inl new ↦
        let h' = simp (insert_activity_fresh a rs n k e new) at (rw (new, store_activity) at h) in
        let grown = history-append user (row_of a (n + 1)) rs in
        subst (IsStored (a ∷ []) (rs, n)) (ok_unique _ refl h') (record {
          kept = IsKept-append a rs n k e;
          counted = rw grown (
              simp (eq_refl user)
                (omega (arith, e, length-append {0} (history user rs) (row_of a (n + 1) ∷ []))));
          added = row_of a (n + 1) ∷ [];
          appended = refl;
          mine = (refl, tt);
          known = (find_activity-last user a.id (c.encode a) (n + 1) rs new, tt);
        })
    | inr (text, found) ↦
        let h' = rw (found, store_activity) at h in
        let (_, same, h₁) = >>=-eq-ok (reject (not (text == c.encode a)) conflict) _ h' in
        let text_eq' : text ≡ c.encode a =
          (eq_iff text (c.encode a)).0 (reject-not-eq-ok (text == c.encode a) conflict same) in
        subst (IsStored (a ∷ []) (rs, n)) (ok_unique _ refl h₁) (record {
          kept = k;
          counted = e;
          added = [];
          appended = sym (append-nil rs);
          mine = tt;
          known = (rw (← text_eq') found, tt);
        })
  ]

  pub store_activities-IsStored :
      (xs : List ReadingActivity) (rs : List ActivityRow) (n : ℕ) (s' : List ActivityRow × ℕ)
      → IsKept rs
      → length (history user rs) ≡ n
      → store_activities c user xs (rs, n) ≡ ok s'
      → IsStored xs (rs, n) s'
  unfolding store_activities
  store_activities-IsStored [] rs n s' k e h =
      subst (IsStored [] (rs, n)) (ok_unique (store_activities c user [] (rs, n)) refl h) (record {
        kept = k;
        counted = e;
        added = [];
        appended = sym (append-nil rs);
        mine = tt;
        known = tt;
      })
  store_activities-IsStored (a ∷ xs) rs n s' k e h =
      let (m, h₁, h₂) = >>=-eq-ok (store_activity c user a (rs, n)) _ h in
      let s = store_activity-IsStored a rs n m k e h₁ in
      let t = store_activities-IsStored xs m.0 m.1 s' s.kept s.counted h₂ in
      record {
        kept = t.kept;
        counted = t.counted;
        added = s.added ++ t.added;
        appended = simp (t.appended, s.appended, append_assoc);
        mine = All-append _ s.added t.added s.mine t.mine;
        known = (
          rw (t.appended) (find_activity-append user a.id (c.encode a) m.0 t.added s.known.0),
          t.known,
        );
      }

  pub store_activities-known :
      (xs : List ReadingActivity) (rs : List ActivityRow) (n : ℕ)
      → All (Knows rs) xs
      → store_activities c user xs (rs, n) ≡ ok (rs, n)
  unfolding store_activities store_activity
  store_activities-known [] rs n _ = refl
  store_activities-known (a ∷ xs) rs n (h, hs) =
      rw (h, store_activity) (simp (eq_refl (c.encode a)) (store_activities-known xs rs n hs))
