-- ===== src/Statistics/Exchange.antt =====
-- A whole exchange of `SyncStatistics`: what is stored, what is given back, and a second try.
use quire_server.Base.{
  ℕ, ◌≤◌, ◌≡◌, ◌∙◌, refl, sym, subst, false, ◌||◌, List, ◌++◌, Text, length, All, ltb, text_eq,
  nat_eq, is_neg, ok, invalid, conflict, reject, reject-eq-ok, >>=-eq-ok, ok_unique, arith,
}
use quire_server.Statistics.{
  ReadingActivity, StatisticsSyncRequest, StatisticsSyncResponse, ActivityRow, ActivityCodec, nat,
  last_cursor, activities_page, store_activities, read_activities, canonical_activities,
  sync_statistics,
}
use quire_server.Statistics.History.{history, IsKept, last_cursor_lem}
use quire_server.Statistics.Storing.{
  store_activities-IsStored, store_activities-known, length-history-le,
}

module _ (c : ActivityCodec) (user : Text) where
  -- An exchange that succeeded.
  record IsExchanged (req : StatisticsSyncRequest) (rs rs' : List ActivityRow)
      (res : StatisticsSyncResponse) : Type 0 where
    bounded : (is_neg req.cursor || ltb 100 (length req.activities)) ≡ false
    canonical : List ReadingActivity
    checked : canonical_activities req.activities ≡ ok canonical
    within : ltb (last_cursor user rs) (nat req.cursor) ≡ false
    cursor : ℕ
    stored : store_activities c user canonical (rs, last_cursor user rs) ≡ ok (rs', cursor)
    page :
        read_activities c user (activities_page user (nat req.cursor) rs') (nat req.cursor)
        ≡ ok (res.activities, res.cursor)
    has_more : res.has_more ≡ ltb res.cursor cursor

  sync_statistics-IsExchanged :
      (req : StatisticsSyncRequest) (rs rs' : List ActivityRow) (res : StatisticsSyncResponse)
      → sync_statistics c user req rs ≡ ok (rs', res)
      → IsExchanged req rs rs' res
  unfolding sync_statistics
  sync_statistics-IsExchanged req rs rs' res e =
      let (_, b, e₁) =
        >>=-eq-ok (reject (is_neg req.cursor || ltb 100 (length req.activities)) invalid) _ e in
      let (xs, x, e₂) = >>=-eq-ok (canonical_activities req.activities) _ e₁ in
      let (_, w, e₃) =
        >>=-eq-ok (reject (ltb (last_cursor user rs) (nat req.cursor)) conflict) _ e₂ in
      let (s, t, e₄) = >>=-eq-ok (store_activities c user xs (rs, last_cursor user rs)) _ e₃ in
      let (pg, p, e₅) =
        >>=-eq-ok
          (read_activities c user (activities_page user (nat req.cursor) s.0) (nat req.cursor)) _
          e₄ in
      subst (λ z. IsExchanged req rs z.0 z.1) (ok_unique _ refl e₅)
        (record {
          bounded = reject-eq-ok (is_neg req.cursor || ltb 100 (length req.activities)) invalid b;
          canonical = xs;
          checked = x;
          within = reject-eq-ok (ltb (last_cursor user rs) (nat req.cursor)) conflict w;
          cursor = s.1;
          stored = t;
          page = p;
          has_more = refl;
        })

  -- An exchange that succeeds only adds to the history: the rows that stood there are kept as they
  -- are, in front of the new ones, all of which are the user's; and histories numbered 1 to n stay
  -- numbered.
  pub sync_statistics_appends :
      (req : StatisticsSyncRequest) (rs rs' : List ActivityRow) (res : StatisticsSyncResponse)
      → IsKept rs
      → sync_statistics c user req rs ≡ ok (rs', res)
      → (added : List ActivityRow) × (rs' ≡ rs ++ added)
        × All (λ r. r.user ≡ user) added
        × IsKept rs'
  sync_statistics_appends req rs rs' res k e =
      let x = sync_statistics-IsExchanged req rs rs' res e in
      let s =
        store_activities-IsStored c user x.canonical rs (last_cursor user rs) (rs', x.cursor) k
          (sym (last_cursor_lem user rs (k.numbered user))) x.stored in
      (s.added, s.appended, s.mine, s.kept)

  -- An exchange that succeeded on a history numbered 1 to n for every user can be sent again: it
  -- gives the same response and stores nothing.
  pub sync_statistics_retry :
      (req : StatisticsSyncRequest) (rs rs' : List ActivityRow) (res : StatisticsSyncResponse)
      → IsKept rs
      → sync_statistics c user req rs ≡ ok (rs', res)
      → sync_statistics c user req rs' ≡ ok (rs', res)
  unfolding sync_statistics
  sync_statistics_retry req rs rs' res k e =
      let x = sync_statistics-IsExchanged req rs rs' res e in
      let before = last_cursor_lem user rs (k.numbered user) in
      let s =
        store_activities-IsStored c user x.canonical rs (last_cursor user rs) (rs', x.cursor) k
          (sym before) x.stored in
      let at : last_cursor user rs' ≡ x.cursor =
        last_cursor_lem user rs' (s.kept.numbered user) ∙ s.counted in
      let longer : length (history user rs) ≤ length (history user rs') =
        rw (s.appended) (length-history-le user rs s.added) in
      let grown : last_cursor user rs ≤ x.cursor = omega (arith, before, s.counted, longer) in
      let within : ltb x.cursor (nat req.cursor) ≡ false = ground (arith, x.within, grown) in
      let given : StatisticsSyncResponse = record {
        cursor = res.cursor;
        activities = res.activities;
        has_more = ltb res.cursor x.cursor;
      } in
      let same : given ≡ res = λ i. record {
        cursor = res.cursor;
        activities = res.activities;
        has_more = sym (x.has_more) i;
      } in
      simp
        (
          x.bounded,
          x.checked,
          at,
          within,
          store_activities-known c user x.canonical rs' x.cursor s.known,
          x.page,
        )
        (λ i. ok (rs', same i))
