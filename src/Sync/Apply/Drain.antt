-- ===== src/Sync/Apply/Drain.antt =====
-- A client that asks `Store.Sync` for one page after the other.
use mathlib.Core.Option
use quire_server.Base.{
  ℕ, zero, suc, ◌+◌, ◌*◌, ◌≤◌, ltb→lt, ◌≡◌, ◌≢◌, ◌⊎◌, ◌∙◌, refl, sym, ap, subst, true, false,
  Option, none, some, List, [], ◌∷◌, ◌++◌, Text, length, take, drop, length-take, ltb, text_eq,
  nat_eq, if◌then◌else◌, find, pos, Result, ok, err, arith, Bool-cases, inl, inr,
}
use quire_server.Sync.Wire.{Change, Record, SyncRequest, SyncResponse, Codec}
use quire_server.Sync.Apply.{Db, page_rows, apply_operations, validate_operations, read_page, sync}
use quire_server.Sync.Apply.Log.{log, Numbered, Numbered-drop, Numbered-take, page_rows_lem}
use quire_server.Sync.Apply.Page.{IsConsistent, Serves, read_page-Serves}
use quire_server.Sync.Apply.Pending.{
  upsert-same, drop-drop, length-drop, not_less, last_page, full_page,
}

abbrev pub empty_request : ℕ → SyncRequest
empty_request from = record { cursor = pos from; operations = [] }

module _ (c : Codec) (user : Text) (clock : ℕ → ℕ) where
  -- What the client goes on with after a response; `again` asks from a cursor.
  abbrev pub drain_next :
      (ℕ → Db → Option (List Change)) → Result (Db × SyncResponse) → Option (List Change)
  drain_next again (err e) = none
  drain_next again (ok (db', res)) =
      if res.has_more
      then Option.map (λ more. res.changes ++ more) (again res.cursor db')
      else some res.changes

  -- Requests without operations until no more changes are left; `none` where one fails, or where they are
  -- not enough.
  abbrev pub drain : ℕ → ℕ → Db → Option (List Change)
  drain zero from db = none
  drain (suc k) from db =
      drain_next (λ at db'. drain k at db') (sync c user clock (empty_request from) db)

  -- The stored changes decode.
  abbrev pub IsReadable : List (ℕ × Text) → Type 0
  IsReadable [] = Unit
  IsReadable ((n, text) ∷ rows) = ((r : Record) × (c.decode text ≡ some r)) × IsReadable rows

  IsReadable-take : (k : ℕ) (rows : List (ℕ × Text)) → IsReadable rows → IsReadable (take k rows)
  IsReadable-take zero rows h = tt
  IsReadable-take (suc k) [] h = tt
  IsReadable-take (suc k) ((n, text) ∷ rows) (r, h) = (r, IsReadable-take k rows h)

  IsReadable-drop : (k : ℕ) (rows : List (ℕ × Text)) → IsReadable rows → IsReadable (drop k rows)
  IsReadable-drop zero rows h = h
  IsReadable-drop (suc k) [] h = tt
  IsReadable-drop (suc k) ((n, text) ∷ rows) (r, h) = IsReadable-drop k rows h

  read_page_total :
      (rows : List (ℕ × Text)) (last : ℕ)
      → IsReadable rows
      → (out : List Change × ℕ) × (read_page c rows last ≡ ok out)
  unfolding read_page
  read_page_total [] last h = (([], last), refl)
  read_page_total ((n, text) ∷ rows) last ((r, decoded), h) =
      let (out, rest) = read_page_total rows n h in
      ((record { cursor = n; of = r } ∷ out.0, out.1), rw (decoded, rest) refl)

  -- A request without operations changes nothing and gives the next page.
  sync-empty :
      (from n : ℕ) (db : Db)
      → IsConsistent db
      → IsReadable (log user db.changes)
      → find user db.cursors ≡ some n
      → from ≤ n
      → (res : SyncResponse) × (sync c user clock (empty_request from) db ≡ ok (db, res))
        × Serves c (take 100 (drop from (log user db.changes))) res.changes
        × (res.cursor ≡ from + length res.changes)
        × (res.has_more ≡ ltb res.cursor n)
  unfolding sync validate_operations apply_operations
  sync-empty from n db h readable known le =
      let logged = h.logged user n known in
      let rows = take 100 (drop from (log user db.changes)) in
      let start : 0 + from ≡ from = omega arith in
      let ordered : Numbered from rows =
        Numbered-take from 100 (drop from (log user db.changes))
          (rw start at (Numbered-drop 0 from (log user db.changes) logged.0)) in
      let (out, run) = read_page_total rows from (
        IsReadable-take 100 (drop from (log user db.changes))
          (IsReadable-drop from (log user db.changes) readable)) in
      let (served, at) = read_page-Serves c from rows out.0 out.1 ordered run in
      let within : ltb n from ≡ false = ground (arith, le) in
      let paged : page_rows user from db ≡ rows = page_rows_lem user from n db logged in
      (
        record { results = []; changes = out.0; cursor = out.1; has_more = ltb out.1 n },
        rw (known, within, upsert-same user n db.cursors known, paged, run) refl,
        served,
        at,
        refl,
      )

  length-Serves :
      (rows : List (ℕ × Text)) (chs : List Change) → Serves c rows chs → length chs ≡ length rows
  length-Serves [] [] h = refl
  length-Serves [] (ch ∷ chs) h = absurd h
  length-Serves ((n, text) ∷ rows) [] h = absurd h
  length-Serves ((n, text) ∷ rows) (ch ∷ chs) (_, _, h) = ap (λ k. suc k) (length-Serves rows chs h)

  Serves-append :
      (k : ℕ) (rows : List (ℕ × Text)) (a b : List Change)
      → Serves c (take k rows) a
      → Serves c (drop k rows) b
      → Serves c rows (a ++ b)
  Serves-append zero rows [] b h g = g
  Serves-append zero rows (ch ∷ a) b h g = absurd h
  Serves-append (suc k) [] [] b h g = g
  Serves-append (suc k) [] (ch ∷ a) b h g = absurd h
  Serves-append (suc k) ((n, text) ∷ rows) [] b h g = absurd h
  Serves-append (suc k) ((n, text) ∷ rows) (ch ∷ a) b (at, read, h) g =
      (at, read, Serves-append k rows a b h g)

  take-all : (k : ℕ) (rows : List (ℕ × Text)) → length rows ≤ k → take k rows ≡ rows
  take-all zero [] h = refl
  take-all zero (r ∷ rows) h = let never : ⊥ = omega (arith, h) in elim never [ ]
  take-all (suc k) [] h = refl
  take-all (suc k) (r ∷ rows) h = ap (λ x. r ∷ x) (take-all k rows (omega (arith, h)))

  -- One request of the client: the last one, or one that brings 100 changes and leaves more.
  abbrev IsLast : ℕ → Db → SyncResponse → Type 0
  IsLast from db res =
      (res.has_more ≡ false) × Serves c (drop from (log user db.changes)) res.changes

  abbrev IsPage : ℕ → ℕ → Db → SyncResponse → Type 0
  IsPage from n db res =
      (res.has_more ≡ true)
      × (res.cursor ≡ from + 100)
      × (from + 100 ≤ n)
      × (from + 100 ≢ n)
      × Serves c (take 100 (drop from (log user db.changes))) res.changes

  sync_next :
      (from n : ℕ) (db : Db)
      → IsConsistent db
      → IsReadable (log user db.changes)
      → find user db.cursors ≡ some n
      → from ≤ n
      → (res : SyncResponse) × (sync c user clock (empty_request from) db ≡ ok (db, res))
        × (IsLast from db res ⊎ IsPage from n db res)
  sync_next from n db h readable known le =
      let rows = log user db.changes in
      let size : length rows ≡ n = (h.logged user n known).1 in
      let (res, run, served, at, more) = sync-empty from n db h readable known le in
      let left : length (drop from rows) + from ≡ n =
        length-drop from rows (omega (arith, size, le)) ∙ size in
      let got : length res.changes ≡ length (take 100 (drop from rows)) =
        length-Serves (take 100 (drop from rows)) res.changes served in
      let counted = length-take 100 (drop from rows) in
      (
        res,
        run,
        elim (Bool-cases (ltb res.cursor n)) [
          | inr ended ↦
              let all_of : length (drop from rows) ≤ 100 =
                last_page from n res.cursor (length res.changes) (length (drop from rows)) at
                  (got ∙ counted) left (not_less res.cursor n ended) in
              inl (more ∙ ended, rw (take-all 100 (drop from rows) all_of) at served)
          | inl goes_on ↦
              let (full, low, apart) =
                full_page from n res.cursor (length res.changes) (length (drop from rows)) at
                  (got ∙ counted) left (ltb→lt res.cursor n goes_on) in
              inr (more ∙ goes_on, full, low, apart, served)
        ],
      )

  drain_last :
      (k from : ℕ) (db : Db) (res : SyncResponse)
      → sync c user clock (empty_request from) db ≡ ok (db, res)
      → res.has_more ≡ false
      → drain (suc k) from db ≡ some res.changes
  drain_last k from db res run ends =
      subst (λ r. drain_next (λ at d. drain k at d) r ≡ some res.changes) (sym run) (simp ends refl)

  drain_more :
      (k from : ℕ) (db : Db) (res : SyncResponse) (more : List Change)
      → sync c user clock (empty_request from) db ≡ ok (db, res)
      → res.has_more ≡ true
      → drain k res.cursor db ≡ some more
      → drain (suc k) from db ≡ some (res.changes ++ more)
  drain_more k from db res more run goes_on rest =
      subst (λ r. drain_next (λ at d. drain k at d) r ≡ some (res.changes ++ more)) (sym run)
        (simp (goes_on, rest) refl)

  -- A client that asks again, from the cursor of each response, for as long as the response says that there
  -- is more, comes to an end, and has then got exactly the rest of its log, in order: where n is the
  -- user's cursor, k + 1 requests are enough for at most 100 (k + 1) changes after the client's cursor.
  -- The tables are consistent, and the stored changes decode.
  pub drain-Serves :
      (k from n : ℕ) (db : Db)
      → IsConsistent db
      → IsReadable (log user db.changes)
      → find user db.cursors ≡ some n
      → from ≤ n
      → n ≤ from + 100 * (k + 1)
      → (chs : List Change) × (drain (suc k) from db ≡ some chs)
        × Serves c (drop from (log user db.changes)) chs
  drain-Serves zero from n db h readable known le enough =
      let (res, run, kind) = sync_next from n db h readable known le in
      elim kind [
        | inl (ends, served) ↦ (res.changes, drain_last zero from db res run ends, served)
        | inr (_, _, low, apart, _) ↦
            let never : ⊥ = apart (omega (arith, low, enough)) in elim never [ ]
      ]
  drain-Serves (suc k) from n db h readable known le enough =
      let (res, run, kind) = sync_next from n db h readable known le in
      elim kind [
        | inl (ends, served) ↦ (res.changes, drain_last (suc k) from db res run ends, served)
        | inr (more, at, low, _, served) ↦
            let (chs, rest, follows) =
              drain-Serves k (from + 100) n db h readable known low (omega (arith, enough)) in
            (
              res.changes ++ chs,
              drain_more (suc k) from db res chs run more
                  (subst (λ x. drain (suc k) x db ≡ some chs) (sym at) rest),
              Serves-append 100 (drop from (log user db.changes)) res.changes chs served
                  (rw (drop-drop 100 from (log user db.changes)) follows),
            )
      ]
