-- ===== src/Sync/Apply/Log.antt =====
-- The log of changes of one user: its cursors run 1, 2, 3, … without gaps, and a page is a piece of
-- it.
use quire_server.Base.{
  ℕ, zero, suc, ◌+◌, ◌≤◌, true, none, List, [], ◌∷◌, ◌++◌, Text, length, take, drop, ltb, ◌==◌,
  text_eq, nat_eq, pair_eq, eq_iff, if◌then◌else◌, Table, find, ◌≡◌, ◌∙◌, refl, ap, arith,
  Bool-cases, inl, inr,
}
use quire_server.Sync.Apply.{Db, place, by_cursor, changes_after, page_rows}

-- All changes of a user, in the order of the table.
unfoldable pub log : Text → Table (Text × ℕ) Text → List (ℕ × Text)
log user [] = []
log user (((u, n), text) ∷ t) = if u == user then (n, text) ∷ log user t else log user t

-- The cursors are k + 1, k + 2, …
abbrev pub Numbered : ℕ → List (ℕ × Text) → Type 0
Numbered k [] = Unit
Numbered k ((n, text) ∷ rows) = (n ≡ suc k) × Numbered (suc k) rows

-- A user's log holds the cursors 1 to n.
abbrev pub IsLogged : Text → ℕ → Table (Text × ℕ) Text → Type 0
IsLogged user n t = Numbered 0 (log user t) × (length (log user t) ≡ n)

pub log-append :
    (user v : Text) (n : ℕ) (text : Text) (t : Table (Text × ℕ) Text)
    → log v (t ++ ((user, n), text) ∷ [])
      ≡ (if user == v then log v t ++ (n, text) ∷ [] else log v t)
unfolding log
log-append user v n text [] = refl
log-append user v n text (((u, m), s) ∷ t) = ground (arith, log-append user v n text t)

Numbered-append :
    (k : ℕ) (rows : List (ℕ × Text)) (text : Text)
    → Numbered k rows
    → Numbered k (rows ++ (k + length rows + 1, text) ∷ [])
Numbered-append k [] text _ = (omega arith, tt)
Numbered-append k ((n, s) ∷ rows) text (e, h) =
    let same : suc k + length rows + 1 ≡ k + suc (length rows) + 1 = omega arith in
    (e, rw same at (Numbered-append (suc k) rows text h))

length-snoc : (rows : List (ℕ × Text)) (r : ℕ × Text) → length (rows ++ r ∷ []) ≡ length rows + 1
length-snoc [] r = omega arith
length-snoc (x ∷ rows) r = omega (arith, length-snoc rows r)

pub IsLogged-append :
    (user : Text) (n : ℕ) (text : Text) (t : Table (Text × ℕ) Text)
    → IsLogged user n t
    → IsLogged user (n + 1) (t ++ ((user, n + 1), text) ∷ [])
IsLogged-append user n text t (numbered, size) =
    let grown = log-append user user (n + 1) text t in
    let self : (user == user) ≡ true = (eq_iff user user).1 refl in
    let at : n + 1 ≡ 0 + length (log user t) + 1 = omega arith in
    rw grown (
      simp self (
        (rw at (Numbered-append 0 (log user t) text numbered)),
        omega (arith, length-snoc (log user t) (n + 1, text)),
      ))

find_above :
    (user : Text) (k n : ℕ) (t : Table (Text × ℕ) Text)
    → Numbered k (log user t)
    → k + length (log user t) ≤ n
    → find (user, suc n) t ≡ none
unfolding log find
find_above user k n [] _ _ = refl
find_above user k n (((u, m), s) ∷ t) h le = elim (Bool-cases (u == user)) [
  | inl e ↦
      let (here, later) = simp e at h in
      let le' : suc k + length (log user t) ≤ n = ground (arith, le) in
      ground (arith, find_above user (suc k) n t later le')
  | inr e ↦
      let h' = simp e at h in
      let le' : k + length (log user t) ≤ n = ground (arith, le) in
      ground (arith, find_above user k n t h' le')
]

-- The next cursor of a user is free.
pub IsLogged-find :
    (user : Text) (n : ℕ) (t : Table (Text × ℕ) Text)
    → IsLogged user n t
    → find (user, n + 1) t ≡ none
IsLogged-find user n t (numbered, size) =
    let e : n + 1 ≡ suc n = omega arith in rw e (find_above user 0 n t numbered (omega arith))

-- The rows past a cursor.
above : ℕ → List (ℕ × Text) → List (ℕ × Text)
above from [] = []
above from ((n, s) ∷ rows) = if ltb from n then (n, s) ∷ above from rows else above from rows

changes_after-above :
    (user : Text) (from : ℕ) (t : Table (Text × ℕ) Text)
    → changes_after user from t ≡ above from (log user t)
unfolding changes_after log above
changes_after-above user from [] = refl
changes_after-above user from (((u, m), s) ∷ t) = ground (arith, changes_after-above user from t)

above-all :
    (k from : ℕ) (rows : List (ℕ × Text)) → Numbered k rows → from ≤ k → above from rows ≡ rows
unfolding above
above-all k from [] _ _ = refl
above-all k from ((n, s) ∷ rows) (e, h) le = ground (arith, above-all (suc k) from rows h)

above-drop :
    (k from : ℕ) (rows : List (ℕ × Text)) → Numbered k rows → above (k + from) rows ≡ drop from rows
unfolding above
above-drop k zero rows h = above-all k (k + zero) rows h (omega arith)
above-drop k (suc from) [] h = refl
above-drop k (suc from) ((n, s) ∷ rows) (e, h) =
    let shift : suc k + from ≡ k + suc from = omega arith in
    ground (arith, rw shift at (above-drop (suc k) from rows h))

pub Numbered-drop :
    (k from : ℕ) (rows : List (ℕ × Text)) → Numbered k rows → Numbered (k + from) (drop from rows)
Numbered-drop k zero rows h = let e : k + zero ≡ k = omega arith in rw e h
Numbered-drop k (suc from) [] h = tt
Numbered-drop k (suc from) ((n, s) ∷ rows) (e, h) =
    let shift : k + suc from ≡ suc k + from = omega arith in
    rw shift (Numbered-drop (suc k) from rows h)

pub Numbered-take : (k n : ℕ) (rows : List (ℕ × Text)) → Numbered k rows → Numbered k (take n rows)
Numbered-take k zero rows h = tt
Numbered-take k (suc n) [] h = tt
Numbered-take k (suc n) ((m, s) ∷ rows) (e, h) = (e, Numbered-take (suc k) n rows h)

place_first :
    (k n : ℕ) (s : Text) (rows : List (ℕ × Text))
    → Numbered k rows
    → n ≡ k
    → place (n, s) rows ≡ (n, s) ∷ rows
place_first k n s [] _ _ = refl
place_first k n s ((m, r) ∷ rows) (e, h) same = ground arith

by_cursor-Numbered : (k : ℕ) (rows : List (ℕ × Text)) → Numbered k rows → by_cursor rows ≡ rows
by_cursor-Numbered k [] _ = refl
by_cursor-Numbered k ((n, s) ∷ rows) (e, h) =
    rw (by_cursor-Numbered (suc k) rows h) (place_first (suc k) n s rows h e)

-- The rows of a page are the next 100 of the log.
pub page_rows_lem :
    (user : Text) (from n : ℕ) (db : Db)
    → IsLogged user n db.changes
    → page_rows user from db ≡ take 100 (drop from (log user db.changes))
unfolding page_rows
page_rows_lem user from n db (numbered, size) =
    let rows = log user db.changes in
    let start : 0 + from ≡ from = omega arith in
    let kept : changes_after user from db.changes ≡ drop from rows =
      changes_after-above user from db.changes ∙ (rw start at (above-drop 0 from rows numbered)) in
    rw kept (
      ap (take 100)
        (by_cursor-Numbered (0 + from) (drop from rows) (Numbered-drop 0 from rows numbered)))
