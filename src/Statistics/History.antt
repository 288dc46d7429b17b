-- ===== src/Statistics/History.antt =====
-- The history of activities that `SyncStatistics` keeps.
use quire_server.Base.{
  ℕ, zero, suc, ◌+◌, ◌≤◌, ◌<◌, ◌≡◌, ◌∙◌, refl, ap, false, ◌&&◌, List, [], ◌∷◌, ◌++◌, Text, length,
  take, drop, keep, ltb, ◌==◌, text_eq, nat_eq, if◌then◌else◌, arith, Bool-cases, inl, inr,
}
use quire_server.Statistics.{
  ActivityRow, last_cursor, cursor_taken, place_activity, order_activities, activities_page,
}

-- The rows of a user, in the order in which they were written.
unfoldable pub history : Text → List ActivityRow → List ActivityRow
history user [] = []
history user (r ∷ rs) = if r.user == user then r ∷ history user rs else history user rs

-- The cursors are k + 1, k + 2, …
abbrev pub Numbered : ℕ → List ActivityRow → Type 0
Numbered k [] = Unit
Numbered k (r ∷ rs) = (r.cursor ≡ suc k) × Numbered (suc k) rs

-- Every user's history holds the cursors 1 to n for some n.
pub record IsKept (rs : List ActivityRow) : Type 0 where
  pub numbered : (user : Text) → Numbered 0 (history user rs)

pub history-append :
    (user : Text) (r : ActivityRow) (rs : List ActivityRow)
    → history user (rs ++ r ∷ [])
      ≡ (if r.user == user then history user rs ++ r ∷ [] else history user rs)
unfolding history
history-append user r [] = refl
history-append user r (s ∷ rs) = ground (arith, history-append user r rs)

pub Numbered-append :
    (k : ℕ) (rs : List ActivityRow) (r : ActivityRow)
    → Numbered k rs
    → r.cursor ≡ k + length rs + 1
    → Numbered k (rs ++ r ∷ [])
Numbered-append k [] r _ e = (omega arith, tt)
Numbered-append k (s ∷ rs) r (h, hs) e = (h, Numbered-append (suc k) rs r hs (omega arith))

last_cursor-le :
    (user : Text) (k : ℕ) (rs : List ActivityRow)
    → Numbered k (history user rs)
    → last_cursor user rs ≤ k + length (history user rs)
unfolding last_cursor history
last_cursor-le user k [] _ = omega arith
last_cursor-le user k (r ∷ rs) h = elim (Bool-cases (r.user == user)) [
  | inl e ↦ let h' = simp e at h in simp e (ground (arith, last_cursor-le user (suc k) rs h'.1))
  | inr e ↦ let h' = simp e at h in simp e (ground (arith, last_cursor-le user k rs h'))
]

le-last_cursor :
    (user : Text) (k : ℕ) (rs : List ActivityRow)
    → Numbered k (history user rs)
    → 0 < length (history user rs)
    → k + length (history user rs) ≤ last_cursor user rs
unfolding last_cursor history
le-last_cursor user k [] _ h = absurd (omega arith)
le-last_cursor user k (r ∷ rs) h pos = elim (Bool-cases (r.user == user)) [
  | inl e ↦ let h' = simp e at h in simp e (ground (arith, le-last_cursor user (suc k) rs h'.1))
  | inr e ↦
      let h' = simp e at h in simp e (ground (arith, le-last_cursor user k rs h' (simp e at pos)))
]

-- MAX(cursor) is the number of a user's activities.
pub last_cursor_lem :
    (user : Text) (rs : List ActivityRow)
    → Numbered 0 (history user rs)
    → last_cursor user rs ≡ length (history user rs)
last_cursor_lem user rs h = ground (arith, last_cursor-le user 0 rs h, le-last_cursor user 0 rs h)

pub cursor_taken_above :
    (user : Text) (k n : ℕ) (rs : List ActivityRow)
    → Numbered k (history user rs)
    → k + length (history user rs) ≤ n
    → cursor_taken user (suc n) rs ≡ false
unfolding cursor_taken history
cursor_taken_above user k n [] _ _ = refl
cursor_taken_above user k n (r ∷ rs) h le = elim (Bool-cases (r.user == user)) [
  | inl e ↦
      let h' = simp e at h in
      let le' : suc k + length (history user rs) ≤ n = ground (arith, le) in
      ground (arith, cursor_taken_above user (suc k) n rs h'.1 le')
  | inr e ↦
      let h' = simp e at h in
      let le' : k + length (history user rs) ≤ n = ground (arith, le) in
      ground (arith, cursor_taken_above user k n rs h' le')
]

-- The rows past a cursor.
abbrev above : ℕ → List ActivityRow → List ActivityRow
above from rs = keep (λ r. ltb from r.cursor) rs

keep-above :
    (user : Text) (from : ℕ) (rs : List ActivityRow)
    → keep (λ r. r.user == user && ltb from r.cursor) rs ≡ above from (history user rs)
unfolding history
keep-above user from [] = refl
keep-above user from (r ∷ rs) = ground (arith, keep-above user from rs)

above-all : (k from : ℕ) (rs : List ActivityRow) → Numbered k rs → from ≤ k → above from rs ≡ rs
above-all k from [] _ _ = refl
above-all k from (r ∷ rs) (e, h) le = ground (arith, above-all (suc k) from rs h)

above-drop :
    (k from : ℕ) (rs : List ActivityRow) → Numbered k rs → above (k + from) rs ≡ drop from rs
above-drop k zero rs h = above-all k (k + zero) rs h (omega arith)
above-drop k (suc from) [] h = refl
above-drop k (suc from) (r ∷ rs) (e, h) =
    let shift : suc k + from ≡ k + suc from = omega arith in
    ground (arith, rw shift at (above-drop (suc k) from rs h))

pub Numbered-drop :
    (k from : ℕ) (rs : List ActivityRow) → Numbered k rs → Numbered (k + from) (drop from rs)
Numbered-drop k zero rs h = let e : k + zero ≡ k = omega arith in rw e h
Numbered-drop k (suc from) [] h = tt
Numbered-drop k (suc from) (r ∷ rs) (e, h) =
    let shift : k + suc from ≡ suc k + from = omega arith in
    rw shift (Numbered-drop (suc k) from rs h)

pub Numbered-take : (k n : ℕ) (rs : List ActivityRow) → Numbered k rs → Numbered k (take n rs)
Numbered-take k zero rs h = tt
Numbered-take k (suc n) [] h = tt
Numbered-take k (suc n) (r ∷ rs) (e, h) = (e, Numbered-take (suc k) n rs h)

place_activity_first :
    (k : ℕ) (r : ActivityRow) (rs : List ActivityRow)
    → Numbered k rs
    → r.cursor ≡ k
    → place_activity r rs ≡ r ∷ rs
place_activity_first k r [] _ _ = refl
place_activity_first k r (s ∷ rs) (e, h) at = ground arith

order_activities-Numbered :
    (k : ℕ) (rs : List ActivityRow) → Numbered k rs → order_activities rs ≡ rs
order_activities-Numbered k [] _ = refl
order_activities-Numbered k (r ∷ rs) (e, h) =
    rw (order_activities-Numbered (suc k) rs h) (place_activity_first (suc k) r rs h e)

-- Where the user's history is numbered 1 to n, a page is the next 100 rows of it past the client's
-- cursor, in order.
pub activities_page_lem :
    (user : Text) (from : ℕ) (rs : List ActivityRow)
    → Numbered 0 (history user rs)
    → activities_page user from rs ≡ take 100 (drop from (history user rs))
unfolding activities_page
activities_page_lem user from rs h =
    let hs = history user rs in
    let start : 0 + from ≡ from = omega arith in
    let kept : keep (λ r. r.user == user && ltb from r.cursor) rs ≡ drop from hs =
      keep-above user from rs ∙ (rw start at (above-drop 0 from hs h)) in
    rw kept (
      ap (take 100)
        (order_activities-Numbered (0 + from) (drop from hs) (Numbered-drop 0 from hs h)))
