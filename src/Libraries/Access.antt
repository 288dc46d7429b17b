-- ===== src/Libraries/Access.antt =====
-- Who may read a shared book: `accessibleOwner`, `listLibraries` and the overview of
-- internal/server/libraries.go.
use quire_server.Base.{
  ℕ, ◌+◌, ◌≡◌, ◌⊎◌, ◌∙◌, refl, sym, subst, Bool, true, false, not, ◌&&◌, ◌||◌, Option, none, some,
  List, [], ◌∷◌, map, length, Text, any, keep, contains, leb, ◌==◌, text_eq, nat_eq, pair_eq,
  eq_iff, if◌then◌else◌, text_leb, Table, find, upsert, arith, Bool-cases, inl, inr,
}
use quire_server.Admin.{LibraryRow, Directory, is_owner}
use quire_server.Libraries.{FileRow, remove_member, distinct_books}

-- user_id IN (SELECT l.owner FROM libraries l JOIN library_members m … WHERE m.user_id=?)
abbrev pub is_shared : (user owner : Text) → List LibraryRow → List (Text × Text) → Bool
is_shared user owner ls members = any (λ l. l.owner == owner && contains (l.id, user) members) ls

unfoldable pub shared_owner :
    (user book : Text) → List LibraryRow → List (Text × Text) → List FileRow → Option Text
shared_owner user book ls members [] = none
shared_owner user book ls members (f ∷ fs) =
    if f.book_id == book && is_shared user f.user_id ls members
    then some f.user_id
    else shared_owner user book ls members fs

-- ORDER BY user_id=? DESC LIMIT 1: an own file goes first.
unfoldable pub accessible_owner : (user book : Text) → Directory → List FileRow → Option Text
accessible_owner user book db fs =
    if any (λ f. f.book_id == book && f.user_id == user) fs
    then some user
    else shared_owner user book db.libraries db.library_members fs

pub record LibraryInfo : Type 0 where
  pub id : Text
  pub name : Text
  pub owner : Text
  pub members : List Text
  pub books : ℕ
  pub book_ids : List Text

abbrev place_info : LibraryInfo → List LibraryInfo → List LibraryInfo
place_info l [] = l ∷ []
place_info l (m ∷ ms) = if text_leb l.name m.name then l ∷ m ∷ ms else m ∷ place_info l ms

-- ORDER BY name
abbrev order_infos : List LibraryInfo → List LibraryInfo
order_infos [] = []
order_infos (l ∷ ls) = place_info l (order_infos ls)

abbrev library_info : Bool → Directory → List FileRow → LibraryRow → LibraryInfo
library_info admin db fs l =
    let books = distinct_books [] l.owner fs in
    record {
      id = l.id;
      name = l.name;
      owner = l.owner;
      members = if admin then map (λ m. m.1) (keep (λ m. m.0 == l.id) db.library_members) else [];
      books = length books;
      book_ids = books;
    }

-- `listLibraries`: an administrator sees every library and its members.
unfoldable pub list_libraries : Text → Bool → Directory → List FileRow → List LibraryInfo
list_libraries user admin db fs = order_infos (
    map (library_info admin db fs)
      (keep (λ l. admin || contains (l.id, user) db.library_members) db.libraries))

pub record Overview : Type 0 where
  pub users : ℕ
  pub books : ℕ
  pub bytes : ℕ

-- SELECT max(size) … GROUP BY user_id,book_id
abbrev largest : Option ℕ → ℕ → ℕ
largest none n = n
largest (some m) n = if leb m n then n else m

abbrev book_sizes : List FileRow → Table (Text × Text) ℕ
book_sizes [] = []
book_sizes (f ∷ fs) =
    let rest = book_sizes fs in
    upsert (f.user_id, f.book_id) (largest (find (f.user_id, f.book_id) rest) f.size) rest

abbrev total : Table (Text × Text) ℕ → ℕ
total [] = 0
total ((_, n) ∷ t) = n + total t

-- GET /v1/admin/overview
unfoldable pub overview : Directory → List FileRow → Overview
overview db fs = record {
  users = length (keep (λ u. not (is_owner u.id db.libraries)) db.accounts.users);
  books = length (book_sizes fs);
  bytes = total (book_sizes fs);
}

shared_owner-any :
    (user book o : Text) (ls : List LibraryRow) (members : List (Text × Text)) (fs : List FileRow)
    → shared_owner user book ls members fs ≡ some o
    → (any (λ f. f.book_id == book && f.user_id == o) fs ≡ true)
      × (is_shared user o ls members ≡ true)
unfolding shared_owner
shared_owner-any user book o ls members [] e = cc
shared_owner-any user book o ls members (f ∷ fs) e =
    elim (Bool-cases (f.book_id == book && is_shared user f.user_id ls members)) [
      | inl hit ↦
          let here : f.user_id ≡ o = cc (simp hit at e) in
          (
            ground (arith, eq_iff f.user_id o),
            subst (λ u. is_shared user u ls members ≡ true) here (ground (arith, hit)),
          )
      | inr miss ↦
          let (there, shared) = shared_owner-any user book o ls members fs (simp miss at e) in
          (ground arith, shared)
    ]

shared_owner-none :
    (user book o : Text) (ls : List LibraryRow) (members : List (Text × Text)) (fs : List FileRow)
    → shared_owner user book ls members fs ≡ none
    → is_shared user o ls members ≡ true
    → any (λ f. f.book_id == book && f.user_id == o) fs ≡ false
unfolding shared_owner
shared_owner-none user book o ls members [] e s = refl
shared_owner-none user book o ls members (f ∷ fs) e s =
    elim (Bool-cases (f.book_id == book && is_shared user f.user_id ls members)) [
      | inl hit ↦ cc (simp hit at e)
      | inr miss ↦
          let rest = shared_owner-none user book o ls members fs (simp miss at e) s in
          elim (Bool-cases (f.user_id == o)) [
            | inr other ↦ ground (arith, rest)
            | inl same ↦
                let s' : is_shared user f.user_id ls members ≡ true =
                  subst (λ u. is_shared user u ls members ≡ true)
                    (sym ((eq_iff f.user_id o).0 same)) s in
                ground (arith, rest)
          ]
    ]

-- A book is served from an account that holds a file of it: the user's own, or the owner of a library
-- that the user is a member of. A user who has neither is given none.
pub accessible_owner-is_shared :
    (user book : Text) (db : Directory) (fs : List FileRow)
    → ((o : Text)
        → accessible_owner user book db fs ≡ some o
        → (any (λ f. f.book_id == book && f.user_id == o) fs ≡ true)
          × ((o ≡ user) ⊎ (is_shared user o db.libraries db.library_members ≡ true)))
      × ((o : Text)
          → accessible_owner user book db fs ≡ none
          → ((o == user) || is_shared user o db.libraries db.library_members) ≡ true
          → any (λ f. f.book_id == book && f.user_id == o) fs ≡ false)
unfolding accessible_owner
accessible_owner-is_shared user book db fs =
    let own : Bool = any (λ f. f.book_id == book && f.user_id == user) fs in
    elim (Bool-cases own) [
      | inl mine ↦ (
        λ o e.
            let same : user ≡ o = cc (simp mine at e) in
            (
              subst (λ u. any (λ f. f.book_id == book && f.user_id == u) fs ≡ true) same mine,
              inl (sym same),
            ),
        λ o e _. cc (simp mine at e),
      )
      | inr none_own ↦ (
        λ o e.
            let (held, shared) =
              shared_owner-any user book o db.libraries db.library_members fs
                (simp none_own at e) in
            (held, inr shared),
        λ o e may. elim (Bool-cases (o == user)) [
          | inl same ↦
              subst (λ u. any (λ f. f.book_id == book && f.user_id == u) fs ≡ false)
                (sym ((eq_iff o user).0 same)) none_own
          | inr other ↦
              shared_owner-none user book o db.libraries db.library_members fs (simp none_own at e)
                (ground (arith, may, other))
        ],
      )
    ]

contains-keep :
    (l library user : Text) (members : List (Text × Text))
    → contains (l, user) (keep (λ m. not (m == (library, user))) members)
      ≡ (not (l == library) && contains (l, user) members)
contains-keep l library user [] = ground arith
contains-keep l library user ((m, u) ∷ members) = ground (
  arith,
  eq_iff m l,
  eq_iff m library,
  eq_iff l library,
  eq_iff u user,
  contains-keep l library user members,
)

left-is_shared :
    (user library o : Text) (ls : List LibraryRow) (members : List (Text × Text))
    → is_shared user o ls (keep (λ m. not (m == (library, user))) members)
      ≡ any (λ l. not (l.id == library) && l.owner == o && contains (l.id, user) members) ls
left-is_shared user library o [] members = refl
left-is_shared user library o (l ∷ ls) members =
    ground
      (arith, contains-keep l.id library user members, left-is_shared user library o ls members)

-- A user who has been taken out of a library reaches only own books, and those of owners who share them
-- by another library.
pub accessible_owner-remove_member :
    (user book library o : Text) (db : Directory) (fs : List FileRow)
    → accessible_owner user book (remove_member library user db) fs ≡ some o
    → (o ≡ user)
      ⊎ (any
            (λ l. not (l.id == library) && l.owner == o && contains (l.id, user) db.library_members)
            db.libraries
          ≡ true)
unfolding remove_member
accessible_owner-remove_member user book library o db fs e =
    let (_, may) =
      (accessible_owner-is_shared user book (remove_member library user db) fs).0 o e in
    elim may [
      | inl own ↦ inl own
      | inr shared ↦
          inr (sym (left-is_shared user library o db.libraries db.library_members) ∙ shared)
    ]
