-- ===== src/Admin/Registration.antt =====
-- Who can register, and what a registration leaves.
use mathlib.Core.Option
use quire_server.Base.{
  ℕ, ◌≡◌, ◌≢◌, ◌≤◌, refl, sym, ap, subst, ◌∙◌, Bool, true, false, not, ◌&&◌, ◌||◌, some, List, [],
  ◌∷◌, ◌++◌, Text, any, keep, length, contains, ◌==◌, text_eq, nat_eq, pair_eq, eq_iff, eq_refl,
  insert, if◌then◌else◌, ok, invalid, conflict, constraint, reject, demand, demand-eq-ok,
  reject-eq-ok, reject-not-eq-ok, >>=-eq-ok, ok_unique, arith, Bool-cases, inl, inr,
}
use quire_server.Auth.{User, Crypto, username_pattern, password_valid, insert_user}
use quire_server.Libraries.Soundness.{insert_user-eq-some}
use quire_server.Admin.{
  Invite, Directory, info_of, user_row, user_info, needs_setup, is_open, redeemed, invite_id,
  join_libraries, joined_members, redeem, register,
}

redeemed_shut :
    (user hash : Text) (now later : ℕ) (is : List Invite)
    → now ≤ later
    → keep (is_open hash later) (redeemed user hash now is) ≡ []
redeemed_shut user hash now later [] le = refl
redeemed_shut user hash now later (i ∷ is) le =
    ground (arith, redeemed_shut user hash now later is le)

contains-append :
    (p q : Text × Text) (rows : List (Text × Text))
    → contains p (rows ++ q ∷ []) ≡ (contains p rows || q == p)
contains-append p q [] = ground arith
contains-append p q (r ∷ rows) = ground (arith, contains-append p q rows)

-- The memberships that an invite brings are exactly those of its libraries.
join_libraries-contains :
    (user invite : Text) (grants rows rows' : List (Text × Text)) (library v : Text)
    → join_libraries user invite grants rows ≡ some rows'
    → contains (library, v) rows'
      ≡ (contains (library, v) rows || v == user && contains (invite, library) grants)
unfolding join_libraries
join_libraries-contains user invite [] rows rows' library v e =
    let same : rows ≡ rows' = cc in rw (← same) (ground arith)
join_libraries-contains user invite ((i, l) ∷ grants) rows rows' library v e =
    elim (Bool-cases (not (i == invite))) [
      | inl other ↦
          ground (
            arith,
            join_libraries-contains user invite grants rows rows' library v (simp other at e),
          )
      | inr same ↦ elim (Bool-cases (contains (l, user) rows)) [
        | inl there ↦ cc (simp (same, there) at e)
        | inr fresh ↦ ground (
          arith,
          eq_iff l library,
          eq_iff user v,
          eq_iff v user,
          contains-append (library, v) (l, user) rows,
          join_libraries-contains user invite grants (rows ++ (l, user) ∷ []) rows' library v
              (simp (same, fresh) at e),
        )
      ]
    ]

user_row-append :
    (u : User) (us : List User)
    → any (λ v. v.id == u.id || v.username == u.username) us ≡ false
    → user_row u.id (us ++ u ∷ []) ≡ some u
unfolding user_row
user_row-append u [] f = simp (eq_refl u.id) refl
user_row-append u (v ∷ us) f = ground (arith, user_row-append u us)

-- What a registration by an invite has checked and done.
pub record IsRegistered (username hash : Text) (id : Text) (now : ℕ) (db db' : Directory)
    : Type 0 where
  pub one : length (keep (is_open hash now) db.invites) ≡ 1
  pub invites : db'.invites ≡ redeemed id hash now db.invites
  pub members : joined_members id (invite_id hash db.invites) db ≡ ok db'.library_members

redeem-IsRegistered :
    (username hash id : Text) (now : ℕ) (db db' : Directory)
    → redeem id hash now db ≡ ok db'
    → IsRegistered username hash id now db db'
unfolding redeem
redeem-IsRegistered username hash id now db db' e =
    let n = length (keep (is_open hash now) db.invites) in
    let (_, r, e₁) = >>=-eq-ok (reject (not (n == 1)) invalid) _ e in
    let (members, m, e₂) = >>=-eq-ok (joined_members id (invite_id hash db.invites) db) _ e₁ in
    let d = ok_unique _ refl e₂ in
    record {
      one = (eq_iff n 1).0 (reject-not-eq-ok (n == 1) invalid r);
      invites = sym (ap (λ x. x.invites) d);
      members = m ∙ ap (λ x. ok x.library_members) d;
    }

module _ (c : Crypto) where
  register-parts :
      (username password code : Text) (setup : Bool) (salt id : Text) (now : ℕ) (db db' : Directory)
      → register c username password code setup salt id now db ≡ ok db'
      → ((setup && not (needs_setup db.accounts.users)) ≡ false)
        × (user_info id db'.accounts.users
            ≡ some (record { id = id; username = username; admin = setup; disabled = false }))
        × ((mid : Directory) × ((if setup then ok db else redeem id (c.sha256 code) now db)
              ≡ ok mid)
            × (db'.invites ≡ mid.invites)
            × (db'.library_members ≡ mid.library_members))
  unfolding register user_info insert_user
  register-parts username password code setup salt id now db db' e =
      let row : User = record {
        id = id;
        username = username;
        salt = salt;
        password_hash = c.password_key password salt;
        admin = setup;
        disabled = false;
      } in
      let bad : Bool = not (username_pattern username) || not (password_valid password) in
      let (_, _, e₁) = >>=-eq-ok (reject bad invalid) _ e in
      let again : Bool = setup && not (needs_setup db.accounts.users) in
      let (_, r, e₂) = >>=-eq-ok (reject again conflict) _ e₁ in
      let (us, i, e₃) = >>=-eq-ok (demand conflict (insert_user row db.accounts.users)) _ e₂ in
      let (mid, m, e₄) =
        >>=-eq-ok (if setup then ok db else redeem id (c.sha256 code) now db) _ e₃ in
      let (cursors, _, e₅) = >>=-eq-ok (demand constraint (insert id 0 db.accounts.cursors)) _ e₄ in
      let d = ok_unique _ refl e₅ in
      let (fresh, e') =
        insert_user-eq-some row db.accounts.users us
          (demand-eq-ok conflict (insert_user row db.accounts.users) us i) in
      let there : user_row id us ≡ some row = rw e' (user_row-append row db.accounts.users fresh) in
      (
        reject-eq-ok again conflict r,
        subst (λ x. Option.map info_of (user_row id x.accounts.users) ≡ some (info_of row)) d
            (rw there refl),
        (mid, m, sym (ap (λ x. x.invites) d), sym (ap (λ x. x.library_members) d)),
      )

  -- An invite registers at most one account: once a registration has succeeded with its code, none does
  -- with the same code at that time or later.
  pub register-register :
      (username password code salt id : Text) (now : ℕ) (db db' : Directory)
      (username' password' salt' id' : Text) (later : ℕ) (db'' : Directory)
      → now ≤ later
      → register c username password code false salt id now db ≡ ok db'
      → register c username' password' code false salt' id' later db' ≢ ok db''
  register-register username password code salt id now db db' username' password' salt' id' later
        db'' le e =
      λ e'.
        let (_, _, (mid, m, same, _)) =
          register-parts username password code false salt id now db db' e in
        let (_, _, (mid', m', _, _)) =
          register-parts username' password' code false salt' id' later db' db'' e' in
        let hash = c.sha256 code in
        let first = redeem-IsRegistered username hash id now db mid m in
        let second = redeem-IsRegistered username' hash id' later db' mid' m' in
        let shut : keep (is_open hash later) db'.invites ≡ [] =
          rw (same, first.invites) (redeemed_shut id hash now later db.invites le) in
        cc (subst (λ is. length is ≡ 1) shut second.one)

  -- The setup makes an administrator, and only where there is none; a registration by an invite makes an
  -- account that is no administrator, with a code that one invite is open for.
  pub register-user_info :
      (username password code : Text) (setup : Bool) (salt id : Text) (now : ℕ) (db db' : Directory)
      → register c username password code setup salt id now db ≡ ok db'
      → (user_info id db'.accounts.users
          ≡ some (record { id = id; username = username; admin = setup; disabled = false }))
        × (setup ≡ true → needs_setup db.accounts.users ≡ true)
        × (setup ≡ false → length (keep (is_open (c.sha256 code) now) db.invites) ≡ 1)
  register-user_info username password code setup salt id now db db' e =
      let (may, info, (mid, m, _, _)) =
        register-parts username password code setup salt id now db db' e in
      (
        info,
        λ s. ground (arith, may, s),
        λ s. (redeem-IsRegistered username (c.sha256 code) id now db mid (simp s at m)).one,
      )

  -- A registration by an invite lets the new account into exactly the libraries of that invite, and
  -- leaves the memberships of all others.
  pub register-contains :
      (username password code salt id : Text) (now : ℕ) (db db' : Directory)
      (invite library v : Text)
      → invite_id (c.sha256 code) db.invites ≡ some invite
      → register c username password code false salt id now db ≡ ok db'
      → contains (library, v) db'.library_members ≡ (
          contains (library, v) db.library_members
          || v == id && contains (invite, library) db.invite_libraries)
  register-contains username password code salt id now db db' invite library v found e =
      let (_, _, (mid, m, _, same)) =
        register-parts username password code false salt id now db db' e in
      let r = redeem-IsRegistered username (c.sha256 code) id now db mid m in
      let joined = subst (λ o. joined_members id o db ≡ ok mid.library_members) found r.members in
      rw same (
        join_libraries-contains id invite db.invite_libraries db.library_members mid.library_members
          library v
          (demand-eq-ok constraint (join_libraries id invite db.invite_libraries db.library_members)
            mid.library_members joined))
