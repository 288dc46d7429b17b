-- ===== src/Libraries/Standings.antt =====
-- Changes of a user's standing, and new and renamed libraries, keep the users and the libraries sound.
use quire_server.Base.{
  ◌≡◌, refl, sym, subst, ◌∙◌, Bool, true, false, not, ◌&&◌, ◌||◌, some, List, [], ◌∷◌, ◌++◌, map,
  Text, any, all, ◌==◌, text_eq, nat_eq, eq_iff, if◌then◌else◌, arith, Bool-cases, inl, inr,
}
use quire_server.Auth.{User}
use quire_server.Admin.{LibraryRow, is_owner, is_active, others, user_row, Standing}
use quire_server.Libraries.{insert_library, renamed}
use quire_server.Libraries.Soundness.{IsSound, owned, distinct_ids, distinct_owners, all-append}
use quire_server.Libraries.Updates.{map-IsSound}

-- The row that is found, and the change of its standing.
abbrev restood : Text → Standing → User → User
restood id v u = if u.id == id then record u { admin = v.admin; disabled = v.disabled } else u

led_by_others :
    (id : Text) (v : Standing) (us : List User)
    → (others id us == 0) ≡ false
    → any is_active (map (restood id v) us) ≡ true
led_by_others id v [] h = cc
led_by_others id v (u ∷ us) h = ground (arith, led_by_others id v us)

no_row-map :
    (id : Text) (v : Standing) (us : List User)
    → all (λ w. not (w.id == id)) us ≡ true
    → any is_active us ≡ true
    → any is_active (map (restood id v) us) ≡ true
no_row-map id v [] a h = h
no_row-map id v (u ∷ us) a h = ground (arith, no_row-map id v us)

led_besides :
    (id : Text) (v : Standing) (us : List User) (u : User)
    → user_row id us ≡ some u
    → u.admin ≡ false
    → distinct_ids us ≡ true
    → any is_active us ≡ true
    → any is_active (map (restood id v) us) ≡ true
unfolding user_row
led_besides id v [] u h a d l = cc
led_besides id v (w ∷ us) u h a d l = elim (Bool-cases (w.id == id)) [
  | inl same ↦
      let here : w ≡ u = cc (simp same at h) in
      let low : w.admin ≡ false = rw here a in
      let at : w.id ≡ id = (eq_iff w.id id).0 same in
      let rest : all (λ x. not (x.id == id)) us ≡ true =
        subst (λ i. all (λ x. not (x.id == i)) us ≡ true) at (ground (arith, d)) in
      ground (arith, no_row-map id v us rest)
  | inr other ↦ ground (arith, led_besides id v us u (simp other at h) a)
]

led_itself :
    (id : Text) (v : Standing) (us : List User) (u : User)
    → user_row id us ≡ some u
    → (v.admin && not v.disabled) ≡ true
    → any is_active (map (restood id v) us) ≡ true
unfolding user_row
led_itself id v [] u h a = cc
led_itself id v (w ∷ us) u h a = elim (Bool-cases (w.id == id)) [
  | inl same ↦ ground arith
  | inr other ↦ ground (arith, led_itself id v us u (simp other at h) a)
]

-- The guard of PUT /v1/admin/users/{id} keeps an active administrator.
pub restood-IsSound :
    (id : Text) (v : Standing) (us : List User) (ls : List LibraryRow) (u : User)
    → any (λ w. w.admin) us ≡ true
    → is_owner id ls ≡ false
    → user_row id us ≡ some u
    → (u.admin && (not v.admin || v.disabled) && others id us == 0) ≡ false
    → IsSound us ls
    → IsSound (map (restood id v) us) ls
restood-IsSound id v us ls u some_admin free found guard s =
    map-IsSound (restood id v) us ls (λ w. ground arith)
      (λ w at. elim (Bool-cases (w.id == id)) [
        | inl same ↦
            let clash : is_owner id ls ≡ true =
              subst (λ i. is_owner i ls ≡ true) ((eq_iff w.id id).0 same) at in
            cc
        | inr other ↦ simp other refl
      ])
      (λ _. elim (Bool-cases u.admin) [
        | inr low ↦ led_besides id v us u found low s.ids (s.led some_admin)
        | inl high ↦ elim (Bool-cases (v.admin && not v.disabled)) [
          | inl kept ↦ led_itself id v us u found kept
          | inr dropped ↦ led_by_others id v us (ground (arith, guard, high, dropped))
        ]
      ])
      s

all_distinct-append :
    (l : LibraryRow) (ls : List LibraryRow)
    → any (λ m. m.id == l.id || m.owner == l.owner) ls ≡ false
    → distinct_owners ls ≡ true
    → distinct_owners (ls ++ l ∷ []) ≡ true
all_distinct-append l [] f d = refl
all_distinct-append l (m ∷ ls) f d = ground (
  arith,
  all-append (λ k. not (k.owner == m.owner)) ls l,
  all_distinct-append l ls,
  eq_iff m.owner l.owner,
  eq_iff l.owner m.owner,
)

pub insert_library-IsSound :
    (l : LibraryRow) (us : List User) (ls ls' : List LibraryRow)
    → owned us l ≡ true
    → insert_library l ls ≡ some ls'
    → IsSound us ls
    → IsSound us ls'
unfolding insert_library
insert_library-IsSound l us ls ls' mine e s =
    elim (Bool-cases (any (λ m. m.id == l.id || m.owner == l.owner) ls)) [
      | inl taken ↦ cc (simp taken at e)
      | inr fresh ↦
          let e' : ls ++ l ∷ [] ≡ ls' = cc (simp fresh at e) in
          subst (λ rows. IsSound us rows) e'
            (record {
              led = s.led;
              ids = s.ids;
              owners = all_distinct-append l ls fresh s.owners;
              all_owned = ground (arith, all-append (owned us) ls l, s.all_owned, mine);
            })
    ]

owned-renamed :
    (id name : Text) (us : List User) (ms : List LibraryRow)
    → all (owned us) (renamed id name ms) ≡ all (owned us) ms
unfolding renamed
owned-renamed id name us [] = refl
owned-renamed id name us (m ∷ ms) = ground (arith, owned-renamed id name us ms)

owner-renamed :
    (id name o : Text) (ms : List LibraryRow)
    → all (λ m. not (m.owner == o)) (renamed id name ms) ≡ all (λ m. not (m.owner == o)) ms
unfolding renamed
owner-renamed id name o [] = refl
owner-renamed id name o (m ∷ ms) = ground (arith, owner-renamed id name o ms)

distinct_owners-renamed :
    (id name : Text) (ms : List LibraryRow)
    → distinct_owners (renamed id name ms) ≡ distinct_owners ms
unfolding renamed
distinct_owners-renamed id name [] = refl
distinct_owners-renamed id name (m ∷ ms) = elim (Bool-cases (m.id == id)) [
  | inl same ↦
      simp (same, owner-renamed id name m.owner ms, distinct_owners-renamed id name ms) refl
  | inr other ↦
      simp (other, owner-renamed id name m.owner ms, distinct_owners-renamed id name ms) refl
]

pub renamed-IsSound :
    (id name : Text) (us : List User) (ls : List LibraryRow)
    → IsSound us ls
    → IsSound us (renamed id name ls)
renamed-IsSound id name us ls s = record {
  led = s.led;
  ids = s.ids;
  owners = distinct_owners-renamed id name ls ∙ s.owners;
  all_owned = owned-renamed id name us ls ∙ s.all_owned;
}

-- A promotion makes an administrator who is not disabled, and leaves the owners as they are.
pub promoted-IsSound :
    (p : User → Bool) (us : List User) (ls : List LibraryRow)
    → ((u : User) → p u ≡ true → is_owner u.id ls ≡ false)
    → any p us ≡ true
    → IsSound us ls
    → IsSound (map (λ u. if p u then record u { admin = true; disabled = false } else u) us) ls
promoted-IsSound p us ls free some_one s =
    map-IsSound (λ u. if p u then record u { admin = true; disabled = false } else u) us ls
      (λ u. ground arith)
      (λ u at. elim (Bool-cases (p u)) [
        | inl hit ↦ let clash : true ≡ false = sym at ∙ free u hit in cc
        | inr miss ↦ simp miss refl
      ])
      (λ _. raised us some_one) s
  where
    raised :
        (vs : List User)
        → any p vs ≡ true
        → any is_active
            (map (λ u. if p u then record u { admin = true; disabled = false } else u) vs)
          ≡ true
    raised [] h = cc
    raised (v ∷ vs) h = ground (arith, raised vs)
