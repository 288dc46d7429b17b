-- ===== src/Libraries/Updates.antt =====
-- Changes of the rows of the users and of the libraries that keep them sound.
use quire_server.Base.{
  ◌≡◌, refl, sym, ap, ◌∙◌, Bool, true, not, ◌&&◌, ◌||◌, List, [], ◌∷◌, map, Text, any, all, ◌==◌,
  text_eq, nat_eq, eq_iff, if◌then◌else◌, arith,
}
use quire_server.Auth.{User, with_password}
use quire_server.Admin.{LibraryRow, is_owner, is_active, update_user}
use quire_server.Libraries.Soundness.{IsSound, owned, distinct_ids}

any-map {ℓ κ} :
    {A : Type ℓ} {B : Type κ} (p : B → Bool) (q : A → Bool) (g : A → B) (xs : List A)
    → ((x : A) → p (g x) ≡ q x)
    → any p (map g xs) ≡ any q xs
any-map p q g [] same = refl
any-map p q g (x ∷ xs) same = ground (arith, same x, any-map p q g xs same)

all-map {ℓ κ} :
    {A : Type ℓ} {B : Type κ} (p : B → Bool) (q : A → Bool) (g : A → B) (xs : List A)
    → ((x : A) → p (g x) ≡ q x)
    → all p (map g xs) ≡ all q xs
all-map p q g [] same = refl
all-map p q g (x ∷ xs) same = ground (arith, same x, all-map p q g xs same)

distinct_ids-map :
    (g : User → User) (us : List User)
    → ((u : User) → (g u).id ≡ u.id)
    → distinct_ids (map g us) ≡ distinct_ids us
distinct_ids-map g [] same = refl
distinct_ids-map g (u ∷ us) same =
    rw
      (
        same u,
        distinct_ids-map g us same,
        all-map (λ v. not (v.id == u.id)) (λ v. not (v.id == u.id)) g us
            (λ v. ap (λ i. not (i == u.id)) (same v)),
      )
      refl

-- A change of the rows that are no library's owner keeps the owners as they are.
owned-map :
    (g : User → User) (us : List User) (l : LibraryRow)
    → ((u : User) → (g u).id ≡ u.id)
    → ((u : User)
        → (u.id == l.owner) ≡ true
        → ((g u).disabled && not (g u).admin) ≡ (u.disabled && not u.admin))
    → owned (map g us) l ≡ owned us l
owned-map g us l same still =
    rw
      (
        any-map (λ u. u.id == l.owner) (λ u. u.id == l.owner) g us
            (λ u. ap (λ i. i == l.owner) (same u)),
        all-map (λ u. not (u.id == l.owner) || u.disabled && not u.admin)
            (λ u. not (u.id == l.owner) || u.disabled && not u.admin) g us
            (λ u. ground (arith, same u, still u)),
      )
      refl

pub map-IsSound :
    (g : User → User) (us : List User) (ls : List LibraryRow)
    → ((u : User) → (g u).id ≡ u.id)
    → ((u : User)
        → is_owner u.id ls ≡ true
        → ((g u).disabled && not (g u).admin) ≡ (u.disabled && not u.admin))
    → (any (λ u. u.admin) (map g us) ≡ true → any is_active (map g us) ≡ true)
    → IsSound us ls
    → IsSound (map g us) ls
map-IsSound g us ls same still led s = record {
  led = led;
  ids = distinct_ids-map g us same ∙ s.ids;
  owners = s.owners;
  all_owned = each ls still s.all_owned;
}
  where
    each :
        (ms : List LibraryRow)
        → ((u : User)
            → is_owner u.id ms ≡ true
            → ((g u).disabled && not (g u).admin) ≡ (u.disabled && not u.admin))
        → all (owned us) ms ≡ true
        → all (owned (map g us)) ms ≡ true
    each [] st h = refl
    each (m ∷ ms) st h = ground (
      arith,
      owned-map g us m same
          (λ u at. st u (ground (arith, eq_iff u.id m.owner, eq_iff m.owner u.id))),
      each ms (λ u at. st u (ground arith)),
    )

-- A change that leaves the standing of every user keeps the tables sound.
pub same_standing-IsSound :
    (g : User → User) (us : List User) (ls : List LibraryRow)
    → ((u : User) → ((g u).id ≡ u.id) × ((g u).admin ≡ u.admin) × ((g u).disabled ≡ u.disabled))
    → IsSound us ls
    → IsSound (map g us) ls
same_standing-IsSound g us ls same s =
    map-IsSound g us ls (λ u. (same u).0) (λ u _. rw ((same u).1, (same u).2) refl)
      (λ h.
        any-map is_active is_active g us (λ u. rw ((same u).1, (same u).2) refl)
        ∙ s.led (sym (any-map (λ u. u.admin) (λ u. u.admin) g us (λ u. (same u).1)) ∙ h))
      s

pub update_user-map :
    (id : Text) (f : User → User) (us : List User)
    → update_user id f us ≡ map (λ u. if u.id == id then f u else u) us
update_user-map id f [] = refl
update_user-map id f (u ∷ us) =
    ap (λ rest. (if u.id == id then f u else u) ∷ rest) (update_user-map id f us)

pub with_password-map :
    (name salt key : Text) (us : List User)
    → with_password name salt key us
      ≡ map
          (λ u. if u.username == name then record u { salt = salt; password_hash = key } else u)
          us
unfolding with_password
with_password-map name salt key [] = refl
with_password-map name salt key (u ∷ us) =
    ap
      (λ rest.
        (if u.username == name then record u { salt = salt; password_hash = key } else u) ∷ rest)
      (with_password-map name salt key us)
