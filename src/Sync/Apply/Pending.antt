-- ===== src/Sync/Apply/Pending.antt =====
-- How many changes a page takes from those that wait.
use Prim.Native.Nat.{min}
use quire_server.Base.{
  ℕ, zero, suc, ◌+◌, ◌≤◌, ◌<◌, ◌≡◌, ◌≢◌, ◌∙◌, refl, sym, false, some, List, [], ◌∷◌, Text, length,
  drop, ltb, text_eq, nat_eq, eq_iff, Table, find, upsert, arith,
}

pub upsert-same :
    (user : Text) (n : ℕ) (t : Table Text ℕ) → find user t ≡ some n → upsert user n t ≡ t
unfolding find upsert
upsert-same user n [] h = cc
upsert-same user n ((v, m) ∷ t) h = ground (arith, eq_iff v user, upsert-same user n t)

drop-nil {ℓ} : {A : Type ℓ} (k : ℕ) → drop {A = A} k [] ≡ []
drop-nil zero = refl
drop-nil (suc k) = refl

pub drop-drop {ℓ} : {A : Type ℓ} (k m : ℕ) (xs : List A) → drop k (drop m xs) ≡ drop (m + k) xs
drop-drop k zero xs = let e : zero + k ≡ k = omega arith in rw e refl
drop-drop k (suc m) [] = drop-nil k ∙ sym (drop-nil (suc m + k))
drop-drop k (suc m) (x ∷ xs) =
    let e : suc m + k ≡ suc (m + k) = omega arith in rw e (drop-drop k m xs)

pub length-drop {ℓ} :
    {A : Type ℓ} (m : ℕ) (xs : List A) → m ≤ length xs → length (drop m xs) + m ≡ length xs
length-drop zero xs h = omega arith
length-drop (suc m) [] h = omega (arith, h)
length-drop (suc m) (x ∷ xs) h = omega (arith, length-drop m xs (omega (arith, h)))

pub not_less : (a b : ℕ) → ltb a b ≡ false → b ≤ a
not_less a b h = ground arith

pub last_page :
    (from n cursor got left : ℕ)
    → cursor ≡ from + got
    → got ≡ min 100 left
    → left + from ≡ n
    → n ≤ cursor
    → left ≤ 100
last_page from n cursor got left at size total le = omega (arith, at, size, total, le)

-- A page that leaves changes has 100.
pub full_page :
    (from n cursor got left : ℕ)
    → cursor ≡ from + got
    → got ≡ min 100 left
    → left + from ≡ n
    → cursor < n
    → (cursor ≡ from + 100) × (from + 100 ≤ n) × (from + 100 ≢ n)
full_page from n cursor got left at size total less = (
  omega (arith, at, size, total, less),
  omega (arith, at, size, total, less),
  λ e. omega (arith, at, size, total, less, e),
)
