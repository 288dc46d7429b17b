-- ===== src/Base/Encoding.antt =====
-- Concrete encodings as texts, with their round trips: the tests fill the codecs with them.
use Prim.Native.Nat.{ℕ, zero, suc}
use mathlib.Core.Path.{◌≡◌, refl}
use mathlib.Core.Option.{Option, none, some}
use mathlib.Core.List.{List, [], ◌∷◌}
use quire_server.Base.Lists.{length}

-- Writing a value in front of a text, and reading it back.
pub record Encoding {ℓ} (A : Type ℓ) : Type ℓ where
  pub put : A → List ℕ → List ℕ
  pub get : List ℕ → Option (A × List ℕ)
  pub back : (a : A) (more : List ℕ) → get (put a more) ≡ some (a, more)

abbrev put_text : List ℕ → List ℕ → List ℕ
put_text [] more = 0 ∷ more
put_text (c ∷ s) more = suc c ∷ put_text s more

abbrev get_text : List ℕ → Option (List ℕ × List ℕ)
get_text [] = none
get_text (zero ∷ more) = some ([], more)
get_text (suc c ∷ more) = elim (get_text more) [ none ↦ none | some (s, left) ↦ some (c ∷ s, left) ]

pub get_text-put_text : (s more : List ℕ) → get_text (put_text s more) ≡ some (s, more)
get_text-put_text [] more = refl
get_text-put_text (c ∷ s) more = rw (get_text-put_text s more)

abbrev pub text_encoding : Encoding (List ℕ)
text_encoding = record { put = put_text; get = get_text; back = get_text-put_text }

module _ {ℓ} {A : Type ℓ} (e : Encoding A) where
  abbrev put_option : Option A → List ℕ → List ℕ
  put_option none more = 0 ∷ more
  put_option (some a) more = 1 ∷ e.put a more

  abbrev get_option : List ℕ → Option (Option A × List ℕ)
  get_option [] = none
  get_option (zero ∷ more) = some (none, more)
  get_option (suc _ ∷ more) = elim (e.get more) [
    | none ↦ none
    | some (a, left) ↦ some (some a, left)
  ]

  pub get_option-put_option :
      (o : Option A) (more : List ℕ) → get_option (put_option o more) ≡ some (o, more)
  get_option-put_option none more = refl
  get_option-put_option (some a) more = rw (e.back a more)

  abbrev pub option_encoding : Encoding (Option A)
  option_encoding = record { put = put_option; get = get_option; back = get_option-put_option }

  abbrev put_all : List A → List ℕ → List ℕ
  put_all [] more = more
  put_all (a ∷ as') more = e.put a (put_all as' more)

  abbrev get_all : ℕ → List ℕ → Option (List A × List ℕ)
  get_all zero more = some ([], more)
  get_all (suc n) more = elim (e.get more) [
    | none ↦ none
    | some (a, left) ↦ elim (get_all n left) [
      | none ↦ none
      | some (as', left') ↦ some (a ∷ as', left')
    ]
  ]

  pub get_all-put_all :
      (xs : List A) (more : List ℕ) → get_all (length xs) (put_all xs more) ≡ some (xs, more)
  get_all-put_all [] more = refl
  get_all-put_all (a ∷ xs) more = rw (e.back a (put_all xs more), get_all-put_all xs more)

  abbrev get_list : List ℕ → Option (List A × List ℕ)
  get_list [] = none
  get_list (n ∷ more) = get_all n more

  abbrev pub list_encoding : Encoding (List A)
  list_encoding = record {
    put = λ xs more. length xs ∷ put_all xs more;
    get = get_list;
    back = get_all-put_all;
  }

abbrev pub pair_encoding {ℓ κ} :
    {A : Type ℓ} {B : Type κ} → Encoding A → Encoding B → Encoding (A × B)
pair_encoding e f = record {
  put = λ p more. e.put p.0 (f.put p.1 more);
  get = λ text. elim (e.get text) [
    | none ↦ none
    | some (a, left) ↦ elim (f.get left) [ none ↦ none | some (b, left') ↦ some ((a, b), left') ]
  ];
  back = λ p more. rw (e.back p.0 (f.put p.1 more), f.back p.1 more);
}
