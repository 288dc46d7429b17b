-- ===== src/Opds/Tests.antt =====
-- The theorem on OPDS passwords at a first password.
use quire_server.Base.{
  ◌≡◌, ◌≤◌, refl, arith, ◌==◌, ◌&&◌, text_eq, nat_eq, false, true, not, any, none, some, List, [],
  ◌∷◌, Text, codes, len, ok,
}
use quire_server.Auth.{User, Crypto}
use quire_server.Opds.{PasswordRow, OpdsPassword, remove_password, add_password, basic_user}
use quire_server.Opds.Passwords.{basic_user-add_password}

abbrev crypto : Crypto
crypto = record { password_key = λ password salt. password; sha256 = λ text. 1 ∷ text }

abbrev users : List User
users =
    record {
      id = codes "u1";
      username = codes "ann";
      salt = [];
      password_hash = codes "correct horse";
      admin = false;
      disabled = false;
    }
    ∷ []

abbrev rows : List PasswordRow
rows =
    record {
      id = codes "p1";
      user_id = codes "u1";
      name = codes "Reader";
      digest = 1 ∷ codes "secret";
      created_at = 5;
    }
    ∷ []

abbrev made : OpdsPassword
made = record { id = codes "p1"; name = codes "Reader"; created_at = 5; password = codes "secret" }

added :
    add_password crypto (codes "u1") (codes " Reader ") (codes "p1") (codes "secret") 5 []
    ≡ ok (rows, made)
unfolding add_password len quire_server.Base.trim_space quire_server.Opds.insert_password
added = refl

short : len (codes "secret") ≤ 256
unfolding len
short = omega arith

named : len (codes "ann") ≤ 64
unfolding len
named = omega arith

enabled : any (λ u. u.id == codes "u1" && u.username == codes "ann" && not u.disabled) users ≡ true
unfolding quire_server.Base.text_beq
enabled = refl

basic_user-add_password_example :
    (basic_user crypto (some (codes "ann", codes "secret")) users rows ≡ some (codes "u1"))
    × (basic_user crypto
          (some (codes "bob", codes "secret"))
          users
          (remove_password (codes "u1") (codes "p1") rows)
        ≡ none)
basic_user-add_password_example =
    basic_user-add_password crypto (codes "u1") (codes " Reader ") (codes "p1") (codes "secret")
      (codes "ann") (codes "bob") 5 users [] rows made short named enabled added
