-- ===== src/Admin/Tests.antt =====
-- The theorems on registration and passwords, where bob registers by an invite to a library.
use quire_server.Base.{
  ℕ, ◌≡◌, ◌≢◌, ◌≤◌, ◌⊎◌, refl, Bool, true, false, ◌&&◌, ◌||◌, Option, none, some, List, [], ◌∷◌,
  ◌++◌, Text, codes, contains, ◌==◌, text_eq, nat_eq, pair_eq, Result, ok, arith,
}
use quire_server.Auth.{User, Crypto, authenticate}
use quire_server.Http.{Request, decode}
use quire_server.Admin.{
  Invite, Directory, register, change_password, enabled_row, join_libraries, invite_id,
}
use quire_server.Admin.Registration.{register-register, register-contains}
use quire_server.Admin.Endings.{change_password-authenticate}
use quire_server.Admin.Answers.{IsAnswered, post_register-IsAnswered}
use quire_server.Admin.Routes.{Registration, Desk, post_register}

abbrev crypto : Crypto
crypto = record { password_key = λ password salt. password; sha256 = λ text. text }

abbrev invite : Invite
invite = record {
  id = codes "i";
  code_hash = codes "code";
  expires_at = 100;
  redeemed_by = none;
  revoked = false;
}

abbrev before : Directory
before = record {
  accounts = record { users = []; sessions = []; cursors = [] };
  invites = invite ∷ [];
  libraries = [];
  library_members = [];
  invite_libraries = (codes "i", codes "l") ∷ [];
}

abbrev bob : User
bob = record {
  id = codes "b";
  username = codes "bob";
  salt = codes "s";
  password_hash = codes "bob's password";
  admin = false;
  disabled = false;
}

abbrev after : Directory
after = record before {
  accounts = record { users = bob ∷ []; sessions = []; cursors = (codes "b", 0) ∷ [] };
  invites = record invite { redeemed_by = some (codes "b") } ∷ [];
  library_members = (codes "l", codes "b") ∷ [];
}

registered :
    register crypto
      (codes "bob")
      (codes "bob's password")
      (codes "code")
      false
      (codes "s")
      (codes "b")
      50
      before
    ≡ ok after
unfolding register quire_server.Base.len quire_server.Admin.redeem quire_server.Base.text_beq
    join_libraries quire_server.Base.insert
registered = refl

found : invite_id (codes "code") before.invites ≡ some (codes "i")
unfolding quire_server.Base.text_beq
found = refl

later : 50 ≤ 60
later = omega arith

register-register_example :
    register crypto
      (codes "eve")
      (codes "eve's password")
      (codes "code")
      false
      (codes "s")
      (codes "e")
      60
      after
    ≢ ok after
register-register_example =
    register-register crypto (codes "bob") (codes "bob's password") (codes "code") (codes "s")
      (codes "b") 50 before after (codes "eve") (codes "eve's password") (codes "s") (codes "e") 60
      after later registered

register-contains_example : contains (codes "l", codes "b") after.library_members ≡ (
    contains (codes "l", codes "b") before.library_members
    || codes "b" == codes "b" && contains (codes "i", codes "l") before.invite_libraries)
register-contains_example =
    register-contains crypto (codes "bob") (codes "bob's password") (codes "code") (codes "s")
      (codes "b") 50 before after (codes "i") (codes "l") (codes "b") found registered

abbrev changed : Directory
changed = record after {
  accounts = record {
    users = record bob { salt = codes "t"; password_hash = codes "a new password" } ∷ [];
    sessions = [];
    cursors = (codes "b", 0) ∷ [];
  };
}

changes :
    change_password crypto
      (codes "b")
      (codes "bob's password")
      (codes "a new password")
      (codes "t")
      after
    ≡ ok changed
unfolding change_password quire_server.Base.len quire_server.Base.text_beq
changes = refl

change_password-authenticate_example :
    ((u : User) × (enabled_row (codes "b") after.accounts.users ≡ some u)
      × (crypto.password_key (codes "bob's password") u.salt ≡ u.password_hash))
    × (authenticate crypto (codes "token") 70 changed.accounts ≡ ok (codes "b")
        → codes "b" ≢ codes "b")
change_password-authenticate_example =
    change_password-authenticate crypto (codes "b") (codes "bob's password")
      (codes "a new password") (codes "t") (codes "token") (codes "b") 70 after changed changes

abbrev read : Text → Option (Registration × Bool)
read body = some (
  record { username = codes "bob"; password = codes "bob's password"; code = codes "code" },
  true,
)

abbrev request : Request
request = record {
  remote = codes "peer";
  method = codes "POST";
  authorization = [];
  origin = [];
  session = [];
  content_type = codes "application/json";
  cookie = λ name. none;
  body = codes "{}";
}

abbrev desk : Desk
desk = record { attempts = []; directory = before }

-- bob sets the server up with its code.
post_register-IsAnswered_example :
    IsAnswered crypto
      (λ host. none)
      (codes "code")
      true
      (codes "b")
      50
      (decode read request 4096)
      desk.directory
      (post_register crypto
        (λ host. none)
        read
        (codes "code")
        true
        0
        (codes "s")
        (codes "b")
        request
        50
        desk)
post_register-IsAnswered_example =
    post_register-IsAnswered crypto (λ host. none) read (codes "code") true 0 (codes "s")
      (codes "b") request 50 desk

-- It makes the account.
set_up :
    (post_register crypto
      (λ host. none)
      read
      (codes "code")
      true
      0
      (codes "s")
      (codes "b")
      request
      50
      desk).1
    ≡ 201
unfolding post_register quire_server.Http.allow_login quire_server.Base.find
    quire_server.Admin.Routes.register_answer decode quire_server.Base.text_beq
    quire_server.Base.split quire_server.Base.len register quire_server.Base.insert
set_up = refl
